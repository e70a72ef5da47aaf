-- ===== src/Chat/Files.antt =====
-- The file operations of chat.c: list, get, put, make a directory, delete. What the C library and
-- the system do with files is a parameter.
pub mod Effects
pub mod Deletion
pub mod Listing
use basic_jqr.Base.{
  ℕ, zero, suc, ◌+◌, ◌-◌, ◌%◌, ◌^◌, Bool, true, false, Option, none, some, List, [], ◌∷◌, ◌++◌,
  ◌&&◌, ltb, leb, ◌==◌, if◌then◌else◌, not, length, take, drop, get_or, replicate, Bytes, c_str,
  ntohs, ntohl, ℤ, pos, negsuc, Outcome, ok, fault,
}
use basic_jqr.Chat.State.{
  Client, World, Act, pure, ◌>>=◌, ◌>>◌, get, crash, lift, when, Message, text, byte, ls_header,
  get_header, server_response, reply, recv, recv_buffer, if_some,
}

-- `d_type` of a directory entry.
pub data Kind : Type 0 where
  regular directory other : Kind

-- The system as the handlers see it: whether `calloc` gives so many bytes; `fopen` for reading,
-- with the contents of the file; `fopen` for writing; `fwrite` to the file opened at a path, with
-- the number of bytes written; `opendir` with its entries; `mkdir` and `remove`, true for 0.
pub record Os (S : Type 0) : Type 0 where
  pub memory : ℕ → Bool
  pub open_read : S → Bytes → Option Bytes
  pub open_write : S → Bytes → Option S
  pub fwrite : S → Bytes → Bytes → ℕ × S
  pub opendir : S → Bytes → Option (List (Bytes × Kind))
  pub mkdir : S → Bytes → Bool × S
  pub remove : S → Bytes → Bool × S

abbrev pub max_path : ℕ
max_path = 4096

abbrev pub max_file_name : ℕ
max_file_name = 255

abbrev pub packet_size : ℕ
packet_size = 1016

abbrev pub max_data_size : ℕ
max_data_size = 2048

-- The client's directory with a name behind it.
abbrev pub full_path : Client → Bytes → Bytes
full_path c name = c.dir ++ c_str name

-- The room that the names of a directory are counted to need.
unfoldable pub content_len : List (Bytes × Kind) → ℕ
content_len [] = 0
content_len ((name, kind) ∷ es) = length name + 2 + content_len es

-- A digit for the kind, the name and a NUL, for files and directories.
unfoldable pub entry_text : Bytes → Kind → Bytes
entry_text name regular = b'1' ∷ (name ++ 0 ∷ [])
entry_text name directory = b'2' ∷ (name ++ 0 ∷ [])
entry_text name other = []

unfoldable pub entries_text : List (Bytes × Kind) → Bytes
unfolding entry_text
entries_text [] = []
entries_text ((name, kind) ∷ es) = entry_text name kind ++ entries_text es

-- The buffer that is sent from: cleared, then filled from its start.
unfoldable pub content : List (Bytes × Kind) → Bytes
unfolding entries_text content_len
content es = entries_text es ++ replicate (content_len es - length (entries_text es)) 0

-- `content_len - req.current_pos`, of unsigned 32 bits, cut to what one answer may carry.
unfoldable pub message_len : ℕ → ℕ → ℕ
message_len len position =
    let rest = (len + 2 ^ 32 - position) % 2 ^ 32 in
    if ltb rest max_data_size then rest else max_data_size

-- `send` reads that many bytes from that position: past the buffer it reads what is not its own.
unfoldable pub chunk : Bytes → ℕ → ℕ → Outcome Bytes
chunk buffer position n =
    if ltb (length buffer) (position + n) then fault else ok (take n (drop position buffer))

module _ {S : Type 0} (os : Os S) where
  abbrev pub set_files : S → Act S (Unit {0})
  set_files s w = ok (tt, record w { files = s })

  abbrev pub fail : ℕ → Act S ℤ
  fail code = do server_response code; pure (negsuc 0)

  abbrev pub fail_byte : ℕ → Act S ℤ
  fail_byte code = do reply (byte code); pure (negsuc 0)

  -- `recv` of a header: the handlers return -1 if it fails.
  abbrev pub header : ℕ → (Bytes → Act S ℤ) → Act S ℤ
  header n k = do arrived ← recv n; if_some arrived (pure (negsuc 0)) k

  -- `recv` of a name into room of its own.
  abbrev pub name_of : ℕ → (Bytes → Act S ℤ) → Act S ℤ
  name_of n k = do arrived ← recv_buffer n; if_some arrived (pure (negsuc 0)) k

  -- The room is counted in an `int`, which must not overflow.
  unfoldable pub answer_list : ℕ → List (Bytes × Kind) → Act S ℤ
  unfolding content message_len chunk
  answer_list position es =
      let len = content_len es in
      let n = message_len len position in
      when (leb (2 ^ 31) len) crash (
        when (not (os.memory len)) (pure (negsuc 0)) (do
          reply (ls_header len n ((position + n) % 2 ^ 32))
          piece ← lift (chunk (content es) position n)
          reply (text piece)
          pure (pos 0)))

  -- The directory is opened and read twice; the model reads it once. A name of 255 bytes without a
  -- NUL is read past the header.
  unfoldable pub list_it : Act S ℤ
  unfolding recv answer_list ntohs ntohl
  list_it = header 266 λ bs. do
    w ← get
    let name_len = ntohs bs 1
    when (ltb max_file_name name_len) (fail 0xff) (
        when (not (ntohl bs 3 == w.client.session_id)) (fail_byte 0x02) (
          when (not (name_len == 0) && (length (c_str (drop 11 bs)) == max_file_name)) crash (
            when (not (os.memory max_path)) (pure (negsuc 0)) (
              if_some
                (os.opendir w.files
                  (if name_len == 0 then w.client.dir else full_path w.client (drop 11 bs)))
                (fail_byte 0xff) (answer_list (ntohl bs 7))))))

  -- The file's length is kept in 32 bits, and that much of it is read.
  unfoldable pub answer_get : Bytes → Act S ℤ
  answer_get bs =
      let len = length bs % 2 ^ 32 in
      when (ltb packet_size len) (fail 0xff) (
        when (not (os.memory len)) (pure (negsuc 0)) (
          when (len == 0) (fail 0xff)
            (do reply (get_header len); reply (text (take len bs)); pure (pos 0))))

  unfoldable pub get_file : Act S ℤ
  unfolding recv_buffer answer_get ntohs ntohl
  get_file = header 7 λ bs. do
    w ← get
    when (not (ntohl bs 3 == w.client.session_id)) (fail 0x02) (
        when (ltb max_file_name (ntohs bs 1)) (fail 0xff) (
          name_of (ntohs bs 1) λ name.
            when (not (os.memory max_path)) (pure (negsuc 0))
              (if_some (os.open_read w.files (full_path w.client name)) (fail 0xff) answer_get)))

  unfoldable pub write_out : Bytes → Bytes → Act S ℤ
  write_out path bytes = do
    w ← get
    if_some (os.open_write w.files path) (fail 0xff) λ s.
        let (written, s') = os.fwrite s path bytes in
        do
          set_files s'
          when (not (written == length bytes)) (fail 0xff) (do server_response 1; pure (pos 0))

  unfoldable pub put_file : Act S ℤ
  unfolding recv_buffer write_out ntohs ntohl
  put_file = header 11 λ bs. do
    w ← get
    when (not (ntohl bs 3 == w.client.session_id)) (fail 0x02) (
        when (ltb w.client.perms 2) (fail 0x03) (
          when (ltb max_file_name (ntohs bs 1)) (fail 0xff) (
            name_of (ntohs bs 1) λ name. when (not (os.memory max_path)) (pure (negsuc 0)) (
              when (not (os.memory (ntohl bs 7))) (pure (negsuc 0)) (
                name_of (ntohl bs 7) λ bytes.
                  let path = full_path w.client name in
                  if_some (os.open_read w.files path) (write_out path bytes)
                    λ old. when (get_or bs 0 0 == 0) (fail 0x05) (write_out path bytes))))))

  unfoldable pub make_directory : Act S ℤ
  unfolding recv_buffer ntohs ntohl
  make_directory = header 11 λ bs. do
    w ← get
    when (not (ntohl bs 3 == w.client.session_id)) (fail 0x02) (
        when (ltb w.client.perms 2) (fail 0x03) (
          when (ltb max_file_name (ntohs bs 1)) (fail 0xff) (
            name_of (ntohs bs 1) λ name. when (not (os.memory max_path)) (pure (negsuc 0)) (
              let path = full_path w.client name in
              if_some (os.opendir w.files path)
                (let (made, s) = os.mkdir w.files path in
                  do set_files s; when made (do server_response 1; pure (pos 0)) (fail 0xff))
                λ old. fail 0x05))))

  -- Past the answer for want of permission the handler goes on. Its header is not cleared before it
  -- is received: what does not arrive of it is undefined.
  unfoldable pub delete_checked : Act S ℤ
  unfolding recv_buffer ntohs ntohl
  delete_checked = header 7 λ bs. when (ltb (length bs) 7) crash (do
    w ← get
    when (ltb max_file_name (ntohs bs 1)) (fail 0xff) (
        when (not (w.client.session_id == ntohl bs 3)) (fail 0x02) (
          name_of (ntohs bs 1) λ name.
            when (not (os.memory (length w.client.dir + length (c_str name) + 1))) (fail 0xff) (
              let (removed, s) = os.remove w.files (full_path w.client name) in
              do set_files s; when removed (do server_response 1; pure (pos 0)) (fail 0xff)))))

  unfoldable pub delete_remote : Act S ℤ
  unfolding delete_checked
  delete_remote = do
    w ← get
    when (ltb w.client.perms 3) (server_response 0x03) (pure tt)
    delete_checked
