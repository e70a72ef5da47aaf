-- ===== src/Chat/Files/Listing.antt =====
-- The bounds of the answer of `list_it` of chat.c.
use basic_jqr.Base.{
  leb, refl, ltb→lt, ge_of_ltb, ◌⊎◌, ℕ, ◌+◌, ◌-◌, ◌%◌, ◌^◌, ◌≤◌, ◌<◌, ◌≡◌, true, false, List, [],
  ◌∷◌, ◌++◌, arith, ltb, length, length-append, length-replicate, replicate, take, drop, Bytes, pos,
  ok, fault, Bool-cases, inl, inr, append_assoc,
}
use basic_jqr.Chat.State.{World, text, ls_header}
use basic_jqr.Chat.Files.{
  Os, Kind, regular, directory, other, max_data_size, entry_text, entries_text, content_len,
  content, message_len, chunk, answer_list,
}

length-entry_text : (name : Bytes) (kind : Kind) → length (entry_text name kind) ≤ length name + 2
unfolding entry_text
length-entry_text name regular = omega (arith, length-append name (0 ∷ []))
length-entry_text name directory = omega (arith, length-append name (0 ∷ []))
length-entry_text name other = omega arith

length-entries_text : (es : List (Bytes × Kind)) → length (entries_text es) ≤ content_len es
unfolding entries_text content_len
length-entries_text [] = omega arith
length-entries_text ((name, kind) ∷ es) = omega (
  arith,
  length-append (entry_text name kind) (entries_text es),
  length-entry_text name kind,
  length-entries_text es,
)

length-content : (es : List (Bytes × Kind)) → length (content es) ≡ content_len es
unfolding content
length-content es =
    let gap = content_len es - length (entries_text es) in
    omega (
      arith,
      length-append (entries_text es) (replicate gap 0),
      length-replicate {A = ℕ} gap 0,
      length-entries_text es,
    )

-- How much of the buffer is sent from a position in it.
message_len-within :
    (len position : ℕ)
    → position ≤ len
    → len < 2 ^ 31
    → (message_len len position ≤ 2048)
      × (position + message_len len position ≤ len)
      × ((message_len len position ≡ 2048) ⊎ (position + message_len len position ≡ len))
unfolding message_len
message_len-within len position within small =
    let rest : (len + 2 ^ 32 - position) % 2 ^ 32 ≡ len - position = omega arith in
    elim (Bool-cases (ltb ((len + 2 ^ 32 - position) % 2 ^ 32) max_data_size)) [
      | inl e ↦
          let less = ltb→lt ((len + 2 ^ 32 - position) % 2 ^ 32) max_data_size e in
          rw e (omega (arith, rest, less), omega (arith, rest), inr (omega (arith, rest)))
      | inr e ↦
          let more = ge_of_ltb ((len + 2 ^ 32 - position) % 2 ^ 32) max_data_size e in
          rw e (omega arith, omega (arith, rest, more), inl refl)
    ]

message_len-beyond :
    (len position : ℕ)
    → len < position
    → position < 2 ^ 32
    → len < position + message_len len position
unfolding message_len
message_len-beyond len position beyond small = omega arith

module _ {S : Type 0} (os : Os S) where
  -- The answer to a listing of a directory, from a position in its buffer, which is shorter than 2
  -- ^ 31 bytes and for which there is memory: the result is 0, and the client is sent the header,
  -- with the length of the buffer, of what follows and the position behind it, and the bytes from
  -- the position on, 2048 of them, or all that are left if those are fewer.
  pub answer_list-sent :
      (position : ℕ) (es : List (Bytes × Kind)) (w : World S)
      → os.memory (content_len es) ≡ true
      → content_len es < 2 ^ 31
      → position ≤ content_len es
      → (n : ℕ) × (n ≤ 2048)
        × (position + n ≤ length (content es))
        × ((n ≡ 2048) ⊎ (position + n ≡ length (content es)))
        × (answer_list os position es w
            ≡ ok (
              pos 0,
              record w {
                sent =
                    w.sent
                    ++ (w.client.client_socket, ls_header (length (content es)) n (position + n))
                      ∷ (w.client.client_socket, text (take n (drop position (content es))))
                      ∷ [];
              },
            ))
  unfolding answer_list chunk
  answer_list-sent position es w memory small inside =
      let n = message_len (content_len es) position in
      let (low, within, end) = message_len-within (content_len es) position inside small in
      let whole = length-content es in
      let no_overflow : leb (2 ^ 31) (content_len es) ≡ false = ground (arith, small) in
      let fits : ltb (length (content es)) (position + n) ≡ false = ground (arith, whole, within) in
      let next : (position + n) % 2 ^ 32 ≡ position + n = omega (arith, within, small) in
      (
        n,
        low,
        omega (arith, whole, within),
        rw (whole) end,
        rw (no_overflow, memory, fits, append_assoc, next, whole) refl,
      )

  -- From a position past the end of the buffer, of less than 2 ^ 32, the answer reads bytes that
  -- are not the buffer's.
  pub answer_list_beyond :
      (position : ℕ) (es : List (Bytes × Kind)) (w : World S)
      → os.memory (content_len es) ≡ true
      → position < 2 ^ 32
      → content_len es < position
      → answer_list os position es w ≡ fault
  unfolding answer_list chunk
  answer_list_beyond position es w memory small beyond =
      let out : ltb (length (content es)) (position + message_len (content_len es) position)
          ≡ true =
        ground
          (arith, length-content es, message_len-beyond (content_len es) position beyond small) in
      elim (Bool-cases (leb (2 ^ 31) (content_len es))) [
        | inl overflow ↦ rw (overflow) refl
        | inr fits ↦ rw (fits, memory, out) refl
      ]
