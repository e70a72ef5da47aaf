-- ===== src/Chat/Users/Effects.antt =====
-- What a user operation of chat.c may do to the server, and under which privileges.
use mathlib.Core.List.{Mem, Perm}
use basic_jqr.Base.{
  ℕ, ◌≤◌, ◌<◌, ◌≡◌, ◌⊎◌, refl, true, none, some, ok, List, ◌∷◌, length, Bytes, c_str, ℤ, pos,
  negsuc, strncmp_eq,
}
use basic_jqr.HashTable.{HashTable, matches, hash_table_lookup}
use basic_jqr.HashTable.Slots.{stored}
use basic_jqr.HashTable.Put.{IsTable}
use basic_jqr.Chat.State.{User, World, Arrival, Message}
use basic_jqr.Chat.Ends.{weight, Received}
use basic_jqr.Chat.Users.{UserRequest, string_it, overwrite}

-- A request names a length that leaves no room for a NUL in the arrays of 255 bytes.
abbrev pub TooLong : UserRequest → Type 0
TooLong req = (255 ≤ req.uname_len) ⊎ (255 ≤ req.pass_len)

-- The credentials stay in a well-formed table of more than two slots.
abbrev pub Credentials : HashTable User → Type 0
Credentials ht = IsTable ht × (2 < ht.max_size)

module _ {S : Type 0} where
  -- What an operation leaves alone, and that it only takes from what is to arrive.
  pub record Around (w w' : World S) : Type 0 where
    pub lobs : w'.lobs ≡ w.lobs
    pub lobs_size : w'.lobs_size ≡ w.lobs_size
    pub quit : w'.quit ≡ w.quit
    pub files : w'.files ≡ w.files
    pub credentials : Credentials w'.ht
    pub taken : weight w'.inbox ≤ weight w.inbox

  -- What a user operation may do, on the name and the password that arrive. Nothing, with the
  -- result -1; or, with 0: take over the level of a stored entry whose name begins with the one
  -- that arrived and whose password the one that arrived begins with; add an entry of them, at the
  -- level that the request's flag asks for and that the client has, where no entry was found;
  -- remove one entry that the name finds, as an administrator. The last two want the client's
  -- session.
  pub data UserEffect (req : UserRequest) (w : World S) : ℤ → World S → Type 0 where
    refused : {w' : World S} → w'.ht ≡ w.ht → w'.client ≡ w.client → UserEffect req w (negsuc 0) w'
    logged_in :
        {w' : World S} (u : User) (username password : Bytes) (i : List Arrival)
        → Received req.uname_len w.inbox username i
        → Received req.pass_len i password w'.inbox
        → Mem u (stored w.ht.entries)
        → matches string_it (c_str username) u ≡ true
        → strncmp_eq (c_str password) u.passwd (length u.passwd) ≡ true
        → w'.ht ≡ w.ht
        → w'.client ≡ record w.client { perms = u.perms; uname = overwrite username w.client.uname }
        → UserEffect req w (pos 0) w'
    created :
        {w' : World S} (u : User) (username password : Bytes) (i : List Arrival)
        → Received req.uname_len w.inbox username i
        → Received req.pass_len i password w'.inbox
        → u.uname ≡ c_str username
        → u.passwd ≡ c_str password
        → u.perms ≡ req.user_flag
        → req.session_id ≡ w.client.session_id
        → 1 ≤ u.perms
        → u.perms ≤ w.client.perms
        → hash_table_lookup string_it w.ht (c_str username) ≡ ok none
        → Perm (stored w'.ht.entries) (u ∷ stored w.ht.entries)
        → w'.client ≡ w.client
        → UserEffect req w (pos 0) w'
    deleted :
        {w' : World S} (u : User) (username : Bytes)
        → Received req.uname_len w.inbox username w'.inbox
        → hash_table_lookup string_it w.ht (c_str username) ≡ ok (some u)
        → matches string_it (c_str username) u ≡ true
        → req.session_id ≡ w.client.session_id
        → 3 ≤ w.client.perms
        → Perm (stored w.ht.entries) (u ∷ stored w'.ht.entries)
        → w'.client ≡ w.client
        → UserEffect req w (pos 0) w'

  abbrev pub UserPost : UserRequest → World S → ℤ → World S → Type 0
  UserPost req w code w' = Around w w' × UserEffect req w code w'

  pub refuse :
      {req : UserRequest} (w : World S) (inbox : List Arrival) (sent : List (ℕ × Message))
      → Credentials w.ht
      → weight inbox ≤ weight w.inbox
      → UserPost req w (negsuc 0) (record w { inbox = inbox; sent = sent })
  refuse w inbox sent c le = (
    record {
      lobs = refl;
      lobs_size = refl;
      quit = refl;
      files = refl;
      credentials = c;
      taken = le;
    },
    refused refl refl,
  )
