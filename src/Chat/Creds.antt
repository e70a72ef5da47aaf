-- ===== src/Chat/Creds.antt =====
-- The accounts of chat.c: the file accounts.txt, from which the server fills its table when it
-- starts, and into which it writes the table when it ends. A file is its bytes; `fwrite` and
-- `fread` (write_file, read_file of file_lib.c) are taken to write and read all that there is.
-- Of a record that ends early, the bytes that are not there are taken to be 0.
pub mod Records
pub mod Saved
mod Tests
use basic_jqr.Base.{
  ℕ, zero, suc, ◌+◌, ◌-◌, ◌*◌, Bool, true, false, Option, none, some, List, [], ◌∷◌, ◌++◌, length,
  get_elem?, get_or, take, drop, replicate, if◌then◌else◌, ◌==◌, Bytes, c_str, Outcome, ok, fault,
  out_of_fuel, ◌>>=◌, deref,
}
use basic_jqr.HashTable.{HashTable, create_ht, hash_table_insert}
use basic_jqr.Chat.State.{User}
use basic_jqr.Chat.Users.{max_name, string_it, insert_fuel}

abbrev pub table_size : ℕ
table_size = 20

-- `sizeof(user)`: two arrays and a byte, packed.
abbrev pub user_size : ℕ
user_size = 511

-- An array of the record, the bytes behind the string cleared.
abbrev pub field : Bytes → Bytes
field s = s ++ replicate (max_name - length s) 0

-- The bytes of a record.
unfoldable pub user_bytes : User → Bytes
user_bytes u = (field u.passwd ++ field u.uname) ++ u.perms ∷ []

-- A record of such bytes. A string with no NUL in its array goes on into what is behind it.
unfoldable pub bytes_user : Bytes → User
bytes_user bs = record {
  passwd = c_str bs;
  uname = c_str (drop max_name bs);
  perms = get_or bs (max_name + max_name) 0;
}

-- The loop of `get_creds`, from the `n`-th call of its `malloc` on. `memory` says which of the
-- calls succeed; the table is lost where one does not. What an insertion returns is not tested.
unfoldable pub read_creds :
    ℕ → (ℕ → Bool) → ℕ → Bytes → Option (HashTable User) → Outcome (Option (HashTable User))
read_creds zero memory n file ht = out_of_fuel
read_creds (suc fuel) memory n file ht =
    if memory n
    then (if length (take user_size file) == 0
        then ok ht
        else (hash_table_insert string_it insert_fuel ht (some (bytes_user (take user_size file)))
            >>= λ (ht', code). read_creds fuel memory (suc n) (drop user_size file) ht'))
    else ok none

abbrev pub admin : User
admin = record {
  passwd =
      53 ∷ 101 ∷ 56 ∷ 56 ∷ 52 ∷ 56 ∷ 57 ∷ 56 ∷ 100 ∷ 97 ∷ 50 ∷ 56 ∷ 48 ∷ 52 ∷ 55 ∷ 49 ∷ 53 ∷ 49
      ∷ 100 ∷ 48 ∷ 101 ∷ 53 ∷ 54 ∷ 102 ∷ 56 ∷ 100 ∷ 99 ∷ 54 ∷ 50 ∷ 57 ∷ 50 ∷ 55 ∷ 55 ∷ 51 ∷ 54 ∷ 48
      ∷ 51 ∷ 100 ∷ 48 ∷ 100 ∷ 54 ∷ 97 ∷ 97 ∷ 98 ∷ 98 ∷ 100 ∷ 100 ∷ 54 ∷ 50 ∷ 97 ∷ 49 ∷ 49 ∷ 101
      ∷ 102 ∷ 55 ∷ 50 ∷ 49 ∷ 100 ∷ 49 ∷ 53 ∷ 52 ∷ 50 ∷ 100 ∷ 56 ∷ [];
  uname = 97 ∷ 100 ∷ 109 ∷ 105 ∷ 110 ∷ [];
  perms = 3;
}

abbrev pub phteven : User
phteven = record {
  passwd =
      97 ∷ 49 ∷ 49 ∷ 53 ∷ 57 ∷ 101 ∷ 57 ∷ 100 ∷ 102 ∷ 51 ∷ 54 ∷ 55 ∷ 48 ∷ 100 ∷ 53 ∷ 52 ∷ 57 ∷ 100
      ∷ 48 ∷ 52 ∷ 53 ∷ 50 ∷ 52 ∷ 53 ∷ 51 ∷ 50 ∷ 54 ∷ 50 ∷ 57 ∷ 102 ∷ 53 ∷ 52 ∷ 55 ∷ 55 ∷ 99 ∷ 101
      ∷ 98 ∷ 55 ∷ 100 ∷ 101 ∷ 101 ∷ 99 ∷ 57 ∷ 98 ∷ 52 ∷ 53 ∷ 101 ∷ 52 ∷ 55 ∷ 101 ∷ 56 ∷ 99 ∷ 48 ∷ 48
      ∷ 57 ∷ 53 ∷ 48 ∷ 54 ∷ 101 ∷ 99 ∷ 98 ∷ 50 ∷ 99 ∷ 56 ∷ [];
  uname = 112 ∷ 104 ∷ 116 ∷ 101 ∷ 118 ∷ 101 ∷ 110 ∷ [];
  perms = 2;
}

-- The file is `none` if it is not there: then it is written, with two accounts. It is taken that
-- it can be opened. The loop gets one step more than the file has bytes.
unfoldable pub get_creds :
    Bool → Bool → (ℕ → Bool) → Option Bytes → Outcome (Option (HashTable User) × Bytes)
unfolding read_creds user_bytes
get_creds table entries memory (some file) =
    read_creds (length file + 1) memory 0 file (create_ht table entries table_size) >>= λ ht.
    ok (ht, file)
get_creds table entries memory none =
    hash_table_insert string_it insert_fuel (create_ht table entries table_size) (some admin)
    >>= λ (ht, code). hash_table_insert string_it insert_fuel ht (some phteven) >>= λ (ht', code').
        ok (ht', user_bytes admin ++ user_bytes phteven)

-- The loop of `write_creds`, from slot `i` on: what it writes.
unfoldable pub write_loop : List (Option User) → ℕ → ℕ → Outcome Bytes
unfolding user_bytes
write_loop entries i zero = ok []
write_loop entries i (suc n) = deref (get_elem? entries i) >>= λ slot.
    write_loop entries (i + 1) n >>= λ others.
    ok (elim slot [ none ↦ others | some u ↦ user_bytes u ++ others ])

-- The file that is left.
unfoldable pub write_creds : HashTable User → Outcome Bytes
unfolding write_loop
write_creds ht = write_loop ht.entries 0 ht.max_size
