-- ===== src/Chat/Creds/Saved.antt =====
-- The accounts that write_creds saves are those that get_creds finds when the server starts again.
use mathlib.Core.List.{Perm}
use native.Mathlib.Nat.{zero-add, add-zero}
use basic_jqr.Base.{
  ℕ, zero, suc, ◌+◌, ◌<◌, ◌≤◌, ◌≡◌, refl, Bool, true, Option, none, some, List, [], ◌∷◌, ◌++◌,
  append-nil, arith, length, length-append, get_elem?, All, Bytes, ok, Returns, Returns-bind,
  Returns-imp,
}
use basic_jqr.HashTable.{HashTable, empty_table, create_ht, insert_entry, hash_table_insert}
use basic_jqr.HashTable.Slots.{stored, stored-replicate, get_elem?-replicate-none}
use basic_jqr.HashTable.Put.{IsTable, AllFound}
use basic_jqr.HashTable.Insert.{
  Filled, Filled-nil, Filled-cons, empty_table-IsTable, insert_entry-Filled,
}
use basic_jqr.HashTable.Remove.{shift}
use basic_jqr.Chat.State.{User}
use basic_jqr.Chat.Users.{string_it, insert_fuel}
use basic_jqr.Chat.Creds.{
  table_size, user_size, user_bytes, read_creds, get_creds, write_loop, write_creds,
}
use basic_jqr.Chat.Creds.Records.{
  take-append, drop-append, IsAccount, length-user_bytes, bytes_user-user_bytes,
}

-- The records of the accounts, one after the other.
unfoldable accounts : List User → Bytes
accounts [] = []
accounts (u ∷ us) = user_bytes u ++ accounts us

write_loop-accounts :
    (all es : List (Option User)) (i : ℕ)
    → ((k : ℕ) → get_elem? all (i + k) ≡ get_elem? es k)
    → write_loop all i (length es) ≡ ok (accounts (stored es))
unfolding write_loop accounts
write_loop-accounts all [] i agree = refl
write_loop-accounts all (none ∷ es) i agree =
    let here : get_elem? all i ≡ some none = rw add-zero at (agree 0) in
    let rest = write_loop-accounts all es (i + 1) λ k. rw (shift i k) (agree (suc k)) in
    rw (here, rest)
write_loop-accounts all (some u ∷ es) i agree =
    let here : get_elem? all i ≡ some (some u) = rw add-zero at (agree 0) in
    let rest = write_loop-accounts all es (i + 1) λ k. rw (shift i k) (agree (suc k)) in
    rw (here, rest)

write_creds-accounts :
    (ht : HashTable User) → IsTable ht → write_creds ht ≡ ok (accounts (stored ht.entries))
unfolding write_creds
write_creds-accounts ht s =
    rw (← s.shape) (write_loop-accounts ht.entries ht.entries 0 λ k. rw zero-add refl)

abbrev FilledOf : HashTable User → List User → Option (HashTable User) → Type 0
FilledOf ht us none = ⊥
FilledOf ht us (some ht') = Filled string_it ht us ht'

FilledOf-elim :
    (ht : HashTable User) (us : List User) (o : Option (HashTable User))
    (Q : Option (HashTable User) → Type 0)
    → FilledOf ht us o
    → ((ht' : HashTable User) → Filled string_it ht us ht' → Q (some ht'))
    → Q o
FilledOf-elim ht us none Q f k = absurd f
FilledOf-elim ht us (some ht') Q f k = k ht' f

hash_table_insert-Filled :
    (ht : HashTable User) (u : User)
    → IsTable ht
    → 2 < ht.max_size
    → Returns
        (λ (ht', code). FilledOf ht (u ∷ []) ht')
        (hash_table_insert string_it insert_fuel (some ht) (some u))
unfolding hash_table_insert
hash_table_insert-Filled ht u s large =
    Returns-bind _ (insert_entry string_it insert_fuel ht u) _
      (insert_entry-Filled string_it ht u s large) λ ht' f. f

length-accounts : (us : List User) → All IsAccount us → length us ≤ length (accounts us)
unfolding accounts
length-accounts [] a = omega arith
length-accounts (u ∷ us) a = omega (
  arith,
  length-append (user_bytes u) (accounts us),
  length-user_bytes u a.0,
  length-accounts us a.1,
)

read_creds-Filled :
    (fuel : ℕ) (memory : ℕ → Bool) (n : ℕ) (us : List User) (ht : HashTable User)
    → length us < fuel
    → ((k : ℕ) → memory k ≡ true)
    → All IsAccount us
    → IsTable ht
    → 2 < ht.max_size
    → Returns (FilledOf ht us) (read_creds fuel memory n (accounts us) (some ht))
unfolding read_creds accounts
read_creds-Filled zero memory n us ht lt there a s large = absurd (omega arith)
read_creds-Filled (suc fuel) memory n [] ht lt there a s large =
    rw (there n) (Filled-nil string_it ht s)
read_creds-Filled (suc fuel) memory n (u ∷ us) ht lt there a s large =
    let size = length-user_bytes u a.0 in
    let front = take-append user_size (user_bytes u) (accounts us) size in
    let back = drop-append user_size (user_bytes u) (accounts us) size in
    rw (there n, front, size, back, bytes_user-user_bytes u a.0)
      (Returns-bind _ (hash_table_insert string_it insert_fuel (some ht) (some u)) _
        (hash_table_insert-Filled ht u s large)
        λ (o, code) one.
          FilledOf-elim ht (u ∷ []) o
            (λ o'. Returns (FilledOf ht (u ∷ us)) (read_creds fuel memory (suc n) (accounts us) o'))
            one
            λ ht₁ one₁.
              Returns-imp _ (read_creds fuel memory (suc n) (accounts us) (some ht₁))
                (read_creds-Filled fuel memory (suc n) us ht₁ (omega arith) there a.1 one₁.sound
                  (omega (arith, one₁.grows)))
                λ o' rest.
                  FilledOf-elim ht₁ us o' (FilledOf ht (u ∷ us)) rest
                    λ ht' f. Filled-cons string_it ht ht₁ ht' u us one₁ f)

-- A table of just these accounts, in which each name is found.
abbrev pub Restored : List User → Option (HashTable User) → Type 0
Restored us none = ⊥
Restored us (some ht) = IsTable ht × AllFound string_it ht × Perm (stored ht.entries) us

-- The accounts of a well-formed table, whose strings fit into their arrays with a NUL behind, are
-- found again: `write_creds` returns, and from the file that it leaves `get_creds`, if its calls of
-- `malloc` succeed, returns a well-formed table of the same accounts, each as often, in which every
-- name is found. The file stays as it is.
pub get_creds-write_creds :
    (ht : HashTable User) (memory : ℕ → Bool)
    → IsTable ht
    → All IsAccount (stored ht.entries)
    → ((n : ℕ) → memory n ≡ true)
    → Returns
        (λ file.
          Returns
            (λ (ht', file'). Restored (stored ht.entries) ht' × (file' ≡ file))
            (get_creds true true memory (some file)))
        (write_creds ht)
unfolding get_creds create_ht
get_creds-write_creds ht memory s a there =
    let us = stored ht.entries in
    let file = accounts us in
    let start = empty_table-IsTable string_it 0 table_size (omega arith) in
    rw (write_creds-accounts ht s) (
      Returns-bind _ (read_creds (length file + 1) memory 0 file (some (empty_table 0 table_size)))
        _
        (read_creds-Filled (length file + 1) memory 0 us (empty_table 0 table_size)
          (omega (arith, length-accounts us a)) there a start (omega arith))
        λ o f.
          FilledOf-elim (empty_table 0 table_size) us o (λ o'. Restored us o' × (file ≡ file)) f
            λ ht' g. (
              (
                g.sound,
                g.found (λ k e got. absurd (get_elem?-replicate-none table_size k e got)),
                rw (stored-replicate {E = User} table_size, append-nil) at g.contents,
              ),
              refl,
            ))
