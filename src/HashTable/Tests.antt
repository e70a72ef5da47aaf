-- ===== src/HashTable/Tests.antt =====
-- Runs of the hash table on small tables whose entries are their own names.
use mathlib.Core.List.{Mem, Perm}
use basic_jqr.Base.{
  strncmp_eq, zero, suc, ◌≡◌, refl, true, none, some, [], ◌∷◌, arith, ok, Returns, Bytes, pos,
}
use basic_jqr.HashTable.{
  hash_loop, HashTable, hash, matches, insert_entry, hash_table_lookup, remove_entry,
}
use basic_jqr.HashTable.Slots.{stored}
use basic_jqr.HashTable.Found.{is_found}
use basic_jqr.HashTable.Put.{IsTable, AllFound, IsSound}
use basic_jqr.HashTable.Insert.{Filled, insert_entry-Filled}
use basic_jqr.HashTable.Lookup.{lookup-insert, Answers, lookup-Answers}
use basic_jqr.HashTable.Remove.{remove_entry-Perm, remove_entry_hides}

abbrev own_name : Bytes → Bytes
own_name name = name

-- Both names hash to slot 0 of four.
abbrev cc_name : Bytes
cc_name = b'c' ∷ []

abbrev gg_name : Bytes
gg_name = b'g' ∷ []

abbrev one_entry : HashTable Bytes
one_entry = record { entries = some cc_name ∷ none ∷ none ∷ none ∷ []; size = 1; max_size = 4 }

abbrev two_entries : HashTable Bytes
two_entries = record {
  entries = some cc_name ∷ some gg_name ∷ none ∷ none ∷ [];
  size = 2;
  max_size = 4;
}

abbrev nearly_full : HashTable Bytes
nearly_full = record { entries = some cc_name ∷ none ∷ none ∷ none ∷ []; size = 3; max_size = 4 }

run_insert : insert_entry own_name 1 one_entry gg_name ≡ ok two_entries
unfolding insert_entry hash_loop
run_insert = refl

run_lookup : hash_table_lookup own_name two_entries gg_name ≡ ok (some gg_name)
unfolding hash_table_lookup hash_loop strncmp_eq
run_lookup = refl

one_entry-IsTable : IsTable one_entry
one_entry-IsTable = record { shape = refl; counted = omega arith; spare = omega arith }

nearly_full-IsTable : IsTable nearly_full
nearly_full-IsTable = record { shape = refl; counted = omega arith; spare = omega arith }

one_entry-AllFound : AllFound own_name one_entry
unfolding hash_table_lookup hash_loop strncmp_eq
one_entry-AllFound zero e got = let same : cc_name ≡ e = ground arith in rw (← same) refl
one_entry-AllFound (suc zero) e got = absurd (cc)
one_entry-AllFound (suc (suc zero)) e got = absurd (cc)
one_entry-AllFound (suc (suc (suc zero))) e got = absurd (cc)
one_entry-AllFound (suc (suc (suc (suc k)))) e got = absurd (cc)

one_entry-IsSound : IsSound own_name one_entry
one_entry-IsSound = record { table = one_entry-IsTable; found = one_entry-AllFound }

lookup-insert_example :
    Returns
      (λ ht'. (e : Bytes) → Mem e (gg_name ∷ cc_name ∷ []) → is_found own_name ht' e ≡ true)
      (insert_entry own_name 3 one_entry gg_name)
lookup-insert_example = lookup-insert own_name one_entry gg_name one_entry-IsSound (omega arith)

-- This insertion fills the table by its count, so it is resized.
insert_entry-Filled_example :
    Returns
      (Filled own_name nearly_full (gg_name ∷ []))
      (insert_entry own_name 3 nearly_full gg_name)
insert_entry-Filled_example =
    insert_entry-Filled own_name nearly_full gg_name nearly_full-IsTable (omega arith)

lookup-Answers_example :
    Returns (Answers own_name one_entry gg_name) (hash_table_lookup own_name one_entry gg_name)
lookup-Answers_example = lookup-Answers own_name one_entry gg_name one_entry-IsSound

abbrev long_entry : HashTable Bytes
long_entry = record {
  entries = some (b'c' ∷ b'd' ∷ []) ∷ none ∷ none ∷ none ∷ [];
  size = 1;
  max_size = 4;
}

hash_cc : hash cc_name 4 ≡ ok 0
unfolding hash hash_loop
hash_cc = refl

hash_gg : hash gg_name 4 ≡ ok 0
unfolding hash hash_loop
hash_gg = refl

cc_found : is_found own_name two_entries cc_name ≡ true
unfolding hash_table_lookup hash_loop strncmp_eq
cc_found = refl

remove_entry-Perm_example :
    Returns
      (λ (ht', e, code).
        (code ≡ pos 0)
        × (matches own_name cc_name e ≡ true)
        × Perm (cc_name ∷ gg_name ∷ []) (e ∷ stored ht'.entries)
        × (ht'.size ≡ 2))
      (remove_entry own_name two_entries cc_name)
remove_entry-Perm_example = remove_entry-Perm own_name two_entries cc_name cc_found

cc_matches : matches own_name cc_name cc_name ≡ true
unfolding strncmp_eq
cc_matches = refl

remove_entry_hides_example :
    Returns
      (λ (ht', e', code). hash_table_lookup own_name ht' gg_name ≡ ok none)
      (remove_entry own_name two_entries cc_name)
remove_entry_hides_example =
    remove_entry_hides own_name two_entries cc_name gg_name 0 cc_name (omega arith) hash_cc hash_gg
      refl cc_matches

gg_missing : hash_table_lookup own_name one_entry gg_name ≡ ok none
unfolding hash_table_lookup hash_loop strncmp_eq
gg_missing = refl
