-- ===== src/HashTable/Put.antt =====
-- Sound tables of my_ht.c, the slot at which an insertion writes, and what the write does.
use native.Mathlib.Decide.{ℕ_discrete}
use native.Mathlib.Nat.{div-eq_of_lt}
use basic_jqr.Base.{
  ℕ, suc, ◌+◌, ◌/◌, ◌%◌, ◌≤◌, ◌<◌, ◌≡◌, refl, sym, ap, ◌∙◌, true, false, Option, none, some, arith,
  if◌then◌else◌, leb, length, get_elem?, length-set, set, get_elem?-set_self, get_elem?-set_ne,
  get_elem?-lt-length, ok, ok_of_Returns, Bytes,
}
use basic_jqr.HashTable.{HashTable, hash, hash_loop, probe, is_null, resize_with, insert_entry}
use basic_jqr.HashTable.Probe.{probe-StopsAt}
use basic_jqr.HashTable.Slots.{stored, empty_slot, length-stored-set}
use basic_jqr.HashTable.Found.{is_found, is_found-set, is_found-set_self}

-- The array has as many slots as `max_size` says, `size` counts at least the entries, and some slot
-- is free by that count.
pub record IsTable {E : Type 0} (ht : HashTable E) : Type 0 where
  pub shape : length ht.entries ≡ ht.max_size
  pub counted : length (stored ht.entries) ≤ ht.size
  pub spare : ht.size < ht.max_size

module _ {E : Type 0} (string_it : E → Bytes) where
  -- The name of every entry is found.
  abbrev pub AllFound : HashTable E → Type 0
  AllFound ht =
      (k : ℕ) (e : E)
      → get_elem? ht.entries k ≡ some (some e)
      → is_found string_it ht (string_it e) ≡ true

  -- A table in which nothing has been lost from sight.
  pub record IsSound (ht : HashTable E) : Type 0 where
    pub table : IsTable ht
    pub open table use *
    pub found : AllFound ht

  abbrev pub put : HashTable E → ℕ → E → HashTable E
  put ht k u = record ht { entries = set ht.entries k (some u); size = ht.size + 1 }

  -- The slot at which an insertion writes.
  pub record Slot (ht : HashTable E) (u : E) (start k : ℕ) : Type 0 where
    pub hashed : hash (string_it u) ht.max_size ≡ ok start
    pub probed : probe is_null ht.entries ht.max_size ht.max_size start ≡ ok k
    pub empty : get_elem? ht.entries k ≡ some none

  pub hash-lt : (str : Bytes) (m : ℕ) → 0 < m → (start : ℕ) × (hash str m ≡ ok start) × (start < m)
  unfolding hash
  hash-lt str m h = (hash_loop 5381 str % m, ground arith, omega arith)

  is_null-eq_none : (e : Option E) → is_null e ≡ true → e ≡ none
  is_null-eq_none none h = refl
  is_null-eq_none (some e) h = absurd (cc)

  pub Slot-of_IsTable :
      (ht : HashTable E) (u : E) → IsTable ht → (start : ℕ) × (k : ℕ) × Slot ht u start k
  Slot-of_IsTable ht u s =
      let (start, hashed, lt) = hash-lt (string_it u) ht.max_size (omega arith) in
      let (j, below, free) = empty_slot ht.entries (omega arith) in
      let (k, probed, (below', (e, got, null))) =
        ok_of_Returns (probe is_null ht.entries ht.max_size ht.max_size start) (
          probe-StopsAt is_null ht.entries ht.max_size start j s.shape lt (omega arith)
            (none, free, refl)) in
      (
        start,
        k,
        record { hashed = hashed; probed = probed; empty = got ∙ ap some (is_null-eq_none e null) },
      )

  -- A write at such a slot keeps every name found, and adds the new one.
  pub AllFound-put :
      (ht : HashTable E) (u : E) {start k : ℕ}
      → Slot ht u start k
      → AllFound ht
      → AllFound (put ht k u)
  AllFound-put ht u {start} {k} slot found j e got = elim (ℕ_discrete k j) [
    | yes same ↦
        let here =
          get_elem?-set_self ht.entries k (some u) (get_elem?-lt-length ht.entries k slot.empty) in
        let e-eq : u ≡ e = cc (same, here, got) in
        rw (← e-eq) (
          is_found-set_self string_it ht start k (ht.size + 1) u slot.hashed slot.probed slot.empty)
    | no apart ↦
        is_found-set string_it ht (string_it e) k (ht.size + 1) u slot.empty
          (found j e (sym (get_elem?-set_ne ht.entries k j (some u) apart) ∙ got))
  ]

  pub put-IsTable :
      (ht : HashTable E) (u : E) {start k : ℕ}
      → IsTable ht
      → Slot ht u start k
      → ht.size + 1 < ht.max_size
      → IsTable (put ht k u)
  put-IsTable ht u {k} s slot lt = record {
    shape = length-set ht.entries k (some u) ∙ s.shape;
    counted = omega (arith, length-stored-set ht.entries k u slot.empty);
    spare = lt;
  }

  -- An insertion writes at its slot; then it resizes if the table is full by its count.
  insert_entry_lem :
      (fuel : ℕ) (ht : HashTable E) (u : E) {start k : ℕ}
      → Slot ht u start k
      → insert_entry string_it (suc fuel) ht u ≡ (
          if leb 1 ((ht.size + 1) / ht.max_size)
          then resize_with (insert_entry string_it fuel) (put ht k u)
          else ok (put ht k u))
  unfolding insert_entry
  insert_entry_lem fuel ht u slot = rw (slot.hashed, slot.probed)

  pub insert_entry_calm :
      (fuel : ℕ) (ht : HashTable E) (u : E) {start k : ℕ}
      → Slot ht u start k
      → ht.size + 1 < ht.max_size
      → insert_entry string_it (suc fuel) ht u ≡ ok (put ht k u)
  insert_entry_calm fuel ht u slot lt =
      let small : leb 1 ((ht.size + 1) / ht.max_size) ≡ false = ground (arith, div-eq_of_lt lt) in
      insert_entry_lem fuel ht u slot ∙ rw small

  pub insert_entry_full :
      (fuel : ℕ) (ht : HashTable E) (u : E) {start k : ℕ}
      → Slot ht u start k
      → ht.size + 1 ≡ ht.max_size
      → insert_entry string_it (suc fuel) ht u
        ≡ resize_with (insert_entry string_it fuel) (put ht k u)
  insert_entry_full fuel ht u slot e =
      let large : leb 1 ((ht.size + 1) / ht.max_size) ≡ true = ground arith in
      insert_entry_lem fuel ht u slot ∙ rw large
