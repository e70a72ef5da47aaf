-- ===== src/HashTable/Lookup.antt =====
-- Lookup in the table of my_ht.c: after an insertion, of any key, by a prefix; and the table of one
-- slot.
use mathlib.Core.Bool.{Bool-set}
use mathlib.Core.List.{Mem}
use mathlib.Core.List.Perm
use basic_jqr.Base.{
  ℕ, zero, suc, ◌+◌, ◌%◌, ◌/◌, leb, ◌<◌, ◌≡◌, ◌≢◌, ◌⊎◌, inl, inr, subst, ok_of_Returns, refl, ◌∙◌,
  true, false, Option, none, some, [], ◌∷◌, ◌++◌, arith, get_elem?, ok, out_of_fuel, Returns,
  Returns-imp, Bytes, strncmp_eq-append,
}
use basic_jqr.HashTable.{
  HashTable, hash, hash_loop, probe, stops_at, matches, empty_table, insert_entry,
  hash_table_lookup,
}
use basic_jqr.HashTable.Probe.{probe-StopsAt, probe_here}
use basic_jqr.HashTable.Slots.{stored, slot_of_Mem, empty_slot}
use basic_jqr.HashTable.Found.{is_found, hash_table_lookup_lem}
use basic_jqr.HashTable.Put.{IsSound, hash-lt}
use basic_jqr.HashTable.Insert.{Filled, insert_entry-Filled}

module _ {E : Type 0} (string_it : E → Bytes) where
  -- After an insertion into a sound table of more than two slots, the name of the new entry and
  -- that of every entry held before is found: lookup returns an entry whose name begins with it.
  pub lookup-insert :
      (ht : HashTable E) (u : E)
      → IsSound string_it ht
      → 2 < ht.max_size
      → Returns
          (λ ht'.
            (e : E) → Mem e (u ∷ stored ht.entries) → is_found string_it ht' (string_it e) ≡ true)
          (insert_entry string_it 3 ht u)
  lookup-insert ht u s large =
      Returns-imp {P = Filled string_it ht (u ∷ [])} _ _
        (insert_entry-Filled string_it ht u s.table large)
        λ ht' f e m.
          slot_of_Mem ht'.entries e (Bool-set _ _) (λ k got. f.found s.found k e got)
            ((Perm.mem_iff f.contents).1 m)

  -- What a lookup of `key` may answer: NULL if no entry has that name, or an entry whose name
  -- begins with it.
  abbrev pub Answers : HashTable E → Bytes → Option E → Type 0
  Answers ht key answer =
      ((answer ≡ none) × ((e : E) → Mem e (stored ht.entries) → string_it e ≢ key))
      ⊎ ((e : E) × (answer ≡ some e) × (matches string_it key e ≡ true))

  answers :
      (ht : HashTable E) (key : Bytes) (answer : Option E)
      → IsSound string_it ht
      → hash_table_lookup string_it ht key ≡ ok answer
      → ((e : E) → answer ≡ some e → matches string_it key e ≡ true)
      → Answers ht key answer
  answers ht key none s looked hit = inl (
    refl,
    λ e m same.
        let found : is_found string_it ht (string_it e) ≡ true =
          slot_of_Mem ht.entries e (Bool-set _ _) (λ k got. s.found k e got) m in
        let missed : is_found string_it ht key ≡ false = rw looked in
        cc (subst (λ k. is_found string_it ht k ≡ true) same found, missed),
  )
  answers ht key (some e) s looked hit = inr (e, refl, hit e refl)

  -- In a sound table a lookup returns, and answers so.
  pub lookup-Answers :
      (ht : HashTable E) (key : Bytes)
      → IsSound string_it ht
      → Returns (Answers ht key) (hash_table_lookup string_it ht key)
  lookup-Answers ht key s =
      let (start, hashed, lt) = hash-lt string_it key ht.max_size (omega arith) in
      let (j, below, free) = empty_slot ht.entries (omega arith) in
      let (k, probed, (below', (slot, got, stop))) =
        ok_of_Returns (probe (stops_at string_it key) ht.entries ht.max_size ht.max_size start) (
          probe-StopsAt (stops_at string_it key) ht.entries ht.max_size start j s.shape lt
            (omega arith) (none, free, refl)) in
      let looked : hash_table_lookup string_it ht key ≡ ok slot =
        hash_table_lookup_lem string_it ht key ∙ rw (hashed, probed, got) in
      rw looked
        (answers ht key slot s looked λ e q. subst (λ o. stops_at string_it key o ≡ true) q stop)

  -- An entry in the first slot that a key hashes to is returned if its name merely begins with
  -- the key.
  lookup_prefix :
      (ht : HashTable E) (key rest : Bytes) (start : ℕ) (e : E)
      → 0 < ht.max_size
      → hash key ht.max_size ≡ ok start
      → get_elem? ht.entries start ≡ some (some e)
      → string_it e ≡ key ++ rest
      → hash_table_lookup string_it ht key ≡ ok (some e)
  lookup_prefix ht key rest start e some_slots hashed got name =
      let hit : matches string_it key e ≡ true = rw name (strncmp_eq-append key rest) in
      hash_table_lookup_lem string_it ht key
      ∙ rw (
        hashed,
        probe_here (stops_at string_it key) ht.entries ht.max_size ht.max_size start (some e)
            some_slots got hit,
        got,
      )

  -- With one slot every insertion resizes for ever: the new table has one slot again.
  pub insert-endless :
      (fuel n : ℕ) (u : E) → insert_entry string_it fuel (empty_table n 1) u ≡ out_of_fuel
  unfolding insert_entry
  insert-endless zero n u = refl
  insert-endless (suc fuel) n u =
      let only : hash_loop 5381 (string_it u) % 1 ≡ 0 = omega arith in
      let full : leb 1 ((n + 1) / 1) ≡ true = ground arith in
      rw (only, full, insert-endless fuel (n + 1) u)
