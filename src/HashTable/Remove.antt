-- ===== src/HashTable/Remove.antt =====
-- Removal: what it frees, what it keeps, and the entries that it hides; and `destroy_ht`.
use mathlib.Core.List.{Perm}
use mathlib.Core.List.Perm
use native.Mathlib.Nat.{add-zero, zero-add}
use basic_jqr.Base.{
  ℕ, zero, suc, ◌+◌, ◌<◌, ◌≡◌, refl, sym, ◌∙◌, true, Option, none, some, List, [], ◌∷◌, arith,
  length, get_elem?, set, get_elem?-set_self, get_elem?-lt-length, ok, deref, chain-eq-ok,
  deref-eq-ok, fault, ◌>>=◌, Returns, Bytes, pos,
}
use basic_jqr.HashTable.{
  HashTable, hash, probe, stops_at, matches, hash_table_lookup, remove_entry, destroy_loop,
  destroy_ht,
}
use basic_jqr.HashTable.Probe.{probe_here}
use basic_jqr.HashTable.Slots.{stored}
use basic_jqr.HashTable.Found.{is_found, LookupRun-of_is_found, hash_table_lookup_lem}

module _ {E : Type 0} where
  pub stored-set_none-Perm :
      (es : List (Option E)) (k : ℕ) (e : E)
      → get_elem? es k ≡ some (some e)
      → Perm (stored es) (e ∷ stored (set es k none))
  stored-set_none-Perm [] k e h = absurd (cc)
  stored-set_none-Perm (none ∷ es) zero e h = absurd (cc)
  stored-set_none-Perm (some x ∷ es) zero e h =
      let same : x ≡ e = ground arith in rw same (Perm.refl _)
  stored-set_none-Perm (none ∷ es) (suc k) e h = stored-set_none-Perm es k e h
  stored-set_none-Perm (some x ∷ es) (suc k) e h =
      Perm.trans (Perm.cons x (stored-set_none-Perm es k e h)) (Perm.swap e x _)

module _ {E : Type 0} (string_it : E → Bytes) where
  pub remove_entry_lem :
      (ht : HashTable E) (key : Bytes)
      → remove_entry string_it ht key ≡ (
          hash key ht.max_size >>= λ start.
          probe (stops_at string_it key) ht.entries ht.max_size ht.max_size start >>= λ index.
          deref (get_elem? ht.entries index) >>= λ slot.
          deref slot >>= λ e. ok (record ht { entries = set ht.entries index none }, e, pos 0))
  unfolding remove_entry
  remove_entry_lem ht key = refl

  -- Removing a name that is not in the table follows the NULL of the empty slot.
  pub remove_entry_missing :
      (ht : HashTable E) (key : Bytes)
      → hash_table_lookup string_it ht key ≡ ok none
      → remove_entry string_it ht key ≡ fault
  remove_entry_missing ht key missed =
      let (start, hashed, r₁) =
        chain-eq-ok (hash key ht.max_size) _
          (sym (hash_table_lookup_lem string_it ht key) ∙ missed) in
      let (j, probed, r₂) =
        chain-eq-ok (probe (stops_at string_it key) ht.entries ht.max_size ht.max_size start) _
          r₁ in
      rw (remove_entry_lem ht key, hashed, probed, deref-eq-ok (get_elem? ht.entries j) r₂)

  -- A removal from the first slot of a probe sequence hides what lies further on: afterwards every
  -- key with that first slot is answered with NULL, also if its entry is still in the table.
  pub remove_entry_hides :
      (ht : HashTable E) (removed key : Bytes) (start : ℕ) (e : E)
      → 0 < ht.max_size
      → hash removed ht.max_size ≡ ok start
      → hash key ht.max_size ≡ ok start
      → get_elem? ht.entries start ≡ some (some e)
      → matches string_it removed e ≡ true
      → Returns
          (λ (ht', e', code). hash_table_lookup string_it ht' key ≡ ok none)
          (remove_entry string_it ht removed)
  remove_entry_hides ht removed key start e some_slots hashed hashed' got hit =
      let m = ht.max_size in
      let cleared =
        get_elem?-set_self ht.entries start none (get_elem?-lt-length ht.entries start got) in
      rw
        (
          remove_entry_lem ht removed,
          hashed,
          probe_here (stops_at string_it removed) ht.entries m m start (some e) some_slots got hit,
          got,
        )
        (hash_table_lookup_lem string_it (record ht { entries = set ht.entries start none }) key
          ∙ rw (
            hashed',
            probe_here (stops_at string_it key) (set ht.entries start none) m m start none
                some_slots cleared refl,
            cleared,
          ))

  -- Removing a name that is found returns 0, hands one entry whose name begins with it to
  -- `free_it`, and the table holds the others as before; the count `size` is not lowered.
  pub remove_entry-Perm :
      (ht : HashTable E) (key : Bytes)
      → is_found string_it ht key ≡ true
      → Returns
          (λ (ht', e, code).
            (code ≡ pos 0)
            × (matches string_it key e ≡ true)
            × Perm (stored ht.entries) (e ∷ stored ht'.entries)
            × (ht'.size ≡ ht.size))
          (remove_entry string_it ht key)
  remove_entry-Perm ht key found =
      let (start, j, e, hashed, probed, got, hit) = LookupRun-of_is_found string_it ht key found in
      rw (remove_entry_lem ht key, hashed, probed, got)
        (refl, hit, stored-set_none-Perm ht.entries j e got, refl)

pub shift : (i k : ℕ) → i + 1 + k ≡ i + suc k
shift i k = omega arith

module _ {E : Type 0} where
  destroy_loop-stored :
      (all es : List (Option E)) (i : ℕ)
      → ((k : ℕ) → get_elem? all (i + k) ≡ get_elem? es k)
      → destroy_loop (length es) i all ≡ ok (stored es)
  unfolding destroy_loop
  destroy_loop-stored all [] i agree = refl
  destroy_loop-stored all (none ∷ es) i agree =
      let here : get_elem? all i ≡ some none = rw add-zero at (agree 0) in
      let rest = destroy_loop-stored all es (i + 1) λ k. rw (shift i k) (agree (suc k)) in
      rw (here, rest)
  destroy_loop-stored all (some u ∷ es) i agree =
      let here : get_elem? all i ≡ some (some u) = rw add-zero at (agree 0) in
      let rest = destroy_loop-stored all es (i + 1) λ k. rw (shift i k) (agree (suc k)) in
      rw (here, rest)

  -- `destroy_ht` hands every entry of the table to `free_it`, once, in the order of the slots.
  pub destroy_ht-stored :
      (ht : HashTable E) → length ht.entries ≡ ht.max_size → destroy_ht ht ≡ ok (stored ht.entries)
  unfolding destroy_ht
  destroy_ht-stored ht shape =
      rw (← shape) (destroy_loop-stored ht.entries ht.entries 0 λ k. rw zero-add)
