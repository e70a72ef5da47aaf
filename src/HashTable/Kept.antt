-- ===== src/HashTable/Kept.antt =====
-- What lookup and removal do to a well-formed table, whether or not entries have been hidden in it.
use mathlib.Core.List.{Mem, Perm, mem-cons_self}
use mathlib.Core.List.Perm
use basic_jqr.Base.{
  ℕ, zero, suc, ◌≡◌, refl, sym, ap, ◌∙◌, true, Option, none, some, List, [], ◌∷◌, arith, subst,
  length, length-set, get_elem?, set, ok, ok_of_Returns, chain-eq-ok, deref-eq-ok, Returns, Bytes,
  ℤ,
}
use basic_jqr.HashTable.{HashTable, hash, probe, stops_at, matches, hash_table_lookup, remove_entry}
use basic_jqr.HashTable.Probe.{probe-StopsAt}
use basic_jqr.HashTable.Slots.{stored, empty_slot}
use basic_jqr.HashTable.Found.{hash_table_lookup_lem}
use basic_jqr.HashTable.Put.{IsTable, hash-lt}
use basic_jqr.HashTable.Remove.{stored-set_none-Perm, remove_entry_lem}

length-stored-set-none :
    {E : Type 0} (es : List (Option E)) (k : ℕ) (e : E)
    → get_elem? es k ≡ some (some e)
    → length (stored es) ≡ suc (length (stored (set es k none)))
length-stored-set-none [] k e h = absurd (cc)
length-stored-set-none (none ∷ es) zero e h = absurd (cc)
length-stored-set-none (some x ∷ es) zero e h = refl
length-stored-set-none (none ∷ es) (suc k) e h = length-stored-set-none es k e h
length-stored-set-none (some x ∷ es) (suc k) e h = ap suc (length-stored-set-none es k e h)

module _ {E : Type 0} (string_it : E → Bytes) where
  -- A lookup in a well-formed table returns, and what it finds is in the table and matches.
  pub lookup_of_IsTable :
      (ht : HashTable E) (key : Bytes)
      → IsTable ht
      → Returns
          (λ answer.
            (e : E)
            → answer ≡ some e
            → Mem e (stored ht.entries) × (matches string_it key e ≡ true))
          (hash_table_lookup string_it ht key)
  lookup_of_IsTable ht key s =
      let (start, hashed, lt) = hash-lt string_it key ht.max_size (omega arith) in
      let (j, below, free) = empty_slot ht.entries (omega arith) in
      let (k, probed, (below', (slot, got, stop))) =
        ok_of_Returns (probe (stops_at string_it key) ht.entries ht.max_size ht.max_size start) (
          probe-StopsAt (stops_at string_it key) ht.entries ht.max_size start j s.shape lt
            (omega arith) (none, free, refl)) in
      let looked : hash_table_lookup string_it ht key ≡ ok slot =
        hash_table_lookup_lem string_it ht key ∙ rw (hashed, probed, got) in
      rw looked λ e q. (
        (Perm.mem_iff (stored-set_none-Perm ht.entries k e (got ∙ ap some q))).1 mem-cons_self,
        subst (λ o. stops_at string_it key o ≡ true) q stop,
      )

  -- What a removal leaves: a well-formed table of as many slots, that lost just the entry.
  pub record Removed (ht : HashTable E) (e : E) (r : HashTable E × E × ℤ) : Type 0 where
    pub sound : IsTable r.0
    pub slots : r.0.max_size ≡ ht.max_size
    pub freed : r.1 ≡ e
    pub contents : Perm (stored ht.entries) (e ∷ stored r.0.entries)

  pub remove_of_IsTable :
      (ht : HashTable E) (key : Bytes) (e : E)
      → IsTable ht
      → hash_table_lookup string_it ht key ≡ ok (some e)
      → Returns (Removed ht e) (remove_entry string_it ht key)
  remove_of_IsTable ht key e s looked =
      let (start, hashed, r₁) =
        chain-eq-ok (hash key ht.max_size) _
          (sym (hash_table_lookup_lem string_it ht key) ∙ looked) in
      let (j, probed, r₂) =
        chain-eq-ok (probe (stops_at string_it key) ht.entries ht.max_size ht.max_size start) _
          r₁ in
      let got = deref-eq-ok (get_elem? ht.entries j) r₂ in
      let less = stored-set_none-Perm ht.entries j e got in
      rw (remove_entry_lem string_it ht key, hashed, probed, got)
        record {
          sound = record {
            shape = length-set ht.entries j none ∙ s.shape;
            counted = omega (arith, length-stored-set-none ht.entries j e got, s.counted);
            spare = s.spare;
          };
          slots = refl;
          freed = refl;
          contents = less;
        }
