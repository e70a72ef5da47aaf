-- ===== src/HashTable/Insert.antt =====
-- Insertion into the table of my_ht.c with its resizing, and what it leaves behind.
use mathlib.Core.List.{Perm, perm_middle}
use mathlib.Core.List.Perm
use native.Mathlib.Decide.{dec_lt}
use basic_jqr.Base.{
  append-nil, ℕ, suc, ◌+◌, ◌-◌, ◌*◌, ◌≤◌, ◌<◌, ◌≡◌, ap, Option, none, some, List, [], ◌∷◌, ◌++◌,
  arith, length, length-replicate, Returns, Returns-bind, Returns-imp, Bytes,
}
use basic_jqr.HashTable.{HashTable, empty_table, reinsert, resize_with, insert_entry}
use basic_jqr.HashTable.Slots.{
  stored, stored-replicate, get_elem?-replicate-none, stored-set-Perm, length-stored-set,
}
use basic_jqr.HashTable.Put.{
  IsTable, AllFound, AllFound-put, put, Slot, Slot-of_IsTable, put-IsTable, insert_entry_calm,
  insert_entry_full,
}

module _ {E : Type 0} (string_it : E → Bytes) where
  -- What an insertion, or a run of them, leaves behind: a sound table of no fewer slots that
  -- holds what was there and what was put in, as often.
  pub record Filled (ht : HashTable E) (us : List E) (ht' : HashTable E) : Type 0 where
    pub sound : IsTable ht'
    pub found : AllFound string_it ht → AllFound string_it ht'
    pub contents : Perm (stored ht'.entries) (us ++ stored ht.entries)
    pub number : length (stored ht'.entries) ≡ length us + length (stored ht.entries)
    pub grows : ht.max_size ≤ ht'.max_size

  pub Filled-nil : (ht : HashTable E) → IsTable ht → Filled ht [] ht
  Filled-nil ht s = record {
    sound = s;
    found = λ f. f;
    contents = Perm.refl _;
    number = omega arith;
    grows = omega arith;
  }

  -- One more entry first: it went into the slot of a table at least as large.
  pub Filled-cons :
      (ht ht₁ ht' : HashTable E) (u : E) (us : List E)
      → Filled ht (u ∷ []) ht₁
      → Filled ht₁ us ht'
      → Filled ht (u ∷ us) ht'
  Filled-cons ht ht₁ ht' u us one rest = record {
    sound = rest.sound;
    found = λ f. rest.found (one.found f);
    contents =
        Perm.trans rest.contents
          (Perm.trans (Perm.append_left us one.contents) (perm_middle us (stored ht.entries)));
    number = omega (arith, one.number, rest.number);
    grows = omega (arith, one.grows, rest.grows);
  }

  Filled-put :
      (ht : HashTable E) (u : E) {start k : ℕ}
      → IsTable ht
      → Slot string_it ht u start k
      → ht.size + 1 < ht.max_size
      → Filled ht (u ∷ []) (put string_it ht k u)
  Filled-put ht u {k} s slot lt = record {
    sound = put-IsTable string_it ht u s slot lt;
    found = AllFound-put string_it ht u slot;
    contents = stored-set-Perm ht.entries k u slot.empty;
    number = omega (arith, length-stored-set ht.entries k u slot.empty);
    grows = omega arith;
  }

  -- Insertions that stay below the limit: no resizing.
  reinsert_calm :
      (fuel : ℕ) (es : List (Option E)) (ht : HashTable E)
      → IsTable ht
      → ht.size + length (stored es) < ht.max_size
      → Returns (Filled ht (stored es)) (reinsert (insert_entry string_it (suc fuel)) es ht)
  unfolding reinsert
  reinsert_calm fuel [] ht s lt = Filled-nil ht s
  reinsert_calm fuel (none ∷ es) ht s lt = reinsert_calm fuel es ht s lt
  reinsert_calm fuel (some u ∷ es) ht s lt =
      let (start, k, slot) = Slot-of_IsTable string_it ht u s in
      let one = Filled-put ht u s slot (omega arith) in
      rw (insert_entry_calm string_it fuel ht u slot (omega arith)) (
        Returns-imp {P = Filled (put string_it ht k u) (stored es)} _ _
          (reinsert_calm fuel es (put string_it ht k u) one.sound (omega arith))
          λ ht' rest. Filled-cons ht (put string_it ht k u) ht' u (stored es) one rest)

  pub empty_table-IsTable : (n m : ℕ) → n < m → IsTable {E = E} (empty_table n m)
  empty_table-IsTable n m lt = record {
    shape = length-replicate m none;
    counted = omega (arith, ap length (stored-replicate {E = E} m));
    spare = lt;
  }

  -- What is filled into an empty table in place of a full one, of at most that size.
  Filled-anew :
      (ht ht' : HashTable E) (u : E) {start k : ℕ} (n m : ℕ)
      → Slot string_it ht u start k
      → ht.max_size ≤ m
      → Filled (empty_table n m) (stored (put string_it ht k u).entries) ht'
      → Filled ht (u ∷ []) ht'
  Filled-anew ht ht' u {k} n m slot le f =
      let blank = stored-replicate {E = E} m in
      record {
        sound = f.sound;
        found = λ _. f.found (λ j e got. absurd (get_elem?-replicate-none m j e got));
        contents =
            Perm.trans (rw (blank, append-nil) at f.contents)
              (stored-set-Perm ht.entries k u slot.empty);
        number =
            omega (arith, f.number, ap length blank, length-stored-set ht.entries k u slot.empty);
        grows = omega (arith, f.grows);
      }

  -- A full table is resized: the entries move to an empty table of nearly twice the slots, whose
  -- count starts at the old one. With two slots to spare that does not reach the new limit.
  resize_calm :
      (fuel : ℕ) (ht : HashTable E) (u : E) {start k : ℕ}
      → IsTable ht
      → Slot string_it ht u start k
      → ht.size + 1 ≡ ht.max_size
      → length (stored ht.entries) + 2 < ht.max_size
      → Returns
          (Filled ht (u ∷ []))
          (resize_with (insert_entry string_it (suc fuel)) (put string_it ht k u))
  unfolding resize_with
  resize_calm fuel ht u {k} s slot full room =
      let n = ht.size + 1 in
      let m = ht.max_size * 2 - 1 in
      let number = length-stored-set ht.entries k u slot.empty in
      Returns-imp {P = Filled (empty_table n m) (stored (put string_it ht k u).entries)} _ _
        (reinsert_calm fuel (put string_it ht k u).entries (empty_table n m)
          (empty_table-IsTable n m (omega arith)) (omega (arith, number)))
        λ ht' f. Filled-anew ht ht' u n m slot (omega arith) f

  -- Insertions among which the limit may be reached once.
  insert_entry_once :
      (fuel : ℕ) (ht : HashTable E) (u : E)
      → IsTable ht
      → length (stored ht.entries) + 2 < ht.max_size
      → Returns (Filled ht (u ∷ [])) (insert_entry string_it (suc (suc fuel)) ht u)
  insert_entry_once fuel ht u s room =
      let (start, k, slot) = Slot-of_IsTable string_it ht u s in
      elim (dec_lt (ht.size + 1) ht.max_size) [
        | yes lt ↦
            rw (insert_entry_calm string_it (suc fuel) ht u slot lt) (Filled-put ht u s slot lt)
        | no ge ↦
            let full : ht.size + 1 ≡ ht.max_size = omega arith in
            rw (insert_entry_full string_it (suc fuel) ht u slot full)
              (resize_calm fuel ht u s slot full room)
      ]

  reinsert_once :
      (fuel : ℕ) (es : List (Option E)) (ht : HashTable E)
      → IsTable ht
      → length (stored ht.entries) + length (stored es) + 1 < ht.max_size
      → Returns (Filled ht (stored es)) (reinsert (insert_entry string_it (suc (suc fuel))) es ht)
  unfolding reinsert
  reinsert_once fuel [] ht s lt = Filled-nil ht s
  reinsert_once fuel (none ∷ es) ht s lt = reinsert_once fuel es ht s lt
  reinsert_once fuel (some u ∷ es) ht s lt =
      Returns-bind _ (insert_entry string_it (suc (suc fuel)) ht u) _
        (insert_entry_once fuel ht u s (omega arith))
        λ ht₁ one.
          Returns-imp {P = Filled ht₁ (stored es)} _ _
            (reinsert_once fuel es ht₁ one.sound (omega (arith, one.number, one.grows)))
            λ ht' rest. Filled-cons ht ht₁ ht' u (stored es) one rest

  -- From a well-formed table of more than two slots an insertion returns, whether it has to resize
  -- or not: three levels of nesting are enough. The new table is well-formed, has no fewer slots,
  -- and holds the old entries and the new one, each as often as before; and if in the old table
  -- every stored name was found, so it is in the new one.
  pub insert_entry-Filled :
      (ht : HashTable E) (u : E)
      → IsTable ht
      → 2 < ht.max_size
      → Returns (Filled ht (u ∷ [])) (insert_entry string_it 3 ht u)
  unfolding resize_with
  insert_entry-Filled ht u s large =
      let (start, k, slot) = Slot-of_IsTable string_it ht u s in
      elim (dec_lt (ht.size + 1) ht.max_size) [
        | yes lt ↦ rw (insert_entry_calm string_it 2 ht u slot lt) (Filled-put ht u s slot lt)
        | no ge ↦
            let full : ht.size + 1 ≡ ht.max_size = omega arith in
            let n = ht.size + 1 in
            let m = ht.max_size * 2 - 1 in
            let number = length-stored-set ht.entries k u slot.empty in
            rw (insert_entry_full string_it 2 ht u slot full) (
              Returns-imp {P = Filled (empty_table n m) (stored (put string_it ht k u).entries)} _ _
                (reinsert_once 0 (put string_it ht k u).entries (empty_table n m)
                  (empty_table-IsTable n m (omega arith))
                  (omega (arith, number, ap length (stored-replicate {E = E} m))))
                λ ht' f. Filled-anew ht ht' u n m slot (omega arith) f)
      ]
