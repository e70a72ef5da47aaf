-- ===== src/HashTable/Slots.antt =====
-- What a table of my_ht.c holds, and what one filled slot changes.
use mathlib.Core.List.{Mem, Perm, mem-cons, not-mem-nil}
use mathlib.Core.List.Perm
use mathlib.Core.Logic.Or
use basic_jqr.Base.{
  ℕ, zero, suc, ◌<◌, ◌≡◌, ◌≢◌, refl, sym, ap, Option, none, some, List, [], ◌∷◌, arith, length,
  get_elem?, set, replicate,
}

module _ {E : Type 0} where
  -- The entries of a table in the order of their slots.
  abbrev pub stored : List (Option E) → List E
  stored [] = []
  stored (none ∷ es) = stored es
  stored (some e ∷ es) = e ∷ stored es

  pub stored-replicate : (n : ℕ) → stored (replicate n none) ≡ []
  stored-replicate zero = refl
  stored-replicate (suc n) = stored-replicate n

  pub get_elem?-replicate-none : (n k : ℕ) (e : E) → get_elem? (replicate n none) k ≢ some (some e)
  get_elem?-replicate-none zero k e h = cc
  get_elem?-replicate-none (suc n) zero e h = cc
  get_elem?-replicate-none (suc n) (suc k) e h = get_elem?-replicate-none n k e h

  -- A table with fewer entries than slots has an empty slot.
  pub empty_slot :
      (es : List (Option E))
      → length (stored es) < length es
      → (k : ℕ) × (k < length es) × (get_elem? es k ≡ some none)
  empty_slot [] h = elim h [ ]
  empty_slot (none ∷ es) h = (0, omega arith, refl)
  empty_slot (some e ∷ es) h =
      let (k, lt, got) = empty_slot es (omega arith) in (suc k, omega arith, got)

  pub stored-set-Perm :
      (es : List (Option E)) (k : ℕ) (u : E)
      → get_elem? es k ≡ some none
      → Perm (stored (set es k (some u))) (u ∷ stored es)
  stored-set-Perm [] k u h = absurd (cc)
  stored-set-Perm (none ∷ es) zero u h = Perm.refl _
  stored-set-Perm (some e ∷ es) zero u h = absurd (cc)
  stored-set-Perm (none ∷ es) (suc k) u h = stored-set-Perm es k u h
  stored-set-Perm (some e ∷ es) (suc k) u h =
      Perm.trans (Perm.cons e (stored-set-Perm es k u h)) (Perm.swap u e (stored es))

  pub length-stored-set :
      (es : List (Option E)) (k : ℕ) (u : E)
      → get_elem? es k ≡ some none
      → length (stored (set es k (some u))) ≡ suc (length (stored es))
  length-stored-set [] k u h = absurd (cc)
  length-stored-set (none ∷ es) zero u h = refl
  length-stored-set (some e ∷ es) zero u h = absurd (cc)
  length-stored-set (none ∷ es) (suc k) u h = length-stored-set es k u h
  length-stored-set (some e ∷ es) (suc k) u h = ap suc (length-stored-set es k u h)

  pub slot_of_Mem :
      {P : Type 0} (es : List (Option E)) (e : E)
      → IsProp P
      → ((k : ℕ) → get_elem? es k ≡ some (some e) → P)
      → Mem e (stored es)
      → P
  slot_of_Mem [] e prop f m = absurd (not-mem-nil m)
  slot_of_Mem (none ∷ es) e prop f m = slot_of_Mem es e prop (λ k. f (suc k)) m
  slot_of_Mem (some x ∷ es) e prop f m =
      Or.elim prop (mem-cons.0 m) (λ q. f 0 (ap (λ y. some (some y)) (sym q)))
        (slot_of_Mem es e prop (λ k. f (suc k)))
