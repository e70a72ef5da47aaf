-- ===== src/PQueue/Find.antt =====
-- What find_data of pqueue.c answers.
use basic_jqr.Base.{
  Bool-cases, ℕ, zero, suc, ◌≡◌, ◌≢◌, refl, sym, ap, ◌∙◌, false, Option, some, List, [], ◌∷◌, ◌++◌,
  append_assoc, arith, length, length-append, get_elem?, All, All-append, ◌==◌, ◌⊎◌, inl, inr, ok,
  ℤ, pos, negsuc,
}
use basic_jqr.PQueue.{PQueue, find_from, find_data}
use basic_jqr.PQueue.Order.{get_elem?-append, up, IsQueue}
use basic_jqr.PQueue.Drain.{somes}

pub ℤ-cases : (z : ℤ) → (z ≡ pos 0) ⊎ ((n : ℕ) × (z ≡ pos (suc n))) ⊎ ((n : ℕ) × (z ≡ negsuc n))
ℤ-cases (pos zero) = inl refl
ℤ-cases (pos (suc n)) = inr (inl (n, refl))
ℤ-cases (negsuc n) = inr (inr (n, refl))

module _ {E : Type 0} where
  length-snoc : (xs : List (Option E)) (x : Option E) → length (xs ++ x ∷ []) ≡ suc (length xs)
  length-snoc xs x = omega (arith, length-append xs (x ∷ []))

  somes-append : (xs ys : List E) → somes (xs ++ ys) ≡ somes xs ++ somes ys
  somes-append [] ys = refl
  somes-append (x ∷ xs) ys = ap (λ zs. some x ∷ zs) (somes-append xs ys)

  -- The entries in the order of their slots.
  abbrev slots_of : List E → List E
  slots_of [] = []
  slots_of (e ∷ es) = slots_of es ++ e ∷ []

  up-somes : (es : List E) → up es ≡ somes (slots_of es)
  up-somes [] = refl
  up-somes (e ∷ es) = rw (up-somes es) (sym (somes-append (slots_of es) (e ∷ [])))

  length-slots_of : (es : List E) → length (slots_of es) ≡ length es
  length-slots_of [] = refl
  length-slots_of (e ∷ es) = omega (arith, length-append (slots_of es) (e ∷ []), length-slots_of es)

  All-slots_of : (P : E → Type 0) (es : List E) → All P es → All P (slots_of es)
  All-slots_of P [] a = tt
  All-slots_of P (e ∷ es) a = All-append P (slots_of es) (e ∷ []) (All-slots_of P es a.1) (a.0, tt)

module _ {E : Type 0} (comp : E → E → ℤ) where
  find_from-false :
      (d : E) (q pre post : List (Option E)) (ys : List E) (n : ℕ)
      → q ≡ pre ++ (somes ys ++ post)
      → n ≡ length ys
      → All (λ y. comp d y ≢ pos 0) ys
      → find_from comp q d (length pre) n ≡ ok false
  unfolding find_from
  find_from-false d q pre post ys zero e count a = refl
  find_from-false d q pre post [] (suc n) e count a = absurd (omega arith)
  find_from-false d q pre post (y ∷ ys) (suc n) e count a =
      let here : get_elem? q (length pre) ≡ some (some y) =
        rw e (get_elem?-append pre (somes ys ++ post) (some y)) in
      let next : find_from comp q d (length (pre ++ some y ∷ [])) n ≡ ok false =
        find_from-false d q (pre ++ some y ∷ []) post ys n
          (e ∙ sym (append_assoc pre (some y ∷ []) (somes ys ++ post))) (omega (arith, count))
          a.1 in
      let next' : find_from comp q d (suc (length pre)) n ≡ ok false =
        rw (length-snoc pre (some y)) at next in
      rw here (elim (ℤ-cases (comp d y)) [
        | inl z ↦ absurd (a.0 z)
        | inr (inl (k, z)) ↦ rw z next'
        | inr (inr (k, z)) ↦ rw z next'
      ])

  -- Data that compares as equal with nothing in the queue is not found.
  pub find_data-false :
      (pq : PQueue E) (es : List E) (d : E)
      → IsQueue pq es
      → All (λ e. comp d e ≢ pos 0) es
      → find_data comp (some pq) (some d) ≡ ok false
  unfolding find_data
  find_data-false pq es d q a =
      let found : find_from comp pq.queue d 0 pq.size ≡ ok false =
        find_from-false d pq.queue [] q.rest (slots_of es) pq.size
          (q.queue ∙ ap (λ xs. xs ++ q.rest) (up-somes es)) (q.size ∙ sym (length-slots_of es))
          (All-slots_of _ es a) in
      elim (Bool-cases (pq.size == 0)) [ inl e ↦ rw e refl | inr e ↦ rw (e, found) refl ]
