-- ===== src/Circle/Sort.antt =====
-- The sort of circle_link.c as a whole: the nodes of the ring, put in descending order.
use mathlib.Core.List.{Perm, perm_middle}
use mathlib.Core.List.Perm
use basic_jqr.Base.{
  ℕ, zero, suc, ◌+◌, ◌≤◌, ◌<◌, ◌≡◌, ◌≢◌, refl, sym, ap, ◌∙◌, true, false, [], ◌∷◌, ◌++◌, append-nil,
  arith, length, length-append, All, All-left, All-right, All-imp, Bool-cases, inl, inr, ℤ,
}
use basic_jqr.Avl.Sorted.{IsOrder}
use basic_jqr.Heap.Linked.{Cells, Apart, Distinct, Distinct-left, Distinct-right, Distinct-Apart}
use basic_jqr.Circle.Merge.{
  halves, halves-append, length-halves, Across, stays_first, merge_cells, sort_cells,
  All-merge_cells, Distinct-merge_cells,
}

module _ {E : Type 0} where
  pub Across-sym : (xs ys : Cells E) → Across xs ys → Across ys xs
  Across-sym [] ys x = tt
  Across-sym (a ∷ xs) ys x = (
    All-imp (λ (b, d) out e. out.0 (sym e)) ys x,
    Across-sym xs ys (All-imp (λ (b, d) out. out.1) ys x),
  )

  -- The halves of a list of two nodes or more are both shorter.
  pub length-front :
      (c r : ℕ × E) (rest : Cells E) → length (halves (r ∷ rest) (r ∷ rest)).0 ≤ length rest
  length-front c r rest = omega (arith, length-halves (r ∷ rest) (r ∷ rest))

  pub length-both :
      (rest : Cells E) → length (halves rest rest).0 + length (halves rest rest).1 ≡ length rest
  length-both rest =
      sym (length-append (halves rest rest).0 (halves rest rest).1)
      ∙ ap length (halves-append rest rest)

module _ {E : Type 0} (comp : E → E → ℤ) where
  length-merge_cells :
      (fuel : ℕ) (xs ys : Cells E) → length (merge_cells comp fuel xs ys) ≡ length xs + length ys
  unfolding merge_cells
  length-merge_cells zero xs ys = length-append xs ys
  length-merge_cells (suc fuel) [] ys = omega arith
  length-merge_cells (suc fuel) (a ∷ xs) [] = omega arith
  length-merge_cells (suc fuel) (a ∷ xs) (b ∷ ys) = elim (Bool-cases (stays_first comp a b)) [
    | inl e ↦ rw e (omega (arith, length-merge_cells fuel xs (b ∷ ys)))
    | inr e ↦ rw e (omega (arith, length-merge_cells fuel (a ∷ xs) ys))
  ]

  pub length-sort_cells : (fuel : ℕ) (cs : Cells E) → length (sort_cells comp fuel cs) ≡ length cs
  unfolding sort_cells
  length-sort_cells zero cs = refl
  length-sort_cells (suc fuel) [] = refl
  length-sort_cells (suc fuel) (c ∷ []) = refl
  length-sort_cells (suc fuel) (c ∷ r ∷ rest) =
      let x = (halves (r ∷ rest) (r ∷ rest)).0 in
      let y = (halves (r ∷ rest) (r ∷ rest)).1 in
      omega (
        arith,
        length-merge_cells fuel (sort_cells comp fuel (c ∷ x)) (sort_cells comp fuel y),
        length-sort_cells fuel (c ∷ x),
        length-sort_cells fuel y,
        length-both (r ∷ rest),
      )

  pub All-sort_cells :
      (P : ℕ × E → Type 0) (fuel : ℕ) (cs : Cells E) → All P cs → All P (sort_cells comp fuel cs)
  unfolding sort_cells
  All-sort_cells P zero cs p = p
  All-sort_cells P (suc fuel) [] p = p
  All-sort_cells P (suc fuel) (c ∷ []) p = p
  All-sort_cells P (suc fuel) (c ∷ r ∷ rest) p =
      let x = (halves (r ∷ rest) (r ∷ rest)).0 in
      let y = (halves (r ∷ rest) (r ∷ rest)).1 in
      let parts : All P (x ++ y) = rw (halves-append (r ∷ rest) (r ∷ rest)) p.1 in
      All-merge_cells comp P fuel _ _ (All-sort_cells P fuel (c ∷ x) (p.0, All-left P x y parts))
        (All-sort_cells P fuel y (All-right P x y parts))

  merge_cells-Perm : (fuel : ℕ) (xs ys : Cells E) → Perm (merge_cells comp fuel xs ys) (xs ++ ys)
  unfolding merge_cells
  merge_cells-Perm zero xs ys = Perm.refl _
  merge_cells-Perm (suc fuel) [] ys = Perm.refl _
  merge_cells-Perm (suc fuel) (a ∷ xs) [] = rw append-nil (Perm.refl _)
  merge_cells-Perm (suc fuel) (a ∷ xs) (b ∷ ys) = elim (Bool-cases (stays_first comp a b)) [
    | inl e ↦ rw e (Perm.cons a (merge_cells-Perm fuel xs (b ∷ ys)))
    | inr e ↦ rw e (
        Perm.trans (Perm.cons b (merge_cells-Perm fuel (a ∷ xs) ys))
          (Perm.symm (perm_middle (a ∷ xs) ys)))
  ]

  pub sort_cells-Perm : (fuel : ℕ) (cs : Cells E) → Perm (sort_cells comp fuel cs) cs
  unfolding sort_cells
  sort_cells-Perm zero cs = Perm.refl _
  sort_cells-Perm (suc fuel) [] = Perm.refl _
  sort_cells-Perm (suc fuel) (c ∷ []) = Perm.refl _
  sort_cells-Perm (suc fuel) (c ∷ r ∷ rest) =
      let x = (halves (r ∷ rest) (r ∷ rest)).0 in
      let y = (halves (r ∷ rest) (r ∷ rest)).1 in
      let parts : Perm ((c ∷ x) ++ y) (c ∷ r ∷ rest) =
        rw (halves-append (r ∷ rest) (r ∷ rest)) (Perm.refl _) in
      Perm.trans (merge_cells-Perm fuel _ _)
        (Perm.trans (Perm.append (sort_cells-Perm fuel (c ∷ x)) (sort_cells-Perm fuel y)) parts)

  -- Each node's data is at least the data after it.
  abbrev pub IsDescending : Cells E → Type 0
  IsDescending [] = Unit
  IsDescending (c ∷ cs) = All (λ d. stays_first comp c d ≡ true) cs × IsDescending cs

  module _ (o : IsOrder comp) where
    stays_first_trans :
        (a b c : ℕ × E)
        → stays_first comp a b ≡ true
        → stays_first comp b c ≡ true
        → stays_first comp a c ≡ true
    stays_first_trans a b c e f = ground (arith, o.not_below_trans a.1 b.1 c.1)

    stays_first_total : (a b : ℕ × E) → stays_first comp a b ≡ false → stays_first comp b a ≡ true
    stays_first_total a b e = ground (arith, o.below_trans a.1 b.1 a.1, o.below_irrefl a.1)

    before_all :
        (a b : ℕ × E) (cs : Cells E)
        → stays_first comp a b ≡ true
        → All (λ d. stays_first comp b d ≡ true) cs
        → All (λ d. stays_first comp a d ≡ true) cs
    before_all a b cs e = All-imp (λ d f. stays_first_trans a b d e f) cs

    merge_cells-IsDescending :
        (fuel : ℕ) (xs ys : Cells E)
        → length xs + length ys < fuel
        → IsDescending xs
        → IsDescending ys
        → IsDescending (merge_cells comp fuel xs ys)
    unfolding merge_cells
    merge_cells-IsDescending zero xs ys lt sx sy = absurd (omega arith)
    merge_cells-IsDescending (suc fuel) [] ys lt sx sy = sy
    merge_cells-IsDescending (suc fuel) (a ∷ xs) [] lt sx sy = sx
    merge_cells-IsDescending (suc fuel) (a ∷ xs) (b ∷ ys) lt sx sy =
        elim (Bool-cases (stays_first comp a b)) [
          | inl e ↦ rw e (
            All-merge_cells comp _ fuel xs (b ∷ ys) sx.0 (e, before_all a b ys e sy.0),
            merge_cells-IsDescending fuel xs (b ∷ ys) (omega arith) sx.1 sy,
          )
          | inr e ↦
              let f = stays_first_total a b e in
              rw e (
                All-merge_cells comp _ fuel (a ∷ xs) ys (f, before_all b a xs f sx.0) sy.0,
                merge_cells-IsDescending fuel (a ∷ xs) ys (omega arith) sx sy.1,
              )
        ]

    pub sort_cells-IsDescending :
        (fuel : ℕ) (cs : Cells E) → length cs + 1 < fuel → IsDescending (sort_cells comp fuel cs)
    unfolding sort_cells
    sort_cells-IsDescending zero cs lt = absurd (omega arith)
    sort_cells-IsDescending (suc fuel) [] lt = tt
    sort_cells-IsDescending (suc fuel) (c ∷ []) lt = (tt, tt)
    sort_cells-IsDescending (suc fuel) (c ∷ r ∷ rest) lt =
        let x = (halves (r ∷ rest) (r ∷ rest)).0 in
        let y = (halves (r ∷ rest) (r ∷ rest)).1 in
        let both = length-both (r ∷ rest) in
        let front = length-front c r rest in
        merge_cells-IsDescending fuel _ _
          (omega (arith, length-sort_cells fuel (c ∷ x), length-sort_cells fuel y, both))
          (sort_cells-IsDescending fuel (c ∷ x) (omega (arith, front)))
          (sort_cells-IsDescending fuel y (omega (arith, both)))

  -- What the recursion needs of the two halves of a chain.
  pub Distinct-halves :
      (c : ℕ × E) (rest : Cells E)
      → Distinct (c ∷ rest)
      → Distinct (c ∷ (halves rest rest).0)
        × Distinct (halves rest rest).1
        × Across (c ∷ (halves rest rest).0) (halves rest rest).1
  Distinct-halves c rest u =
      let x = (halves rest rest).0 in
      let y = (halves rest rest).1 in
      let u' : Distinct ((c ∷ x) ++ y) = rw (halves-append rest rest) u in
      (Distinct-left (c ∷ x) y u', Distinct-right (c ∷ x) y u', Distinct-Apart (c ∷ x) y u')

  pub Across-sort_cells :
      (f g : ℕ) (xs ys : Cells E)
      → Across xs ys
      → Across (sort_cells comp f xs) (sort_cells comp g ys)
  Across-sort_cells f g xs ys x =
      All-sort_cells (λ (b, d). Apart b (sort_cells comp f xs)) g ys
        (All-imp (λ (b, d) out. All-sort_cells (λ (c, e). b ≢ c) f xs out) ys x)

  pub Distinct-sort_cells :
      (fuel : ℕ) (cs : Cells E)
      → length cs + 1 < fuel
      → Distinct cs
      → Distinct (sort_cells comp fuel cs)
  unfolding sort_cells
  Distinct-sort_cells zero cs lt u = u
  Distinct-sort_cells (suc fuel) [] lt u = u
  Distinct-sort_cells (suc fuel) (c ∷ []) lt u = u
  Distinct-sort_cells (suc fuel) (c ∷ r ∷ rest) lt u =
      let x = (halves (r ∷ rest) (r ∷ rest)).0 in
      let y = (halves (r ∷ rest) (r ∷ rest)).1 in
      let both = length-both (r ∷ rest) in
      let (ux, uy, across) = Distinct-halves c (r ∷ rest) u in
      Distinct-merge_cells comp fuel _ _
        (omega (arith, length-sort_cells fuel (c ∷ x), length-sort_cells fuel y, both))
        (Distinct-sort_cells fuel (c ∷ x) (omega (arith, length-front c r rest)) ux)
        (Distinct-sort_cells fuel y (omega (arith, both)) uy)
        (Across-sort_cells fuel fuel (c ∷ x) y across)
