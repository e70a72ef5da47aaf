-- ===== src/Heap/Linked.antt =====
-- Chains of nodes in a heap: the addresses with what is stored there, in the order of `next`.
use basic_jqr.Base.{
  ℕ, ◌≡◌, ◌≢◌, refl, sym, ◌∙◌, Option, some, List, [], ◌∷◌, ◌++◌, arith, length, ==_refl, All,
  All-append, All-left, All-right, All-imp, ok,
}
use basic_jqr.Heap.{Cell, cell, Heap, write, walk}

-- Addresses and contents of nodes, in order.
abbrev pub Cells : Type 0 → Type 0
Cells E = List (ℕ × E)

module _ {E : Type 0} where
  -- The address that a chain starts at, if it goes on to `stop`.
  abbrev pub first : Cells E → Option ℕ → Option ℕ
  first [] stop = stop
  first ((a, d) ∷ cs) stop = some a

  -- The nodes are in the heap, each with the next one, and the last with `stop`.
  abbrev pub Linked : Heap E → Cells E → Option ℕ → Type 0
  Linked h [] stop = Unit
  Linked h ((a, d) ∷ cs) stop = (h a ≡ some (cell d (first cs stop))) × Linked h cs stop

  -- An address that is none of theirs.
  abbrev pub Apart : ℕ → Cells E → Type 0
  Apart a cs = All (λ (b, d). a ≢ b) cs

  abbrev pub Distinct : Cells E → Type 0
  Distinct [] = Unit
  Distinct ((a, d) ∷ cs) = Apart a cs × Distinct cs

  -- The last node of a chain that starts with a given one.
  abbrev pub last_of : ℕ × E → Cells E → ℕ × E
  last_of c [] = c
  last_of c (d ∷ cs) = last_of d cs

  -- Outside the nodes the heap is as before.
  abbrev pub SameOutside : Cells E → Heap E → Heap E → Type 0
  SameOutside cs h h' = (a : ℕ) → Apart a cs → h' a ≡ h a

  pub write_self : (h : Heap E) (a : ℕ) (c : Option (Cell E)) → write h a c a ≡ c
  unfolding write
  write_self h a c = rw (==_refl a)

  pub write_ne : (h : Heap E) (a b : ℕ) (c : Option (Cell E)) → a ≢ b → write h a c b ≡ h b
  unfolding write
  write_ne h a b c apart = ground arith

  -- A chain survives whatever leaves its own nodes alone.
  pub Linked-frame :
      (h h' : Heap E) (cs : Cells E) (stop : Option ℕ)
      → Linked h cs stop
      → All (λ (a, d). h' a ≡ h a) cs
      → Linked h' cs stop
  Linked-frame h h' [] stop l s = tt
  Linked-frame h h' ((a, d) ∷ cs) stop l s = (s.0 ∙ l.0, Linked-frame h h' cs stop l.1 s.1)

  pub Linked-write :
      (h : Heap E) (cs : Cells E) (stop : Option ℕ) (a : ℕ) (c : Option (Cell E))
      → Apart a cs
      → Linked h cs stop
      → Linked (write h a c) cs stop
  Linked-write h cs stop a c apart l =
      Linked-frame h (write h a c) cs stop l (All-imp (λ (b, d) ne. write_ne h a b c ne) cs apart)

  pub Linked-outside :
      (h h' : Heap E) (xs cs : Cells E) (stop : Option ℕ)
      → SameOutside xs h h'
      → All (λ (a, d). Apart a xs) cs
      → Linked h cs stop
      → Linked h' cs stop
  Linked-outside h h' xs cs stop same apart l =
      Linked-frame h h' cs stop l (All-imp (λ (a, d) out. same a out) cs apart)

  pub Linked-left :
      (h : Heap E) (xs ys : Cells E) (stop : Option ℕ)
      → Linked h (xs ++ ys) stop
      → Linked h xs (first ys stop)
  Linked-left h [] ys stop l = tt
  Linked-left h ((a, d) ∷ []) ys stop l = (l.0, tt)
  Linked-left h ((a, d) ∷ x ∷ xs) ys stop l = (l.0, Linked-left h (x ∷ xs) ys stop l.1)

  pub Linked-right :
      (h : Heap E) (xs ys : Cells E) (stop : Option ℕ) → Linked h (xs ++ ys) stop → Linked h ys stop
  Linked-right h [] ys stop l = l
  Linked-right h (x ∷ xs) ys stop l = Linked-right h xs ys stop l.1

  pub Linked-append :
      (h : Heap E) (xs ys : Cells E) (stop : Option ℕ)
      → Linked h xs (first ys stop)
      → Linked h ys stop
      → Linked h (xs ++ ys) stop
  Linked-append h [] ys stop l r = r
  Linked-append h ((a, d) ∷ []) ys stop l r = (l.0, r)
  Linked-append h ((a, d) ∷ x ∷ xs) ys stop l r = (l.0, Linked-append h (x ∷ xs) ys stop l.1 r)

  -- The last node goes on to where the chain does.
  pub Linked-last :
      (h : Heap E) (c : ℕ × E) (cs : Cells E) (stop : Option ℕ)
      → Linked h (c ∷ cs) stop
      → h (last_of c cs).0 ≡ some (cell (last_of c cs).1 stop)
  Linked-last h c [] stop l = l.0
  Linked-last h c (d ∷ cs) stop l = Linked-last h d cs stop l.1

  pub Apart-last : (a : ℕ) (c : ℕ × E) (cs : Cells E) → Apart a (c ∷ cs) → a ≢ (last_of c cs).0
  Apart-last a c [] apart = apart.0
  Apart-last a c (d ∷ cs) apart = Apart-last a d cs apart.1

  -- The last node is made to go on elsewhere.
  pub Linked-relink :
      (h : Heap E) (c : ℕ × E) (cs : Cells E) (stop stop' : Option ℕ)
      → Distinct (c ∷ cs)
      → Linked h (c ∷ cs) stop
      → Linked (write h (last_of c cs).0 (some (cell (last_of c cs).1 stop'))) (c ∷ cs) stop'
  Linked-relink h c [] stop stop' apart l = (write_self h c.0 (some (cell c.1 stop')), tt)
  Linked-relink h c (d ∷ cs) stop stop' apart l = (
    write_ne h _ c.0 _ (λ e. Apart-last c.0 d cs apart.0 (sym e)) ∙ l.0,
    Linked-relink h d cs stop stop' apart.1 l.1,
  )

  -- Going along a chain.
  pub walk-Linked :
      (h : Heap E) (xs ys : Cells E) (stop : Option ℕ)
      → Linked h (xs ++ ys) stop
      → walk h (first (xs ++ ys) stop) (length xs) ≡ ok (first ys stop)
  unfolding walk
  walk-Linked h [] ys stop l = refl
  walk-Linked h ((a, d) ∷ xs) ys stop l = rw (l.0) (walk-Linked h xs ys stop l.1)

  pub Distinct-left : (xs ys : Cells E) → Distinct (xs ++ ys) → Distinct xs
  Distinct-left [] ys d = tt
  Distinct-left (x ∷ xs) ys d = (All-left _ xs ys d.0, Distinct-left xs ys d.1)

  pub Distinct-right : (xs ys : Cells E) → Distinct (xs ++ ys) → Distinct ys
  Distinct-right [] ys d = d
  Distinct-right (x ∷ xs) ys d = Distinct-right xs ys d.1

  All-everywhere : (ys : Cells E) → All (λ (a, d). Unit {0}) ys
  All-everywhere [] = tt
  All-everywhere (y ∷ ys) = (tt, All-everywhere ys)

  Apart-cons :
      (x : ℕ × E) (xs ys : Cells E)
      → Apart x.0 ys
      → All (λ (a, d). Apart a xs) ys
      → All (λ (a, d). Apart a (x ∷ xs)) ys
  Apart-cons x xs [] e f = tt
  Apart-cons x xs (y ∷ ys) e f = ((λ q. e.0 (sym q), f.0), Apart-cons x xs ys e.1 f.1)

  -- The nodes of two parts of a chain are not the same.
  pub Distinct-Apart : (xs ys : Cells E) → Distinct (xs ++ ys) → All (λ (a, d). Apart a xs) ys
  Distinct-Apart [] ys d = All-everywhere ys
  Distinct-Apart (x ∷ xs) ys d =
      Apart-cons x xs ys (All-right _ xs ys d.0) (Distinct-Apart xs ys d.1)

  pub walk-last_of :
      (h : Heap E) (m : ℕ × E) (ms : Cells E) (stop : Option ℕ)
      → Linked h (m ∷ ms) stop
      → walk h (some m.0) (length ms) ≡ ok (some (last_of m ms).0)
  unfolding walk
  walk-last_of h m [] stop l = refl
  walk-last_of h m (x ∷ ms) stop l = rw (l.0) (walk-last_of h x ms stop l.1)

  pub last_of-snoc : (c : ℕ × E) (cs : Cells E) (d : ℕ × E) → last_of c (cs ++ d ∷ []) ≡ d
  last_of-snoc c [] d = refl
  last_of-snoc c (x ∷ cs) d = last_of-snoc x cs d

  pub Distinct-snoc :
      (cs : Cells E) (a : ℕ) (d : E) → Distinct cs → Apart a cs → Distinct (cs ++ (a, d) ∷ [])
  Distinct-snoc [] a d u apart = (tt, tt)
  Distinct-snoc (x ∷ cs) a d u apart = (
    All-append _ cs ((a, d) ∷ []) u.0 ((λ e. apart.0 (sym e)), tt),
    Distinct-snoc cs a d u.1 apart.1,
  )
