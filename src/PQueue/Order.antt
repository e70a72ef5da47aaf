-- ===== src/PQueue/Order.antt =====
-- The queue as a list, what leaves first at the front, and what the operations do to it.
use basic_jqr.Base.{
  ℕ, zero, suc, ◌-◌, ◌*◌, ◌%◌, ◌^◌, ◌≤◌, ◌<◌, ◌≡◌, refl, sym, ap, ◌∙◌, true, Option, none, some,
  List, [], ◌∷◌, ◌++◌, append-nil, append_assoc, arith, length, length-append, length-replicate,
  get_elem?, set, take, replicate, ltb, ◌==◌, not, if◌then◌else◌, Bool-cases, inl, inr, ok, ℤ, pos,
  is_neg, u64_pred,
}
use basic_jqr.PQueue.{PQueue, to_int, pointers_in, make_room, sift}

module _ {ℓ} {A : Type ℓ} where
  pub get_elem?-append : (xs ys : List A) (x : A) → get_elem? (xs ++ x ∷ ys) (length xs) ≡ some x
  get_elem?-append [] ys x = refl
  get_elem?-append (y ∷ xs) ys x = get_elem?-append xs ys x

  pub set-append : (xs ys : List A) (x v : A) → set (xs ++ x ∷ ys) (length xs) v ≡ xs ++ v ∷ ys
  set-append [] ys x v = refl
  set-append (y ∷ xs) ys x v = ap (λ zs. y ∷ zs) (set-append xs ys x v)

  set-second :
      (xs ys : List A) (x y v : A) → set (xs ++ x ∷ y ∷ ys) (suc (length xs)) v ≡ xs ++ x ∷ v ∷ ys
  set-second [] ys x y v = refl
  set-second (z ∷ xs) ys x y v = ap (λ zs. z ∷ zs) (set-second xs ys x y v)

  take_all : (n : ℕ) (xs : List A) → length xs ≤ n → take n xs ≡ xs
  take_all zero [] le = refl
  take_all zero (x ∷ xs) le = absurd (omega arith)
  take_all (suc n) [] le = refl
  take_all (suc n) (x ∷ xs) le = ap (λ ys. x ∷ ys) (take_all n xs (omega arith))

module _ {E : Type 0} where
  -- The slots of a queue, what leaves last at the front.
  abbrev pub up : List E → List (Option E)
  up [] = []
  up (e ∷ es) = up es ++ some e ∷ []

  pub length-up : (es : List E) → length (up es) ≡ length es
  length-up [] = refl
  length-up (e ∷ es) = omega (arith, length-append (up es) (some e ∷ []), length-up es)

  -- The queue holds `es`, what leaves first at the front: those are its first slots from the end,
  -- there is at least one slot more, and the counts fit into an `int`.
  pub record IsQueue (pq : PQueue E) (es : List E) : Type 0 where
    pub size : pq.size ≡ length es
    pub rest : List (Option E)
    pub queue : pq.queue ≡ up es ++ rest
    pub whole : length pq.queue ≡ pq.max_size
    pub spare : length es < pq.max_size
    pub two : 2 ≤ pq.max_size
    pub small : pq.max_size ≤ 2 ^ 31

  -- The list that an operation leaves.
  abbrev pub QueueOf : List E → Option (PQueue E) → Type 0
  QueueOf es none = ⊥
  QueueOf es (some pq) = IsQueue pq es

module _ {E : Type 0} (comp : E → E → ℤ) where
  -- Where `data` goes: before the first that it is not less than.
  unfoldable pub place : E → List E → List E
  place d [] = d ∷ []
  place d (e ∷ es) = if not (is_neg (comp d e)) then d ∷ e ∷ es else e ∷ place d es

  pub length-place : (d : E) (es : List E) → length (place d es) ≡ suc (length es)
  unfolding place
  length-place d [] = refl
  length-place d (e ∷ es) = elim (Bool-cases (not (is_neg (comp d e)))) [
    | inl f ↦ rw f refl
    | inr f ↦ rw f (ap suc (length-place d es))
  ]

  pub sift-place :
      (d : E) (es : List E) (rest : List (Option E))
      → sift comp (length es) (up es ++ some d ∷ rest) d ≡ ok (up (place d es) ++ rest)
  unfolding sift place
  sift-place d [] rest = refl
  sift-place d (e ∷ es) rest =
      let flat : up (e ∷ es) ++ some d ∷ rest ≡ up es ++ some e ∷ some d ∷ rest =
        append_assoc (up es) (some e ∷ []) (some d ∷ rest) in
      let here : get_elem? (up es ++ some e ∷ some d ∷ rest) (length es) ≡ some (some e) =
        rw (sym (length-up es)) (get_elem?-append (up es) (some d ∷ rest) (some e)) in
      let moved : set (set (up es ++ some e ∷ some d ∷ rest) (suc (length es)) (some e)) (length es)
            (some d)
          ≡ up es ++ some d ∷ some e ∷ rest =
        rw (sym (length-up es), set-second (up es) rest (some e) (some d) (some e))
          (set-append (up es) (some e ∷ rest) (some e) (some d)) in
      rw (flat, here, moved)
        (elim (Bool-cases (not (is_neg (comp d e)))) [
          | inl f ↦ rw f (
              ap ok (
                sym (
                  append_assoc (up es ++ some e ∷ []) (some d ∷ []) rest
                  ∙ append_assoc (up es) (some e ∷ []) (some d ∷ rest))))
          | inr f ↦ rw f (
              sift-place d es (some e ∷ rest)
              ∙ ap ok (sym (append_assoc (up (place d es)) (some e ∷ []) rest)))
        ])

pub to_int_small : (n : ℕ) → n < 2 ^ 31 → to_int n ≡ pos n
to_int_small n lt =
    let same : n % 2 ^ 32 ≡ n = omega arith in
    let below_sign : ltb n (2 ^ 31) ≡ true = ground arith in rw (same, below_sign) refl

pub pointers_in_small : (n : ℕ) → n ≤ 2 ^ 32 → pointers_in n ≡ n
pointers_in_small n le = omega arith

module _ {E : Type 0} where
  -- As `IsQueue`, with a slot for one more and another one.
  pub record HasRoom (pq : PQueue E) (es : List E) : Type 0 where
    pub size : pq.size ≡ length es
    pub slot : Option E
    pub rest : List (Option E)
    pub queue : pq.queue ≡ up es ++ slot ∷ rest
    pub whole : length pq.queue ≡ pq.max_size
    pub spare : suc (length es) < pq.max_size
    pub small : pq.max_size ≤ 2 ^ 31

  IsQueue-rest :
      (pq : PQueue E) (es : List E)
      → IsQueue pq es
      → (slot : Option E) × (rest : List (Option E)) × (pq.queue ≡ up es ++ slot ∷ rest)
  IsQueue-rest pq es q = go q.rest q.queue
    where
      go :
          (rest : List (Option E))
          → pq.queue ≡ up es ++ rest
          → (slot : Option E) × (rest' : List (Option E)) × (pq.queue ≡ up es ++ slot ∷ rest')
      go (x ∷ xs) e = (x, xs, e)
      go [] e =
          let full : length pq.queue ≡ length (up es) = ap length (e ∙ append-nil (up es)) in
          absurd (omega (arith, full, length-up es, q.whole, q.spare))

  pub make_room-HasRoom :
      (pq : PQueue E) (es : List E)
      → IsQueue pq es
      → length es < 2 ^ 30
      → 0 < length es
      → HasRoom (make_room true pq) es
  unfolding make_room
  make_room-HasRoom pq es q room some_data =
      let (slot, rest, at) = IsQueue-rest pq es q in
      let pred : u64_pred pq.max_size ≡ pq.max_size - 1 = omega (arith, q.two, q.small) in
      elim (Bool-cases (pq.size == u64_pred pq.max_size)) [
        | inl e ↦
            let le : pq.max_size * 2 ≤ 2 ^ 31 = ground (arith, room, q.size, pred, e, q.two) in
            let same : pq.max_size * 2 % 2 ^ 64 ≡ pq.max_size * 2 = omega (arith, le) in
            let all : pointers_in (pq.max_size * 2) ≡ pq.max_size * 2 =
              pointers_in_small _ (omega (arith, le)) in
            let kept : take (pq.max_size * 2) pq.queue ≡ pq.queue =
              take_all _ pq.queue (omega (arith, q.whole)) in
            let len : length (replicate {A = Option E} (pq.max_size * 2 - length pq.queue) none)
                ≡ pq.max_size * 2 - length pq.queue =
              length-replicate _ none in
            let more : List (Option E) = replicate (pq.max_size * 2 - length pq.queue) none in
            rw (e, same, all, kept)
              (record {
                size = q.size;
                slot = slot;
                rest = rest ++ more;
                queue = ap (λ xs. xs ++ more) at ∙ append_assoc (up es) (slot ∷ rest) more;
                whole = omega (arith, q.whole, length-append pq.queue more);
                spare = omega (arith, q.spare, q.two);
                small = le;
              })
        | inr e ↦ rw e (record {
          size = q.size;
          slot = slot;
          rest = rest;
          queue = at;
          whole = q.whole;
          spare = ground (arith, q.spare, q.size, pred, e);
          small = q.small;
        })
      ]
