-- ===== src/PQueue/Drain.antt =====
-- A client of the priority queue that puts data in and takes all of it out: the data comes out in
-- descending order.
use mathlib.Core.List.{Perm, perm_middle}
use mathlib.Core.List.Perm
use basic_jqr.Base.{
  ℕ, zero, suc, ◌+◌, ◌^◌, ◌≤◌, ◌≡◌, refl, sym, ap, ◌∙◌, true, Option, none, some, List, [], ◌∷◌,
  ◌++◌, arith, length, length-append, append-nil, not, All, All-imp, Bool-cases, inl, inr, Outcome,
  ok, Returns, Returns-bind, Returns-imp, ◌>>=◌, ℤ, is_neg,
}
use basic_jqr.Avl.Sorted.{IsOrder}
use basic_jqr.PQueue.{PQueue, dequeue, enqueue, create_pqueue}
use basic_jqr.PQueue.Order.{QueueOf, place, length-place}
use basic_jqr.PQueue.Enqueue.{dequeue-IsQueue, enqueue-IsQueue, create_pqueue-IsQueue}

module _ {E : Type 0} where
  -- `dequeue` again and again, `n` times.
  unfoldable pub drain : ℕ → Option (PQueue E) → Outcome (List (Option E) × Option (PQueue E))
  drain zero pq = ok ([], pq)
  drain (suc n) pq =
      dequeue pq >>= λ (pq', top). drain n pq' >>= λ (tops, pq''). ok (top ∷ tops, pq'')

  abbrev pub somes : List E → List (Option E)
  somes [] = []
  somes (e ∷ es) = some e ∷ somes es

  drain-IsQueue :
      (pq : Option (PQueue E)) (es : List E)
      → QueueOf es pq
      → Returns (λ (tops, pq'). (tops ≡ somes es) × QueueOf [] pq') (drain (length es) pq)
  unfolding drain
  drain-IsQueue none es q = absurd q
  drain-IsQueue (some pq) [] q = (refl, q)
  drain-IsQueue (some pq) (e ∷ es) q =
      Returns-bind _ (dequeue (some pq)) _ (dequeue-IsQueue pq e es q) λ (pq', top) (q', at).
        Returns-bind _ (drain (length es) pq') _ (drain-IsQueue pq' es q')
          λ (tops, pq'') (others, empty). (rw (at, others) refl, empty)

module _ {E : Type 0} (comp : E → E → ℤ) where
  abbrev pub IsDescending : List E → Type 0
  IsDescending [] = Unit
  IsDescending (e ∷ es) = All (λ x. not (is_neg (comp e x)) ≡ true) es × IsDescending es

  place-Perm : (d : E) (es : List E) → Perm (place comp d es) (d ∷ es)
  unfolding place
  place-Perm d [] = Perm.refl _
  place-Perm d (e ∷ es) = elim (Bool-cases (not (is_neg (comp d e)))) [
    | inl f ↦ rw f (Perm.refl _)
    | inr f ↦ rw f (Perm.trans (Perm.cons e (place-Perm d es)) (Perm.swap _ _ _))
  ]

  pub All-place : (P : E → Type 0) (d : E) (es : List E) → P d → All P es → All P (place comp d es)
  unfolding place
  All-place P d [] p ps = (p, tt)
  All-place P d (e ∷ es) p ps = elim (Bool-cases (not (is_neg (comp d e)))) [
    | inl f ↦ rw f (p, ps)
    | inr f ↦ rw f (ps.0, All-place P d es p ps.1)
  ]

  place-IsDescending :
      (o : IsOrder comp) (d : E) (es : List E) → IsDescending es → IsDescending (place comp d es)
  unfolding place
  place-IsDescending o d [] s = (tt, tt)
  place-IsDescending o d (e ∷ es) s = elim (Bool-cases (not (is_neg (comp d e)))) [
    | inl f ↦ rw f ((f, All-imp (λ x g. ground (arith, o.not_below_trans d e x)) es s.0), s)
    | inr f ↦ rw f (
      All-place _ d es (ground (arith, o.below_trans d e d, o.below_irrefl d)) s.0,
      place-IsDescending o d es s.1,
    )
  ]

  -- `enqueue` of each of the data in turn.
  unfoldable pub fill : List E → Option (PQueue E) → Outcome (Option (PQueue E))
  fill [] pq = ok pq
  fill (d ∷ ds) pq = enqueue comp pq (some d) true >>= λ (pq', added). fill ds pq'

  -- What was enqueued and what was there before, in descending order.
  abbrev pub Holds : List E → Option (PQueue E) → Type 0
  Holds ds pq =
      (es : List E) × QueueOf es pq × Perm es ds × IsDescending es × (length es ≡ length ds)

  fill-Holds :
      (o : IsOrder comp) (ds es xs : List E) (pq : Option (PQueue E))
      → QueueOf es pq
      → Perm es xs
      → IsDescending es
      → length es ≡ length xs
      → length es + length ds ≤ 2 ^ 30
      → Returns (Holds (ds ++ xs)) (fill ds pq)
  unfolding fill
  fill-Holds o ds es xs none q p s len room = absurd q
  fill-Holds o [] es xs (some pq) q p s len room = (es, q, p, s, len)
  fill-Holds o (d ∷ ds) es xs (some pq) q p s len room =
      Returns-bind _ (enqueue comp (some pq) (some d) true) _
        (enqueue-IsQueue comp pq d es q (omega arith))
        λ (pq', added) (q', at).
          Returns-imp _ (fill ds pq')
            (fill-Holds o ds (place comp d es) (d ∷ xs) pq' q'
              (Perm.trans (place-Perm d es) (Perm.cons d p)) (place-IsDescending o d es s)
              (length-place comp d es ∙ ap suc len) (omega (arith, length-place comp d es)))
            λ pq'' (es', q'', p', s', len'). (
              es',
              q'',
              Perm.trans p' (perm_middle ds xs),
              s',
              omega (arith, len', length-append ds (d ∷ xs), length-append ds xs),
            )

  -- Data, at most 2^30, that is enqueued into a new queue for `n`, with memory to double its array,
  -- and then dequeued as often, comes out in descending order, each as often as it was put in, and
  -- the queue is empty again, if the comparison is an order and `n` is from 2 to 2^31.
  pub drain-fill :
      (o : IsOrder comp) (n : ℕ) (ds : List E)
      → 2 ≤ n
      → n ≤ 2 ^ 31
      → length ds ≤ 2 ^ 30
      → Returns
          (λ (tops, pq).
            (es : List E) × (tops ≡ somes es) × Perm es ds × IsDescending es × QueueOf [] pq)
          (fill ds (create_pqueue true true true n) >>= drain (length ds))
  drain-fill o n ds le lt room =
      Returns-bind _ (fill ds (create_pqueue true true true n)) _
        (fill-Holds o ds [] [] (create_pqueue true true true n) (create_pqueue-IsQueue E n le lt)
          Perm.nil tt refl (omega (arith, room)))
        λ pq (es, q, p, s, len).
          let n_out : length es ≡ length ds = omega (arith, len, length-append ds []) in
          rw (sym n_out) (
            Returns-imp _ (drain (length es) pq) (drain-IsQueue pq es q)
              λ (tops, pq') (same, empty). (es, same, rw (sym (append-nil ds)) p, s, empty))
