-- ===== src/Pool/Fifo.antt =====
-- The pool's queue as a list, first in, first out.
use basic_jqr.Base.{
  map, ℕ, zero, suc, ◌≡◌, refl, sym, ap, ◌∙◌, Option, none, some, List, [], ◌∷◌, ◌++◌, length,
  Outcome, ok, Returns, Returns-bind, ◌>>=◌,
}
use basic_jqr.Heap.{cell, write}
use basic_jqr.Heap.Linked.{
  Cells, first, Linked, Apart, Distinct, last_of, write_self, write_ne, Linked-write, Linked-append,
  Linked-relink, Linked-last, Apart-last, last_of-snoc, Distinct-snoc,
}
use basic_jqr.Pool.{Pool, enqueue, dequeue}

module _ {E : Type 0} where
  abbrev pub tail_of : Cells E → Option ℕ
  tail_of [] = none
  tail_of (c ∷ cs) = some (last_of c cs).0

  -- The queue is a chain of just these nodes, what leaves first at the front.
  pub record IsPool (q : Pool E) (cs : Cells E) : Type 0 where
    pub head : q.head ≡ first cs none
    pub tail : q.tail ≡ tail_of cs
    pub distinct : Distinct cs
    pub linked : Linked q.heap cs none

  enqueue-IsPool :
      (q : Pool E) (cs : Cells E) (d : E) (a : ℕ)
      → IsPool q cs
      → Apart a cs
      → Returns (λ q'. IsPool q' (cs ++ (a, d) ∷ [])) (enqueue q d (some a))
  unfolding enqueue
  enqueue-IsPool q [] d a p apart = rw (p.tail) (record {
    head = refl;
    tail = refl;
    distinct = (tt, tt);
    linked = (write_self q.heap a _, tt);
  })
  enqueue-IsPool q (c ∷ cs) d a p apart =
      let new = write q.heap a (some (cell d none)) in
      let kept : Linked new (c ∷ cs) none = Linked-write q.heap (c ∷ cs) none a _ apart p.linked in
      let end = Linked-last new c cs none kept in
      rw (p.tail, end)
        (record {
          head = p.head;
          tail = ap (λ x. some x.0) (sym (last_of-snoc c cs (a, d)));
          distinct = Distinct-snoc (c ∷ cs) a d p.distinct apart;
          linked =
              Linked-append _ (c ∷ cs) ((a, d) ∷ []) none
                (Linked-relink new c cs none (some a) p.distinct kept)
                (
                  write_ne new _ a _ (λ e. Apart-last a c cs apart (sym e)) ∙ write_self q.heap a _,
                  tt,
                );
        })

  dequeue-IsPool :
      (q : Pool E) (c : ℕ × E) (cs : Cells E)
      → IsPool q (c ∷ cs)
      → Returns (λ (q', job). IsPool q' cs × (job ≡ some c.1)) (dequeue q)
  unfolding dequeue
  dequeue-IsPool q c [] p =
      rw (p.head, p.linked.0)
        (record { head = refl; tail = refl; distinct = tt; linked = tt }, refl)
  dequeue-IsPool q c (x ∷ cs) p =
      rw (p.head, p.linked.0)
        (
          record {
            head = refl;
            tail = p.tail;
            distinct = p.distinct.1;
            linked = Linked-write q.heap (x ∷ cs) none c.0 none p.distinct.0 p.linked.1;
          },
          refl,
        )

  -- A thread that takes `n` jobs.
  unfoldable pub serve : ℕ → Pool E → Outcome (Pool E × List (Option E))
  serve zero q = ok (q, [])
  serve (suc n) q = dequeue q >>= λ (q', job). serve n q' >>= λ (q'', jobs). ok (q'', job ∷ jobs)

  serve-IsPool :
      (q : Pool E) (cs : Cells E)
      → IsPool q cs
      → Returns (λ (q', jobs). IsPool q' [] × (jobs ≡ map (λ c. some c.1) cs)) (serve (length cs) q)
  unfolding serve
  serve-IsPool q [] p = (p, refl)
  serve-IsPool q (c ∷ cs) p =
      Returns-bind _ (dequeue q) _ (dequeue-IsPool q c cs p) λ (q', job) (p', at).
        Returns-bind _ (serve (length cs) q') _ (serve-IsPool q' cs p')
          λ (q'', jobs) (p'', others). (p'', rw (at, others) refl)

  -- A job that is put behind those that wait, with memory for its node, which is none of theirs, is
  -- served once each of them has been, and they are served in the order in which they came.
  pub serve-enqueue :
      (q : Pool E) (cs : Cells E) (d : E) (a : ℕ)
      → IsPool q cs
      → Apart a cs
      → Returns
          (λ (q', jobs). IsPool q' [] × (jobs ≡ map (λ c. some c.1) (cs ++ (a, d) ∷ [])))
          (enqueue q d (some a) >>= serve (length (cs ++ (a, d) ∷ [])))
  serve-enqueue q cs d a p apart =
      Returns-bind _ (enqueue q d (some a)) _ (enqueue-IsPool q cs d a p apart)
        λ q' p'. serve-IsPool q' (cs ++ (a, d) ∷ []) p'

  -- A queue that has been served to the end takes and gives jobs as a new one: `dequeue` finds
  -- nothing.
  dequeue-empty : (q : Pool E) → IsPool q [] → dequeue q ≡ ok (q, none)
  unfolding dequeue
  dequeue-empty q p = rw (p.head) refl
