-- ===== src/Pool/Tests.antt =====
-- Runs of the pool's queue.
use basic_jqr.Base.{ℕ, ◌≡◌, refl, none, some, [], ◌∷◌, arith, Returns, ◌>>=◌, ◌==◌, if◌then◌else◌}
use basic_jqr.Heap.{cell}
use basic_jqr.Pool.{Pool, enqueue}
use basic_jqr.Pool.Fifo.{IsPool, serve, serve-enqueue}

abbrev two_jobs : Pool ℕ
two_jobs = record {
  head = some 10;
  tail = some 20;
  heap = λ a.
      if a == 10 then some (cell 5 (some 20)) else (if a == 20 then some (cell 9 none) else none);
}

two_jobs-IsPool : IsPool two_jobs ((10, 5) ∷ (20, 9) ∷ [])
two_jobs-IsPool = record {
  head = refl;
  tail = refl;
  distinct = (((λ e. omega arith), tt), (tt, tt));
  linked = (refl, (refl, tt));
}

serve-enqueue_example :
    Returns
      (λ (q', jobs). IsPool q' [] × (jobs ≡ some 5 ∷ some 9 ∷ some 7 ∷ []))
      (enqueue two_jobs 7 (some 30) >>= serve 3)
serve-enqueue_example =
    serve-enqueue two_jobs ((10, 5) ∷ (20, 9) ∷ []) 7 30 two_jobs-IsPool
      ((λ e. omega arith), ((λ e. omega arith), tt))
