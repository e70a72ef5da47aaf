-- ===== src/PQueue.antt =====
-- data_structures/graph/pqueue.c: a priority queue in an array. Slots that were never written, and
-- slots that were cleared, are `none`. The array's bytes are counted in a `size_t`, so that a
-- length that is too large gives a shorter array.
pub mod Order
pub mod Enqueue
pub mod Drain
pub mod Find
mod Tests
use basic_jqr.Base.{
  ℕ, zero, suc, ◌+◌, ◌-◌, ◌*◌, ◌/◌, ◌%◌, ◌^◌, Bool, true, false, Option, none, some, List, [], ◌∷◌,
  ◌++◌, length, get_elem?, set, take, replicate, ltb, ◌==◌, not, if◌then◌else◌, Outcome, ok, fault,
  ◌>>=◌, deref, ℤ, pos, negsuc, is_neg, u64_pred, u64_succ,
}

pub record PQueue (E : Type 0) : Type 0 where
  pub size : ℕ
  pub max_size : ℕ
  pub queue : List (Option E)

-- A `size_t` as an `int`.
abbrev pub to_int : ℕ → ℤ
to_int n = if ltb (n % 2 ^ 32) (2 ^ 31) then pos (n % 2 ^ 32) else negsuc (2 ^ 32 - 1 - n % 2 ^ 32)

-- The steps of a loop that counts such an `int` down to 0: none, if it is negative.
abbrev pub countdown : ℤ → ℕ
countdown (pos n) = n
countdown (negsuc n) = 0

-- The pointers that fit into the bytes of `sizeof(void *) * n`.
abbrev pub pointers_in : ℕ → ℕ
pointers_in n = 8 * n % 2 ^ 64 / 8

module _ {E : Type 0} where
  -- The arguments say whether there is a function to compare, and whether the two calls of
  -- `malloc` succeed.
  unfoldable pub create_pqueue : Bool → Bool → Bool → ℕ → Option (PQueue E)
  create_pqueue false memory array size = none
  create_pqueue true false array size = none
  create_pqueue true true false size = none
  create_pqueue true true true size =
      some (record { size = 0; max_size = size; queue = replicate (pointers_in size) none })

  -- `queue[i] = d`
  abbrev pub put : List (Option E) → ℕ → Option E → Outcome (List (Option E))
  put queue i d = if ltb i (length queue) then ok (set queue i d) else fault

  -- An array in which `realloc` keeps what fits.
  abbrev pub resize : ℕ → List (Option E) → List (Option E)
  resize n queue = take n queue ++ replicate (n - length queue) none

  -- The array is made twice as long where it is nearly full; a `realloc` that fails leaves NULL,
  -- an array with no slots.
  unfoldable pub make_room : Bool → PQueue E → PQueue E
  make_room memory pq =
      if pq.size == u64_pred pq.max_size
      then (let max = pq.max_size * 2 % 2 ^ 64 in
          record pq {
            max_size = max;
            queue = if memory then resize (pointers_in max) pq.queue else [];
          })
      else pq

  unfoldable pub qsize : Option (PQueue E) → ℤ
  qsize none = pos 0
  qsize (some pq) = to_int pq.size

  unfoldable pub dequeue : Option (PQueue E) → Outcome (Option (PQueue E) × Option E)
  dequeue none = ok (none, none)
  dequeue (some pq) =
      if pq.size == 0
      then ok (some pq, none)
      else (deref (get_elem? pq.queue (u64_pred pq.size)) >>= λ top.
          put pq.queue (u64_pred pq.size) none >>= λ queue.
          ok (some (record pq { queue = queue; size = u64_pred pq.size }), top))

  unfoldable pub peek : Option (PQueue E) → Outcome (Option E)
  peek none = ok none
  peek (some pq) = if pq.size == 0 then ok none else deref (get_elem? pq.queue (u64_pred pq.size))

  -- What the function to free the data gets in the loop of `destroy_pqueue`, from slot `i` on.
  unfoldable pub free_from : List (Option E) → ℕ → ℕ → Outcome (List (Option E))
  free_from queue i zero = ok []
  free_from queue i (suc n) =
      deref (get_elem? queue i) >>= λ d. free_from queue (suc i) n >>= λ freed. ok (d ∷ freed)

  -- The second argument says whether there is such a function.
  unfoldable pub destroy_pqueue : Option (PQueue E) → Bool → Outcome (List (Option E) × Bool)
  unfolding free_from
  destroy_pqueue none frees = ok ([], false)
  destroy_pqueue (some pq) false = ok ([], true)
  destroy_pqueue (some pq) true = free_from pq.queue 0 pq.size >>= λ freed. ok (freed, true)

module _ {E : Type 0} (comp : E → E → ℤ) where
  -- The loop of `enqueue`, with `data` at slot `i`. A comparison with NULL follows it.
  unfoldable pub sift : ℕ → List (Option E) → E → Outcome (List (Option E))
  sift zero queue datum = ok queue
  sift (suc i) queue datum = deref (get_elem? queue i) >>= λ slot. deref slot >>= λ x.
      let rest = sift i (set (set queue (suc i) (some x)) i (some datum)) datum in
      if not (is_neg (comp datum x)) then ok queue else rest

  -- The last argument says whether `realloc` succeeds, if it is called.
  unfoldable pub enqueue : Option (PQueue E) → Option E → Bool → Outcome (Option (PQueue E) × Bool)
  unfolding make_room sift
  enqueue none datum memory = ok (none, false)
  enqueue (some pq) none memory = ok (some pq, false)
  enqueue (some pq) (some d) memory =
      if pq.size == 0
      then (put pq.queue 0 (some d) >>= λ queue.
          ok (some (record pq { queue = queue; size = 1 }), true))
      else (let roomy = make_room memory pq in
          put roomy.queue roomy.size (some d) >>= λ queue.
          let size = u64_succ roomy.size in
          sift (countdown (to_int (u64_pred size))) queue d >>= λ queue'.
          ok (some (record roomy { queue = queue'; size = size }), true))

  -- The loop of `find_data`, from slot `i` on.
  unfoldable pub find_from : List (Option E) → E → ℕ → ℕ → Outcome Bool
  find_from queue d i zero = ok false
  find_from queue d i (suc n) = deref (get_elem? queue i) >>= λ slot.
      deref slot >>= λ x. elim (comp d x) [ pos zero ↦ ok true | _ ↦ find_from queue d (suc i) n ]

  unfoldable pub find_data : Option (PQueue E) → Option E → Outcome Bool
  unfolding find_from
  find_data pq none = ok false
  find_data none (some d) = ok false
  find_data (some pq) (some d) = if pq.size == 0 then ok false else find_from pq.queue d 0 pq.size
