-- ===== src/Pool.antt =====
-- chat_server/Src/Src/pool_queue.c: the queue of connections that wait for a thread of the pool.
-- The two global pointers and the heap of the nodes are one state; `malloc` is an argument, the
-- fresh address or `none` where it fails. The threads take turns under the lock of server.c, so
-- one call runs at a time.
pub mod Fifo
mod Tests
use basic_jqr.Base.{Option, none, some, ℕ, Outcome, ok, fault, ◌>>=◌}
use basic_jqr.Heap.{Cell, cell, Heap, write, load, set_next, free}

pub record Pool (E : Type 0) : Type 0 where
  pub head : Option ℕ
  pub tail : Option ℕ
  pub heap : Heap E

module _ {E : Type 0} where
  -- The result of `malloc` is not checked.
  unfoldable pub enqueue : Pool E → E → Option ℕ → Outcome (Pool E)
  enqueue q client_socket none = fault
  enqueue q client_socket (some a) =
      let heap = write q.heap a (some (cell client_socket none)) in
      elim q.tail [
        | none ↦ ok (record { head = some a; tail = some a; heap = heap })
        | some t ↦ set_next heap (some t) (some a) >>= λ heap'.
            ok (record q { tail = some a; heap = heap' })
      ]

  unfoldable pub dequeue : Pool E → Outcome (Pool E × Option E)
  dequeue q = elim q.head [
    | none ↦ ok (q, none)
    | some temp ↦ load q.heap (some temp) >>= λ c. free q.heap (some temp) >>= λ heap. ok (
      record { head = c.next; tail = elim c.next [ none ↦ none | some a ↦ q.tail ]; heap = heap },
      some c.datum,
    )
  ]
