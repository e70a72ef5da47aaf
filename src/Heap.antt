-- ===== src/Heap.antt =====
-- Nodes of linked structures at addresses, and what C does with them: `malloc`, `->`, `free`.
pub mod Linked
use basic_jqr.Base.{
  ℕ, Bool, true, false, Option, none, some, ◌==◌, if◌then◌else◌, Outcome, ok, fault, ◌>>=◌, deref,
}

-- A node: what it holds, and its `next`, `none` for NULL.
pub record Cell (E : Type 0) : Type 0 where
  pub datum : E
  pub next : Option ℕ

abbrev pub cell : {E : Type 0} → E → Option ℕ → Cell E
cell d q = record { datum = d; next = q }

abbrev pub Heap : Type 0 → Type 0
Heap E = ℕ → Option (Cell E)

module _ {E : Type 0} where
  -- `some` fills an address, `none` gives it back.
  unfoldable pub write : Heap E → ℕ → Option (Cell E) → Heap E
  write h a c b = if b == a then c else h b

  -- `*p`: a fault at NULL and at an address that holds no node.
  abbrev pub load : Heap E → Option ℕ → Outcome (Cell E)
  load h none = fault
  load h (some a) = deref (h a)

  -- `p->next = q`
  abbrev pub set_next : Heap E → Option ℕ → Option ℕ → Outcome (Heap E)
  set_next h none q = fault
  set_next h (some a) q = deref (h a) >>= λ c. ok (write h a (some (record c { next = q })))

  -- `free(p)` of a node that is there or of NULL; to free twice is a fault.
  abbrev pub free : Heap E → Option ℕ → Outcome (Heap E)
  free h none = ok h
  free h (some a) = deref (h a) >>= λ c. ok (write h a none)

  -- `p` after `n` times `p = p->next`.
  unfoldable pub walk : Heap E → Option ℕ → ℕ → Outcome (Option ℕ)
  walk h p ℕ.zero = ok p
  walk h p (ℕ.suc n) = load h p >>= λ c. walk h c.next n
