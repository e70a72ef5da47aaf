-- ===== src/Game/Removed.antt =====
-- `remove_item_from_inventory` of game.c takes an item out of the bag.
use basic_jqr.Base.{
  ℕ, zero, suc, ◌≤◌, ◌<◌, ◌≡◌, inl, inr, refl, sym, ap, ◌∙◌, Bool, true, false, none, some, [], ◌∷◌,
  arith, length, All, Bool-cases, ◌==◌, if◌then◌else◌, ok,
}
use basic_jqr.Heap.{cell, Heap, write}
use basic_jqr.Heap.Linked.{
  Cells, first, Linked, Distinct, SameOutside, write_self, write_ne, Linked-write,
}
use basic_jqr.Game.State.{Item, Game}
use basic_jqr.Game.Bag.{reach, remove_loop, remove_item_from_inventory}
use basic_jqr.Game.Chain.{IsBag}

-- Without the first item of a number.
abbrev pub without : ℕ → Cells Item → Cells Item
without index [] = []
without index ((a, item) ∷ cs) =
    let others = without index cs in if item.item_index == index then cs else ((a, item) ∷ others)

-- Whether there is an item of a number.
abbrev pub has : ℕ → Cells Item → Bool
has index [] = false
has index ((a, item) ∷ cs) =
    let others = has index cs in if item.item_index == index then true else others

pub All-without :
    (P : ℕ × Item → Type 0) (index : ℕ) (cs : Cells Item) → All P cs → All P (without index cs)
All-without P index [] all = tt
All-without P index ((a, item) ∷ cs) all = elim (Bool-cases (item.item_index == index)) [
  | inl this ↦ rw (this) all.1
  | inr other ↦ rw (other) (all.0, All-without P index cs all.1)
]

Distinct-without : (index : ℕ) (cs : Cells Item) → Distinct cs → Distinct (without index cs)
Distinct-without index [] u = tt
Distinct-without index ((a, item) ∷ cs) u = elim (Bool-cases (item.item_index == index)) [
  | inl this ↦ rw (this) u.1
  | inr other ↦ rw (other) (All-without _ index cs u.0, Distinct-without index cs u.1)
]

length-without : (index : ℕ) (cs : Cells Item) → length (without index cs) ≤ length cs
length-without index [] = omega arith
length-without index ((a, item) ∷ cs) = elim (Bool-cases (item.item_index == index)) [
  | inl this ↦ rw (this) (omega arith)
  | inr other ↦ rw (other) (omega (arith, length-without index cs))
]

-- From the second node on: the one before the item is linked to the one behind it.
remove_loop-without :
    (fuel : ℕ) (s : Game) (a : ℕ) (item : Item) (cs : Cells Item) (index : ℕ)
    → Linked s.heap ((a, item) ∷ cs) none
    → Distinct ((a, item) ∷ cs)
    → length cs < fuel
    → (heap : Heap Item) × (remove_loop fuel s (some a) (first cs none) index
        ≡ ok (has index cs, record s { heap = heap }))
      × Linked heap ((a, item) ∷ without index cs) none
      × SameOutside ((a, item) ∷ cs) s.heap heap
unfolding remove_loop
remove_loop-without zero s a item cs index l u lt = absurd (omega arith)
remove_loop-without (suc fuel) s a item [] index l u lt = (s.heap, refl, l, λ b out. refl)
remove_loop-without (suc fuel) s a item ((b, next) ∷ cs) index l u lt =
    elim (Bool-cases (next.item_index == index)) [
      | inl this ↦
          let relinked = some (cell item (first cs none)) in
          rw (l.1.0, this, l.0)
            (
              write s.heap a relinked,
              refl,
              (write_self s.heap a relinked, Linked-write s.heap cs none a relinked u.0.1 l.1.1),
              λ c out. write_ne s.heap a c relinked (λ e. out.0 (sym e)),
            )
      | inr other ↦
          let (heap, done, linked, same) =
            remove_loop-without fuel s b next cs index l.1 u.1 (omega (arith, lt)) in
          rw (l.1.0, other) (heap, done, (same a u.0 ∙ l.0, linked), λ c out. same c out.1)
    ]

remove_loop-front :
    (fuel : ℕ) (s : Game) (cs : Cells Item) (index : ℕ)
    → IsBag s.heap s.bag s.item_index_counter cs
    → length cs < fuel
    → (heap : Heap Item) × (remove_loop fuel s none (first cs none) index
        ≡ ok (has index cs, record s { bag = first (without index cs) none; heap = heap }))
      × Linked heap (without index cs) none
unfolding remove_loop
remove_loop-front zero s cs index k lt = absurd (omega arith)
remove_loop-front (suc fuel) s [] index k lt = (s.heap, rw (sym k.start) refl, k.linked)
remove_loop-front (suc fuel) s ((a, item) ∷ cs) index k lt =
    elim (Bool-cases (item.item_index == index)) [
      | inl this ↦ rw (k.linked.0, this) (s.heap, refl, k.linked.1)
      | inr other ↦
          let (heap, done, linked, same) =
            remove_loop-without fuel s a item cs index k.linked k.distinct (omega (arith, lt)) in
          rw (k.linked.0, other)
            (
              heap,
              done ∙ ap (λ b. ok (has index cs, record s { bag = b; heap = heap })) k.start,
              linked,
            )
    ]

-- On a bag with these items, `remove_item_from_inventory` says whether one has the number, and
-- leaves the bag without the first that has.
pub remove-IsBag :
    (index : ℕ) (s : Game) (cs : Cells Item)
    → IsBag s.heap s.bag s.item_index_counter cs
    → (heap : Heap Item) × (remove_item_from_inventory index s
        ≡ ok (has index cs, record s { bag = first (without index cs) none; heap = heap }))
      × IsBag heap (first (without index cs) none) s.item_index_counter (without index cs)
unfolding remove_item_from_inventory
remove-IsBag index s cs k =
    let (heap, done, linked) = remove_loop-front (reach s) s cs index k (omega (arith, k.few)) in
    (
      heap,
      ap (λ p. remove_loop (reach s) s none p index) k.start ∙ done,
      record {
        start = refl;
        linked = linked;
        distinct = Distinct-without index cs k.distinct;
        kinds = All-without _ index cs k.kinds;
        few = omega (arith, length-without index cs, k.few);
      },
    )
