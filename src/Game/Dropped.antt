-- ===== src/Game/Dropped.antt =====
-- `drop_item_from_bag` of game.c frees a node and leaves it in the bag.
use basic_jqr.Base.{
  ℕ, zero, suc, ◌<◌, ◌≡◌, ◌≢◌, inl, inr, refl, sym, ap, subst, ◌∙◌, true, false, none, [], ◌∷◌,
  arith, length, All, Bool-cases, ◌==◌, ok, fault,
}
use basic_jqr.Heap.{Heap, write}
use basic_jqr.Heap.Linked.{Cells, first, Linked, Apart, write_self, write_ne}
use basic_jqr.Game.State.{Item, Game}
use basic_jqr.Game.Bag.{
  reach, display_loop, display_inventory, count_loop, count_items, drop_loop, drop_item_from_bag,
}
use basic_jqr.Game.Chain.{IsBag, action_of_kind, print_name-cases}
use basic_jqr.Game.Removed.{has}

-- One of the nodes of a chain.
abbrev Within : ℕ → Cells Item → Type 0
Within a cs = (b : ℕ) → Apart b cs → b ≢ a

drop_loop_lem :
    (fuel : ℕ) (s : Game) (cs : Cells Item) (index : ℕ)
    → Linked s.heap cs none
    → length cs < fuel
    → has index cs ≡ true
    → (a : ℕ) × Within a cs
      × (drop_loop fuel s (first cs none) index
          ≡ ok (true, record s { heap = write s.heap a none }))
unfolding drop_loop
drop_loop_lem zero s cs index l lt found = absurd (omega arith)
drop_loop_lem (suc fuel) s [] index l lt found = cc
drop_loop_lem (suc fuel) s ((a, item) ∷ cs) index l lt found =
    elim (Bool-cases (item.item_index == index)) [
      | inl this ↦ rw (l.0, this) (a, λ b apart. apart.0, refl)
      | inr other ↦
          let rest : has index cs ≡ true = sym (rw (other) refl) ∙ found in
          let (c, within, done) = drop_loop_lem fuel s cs index l.1 (omega (arith, lt)) rest in
          rw (l.0, other) (c, λ b apart. within b apart.1, done)
    ]

Within-rest :
    (a b : ℕ) (item : Item) (cs : Cells Item)
    → Within a ((b, item) ∷ cs)
    → (a == b) ≡ false
    → Within a cs
Within-rest a b item cs within other c apart = elim (Bool-cases (c == b)) [
  | inl this ↦ λ e. ground (arith, this, other, e)
  | inr apart_too ↦ within c ((λ e. ground (arith, e, apart_too)), apart)
]

freed_self : (heap : Heap Item) (a b : ℕ) → (a == b) ≡ true → write heap a none b ≡ none
freed_self heap a b this =
    let e : b ≡ a = ground (arith, this) in
    subst (λ c. write heap a none c ≡ none) (sym e) (write_self heap a none)

freed_ne : (heap : Heap Item) (a b : ℕ) → (a == b) ≡ false → write heap a none b ≡ heap b
freed_ne heap a b other = write_ne heap a b none (λ e. ground (arith, other, e))

display_loop-fault :
    (fuel : ℕ) (heap : Heap Item) (cs : Cells Item) (a : ℕ)
    → Linked heap cs none
    → All (λ (a, item). item.kind < 10) cs
    → Within a cs
    → length cs < fuel
    → display_loop fuel (write heap a none) (first cs none) ≡ fault
unfolding display_loop
display_loop-fault zero heap cs a l kinds within lt = absurd (omega arith)
display_loop-fault (suc fuel) heap [] a l kinds within lt = absurd (within a tt refl)
display_loop-fault (suc fuel) heap ((b, item) ∷ cs) a l kinds within lt =
    elim (Bool-cases (a == b)) [
      | inl this ↦ rw (freed_self heap a b this) refl
      | inr other ↦
          let (action, known) = action_of_kind item.kind kinds.0 in
          elim (print_name-cases item) [
            | inr nameless ↦ rw (freed_ne heap a b other, l.0, known, nameless) refl
            | inl named ↦
                rw
                  (
                    freed_ne heap a b other,
                    l.0,
                    known,
                    named,
                    display_loop-fault fuel heap cs a l.1 kinds.1
                        (Within-rest a b item cs within other) (omega (arith, lt)),
                  )
                  refl
          ]
    ]

count_loop-fault :
    (fuel : ℕ) (heap : Heap Item) (cs : Cells Item) (a : ℕ)
    → Linked heap cs none
    → Within a cs
    → length cs < fuel
    → count_loop fuel (write heap a none) (first cs none) ≡ fault
unfolding count_loop
count_loop-fault zero heap cs a l within lt = absurd (omega arith)
count_loop-fault (suc fuel) heap [] a l within lt = absurd (within a tt refl)
count_loop-fault (suc fuel) heap ((b, item) ∷ cs) a l within lt = elim (Bool-cases (a == b)) [
  | inl this ↦ rw (freed_self heap a b this) refl
  | inr other ↦
      rw
        (
          freed_ne heap a b other,
          l.0,
          count_loop-fault fuel heap cs a l.1 (Within-rest a b item cs within other)
              (omega (arith, lt)),
        )
        refl
]

-- `drop_item_from_bag` with the number of an item in a bag that is a proper chain says that it was
-- dropped, and showing or counting the items after that follows a pointer to the freed node.
pub drop_item_from_bag-fault :
    (index : ℕ) (s : Game) (cs : Cells Item)
    → IsBag s.heap s.bag s.item_index_counter cs
    → has index cs ≡ true
    → (s' : Game) × (drop_item_from_bag index s ≡ ok (true, s'))
      × (display_inventory s' ≡ fault)
      × (count_items s' ≡ fault)
unfolding drop_item_from_bag display_inventory count_items
drop_item_from_bag-fault index s cs k found =
    let (a, within, done) =
      drop_loop_lem (reach s) s cs index k.linked (omega (arith, k.few)) found in
    let heap = write s.heap a none in
    (
      record s { heap = heap },
      ap (λ p. drop_loop (reach s) s p index) k.start ∙ done,
      ap (display_loop (reach s) heap) k.start
          ∙ display_loop-fault (reach s) s.heap cs a k.linked k.kinds within (omega (arith, k.few)),
      ap (count_loop (reach s) heap) k.start
          ∙ count_loop-fault (reach s) s.heap cs a k.linked within (omega (arith, k.few)),
    )
