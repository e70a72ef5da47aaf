-- ===== src/Game/Chain.antt =====
-- The bag of game.c as the list of its items, and the loops that read it.
use basic_jqr.Base.{
  ℕ, zero, suc, ◌^◌, ◌≤◌, ◌<◌, ◌≡◌, ◌≢◌, ◌⊎◌, inl, inr, refl, ap, false, ◌==◌, fault, Option-cases,
  Bool-cases, Option, none, some, List, [], ◌∷◌, map, arith, length, get_elem?, get_elem?_total,
  All, ok, Returns,
}
use basic_jqr.Heap.{Cell, Heap, load}
use basic_jqr.Heap.Linked.{Cells, first, Linked, Distinct, last_of}
use basic_jqr.Game.State.{Item}
use basic_jqr.Game.Bag.{item_actions, print_name, display_loop, last_loop, count_loop, tracker_loop}

-- The bag holds just these nodes, of kinds that the tables have, no more than items were made.
pub record IsBag (heap : Heap Item) (bag : Option ℕ) (made : ℕ) (cs : Cells Item) : Type 0 where
  pub start : bag ≡ first cs none
  pub linked : Linked heap cs none
  pub distinct : Distinct cs
  pub kinds : All (λ (a, item). item.kind < 10) cs
  pub few : length cs ≤ made

-- The doges among the items have names.
abbrev pub Named : Cells Item → Type 0
Named cs = All (λ (a, item). print_name item ≡ ok tt) cs

pub print_name-other : (item : Item) → item.kind ≢ 2 → print_name item ≡ ok tt
unfolding print_name
print_name-other item other =
    let no_doge : (item.kind == 2) ≡ false = ground (arith, other) in
    elim (Option-cases item.name) [
      | inl without ↦ rw (print_name, without, no_doge) refl
      | inr (name, some_name) ↦ rw (print_name, some_name) refl
    ]

pub print_name-cases : (item : Item) → (print_name item ≡ ok tt) ⊎ (print_name item ≡ fault)
unfolding print_name
print_name-cases item = elim (Option-cases item.name) [
  | inr (name, some_name) ↦ inl (rw (print_name, some_name) refl)
  | inl without ↦ elim (Bool-cases (item.kind == 2)) [
    | inl doge ↦ inr (rw (print_name, without, doge) refl)
    | inr other ↦ inl (rw (print_name, without, other) refl)
  ]
]

abbrev pub addresses : Cells Item → List ℕ
addresses cs = map (λ (a, item). a) cs

abbrev pub items : Cells Item → List Item
items cs = map (λ (a, item). item) cs

pub action_of_kind :
    (kind : ℕ) → kind < 10 → (action : ℕ) × (get_elem? item_actions kind ≡ some action)
action_of_kind kind lt = get_elem?_total item_actions kind lt

pub display_loop-items :
    (fuel : ℕ) (heap : Heap Item) (cs : Cells Item)
    → Linked heap cs none
    → All (λ (a, item). item.kind < 10) cs
    → Named cs
    → length cs < fuel
    → display_loop fuel heap (first cs none) ≡ ok (items cs)
unfolding display_loop
display_loop-items zero heap cs l kinds named lt = absurd (omega arith)
display_loop-items (suc fuel) heap [] l kinds named lt = refl
display_loop-items (suc fuel) heap ((a, item) ∷ cs) l kinds named lt =
    let (action, known) = action_of_kind item.kind kinds.0 in
    rw
      (l.0, known, named.0, display_loop-items fuel heap cs l.1 kinds.1 named.1 (omega (arith, lt)))
      refl

pub count_loop-length :
    (fuel : ℕ) (heap : Heap Item) (cs : Cells Item)
    → Linked heap cs none
    → length cs < 2 ^ 32
    → length cs < fuel
    → count_loop fuel heap (first cs none) ≡ ok (length cs)
unfolding count_loop
count_loop-length zero heap cs l small lt = absurd (omega arith)
count_loop-length (suc fuel) heap [] l small lt = refl
count_loop-length (suc fuel) heap ((a, item) ∷ cs) l small lt =
    rw (l.0, count_loop-length fuel heap cs l.1 (omega (arith, small)) (omega (arith, lt)))
      (ap ok (omega (arith, small)))

pub tracker_loop-addresses :
    (n : ℕ) (heap : Heap Item) (cs : Cells Item)
    → Linked heap cs none
    → All (λ (a, item). item.kind < 10) cs
    → length cs ≤ n
    → tracker_loop n heap (first cs none) ≡ ok (addresses cs)
unfolding tracker_loop
tracker_loop-addresses zero heap [] l kinds le = refl
tracker_loop-addresses zero heap (c ∷ cs) l kinds le = absurd (omega (arith, le))
tracker_loop-addresses (suc n) heap [] l kinds le = refl
tracker_loop-addresses (suc n) heap ((a, item) ∷ cs) l kinds le =
    let (action, known) = action_of_kind item.kind kinds.0 in
    rw (l.0, known, tracker_loop-addresses n heap cs l.1 kinds.1 (omega (arith, le))) refl

pub last_loop-last_of :
    (fuel : ℕ) (heap : Heap Item) (c : ℕ × Item) (cs : Cells Item)
    → Linked heap (c ∷ cs) none
    → length cs < fuel
    → last_loop fuel heap c.0 ≡ ok (last_of c cs).0
unfolding last_loop
last_loop-last_of zero heap c cs l lt = absurd (omega arith)
last_loop-last_of (suc fuel) heap c [] l lt = rw (l.0) refl
last_loop-last_of (suc fuel) heap c (d ∷ cs) l lt =
    rw (l.0) (last_loop-last_of fuel heap d cs l.1 (omega (arith, lt)))

-- The node that a menu over the bag answers with holds one of its items.
pub addresses-item :
    (heap : Heap Item) (cs : Cells Item)
    → Linked heap cs none
    → All (λ (a, item). item.kind < 10) cs
    → All (λ a. Returns (λ (c : Cell Item). c.datum.kind < 10) (load heap (some a))) (addresses cs)
addresses-item heap [] l kinds = tt
addresses-item heap ((a, item) ∷ cs) l kinds =
    (rw (l.0) kinds.0, addresses-item heap cs l.1 kinds.1)

pub length-addresses : (cs : Cells Item) → length (addresses cs) ≡ length cs
length-addresses [] = refl
length-addresses (c ∷ cs) = ap suc (length-addresses cs)
