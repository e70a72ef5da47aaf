-- ===== src/Game/Bag.antt =====
-- The items in the bag of game.c: a chain of nodes on the heap. Each loop over it gets one step
-- more than items have been made.
use basic_jqr.Base.{
  ℕ, zero, suc, ◌+◌, Bool, true, false, Option, none, some, List, [], ◌∷◌, get_elem?, ◌==◌,
  if◌then◌else◌, Outcome, ok, fault, out_of_fuel, deref, ◌>>=◌,
}
use basic_jqr.Heap.{cell, Heap, write, load, set_next, free}
use basic_jqr.Game.State.{Item, Game, u32_add}

-- Item kinds and what they are for.
abbrev pub item_doge : ℕ
item_doge = 2

abbrev pub action_special : ℕ
action_special = 0

abbrev pub action_attack : ℕ
action_attack = 1

abbrev pub action_defend : ℕ
action_defend = 2

abbrev pub action_heal : ℕ
action_heal = 3

abbrev pub action_pet : ℕ
action_pet = 6

abbrev pub item_actions : List ℕ
item_actions = 1 ∷ 2 ∷ 6 ∷ 2 ∷ 2 ∷ 1 ∷ 3 ∷ 3 ∷ 3 ∷ 0 ∷ []

abbrev pub item_expendable : List ℕ
item_expendable = 0 ∷ 0 ∷ 0 ∷ 0 ∷ 0 ∷ 0 ∷ 1 ∷ 1 ∷ 0 ∷ 1 ∷ []

abbrev pub action_weights : List ℕ
action_weights = 200 ∷ 600 ∷ 100 ∷ 75 ∷ 200 ∷ 250 ∷ 10 ∷ 10 ∷ 15 ∷ 0 ∷ []

abbrev pub reach : Game → ℕ
reach s = s.item_index_counter + 1

-- `malloc` gives a place on the heap, or `none` for NULL.
unfoldable pub create_item : (Heap Item → Option ℕ) → ℕ → Game → Outcome (Option ℕ × Game)
create_item malloc kind s = elim (malloc s.heap) [
  | none ↦ ok (none, s)
  | some a ↦ ok (
    some a,
    record s {
      heap = write s.heap a (
          some
            (cell (record { item_index = s.item_index_counter; kind = kind; name = none }) none));
      item_index_counter = u32_add s.item_index_counter 1;
    },
  )
]

-- A doge is printed with its name, which must be there.
unfoldable pub print_name : Item → Outcome (Unit {0})
print_name item = elim item.name [
  | none ↦ if item.kind == item_doge then fault else ok tt
  | some name ↦ ok tt
]

-- `display_inventory`: the items that are printed.
unfoldable pub display_loop : ℕ → Heap Item → Option ℕ → Outcome (List Item)
display_loop zero heap p = out_of_fuel
display_loop (suc fuel) heap none = ok []
display_loop (suc fuel) heap (some p) = load heap (some p) >>= λ c.
    deref (get_elem? item_actions c.datum.kind) >>= λ action. print_name c.datum >>= λ printed.
    display_loop fuel heap c.next >>= λ others. ok (c.datum ∷ others)

unfoldable pub display_inventory : Game → Outcome (List Item)
display_inventory s = display_loop (reach s) s.heap s.bag

unfoldable pub get_item_loop : ℕ → Heap Item → Option ℕ → ℕ → Outcome (Option ℕ)
get_item_loop zero heap p kind = out_of_fuel
get_item_loop (suc fuel) heap none kind = ok none
get_item_loop (suc fuel) heap (some p) kind = load heap (some p) >>= λ c.
    let others = get_item_loop fuel heap c.next kind in
    if c.datum.kind == kind then ok (some p) else others

unfoldable pub get_item_from_inventory : Game → ℕ → Outcome (Option ℕ)
get_item_from_inventory s kind = get_item_loop (reach s) s.heap s.bag kind

-- The loop of `drop_item_from_bag`: the node is freed and stays in the chain.
unfoldable pub drop_loop : ℕ → Game → Option ℕ → ℕ → Outcome (Bool × Game)
drop_loop zero s p index = out_of_fuel
drop_loop (suc fuel) s none index = ok (false, s)
drop_loop (suc fuel) s (some p) index = load s.heap (some p) >>= λ c.
    let others = drop_loop fuel s c.next index in
    if c.datum.item_index == index
    then (free s.heap (some p) >>= λ heap. ok (true, record s { heap = heap }))
    else others

unfoldable pub drop_item_from_bag : ℕ → Game → Outcome (Bool × Game)
drop_item_from_bag index s = drop_loop (reach s) s s.bag index

-- The loop of `remove_item_from_inventory`: the node leaves the chain and is not freed.
unfoldable pub remove_loop : ℕ → Game → Option ℕ → Option ℕ → ℕ → Outcome (Bool × Game)
remove_loop zero s previous p index = out_of_fuel
remove_loop (suc fuel) s previous none index = ok (false, s)
remove_loop (suc fuel) s previous (some p) index = load s.heap (some p) >>= λ c.
    let others = remove_loop fuel s (some p) c.next index in
    if c.datum.item_index == index
    then elim previous [
      | none ↦ ok (true, record s { bag = c.next })
      | some q ↦ set_next s.heap (some q) c.next >>= λ heap. ok (true, record s { heap = heap })
    ]
    else others

unfoldable pub remove_item_from_inventory : ℕ → Game → Outcome (Bool × Game)
remove_item_from_inventory index s = remove_loop (reach s) s none s.bag index

-- The last item of a chain.
unfoldable pub last_loop : ℕ → Heap Item → ℕ → Outcome ℕ
last_loop zero heap p = out_of_fuel
last_loop (suc fuel) heap p =
    load heap (some p) >>= λ c. elim c.next [ none ↦ ok p | some q ↦ last_loop fuel heap q ]

unfoldable pub add_item_to_inventory : Option ℕ → Game → Outcome (Unit {0} × Game)
add_item_to_inventory new_item s = elim s.bag [
  | none ↦ ok (tt, record s { bag = new_item })
  | some p ↦ last_loop (reach s) s.heap p >>= λ q.
      set_next s.heap (some q) new_item >>= λ heap. ok (tt, record s { heap = heap })
]

unfoldable pub count_loop : ℕ → Heap Item → Option ℕ → Outcome ℕ
count_loop zero heap p = out_of_fuel
count_loop (suc fuel) heap none = ok 0
count_loop (suc fuel) heap (some p) =
    load heap (some p) >>= λ c. count_loop fuel heap c.next >>= λ n. ok (u32_add n 1)

unfoldable pub count_items : Game → Outcome ℕ
count_items s = count_loop (reach s) s.heap s.bag

-- `items_tracker`: the nodes that the menu of `select_item_in_inventory` shows.
unfoldable pub tracker_loop : ℕ → Heap Item → Option ℕ → Outcome (List ℕ)
tracker_loop zero heap p = ok []
tracker_loop (suc n) heap none = ok []
tracker_loop (suc n) heap (some p) = load heap (some p) >>= λ c.
    deref (get_elem? item_actions c.datum.kind) >>= λ label.
    tracker_loop n heap c.next >>= λ others. ok (p ∷ others)

-- The item at an address.
abbrev pub item_at : ℕ → Game → Outcome Item
item_at p s = load s.heap (some p) >>= λ c. ok c.datum

-- `new_item->name = ...`
abbrev pub set_name : ℕ → List ℕ → Game → Outcome (Unit {0} × Game)
set_name p name s = load s.heap (some p) >>= λ c. ok (
  tt,
  record s { heap = write s.heap p (some (cell (record c.datum { name = some name }) c.next)) },
)
