-- ===== src/Game/Items.antt =====
-- What the player of game.c does with items: find, choose, use and drop them.
use basic_jqr.Base.{ℕ, Option, none, some, ◌||◌, Bytes, ◌==◌}
use basic_jqr.Heap.{Heap}
use basic_jqr.Game.State.{
  Item, next, empty_array, wild, out_of_memory, Act, pure, ◌>>=◌, ◌>>◌, modify, when, reads, lift,
  at_index, u32_add, show_menu, get_random_number, max_str_len, read_until_newline_or_limit,
}
use basic_jqr.Game.Bag.{
  item_doge, action_special, action_heal, action_pet, item_actions, item_expendable, action_weights,
  create_item, set_name, add_item_to_inventory, count_items, tracker_loop, item_at,
  drop_item_from_bag, remove_item_from_inventory,
}

-- `new_item->name = ...`, of an item for which there was memory or not.
abbrev pub name_item : Option ℕ → Bytes → Act (Unit {0})
name_item none name s = out_of_memory
name_item (some p) name s = lift (set_name p name) s

-- A doge gets a name.
unfoldable pub add_item_to_bag : (Heap Item → Option ℕ) → ℕ → Act (Unit {0})
add_item_to_bag malloc item_type = do
  new_item ← lift (create_item malloc item_type)
  when (item_type == item_doge)
      (do name ← read_until_newline_or_limit max_str_len; name_item new_item name) (pure tt)
  lift (add_item_to_inventory new_item)

-- The arrays have as many elements as the bag has items, which must not be none.
abbrev no_elements : Act (Option ℕ)
no_elements s = empty_array s

unfoldable pub select_item_in_inventory : Act (Option ℕ)
select_item_in_inventory = do
  num_items ← reads count_items
  when (num_items == 0) no_elements (do
    items_tracker ← reads (λ s. tracker_loop num_items s.heap s.bag)
    selected_item ← show_menu num_items
    p ← at_index items_tracker selected_item
    pure (some p))

unfoldable pub handle_new_item : (Heap Item → Option ℕ) → Act (Unit {0})
handle_new_item malloc = do
  new_item ← get_random_number 0 8
  action ← at_index item_actions new_item
  add_item ← show_menu 2
  when (add_item == 1) (add_item_to_bag malloc new_item) (pure tt)

-- An item that can be used up leaves the bag.
unfoldable pub consume : Item → Act (Unit {0})
consume item = do
  expendable ← at_index item_expendable item.kind
  when (expendable == 1) (lift (remove_item_from_inventory item.item_index) >>= λ removed. pure tt)
      (pure tt)

-- The end of `use_item`, for an item of an action that can be used.
unfoldable pub use_action : ℕ → Item → Act (Unit {0})
use_action action item = do
  weight ← at_index action_weights item.kind
  when ((action == action_heal) || (action == action_pet))
      (modify (λ s. record s { health = u32_add s.health weight }))
      (modify (λ s. record s { special_enabled = 1 }))
  consume item

unfoldable pub use_selected : Option ℕ → Act (Unit {0})
use_selected none = pure tt
use_selected (some p) = do
  item ← reads (item_at p)
  action ← at_index item_actions item.kind
  when ((action == action_heal) || (action == action_pet) || (action == action_special))
      (use_action action item) (pure tt)

unfoldable pub use_item : Act (Unit {0})
use_item = select_item_in_inventory >>= use_selected

unfoldable pub drop_selected : Option ℕ → Act (Unit {0})
drop_selected none s = wild
drop_selected (some p) s =
    (reads (item_at p) >>= λ item. lift (drop_item_from_bag item.item_index) >>= λ dropped. pure tt)
      s

unfoldable pub drop_item : Act (Unit {0})
drop_item s = elim s.bag [
  | none ↦ next tt s
  | some p ↦ (select_item_in_inventory >>= drop_selected) s
]
