-- ===== src/Game/Selected.antt =====
-- What the player of game.c does with the items, as `Good` games.
use basic_jqr.Base.{
  [], ◌∷◌, ℕ, ◌+◌, ◌^◌, ◌<◌, ◌≡◌, ◌≢◌, refl, ap, ◌∙◌, Option, none, some, arith, length, All, ◌||◌,
  ◌==◌, ok, Returns, subst, sym, Returns-bind,
}
use basic_jqr.Heap.{Cell, Heap, load}
use basic_jqr.Heap.Linked.{first, Cells}
use basic_jqr.Game.State.{Item, Game, show_menu}
use basic_jqr.Game.Bag.{
  item_actions, item_expendable, action_weights, action_heal, action_pet, action_special, reach,
  item_at, count_items, count_loop, tracker_loop, remove_item_from_inventory,
}
use basic_jqr.Game.Items.{
  consume, select_item_in_inventory, handle_new_item, use_action, use_selected, use_item,
}
use basic_jqr.Game.Chain.{
  IsBag, addresses, length-addresses, addresses-item, count_loop-length, tracker_loop-addresses,
}
use basic_jqr.Game.Runs.{
  Plays, Plays-then, read_turn-then, turn-then, at_index-then, at_index_any, random-then, when-then,
  when-Plays,
}
use basic_jqr.Game.Played.{Good, Good-more, show_menu-Plays, show_menu-Good}
use basic_jqr.Game.Removed.{All-without, remove-IsBag}
use basic_jqr.Game.Made.{Fresh}
use basic_jqr.Game.Added.{add_item_to_bag-Good}

pub remove-Good :
    (index n : ℕ) (s : Game)
    → Good n s
    → Returns (λ (removed, s'). Good n s') (remove_item_from_inventory index s)
remove-Good index n s (bag, typed, room, place, risk) =
    let (heap, done, k) = remove-IsBag index s bag.0 bag.1 in
    rw (done) ((_, k, All-without _ index bag.0 bag.2), typed, room, place, risk)

-- An item that is chosen is in the bag.
abbrev pub Held : Option ℕ → Heap Item → Type 0
Held none heap = Unit
Held (some p) heap = Returns (λ (c : Cell Item). c.datum.kind < 10) (load heap (some p))

pub item_at-Held :
    (p : ℕ) (s : Game) → Held (some p) s.heap → Returns (λ item. item.kind < 10) (item_at p s)
item_at-Held p s held = Returns-bind _ (load s.heap (some p)) (λ c. ok c.datum) held (λ c lt. lt)

count_items-length :
    (n : ℕ) (s : Game) (cs : Cells Item)
    → IsBag s.heap s.bag s.item_index_counter cs
    → s.item_index_counter + length s.input < 2 ^ 32
    → Returns (λ count. count ≡ length cs) (count_items s)
unfolding count_items
count_items-length n s cs k room =
    subst (Returns _)
      (sym (
        ap (count_loop (reach s) s.heap) k.start
        ∙ count_loop-length (reach s) s.heap cs k.linked (omega (arith, k.few, room))
            (omega (arith, k.few))))
      refl

tracker-addresses :
    (count : ℕ) (s : Game) (cs : Cells Item)
    → IsBag s.heap s.bag s.item_index_counter cs
    → count ≡ length cs
    → Returns (λ tracker. tracker ≡ addresses cs) (tracker_loop count s.heap s.bag)
tracker-addresses count s cs k e =
    subst (Returns _)
      (sym (
        ap (tracker_loop count s.heap) k.start
        ∙ tracker_loop-addresses count s.heap cs k.linked k.kinds (omega (arith, e))))
      refl

first-none : (cs : Cells Item) → length cs ≡ 0 → first cs none ≡ none
first-none [] e = refl
first-none (c ∷ cs) e = absurd (omega (arith, e))

-- The menu over the bag: one of its items.
pub select_item-Good :
    (n : ℕ) (s : Game)
    → Good n s
    → Plays
        (λ p s'. Good n s' × Held p s'.heap × (s.bag ≢ none → p ≢ none))
        (select_item_in_inventory s)
unfolding select_item_in_inventory
select_item-Good n s good =
    let (cs, k, named) = good.0 in
    read_turn-then _ (count_items s) s _ (count_items-length n s cs k good.2) (λ count counted.
      when-Plays _ (count == 0) _ _ s
        (λ empty. k.start ∙ first-none cs (ground (arith, empty, counted)))
        (λ entries.
          read_turn-then _ (tracker_loop count s.heap s.bag) s _
            (tracker-addresses count s cs k counted)
            (λ tracker tracked.
              Plays-then _ (show_menu count s) _
                (show_menu-Good count n s (ground (arith, entries)) good)
                (λ i s' (lt, same, good').
                  at_index-then _ tracker i s' _
                    (subst (λ heap. All (λ a. Held (some a) heap) tracker) (sym same)
                      (subst (All _) (sym tracked) (addresses-item s.heap cs k.linked k.kinds)))
                    (rw (tracked) (rw (length-addresses cs) (omega (arith, lt, counted))))
                    (λ p held. (good', held, λ e e'. cc))))))

pub consume-Good :
    (n : ℕ) (item : Item) (s : Game)
    → item.kind < 10
    → Good n s
    → Plays (λ u s'. Good n s') (consume item s)
unfolding consume
consume-Good n item s lt good = at_index_any _ item_expendable item.kind s _ lt (λ expendable.
    when-Plays _ (expendable == 1) _ _ s
      (λ used.
        turn-then (λ (removed, s'). Good n s') _ (remove_item_from_inventory item.item_index s) _
          (remove-Good item.item_index n s good) (λ removed s' good'. good'))
      (λ kept. good))

use_action-Good :
    (action n : ℕ) (item : Item) (s : Game)
    → item.kind < 10
    → Good n s
    → Plays (λ u s'. Good n s') (use_action action item s)
unfolding use_action
use_action-Good action n item s lt good = at_index_any _ action_weights item.kind s _ lt (λ weight.
    when-then (λ u s'. Good n s') ((action == action_heal) || (action == action_pet)) _ _
      (λ u. consume item) s (λ heals. consume-Good n item _ lt good)
      (λ special. consume-Good n item _ lt good))

use_selected-Good :
    (p : Option ℕ) (n : ℕ) (s : Game)
    → Held p s.heap
    → Good n s
    → Plays (λ u s'. Good n s') (use_selected p s)
unfolding use_selected
use_selected-Good none n s held good = good
use_selected-Good (some p) n s held good =
    read_turn-then _ (item_at p s) s _ (item_at-Held p s held) (λ item lt.
      at_index_any _ item_actions item.kind s _ lt (λ action.
        when-Plays _
          ((action == action_heal) || (action == action_pet) || (action == action_special)) _ _ s
          (λ usable. use_action-Good action n item s lt good) (λ other. good)))

pub use_item-Good : (n : ℕ) (s : Game) → Good n s → Plays (λ u s'. Good n s') (use_item s)
unfolding use_item
use_item-Good n s good =
    Plays-then _ (select_item_in_inventory s) _ (select_item-Good n s good)
      (λ p s' (good', held, chosen). use_selected-Good p n s' held good')

pub handle_new_item-Good :
    (malloc : Heap Item → Option ℕ) (n : ℕ) (s : Game)
    → Fresh malloc
    → Good n s
    → Plays (λ u s'. Good n s') (handle_new_item malloc s)
unfolding handle_new_item
handle_new_item-Good malloc n s fresh good =
    random-then _ 0 8 s _ (omega arith) (omega arith) (λ kind low high.
      at_index_any _ item_actions kind _ _ (omega (arith, high)) (λ action.
        Plays-then _ (show_menu 2 _) _ (show_menu-Plays 2 n _ (omega arith) good)
          (λ i s' (lt, (m, below, good'), more).
            when-Plays _ (i == 1) _ _ s'
              (λ wanted.
                add_item_to_bag-Good malloc kind n s' fresh (omega (arith, high))
                  (Good-more m n s' (omega (arith, below)) good') more)
              (λ left. Good-more m n s' (omega (arith, below)) good'))))
