-- ===== src/Game/Tests.antt =====
-- Examples of games of game.c.
use basic_jqr.Base.{
  ℕ, zero, suc, ◌+◌, ◌≤◌, ◌<◌, ◌≡◌, inl, inr, refl, sym, ◌∙◌, true, Option, none, some, List, [],
  ◌∷◌, ◌++◌, arith, length, Option-cases, ok, fault,
}
use basic_jqr.Heap.{cell, Heap, write}
use basic_jqr.Heap.Linked.{Cells, first}
use basic_jqr.Game.State.{
  Item, Game, next, overrun, menu_loop, accepted, selection, show_menu, get_random_number,
  read_until_newline_or_limit,
}
use basic_jqr.Game.Bag.{
  print_name, create_item, display_loop, display_inventory, drop_item_from_bag,
  remove_item_from_inventory, add_item_to_inventory, count_items,
}
use basic_jqr.Game.Items.{add_item_to_bag, handle_new_item}
use basic_jqr.Game.Market.{market_choice, buy_item, market_loop, store_prices, handle_market}
use basic_jqr.Game.Play.{
  new_game, create_new_player, location_label, display_stats, explore_location, handle_explore,
  main_choice, show_main_menu, play_loop, play_game,
}
use basic_jqr.Game.Chain.{IsBag}
use basic_jqr.Game.Runs.{Plays}
use basic_jqr.Game.Played.{Good}
use basic_jqr.Game.Removed.{has, without, remove-IsBag}
use basic_jqr.Game.Made.{Fresh}
use basic_jqr.Game.Safe.{NeverDrops, play_game-Plays}
use basic_jqr.Game.Dropped.{drop_item_from_bag-fault}
use basic_jqr.Game.Names.{read_until_newline_or_limit_lem}

-- The highest free address below a number.
abbrev places : ℕ → Heap Item → Option ℕ
places zero heap = none
places (suc n) heap = let lower = places n heap in elim (heap n) [ none ↦ some n | some c ↦ lower ]

places-Fresh : (n : ℕ) → Fresh (places n)
places-Fresh zero heap a given = cc
places-Fresh (suc n) heap a given = elim (Option-cases (heap n)) [
  | inl free ↦ let e : some n ≡ some a = sym (rw (places, free) refl) ∙ given in cc
  | inr (c, used) ↦ places-Fresh n heap a (sym (rw (places, used) refl) ∙ given)
]

abbrev game : List ℕ → Game
game input = record {
  health = 0;
  location = 0;
  coins = 0;
  bag = none;
  heap = λ a. none;
  item_index_counter = 0;
  special_enabled = 0;
  inverse_walking_risk = 90000;
  input = input;
  rand = λ k. 1;
  drawn = 0;
}

-- Explore, keep what is found, ask for a bow, which is too dear, leave the market, show the bag,
-- quit.
abbrev explorer : Game
explorer = game (50 ∷ 10 ∷ 49 ∷ 10 ∷ 53 ∷ 10 ∷ 98 ∷ 10 ∷ 51 ∷ 10 ∷ 48 ∷ 10 ∷ [])

explorer-NeverDrops : NeverDrops (places 8) (length explorer.input + 1) (new_game explorer)
unfolding play_game create_new_player play_loop display_stats location_label show_main_menu
    show_menu menu_loop accepted selection main_choice handle_explore get_random_number
    handle_new_item add_item_to_bag create_item add_item_to_inventory explore_location handle_market
    store_prices market_loop display_inventory display_loop print_name write new_game market_choice
    buy_item
explorer-NeverDrops = λ on. (
  λ e. omega (arith, e),
  λ again on'. (λ e. omega (arith, e), λ again' on''. (λ e. omega (arith, e), λ more. cc)),
)

play_game-Plays_example :
    Plays (λ u s'. Good (length explorer.input) s') (play_game (places 8) explorer)
play_game-Plays_example =
    play_game-Plays (places 8) (places-Fresh 8) explorer (omega arith) refl explorer-NeverDrops

-- The item found is in the bag at the end.
explorer_bag : Plays (λ u s'. s'.bag ≡ some 7) (play_game (places 8) explorer)
unfolding play_game create_new_player play_loop display_stats location_label show_main_menu
    show_menu menu_loop accepted selection main_choice handle_explore get_random_number
    handle_new_item add_item_to_bag create_item add_item_to_inventory explore_location handle_market
    store_prices market_loop display_inventory display_loop print_name write new_game market_choice
    buy_item
explorer_bag = refl

abbrev shield : Item
shield = record { item_index = 0; kind = 1; name = none }

abbrev food : Item
food = record { item_index = 1; kind = 6; name = none }

abbrev two_cells : Cells Item
two_cells = (3, shield) ∷ (4, food) ∷ []

abbrev two_heap : Heap Item
two_heap = write (write (λ a. none) 4 (some (cell food none))) 3 (some (cell shield (some 4)))

abbrev two_items : Game
two_items = record (game []) { bag = some 3; heap = two_heap; item_index_counter = 2 }

two_items-IsBag : IsBag two_items.heap two_items.bag two_items.item_index_counter two_cells
unfolding write
two_items-IsBag = record {
  start = refl;
  linked = (refl, (refl, tt));
  distinct = ((λ e. omega (arith, e), tt), (tt, tt));
  kinds = (omega arith, (omega arith, tt));
  few = omega arith;
}

remove-IsBag_example :
    (heap : Heap Item) × (remove_item_from_inventory 1 two_items
      ≡ ok (
        has 1 two_cells,
        record two_items { bag = first (without 1 two_cells) none; heap = heap },
      ))
    × IsBag heap (first (without 1 two_cells) none) 2 (without 1 two_cells)
remove-IsBag_example = remove-IsBag 1 two_items two_cells two_items-IsBag

drop_item_from_bag-fault_example :
    (s' : Game) × (drop_item_from_bag 1 two_items ≡ ok (true, s'))
    × (display_inventory s' ≡ fault)
    × (count_items s' ≡ fault)
drop_item_from_bag-fault_example =
    drop_item_from_bag-fault 1 two_items two_cells two_items-IsBag refl

-- "Rex", and the next choice.
abbrev rex : List ℕ
rex = 82 ∷ 101 ∷ 120 ∷ []

read_until_newline_or_limit_lem_example :
    (length rex + 1 < 250
      → read_until_newline_or_limit 250 (game (rex ++ 10 ∷ 48 ∷ []))
        ≡ next rex (record (game (rex ++ 10 ∷ 48 ∷ [])) { input = 48 ∷ [] }))
    × (250 ≤ length rex + 1
        → read_until_newline_or_limit 250 (game (rex ++ 10 ∷ 48 ∷ [])) ≡ overrun)
read_until_newline_or_limit_lem_example =
    read_until_newline_or_limit_lem 250 (game (rex ++ 10 ∷ 48 ∷ [])) rex (48 ∷ []) (omega arith)
      refl (ground arith)
