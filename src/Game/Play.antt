-- ===== src/Game/Play.antt =====
-- The main menu of game.c and its loop.
use basic_jqr.Base.{ℕ, zero, suc, ◌+◌, Option, none, ltb, ◌==◌, if◌then◌else◌, length}
use basic_jqr.Heap.{Heap}
use basic_jqr.Game.State.{
  Item, Game, next, wild, endless, Act, pure, ◌>>=◌, ◌>>◌, gets, modify, when, reads, show_menu,
  get_random_number,
}
use basic_jqr.Game.Bag.{display_inventory}
use basic_jqr.Game.Items.{handle_new_item, use_item, drop_item}
use basic_jqr.Game.Market.{handle_market}
use basic_jqr.Game.Enemy.{handle_enemy}

abbrev initial_health : ℕ
initial_health = 100

abbrev initial_coin : ℕ
initial_coin = 100

-- The player is in the village, with an empty bag.
unfoldable pub create_new_player : Game → Game
create_new_player s = record s {
  health = initial_health;
  coins = initial_coin;
  location = 0;
  bag = none;
}

-- The start of `play_game`.
unfoldable pub new_game : Game → Game
new_game s = create_new_player (record s { special_enabled = 0; item_index_counter = 0 })

unfoldable pub handle_travel : Act ℕ
handle_travel = do
  new_location ← get_random_number 0 5
  risk ← gets (λ s. s.inverse_walking_risk)
  injury_occurs ← get_random_number 0 risk
  modify (λ s. record s { location = new_location })
  pure (if injury_occurs == 1 then 0 else 1)

-- `location_labels[player->location]`
unfoldable pub location_label : Act (Unit {0})
location_label s = if ltb s.location 7 then next tt s else wild

unfoldable pub display_stats : Act (Unit {0})
display_stats = location_label

module _ (malloc : Heap Item → Option ℕ) where
  -- The end of `handle_explore`: the market is in the village, and enemies are elsewhere.
  unfoldable pub explore_location : ℕ → Act ℕ
  explore_location encounter_enemy s =
      when (s.location == 0) (handle_market malloc >>= λ _. pure 1)
        (when (encounter_enemy == 1) handle_enemy (pure 1)) s

  unfoldable pub handle_explore : Act ℕ
  handle_explore = do
    location_label
    encounter_item ← get_random_number 0 1
    encounter_enemy ← get_random_number 0 1
    when (encounter_item == 1) (handle_new_item malloc) (pure tt)
    explore_location encounter_enemy

  -- The `switch` of `show_main_menu`.
  unfoldable pub main_choice : ℕ → Act ℕ
  main_choice choice = when (choice == 0) (pure 0) (
      when (choice == 1) handle_travel (
        when (choice == 2) handle_explore (
          when (choice == 3) (reads display_inventory >>= λ items. pure 1) (
            when (choice == 4) (use_item >>= λ _. pure 1)
              (when (choice == 5) (drop_item >>= λ _. pure 1) (pure 1))))))

  unfoldable pub show_main_menu : Act ℕ
  show_main_menu = show_menu 7 >>= main_choice

  -- The loop of `play_game`. Each round takes a character.
  unfoldable pub play_loop : ℕ → Act (Unit {0})
  play_loop zero s = endless
  play_loop (suc rounds) s =
      if s.special_enabled == 1
      then next tt s
      else (display_stats >>= λ _.
            show_main_menu >>= λ active_game. when (active_game == 1) (play_loop rounds) (pure tt))
          s

  unfoldable pub play_game : Act (Unit {0})
  play_game = do modify new_game; rounds ← gets (λ s. length s.input + 1); play_loop rounds
