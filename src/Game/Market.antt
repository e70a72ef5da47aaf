-- ===== src/Game/Market.antt =====
-- The market of game.c.
use basic_jqr.Base.{
  ℕ, zero, suc, ◌+◌, ◌/◌, Option, none, some, List, [], ◌∷◌, ◌||◌, ltb, leb, ◌==◌, length,
}
use basic_jqr.Heap.{Heap}
use basic_jqr.Game.State.{
  Item, endless, Act, pure, ◌>>=◌, ◌>>◌, gets, modify, when, reads, lift, at_index, u32_add,
  u32_sub, show_menu, get_random_number,
}
use basic_jqr.Game.Bag.{item_doge, item_at, remove_item_from_inventory}
use basic_jqr.Game.Items.{add_item_to_bag, select_item_in_inventory}

abbrev pub item_food : ℕ
item_food = 6

abbrev pub item_water : ℕ
item_water = 7

unfoldable pub buy_item : (Heap Item → Option ℕ) → List ℕ → ℕ → Act (Unit {0})
buy_item malloc store_prices player_choice = do
  item_price ← at_index store_prices player_choice
  coins ← gets (λ s. s.coins)
  when (leb item_price coins)
      (do
        modify (λ s. record s { coins = u32_sub s.coins item_price })
        add_item_to_bag malloc player_choice)
      (pure tt)

unfoldable pub sell_selected : List ℕ → Option ℕ → Act (Unit {0})
sell_selected store_prices none = pure tt
sell_selected store_prices (some p) = do
  item ← reads (item_at p)
  when ((item.kind == item_food) || (item.kind == item_water) || (item.kind == item_doge)) (pure tt)
      (do
        price ← at_index store_prices item.kind
        modify (λ s. record s { coins = u32_add s.coins (price / 2) })
        removed ← lift (remove_item_from_inventory item.item_index)
        pure tt)

unfoldable pub sell_item : List ℕ → Act (Unit {0})
sell_item store_prices = select_item_in_inventory >>= sell_selected store_prices

-- What a choice from the market's menu does before the menu is shown again, and whether it is.
unfoldable pub market_choice : (Heap Item → Option ℕ) → List ℕ → ℕ → Act (Unit {0})
market_choice malloc store_prices player_choice =
    when (ltb player_choice 10) (buy_item malloc store_prices player_choice)
      (sell_item store_prices)

-- The `while` loop: each round takes a character, so the rounds are one more than what is typed.
unfoldable pub market_loop : (Heap Item → Option ℕ) → List ℕ → ℕ → Act (Unit {0})
market_loop malloc store_prices zero s = endless
market_loop malloc store_prices (suc rounds) s =
    (show_menu 12 >>= λ player_choice.
    when (leb player_choice 10)
      (market_choice malloc store_prices player_choice >>= λ _.
        market_loop malloc store_prices rounds)
      (pure tt))
      s

-- The prices, by kind of item.
unfoldable pub store_prices : Act (List ℕ)
store_prices = do
  sword ← get_random_number 200 400
  shield ← get_random_number 40 60
  cloak ← get_random_number 10 50
  armor ← get_random_number 65 85
  bow ← get_random_number 150 300
  food ← get_random_number 2 10
  water ← get_random_number 1 5
  tent ← get_random_number 30 40
  special ← get_random_number 2000 2500
  pure (sword ∷ shield ∷ 15 ∷ cloak ∷ armor ∷ bow ∷ food ∷ water ∷ tent ∷ special ∷ [])

unfoldable pub handle_market : (Heap Item → Option ℕ) → Act (Unit {0})
handle_market malloc = do
  prices ← store_prices
  rounds ← gets (λ s. length s.input + 1)
  market_loop malloc prices rounds
