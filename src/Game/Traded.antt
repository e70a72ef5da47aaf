-- ===== src/Game/Traded.antt =====
-- The market of game.c leaves a `Good` game.
use basic_jqr.Base.{
  ℕ, zero, suc, ◌+◌, ◌^◌, ◌<◌, ◌≡◌, refl, Option, none, some, List, arith, length, ◌||◌, ltb, leb,
  ◌==◌, ltb→lt,
}
use basic_jqr.Heap.{Heap}
use basic_jqr.Game.State.{Item, Game, show_menu}
use basic_jqr.Game.Bag.{item_doge, item_at, remove_item_from_inventory}
use basic_jqr.Game.Items.{select_item_in_inventory}
use basic_jqr.Game.Market.{
  item_food, item_water, buy_item, sell_selected, sell_item, market_choice, market_loop,
  store_prices, handle_market,
}
use basic_jqr.Game.Runs.{
  Plays, Plays-then, read_turn-then, turn-then, at_index_any, random-then, when-Plays, Plays-imp,
}
use basic_jqr.Game.Played.{Good, Good-more, Good-length, show_menu-Plays}
use basic_jqr.Game.Made.{Fresh}
use basic_jqr.Game.Added.{add_item_to_bag-Good}
use basic_jqr.Game.Selected.{Held, item_at-Held, select_item-Good, remove-Good}

module _ (malloc : Heap Item → Option ℕ) (fresh : Fresh malloc) where
  buy_item-Good :
      (prices : List ℕ) (choice n : ℕ) (s : Game)
      → length prices ≡ 10
      → choice < 10
      → Good n s
      → s.item_index_counter + length s.input + 1 < 2 ^ 32
      → Plays (λ u s'. Good n s') (buy_item malloc prices choice s)
  unfolding buy_item
  buy_item-Good prices choice n s ten lt good more =
      at_index_any _ prices choice s _ (omega (arith, ten, lt)) (λ price.
        when-Plays _ (leb price s.coins) _ _ s
          (λ enough. add_item_to_bag-Good malloc choice n _ fresh lt good more) (λ poor. good))

sell_selected-Good :
    (prices : List ℕ) (p : Option ℕ) (n : ℕ) (s : Game)
    → length prices ≡ 10
    → Held p s.heap
    → Good n s
    → Plays (λ u s'. Good n s') (sell_selected prices p s)
unfolding sell_selected
sell_selected-Good prices none n s ten held good = good
sell_selected-Good prices (some p) n s ten held good =
    read_turn-then _ (item_at p s) s _ (item_at-Held p s held) (λ item lt.
      when-Plays _
        ((item.kind == item_food) || (item.kind == item_water) || (item.kind == item_doge)) _ _ s
        (λ kept. good)
        (λ sold. at_index_any _ prices item.kind s _ (omega (arith, ten, lt)) (λ price.
          turn-then (λ (removed, s'). Good n s') _ (remove_item_from_inventory item.item_index _) _
            (remove-Good item.item_index n _ good) (λ removed s' good'. good'))))

sell_item-Good :
    (prices : List ℕ) (n : ℕ) (s : Game)
    → length prices ≡ 10
    → Good n s
    → Plays (λ u s'. Good n s') (sell_item prices s)
unfolding sell_item
sell_item-Good prices n s ten good =
    Plays-then _ (select_item_in_inventory s) _ (select_item-Good n s good)
      (λ p s' (good', held, chosen). sell_selected-Good prices p n s' ten held good')

store_prices-Good :
    (n : ℕ) (s : Game)
    → Good n s
    → Plays (λ prices s'. (length prices ≡ 10) × Good n s') (store_prices s)
unfolding store_prices
store_prices-Good n s good = random-then _ 200 400 s _ (omega arith) (omega arith) (λ sword l1 h1.
    random-then _ 40 60 _ _ (omega arith) (omega arith) (λ shield l2 h2.
      random-then _ 10 50 _ _ (omega arith) (omega arith) (λ cloak l3 h3.
        random-then _ 65 85 _ _ (omega arith) (omega arith) (λ armor l4 h4.
          random-then _ 150 300 _ _ (omega arith) (omega arith) (λ bow l5 h5.
            random-then _ 2 10 _ _ (omega arith) (omega arith) (λ food l6 h6.
              random-then _ 1 5 _ _ (omega arith) (omega arith) (λ water l7 h7.
                random-then _ 30 40 _ _ (omega arith) (omega arith) (λ tent l8 h8.
                  random-then _ 2000 2500 _ _ (omega arith) (omega arith)
                    (λ special l9 h9. (refl, good))))))))))

module _ (malloc : Heap Item → Option ℕ) (fresh : Fresh malloc) where
  market_loop-Good :
      (rounds n : ℕ) (prices : List ℕ) (s : Game)
      → n < rounds
      → length prices ≡ 10
      → Good n s
      → Plays (λ u s'. Good n s') (market_loop malloc prices rounds s)
  unfolding market_loop market_choice
  market_loop-Good zero n prices s lt ten good = absurd (omega arith)
  market_loop-Good (suc rounds) n prices s lt ten good =
      Plays-then _ (show_menu 12 s) _ (show_menu-Plays 12 n s (omega arith) good)
        (λ i s' (listed, (m, below, good'), more).
          when-Plays _ (leb i 10) _ _ s'
            (λ stay.
              Plays-then _ (market_choice malloc prices i s') _
                (when-Plays (λ u s''. Good m s'') (ltb i 10) _ _ s'
                  (λ buys.
                    buy_item-Good malloc fresh prices i m s' ten (ltb→lt i 10 buys) good' more)
                  (λ sells. sell_item-Good prices m s' ten good'))
                (λ u s'' good''.
                  Plays-imp _ _
                    (market_loop-Good rounds m prices s'' (omega (arith, lt, below)) ten good'')
                    (λ v s3. Good-more m n s3 (omega (arith, below)))))
            (λ leave. Good-more m n s' (omega (arith, below)) good'))

  pub handle_market-Good :
      (n : ℕ) (s : Game) → Good n s → Plays (λ u s'. Good n s') (handle_market malloc s)
  unfolding handle_market
  handle_market-Good n s good =
      Plays-then _ (store_prices s) _ (store_prices-Good n s good) (λ prices s' (ten, good').
        Plays-imp _ _
          (market_loop-Good (length s'.input + 1) (length s'.input) prices s' (omega arith) ten
            (Good-length n s' good'))
          (λ u s''. Good-more (length s'.input) n s'' good'.1))
