-- ===== src/Game/Safe.antt =====
-- A whole game of game.c.
use basic_jqr.Base.{
  false, ℕ, zero, suc, ◌+◌, ◌^◌, ◌<◌, ◌≡◌, ◌≢◌, inl, inr, refl, true, Option, [], arith, length,
  ltb, ◌==◌, Returns, subst, sym, ap, ◌∙◌, Bool-cases,
}
use basic_jqr.Heap.{Heap}
use basic_jqr.Game.State.{Item, Game, show_menu}
use basic_jqr.Game.Bag.{reach, display_loop, display_inventory}
use basic_jqr.Game.Items.{handle_new_item, use_item}
use basic_jqr.Game.Enemy.{handle_enemy}
use basic_jqr.Game.Market.{handle_market}
use basic_jqr.Game.Play.{
  create_new_player, new_game, handle_travel, display_stats, location_label, explore_location,
  handle_explore, main_choice, show_main_menu, play_loop, play_game,
}
use basic_jqr.Game.Chain.{display_loop-items}
use basic_jqr.Game.Runs.{
  Plays, Afterwards, Plays-Afterwards, Plays-then, Plays-imp, read_turn-then, random-then,
  when-then, when-Plays,
}
use basic_jqr.Game.Played.{Good, Good-more, show_menu-Plays}
use basic_jqr.Game.Made.{Fresh}
use basic_jqr.Game.Selected.{use_item-Good, handle_new_item-Good}
use basic_jqr.Game.Traded.{handle_market-Good}
use basic_jqr.Game.Fought.{Ended, handle_enemy-Good}

handle_travel-Good : (n : ℕ) (s : Game) → Good n s → Plays (λ lives s'. Good n s') (handle_travel s)
unfolding handle_travel
handle_travel-Good n s (bag, typed, room, place, risk) =
    random-then _ 0 5 s _ (omega arith) (omega arith) (λ location l h.
      random-then _ 0 s.inverse_walking_risk _ _ (omega arith) (omega (arith, risk))
        (λ injury l2 h2. (bag, typed, room, omega (arith, h), risk)))

display_inventory-items :
    (n : ℕ) (s : Game) → Good n s → Returns (λ shown. Unit {0}) (display_inventory s)
unfolding display_inventory
display_inventory-items n s good =
    let (cs, k, named) = good.0 in
    subst (Returns _)
      (sym (
        ap (display_loop (reach s) s.heap) k.start
        ∙ display_loop-items (reach s) s.heap cs k.linked k.kinds named (omega (arith, k.few))))
      tt

location_label-Good :
    (n : ℕ) (s : Game) → Good n s → Plays (λ u s'. Good n s' × (s' ≡ s)) (location_label s)
unfolding location_label
location_label-Good n s (bag, typed, room, place, risk) =
    let shown : ltb s.location 7 ≡ true = ground (arith, place) in
    rw (shown) ((bag, typed, room, place, risk), refl)

-- The player does not choose to drop an item in any round of a game that goes on like this.
abbrev pub NeverDrops : (Heap Item → Option ℕ) → ℕ → Game → Type 0
NeverDrops malloc zero s = Unit
NeverDrops malloc (suc rounds) s =
    (s.special_enabled == 1) ≡ false
    → Afterwards
        (λ choice s1.
          (choice ≢ 5)
          × Afterwards (λ active_game s2. (active_game == 1) ≡ true → NeverDrops malloc rounds s2)
              (main_choice malloc choice s1))
        (show_menu 7 s)

module _ (malloc : Heap Item → Option ℕ) (fresh : Fresh malloc) where
  explore_location-Good :
      (enemy n : ℕ) (s : Game)
      → Good n s
      → Plays (λ lives s'. Good n s') (explore_location malloc enemy s)
  unfolding explore_location
  explore_location-Good enemy n s good =
      when-Plays _ (s.location == 0) _ _ s
        (λ village.
          Plays-then _ (handle_market malloc s) _ (handle_market-Good malloc fresh n s good)
            (λ u s' good'. good'))
        (λ wilderness.
          when-Plays _ (enemy == 1) _ _ s
            (λ met.
              Plays-imp {P = Ended n} _ (handle_enemy s) (handle_enemy-Good n s good)
                (λ lives s' ended. ended.0))
            (λ alone. good))

  handle_explore-Good :
      (n : ℕ) (s : Game) → Good n s → Plays (λ lives s'. Good n s') (handle_explore malloc s)
  unfolding handle_explore
  handle_explore-Good n s good =
      Plays-then _ (location_label s) _ (location_label-Good n s good) (λ u s1 (good1, same).
        random-then _ 0 1 s1 _ (omega arith) (omega arith) (λ item l h.
          random-then _ 0 1 _ _ (omega arith) (omega arith) (λ enemy l2 h2.
            when-then _ (item == 1) _ _ (λ u. explore_location malloc enemy) _
              (λ found.
                Plays-then _ (handle_new_item malloc _) _
                  (handle_new_item-Good malloc n _ fresh good1)
                  (λ v s2 good2. explore_location-Good enemy n s2 good2))
              (λ nothing. explore_location-Good enemy n _ good1))))

  main_choice-Good :
      (choice n : ℕ) (s : Game)
      → choice ≢ 5
      → Good n s
      → Plays (λ lives s'. Good n s') (main_choice malloc choice s)
  unfolding main_choice
  main_choice-Good choice n s ne good =
      when-Plays _ (choice == 0) _ _ s (λ quit. good)
        (λ c0.
          when-Plays _ (choice == 1) _ _ s (λ travel. handle_travel-Good n s good)
            (λ c1.
              when-Plays _ (choice == 2) _ _ s (λ explore. handle_explore-Good n s good)
                (λ c2.
                  when-Plays _ (choice == 3) _ _ s
                    (λ shows.
                      read_turn-then _ (display_inventory s) s _ (display_inventory-items n s good)
                        (λ shown u. good))
                    (λ c3.
                      when-Plays _ (choice == 4) _ _ s
                        (λ uses.
                          Plays-then _ (use_item s) _ (use_item-Good n s good)
                            (λ u s' good'. good'))
                        (λ c4.
                          when-Plays _ (choice == 5) _ _ s
                            (λ drops. absurd (ne (ground (arith, drops)))) (λ c5. good))))))

  -- A round of the main menu takes a character at least.
  show_main_menu-Good :
      (rounds n : ℕ) (s : Game)
      → (s.special_enabled == 1) ≡ false
      → NeverDrops malloc (suc rounds) s
      → Good n s
      → Plays
          (λ lives s'.
            ((m : ℕ) × (m < n) × Good m s') × ((lives == 1) ≡ true → NeverDrops malloc rounds s'))
          (show_main_menu malloc s)
  unfolding show_main_menu
  show_main_menu-Good rounds n s on never good =
      Plays-then _ (show_menu 7 s) _
        (Plays-Afterwards _ _ (show_menu 7 s) (show_menu-Plays 7 n s (omega arith) good) (never on))
        (λ i s2 ((listed, (m, below, good2), more), (ne, later)).
          Plays-imp
            (λ lives s'.
              ((m : ℕ) × (m < n) × Good m s') × ((lives == 1) ≡ true → NeverDrops malloc rounds s'))
            (main_choice malloc i s2)
            (Plays-Afterwards (λ lives s'. Good m s') _ (main_choice malloc i s2)
              (main_choice-Good i m s2 ne good2) later)
            (λ lives s3 (good3, still). ((m, below, good3), still)))

  play_loop-Good :
      (rounds n : ℕ) (s : Game)
      → n < rounds
      → NeverDrops malloc rounds s
      → Good n s
      → Plays (λ u s'. Good n s') (play_loop malloc rounds s)
  unfolding play_loop display_stats
  play_loop-Good zero n s lt never good = absurd (omega arith)
  play_loop-Good (suc rounds) n s lt never good = elim (Bool-cases (s.special_enabled == 1)) [
    | inl won ↦ rw (play_loop, won) good
    | inr on ↦
        rw (play_loop, on)
          (Plays-then _ (location_label s) _ (location_label-Good n s good) (λ u s1 (good1, same).
            Plays-then _ (show_main_menu malloc s1) _
              (show_main_menu-Good rounds n s1 (ap (λ g. g.special_enabled == 1) same ∙ on)
                (subst (NeverDrops malloc (suc rounds)) (sym same) never) good1)
              (λ lives s3 ((m, below, good3), still).
                when-Plays _ (lives == 1) _ _ s3
                  (λ again.
                    Plays-imp _ _
                      (play_loop-Good rounds m s3 (omega (arith, lt, below)) (still again) good3)
                      (λ v s4. Good-more m n s4 (omega (arith, below))))
                  (λ over. Good-more m n s3 (omega (arith, below)) good3))))
  ]

  -- A game of fewer than 2^32 characters, in which the player never chooses to drop an item, with
  -- the risk that the program starts with and a `malloc` that gives only addresses where nothing
  -- is, is over at some time, with a bag that is a proper chain of items of kinds that exist, in
  -- which the doges have names, or breaks off in one of these ways: the input ends without a choice
  -- of a menu, which then calls itself for ever; an item is to be chosen from an empty bag, for
  -- which the array has no elements; a name is too long for its buffer, or is for an item without
  -- memory. No wild pointer is followed, no table is read past its end, and no other loop goes on
  -- for ever.
  pub play_game-Plays :
      (s : Game)
      → length s.input < 2 ^ 32
      → s.inverse_walking_risk ≡ 90000
      → NeverDrops malloc (length s.input + 1) (new_game s)
      → Plays (λ u s'. Good (length s.input) s') (play_game malloc s)
  unfolding play_game new_game create_new_player
  play_game-Plays s short risk never =
      play_loop-Good (length s.input + 1) (length s.input) (new_game s) (omega arith) never (
        (
          [],
          record { start = refl; linked = tt; distinct = tt; kinds = tt; few = omega arith },
          tt,
        ),
        omega arith,
        omega (arith, short),
        omega arith,
        risk,
      )
