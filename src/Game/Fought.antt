-- ===== src/Game/Fought.antt =====
-- The fights of game.c leave a `Good` game, and a player who is killed without health.
use basic_jqr.Base.{
  ℕ, zero, suc, ◌+◌, ◌-◌, ◌≤◌, ◌<◌, ◌≡◌, ◌≢◌, inl, inr, refl, false, Option, none, some, arith,
  length, All, ◌&&◌, not, ltb, leb, ◌==◌, if◌then◌else◌, Bool-cases, Option-cases,
}
use basic_jqr.Game.State.{Item, Game, show_menu}
use basic_jqr.Game.Bag.{
  action_attack, action_defend, action_heal, item_actions, action_weights, item_at,
}
use basic_jqr.Game.Items.{consume, select_item_in_inventory}
use basic_jqr.Game.Enemy.{
  enemy_health_vals, enemy_attack_vals, heal_with, fight_with, choose_item, strike, suffer, flee,
  enemy_loop, handle_enemy,
}
use basic_jqr.Game.Runs.{
  Plays, Plays-then, Plays-imp, read_turn-then, at_index-then, at_index_any, random-then,
  when-Plays,
}
use basic_jqr.Game.Played.{Good, Good-more, Good-length, show_menu-Plays}
use basic_jqr.Game.Selected.{Held, item_at-Held, select_item-Good, consume-Good}

weights_small : All (λ w. w ≤ 600) action_weights
weights_small = ground arith

heal_with-Good :
    (n : ℕ) (item : Item) (s : Game)
    → item.kind < 10
    → Good n s
    → Plays (λ r s'. Good n s') (heal_with item s)
unfolding heal_with
heal_with-Good n item s lt good = random-then _ 1 20 s _ (omega arith) (omega arith) (λ more l h.
    Plays-then _ (consume item _) _ (consume-Good n item _ lt good) (λ u s' good'. good'))

fight_with-Good :
    (p : Option ℕ) (n : ℕ) (s : Game)
    → p ≢ none
    → Held p s.heap
    → Good n s
    → Plays (λ r s'. Good n s') (fight_with p s)
unfolding fight_with
fight_with-Good none n s chosen held good = absurd (chosen refl)
fight_with-Good (some p) n s chosen held good =
    read_turn-then _ (item_at p s) s _ (item_at-Held p s held) (λ item lt.
      at_index_any _ item_actions item.kind s _ lt (λ action.
        at_index-then {P = λ w. w ≤ 600} _ action_weights item.kind s _ weights_small lt
          (λ weight small.
            when-Plays _ (action == action_attack) _ _ s
              (λ attacks.
                random-then _ (weight - 5) (weight + 5) s _ (omega arith) (omega (arith, small))
                  (λ r l h. good))
              (λ other.
                when-Plays _ (action == action_defend) _ _ s
                  (λ defends.
                    random-then _ (weight - 5) (weight + 5) s _ (omega arith) (omega (arith, small))
                      (λ r l h. good))
                  (λ neither.
                    when-Plays _ (action == action_heal) _ _ s
                      (λ heals. heal_with-Good n item s lt good) (λ useless. good))))))

choose_item-Good : (n : ℕ) (s : Game) → Good n s → Plays (λ r s'. Good n s') (choose_item s)
unfolding choose_item
choose_item-Good n s good = elim (Option-cases s.bag) [
  | inl empty ↦ rw (choose_item, empty) good
  | inr (p, e) ↦
      rw (choose_item, e)
        (Plays-then _ (select_item_in_inventory s) _ (select_item-Good n s good)
          (λ q s' (good', held, chosen). fight_with-Good q n s' (chosen (λ empty. cc)) held good'))
]

strike-Good :
    (enemy_action attack health coin n : ℕ) (s : Game)
    → Good n s
    → Plays (λ left s'. Good n s') (strike enemy_action attack health coin s)
unfolding strike
strike-Good enemy_action attack health coin n s good =
    when-Plays _ (not (enemy_action == 1) && ltb 0 attack) _ _ s
      (λ hits.
        when-Plays _ ((if ltb health attack then 0 else health - attack) == 0) _ _ s (λ slain. good)
          (λ hurt. good))
      (λ nothing. good)

-- Whoever does not live has no health.
suffer-Good :
    (enemy_action defend attack n : ℕ) (s : Game)
    → Good n s
    → Plays
        (λ r s'. Good n s' × (r.0 ≡ false → s'.health ≡ 0))
        (suffer enemy_action defend attack s)
unfolding suffer
suffer-Good enemy_action defend attack n s good = elim (Bool-cases (enemy_action == 2)) [
  | inl attacks ↦
      elim (Bool-cases (ltb s.health (if leb attack defend then 0 else attack - defend))) [
        | inl killed ↦ rw (suffer, attacks, killed) (good, λ e. refl)
        | inr hurt ↦ rw (suffer, attacks, hurt) (good, λ e. cc)
      ]
  | inr other ↦ rw (suffer, other) (good, λ e. cc)
]

-- After a fight: who is not said to live has no health.
abbrev pub Ended : ℕ → ℕ → Game → Type 0
Ended n lives s = Good n s × (lives ≢ 1 → s.health ≡ 0)

Ended-more : (m n lives : ℕ) (s : Game) → m ≤ n → Ended m lives s → Ended n lives s
Ended-more m n lives s le (good, dead) = (Good-more m n s le good, dead)

flee-Good : (n : ℕ) (s : Game) → Good n s → Plays (Ended n) (flee s)
unfolding flee
flee-Good n s good = random-then _ 0 10 s _ (omega arith) (omega arith) (λ r l h.
    when-Plays _ (r == 1) _ _ _ (λ killed. (good, λ ne. refl))
      (λ away. (good, λ ne. absurd (ne refl))))

enemy_loop-Good :
    (rounds n health coin attack : ℕ) (s : Game)
    → n < rounds
    → Good n s
    → Plays (Ended n) (enemy_loop rounds health coin attack s)
unfolding enemy_loop
enemy_loop-Good zero n health coin attack s lt good = absurd (omega arith)
enemy_loop-Good (suc rounds) n health coin attack s lt good =
    random-then _ 0 2 s _ (omega arith) (omega arith) (λ enemy_action l h.
      Plays-then _ (show_menu 2 _) _ (show_menu-Plays 2 n _ (omega arith) good)
        (λ i s1 (listed, (m, below, good1), more).
          when-Plays _ (i == 0) _ _ s1
            (λ away.
              Plays-imp _ _ (flee-Good m s1 good1)
                (λ lives s'. Ended-more m n lives s' (omega (arith, below))))
            (λ fights.
              Plays-then _ (choose_item s1) _ (choose_item-Good m s1 good1)
                (λ (player_attack, player_defend) s2 good2.
                  Plays-then _ (strike enemy_action player_attack health coin s2) _
                    (strike-Good enemy_action player_attack health coin m s2 good2)
                    (λ left s3 good3.
                      Plays-then _ (suffer enemy_action player_defend attack s3) _
                        (suffer-Good enemy_action player_defend attack m s3 good3)
                        (λ (alive, less) s4 (good4, dead).
                          when-Plays _ alive _ _ s4
                            (λ goes_on.
                              when-Plays _ (ltb 0 left) _ _ s4
                                (λ again.
                                  Plays-imp _ _
                                    (enemy_loop-Good rounds m left coin less s4
                                      (omega (arith, lt, below)) good4)
                                    (λ lives s'. Ended-more m n lives s' (omega (arith, below))))
                                (λ won. (
                                  Good-more m n s4 (omega (arith, below)) good4,
                                  λ e. absurd (e refl),
                                )))
                            (λ killed. (
                              Good-more m n s4 (omega (arith, below)) good4,
                              λ e. dead killed,
                            ))))))))

fight-Good :
    (n health coin attack : ℕ) (s : Game)
    → Good n s
    → Plays (Ended n) (enemy_loop (length s.input + 1) health coin attack s)
fight-Good n health coin attack s good =
    Plays-imp _ (enemy_loop (length s.input + 1) health coin attack s)
      (enemy_loop-Good (length s.input + 1) (length s.input) health coin attack s (omega arith)
        (Good-length n s good))
      (λ lives s'. Ended-more (length s.input) n lives s' good.1)

health_small : All (λ v. v ≤ 300) enemy_health_vals
health_small = ground arith

attack_small : All (λ v. v ≤ 500) enemy_attack_vals
attack_small = ground arith

pub handle_enemy-Good : (n : ℕ) (s : Game) → Good n s → Plays (Ended n) (handle_enemy s)
unfolding handle_enemy
handle_enemy-Good n s good = random-then _ 0 5 s _ (omega arith) (omega arith) (λ kind l h.
    at_index-then {P = λ v. v ≤ 300} _ enemy_health_vals kind _ _ health_small (omega (arith, h))
      (λ health small.
        random-then _ health (health + 100) _ _ (omega arith) (omega (arith, small))
          (λ enemy_health l2 h2.
            random-then _ 1 50 _ _ (omega arith) (omega arith) (λ enemy_coin l3 h3.
              at_index-then {P = λ v. v ≤ 500} _ enemy_attack_vals kind _ _ attack_small
                (omega (arith, h))
                (λ attack small2.
                  random-then _ (attack - 10) (attack + 10) _ _ (omega arith)
                    (omega (arith, small2))
                    (λ enemy_attack l4 h4.
                      fight-Good n enemy_health enemy_coin enemy_attack _ good))))))
