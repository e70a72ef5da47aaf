-- ===== src/Game/Enemy.antt =====
-- The fights of game.c.
use basic_jqr.Base.{
  ℕ, zero, suc, ◌+◌, ◌-◌, Bool, true, false, Option, none, some, List, [], ◌∷◌, ◌&&◌, not, ltb, leb,
  ◌==◌, if◌then◌else◌, length,
}
use basic_jqr.Game.State.{
  Item, next, wild, endless, Act, pure, ◌>>=◌, ◌>>◌, gets, modify, when, reads, at_index, u32_add,
  show_menu, get_random_number,
}
use basic_jqr.Game.Bag.{
  action_attack, action_defend, action_heal, item_actions, action_weights, item_at,
}
use basic_jqr.Game.Items.{consume, select_item_in_inventory}

abbrev pub enemy_health_vals : List ℕ
enemy_health_vals = 80 ∷ 300 ∷ 100 ∷ 150 ∷ 140 ∷ 35 ∷ []

abbrev pub enemy_attack_vals : List ℕ
enemy_attack_vals = 25 ∷ 500 ∷ 150 ∷ 200 ∷ 180 ∷ 90 ∷ []

-- An item that heals.
unfoldable pub heal_with : Item → Act (ℕ × ℕ)
heal_with item = do
  more ← get_random_number 1 20
  modify (λ s. record s { health = u32_add s.health more })
  consume item
  pure (0, 0)

-- `player_attack` and `player_defend` by the chosen item, which is followed before it is compared
-- with NULL.
unfoldable pub fight_with : Option ℕ → Act (ℕ × ℕ)
fight_with none s = wild
fight_with (some p) s =
    (reads (item_at p) >>= λ item. at_index item_actions item.kind >>= λ action.
    at_index action_weights item.kind >>= λ weight.
    when (action == action_attack)
      (get_random_number (weight - 5) (weight + 5) >>= λ n. pure (n, 0))
      (when (action == action_defend)
        (get_random_number (weight - 5) (weight + 5) >>= λ n. pure (0, n))
        (when (action == action_heal) (heal_with item) (pure (0, 0)))))
      s

unfoldable pub choose_item : Act (ℕ × ℕ)
choose_item s = elim s.bag [
  | none ↦ next (0, 0) s
  | some p ↦ (select_item_in_inventory >>= fight_with) s
]

-- The player's attack: what health it leaves the enemy, whose coins are taken if that is 0.
unfoldable pub strike : ℕ → ℕ → ℕ → ℕ → Act ℕ
strike enemy_action player_attack enemy_health enemy_coin =
    when (not (enemy_action == 1) && ltb 0 player_attack)
      (let left = if ltb enemy_health player_attack then 0 else enemy_health - player_attack in
        when (left == 0)
          (modify (λ s. record s { coins = u32_add s.coins enemy_coin }) >> pure left) (pure left))
      (pure enemy_health)

-- The enemy's attack: whether the player lives, and what the attack has become.
unfoldable pub suffer : ℕ → ℕ → ℕ → Act (Bool × ℕ)
suffer enemy_action player_defend enemy_attack s =
    if enemy_action == 2
    then (let attack = if leb enemy_attack player_defend then 0 else enemy_attack - player_defend in
        if ltb s.health attack
        then next (false, attack) (record s { health = 0 })
        else next (true, attack) (record s { health = s.health - attack }))
    else next (true, enemy_attack) s

-- The choice to run away; the result is 1 if the player lives.
unfoldable pub flee : Act ℕ
flee = do
  killed_while_running ← get_random_number 0 10
  when (killed_while_running == 1) (modify (λ s. record s { health = 0 }) >> pure 0) (pure 1)

-- The `do` loop. Each round takes a character.
unfoldable pub enemy_loop : ℕ → ℕ → ℕ → ℕ → Act ℕ
enemy_loop zero enemy_health enemy_coin enemy_attack s = endless
enemy_loop (suc rounds) enemy_health enemy_coin enemy_attack s =
    (get_random_number 0 2 >>= λ enemy_action. show_menu 2 >>= λ choice. when (choice == 0) flee (
        choose_item >>= λ (player_attack, player_defend).
        strike enemy_action player_attack enemy_health enemy_coin >>= λ health.
        suffer enemy_action player_defend enemy_attack >>= λ (lives, attack).
        when lives (when (ltb 0 health) (enemy_loop rounds health enemy_coin attack) (pure 1))
          (pure 0)))
      s

unfoldable pub handle_enemy : Act ℕ
handle_enemy = do
  enemy_type ← get_random_number 0 5
  health_val ← at_index enemy_health_vals enemy_type
  enemy_health ← get_random_number health_val (health_val + 100)
  enemy_coin ← get_random_number 1 50
  attack_val ← at_index enemy_attack_vals enemy_type
  enemy_attack ← get_random_number (attack_val - 10) (attack_val + 10)
  rounds ← gets (λ s. length s.input + 1)
  enemy_loop rounds enemy_health enemy_coin enemy_attack
