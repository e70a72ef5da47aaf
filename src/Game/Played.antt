-- ===== src/Game/Played.antt =====
-- What holds between the calls of game.c, and the menus.
use basic_jqr.Base.{
  ℕ, ◌+◌, ◌^◌, ◌≤◌, ◌<◌, ◌≡◌, ◌⊎◌, inl, inr, refl, true, none, some, List, [], ◌∷◌, arith, length,
  leb, Option-cases, Bool-cases,
}
use basic_jqr.Heap.Linked.{Cells}
use basic_jqr.Game.State.{Item, Game, selection, accepted, menu_loop, show_menu}
use basic_jqr.Game.Chain.{IsBag, Named}
use basic_jqr.Game.Runs.{NoChoice, Plays}

-- A game in which `n` characters at most are still to be typed, the bag is a proper chain in which
-- the doges have names, and the count of items made does not wrap.
abbrev pub Good : ℕ → Game → Type 0
Good n s =
    ((cs : Cells Item) × IsBag s.heap s.bag s.item_index_counter cs × Named cs)
    × (length s.input ≤ n)
    × (s.item_index_counter + length s.input < 2 ^ 32)
    × (s.location < 7)
    × (s.inverse_walking_risk ≡ 90000)

pub Good-more : (m n : ℕ) (s : Game) → m ≤ n → Good m s → Good n s
Good-more m n s le (bag, typed, room, place, risk) =
    (bag, omega (arith, typed, le), room, place, risk)

pub Good-length : (n : ℕ) (s : Game) → Good n s → Good (length s.input) s
Good-length n s (bag, typed, room, place, risk) = (bag, omega arith, room, place, risk)

-- What a menu of `count` entries comes back with.
abbrev Chosen : ℕ → ℕ → ℕ → Game → Type 0
Chosen count n i s =
    (i < count)
    × ((m : ℕ) × (m < n) × Good m s)
    × (s.item_index_counter + length s.input + 1 < 2 ^ 32)

accepted_lem : (count c i : ℕ) → accepted count (selection c) ≡ some i → i < count
unfolding accepted selection
accepted_lem count c i e = ground (arith, e)

-- The answer is one of the menu's, and a character at least is taken.
menu_loop_lem :
    (count : ℕ) (input : List ℕ)
    → ((menu_loop count input ≡ none) × NoChoice count input)
      ⊎ ((i : ℕ) × (rest : List ℕ) × (menu_loop count input ≡ some (i, rest))
          × (i < count)
          × (length rest < length input))
unfolding menu_loop
menu_loop_lem count [] = inl (refl, tt)
menu_loop_lem count (c ∷ []) = elim (Option-cases (accepted count (selection c))) [
  | inl nothing ↦ inl (rw (menu_loop, nothing) refl, nothing)
  | inr (i, some_choice) ↦
      inr (i, [], rw (menu_loop, some_choice) refl, accepted_lem count c i some_choice, omega arith)
]
menu_loop_lem count (c ∷ newline ∷ input) = elim (Option-cases (accepted count (selection c))) [
  | inr (i, some_choice) ↦
      inr (
        i,
        input,
        rw (menu_loop, some_choice) refl,
        accepted_lem count c i some_choice,
        omega arith,
      )
  | inl nothing ↦ elim (menu_loop_lem count input) [
    | inl (ended, no_choice) ↦ inl (rw (menu_loop, nothing) ended, (nothing, no_choice))
    | inr (i, rest, e, lt, less) ↦ inr (i, rest, rw (menu_loop, nothing) e, lt, omega (arith, less))
  ]
]

-- A menu that is shown is answered, or the input ends; a menu of too many entries answers 0.
pub show_menu-Plays :
    (count n : ℕ) (s : Game) → count ≤ 36 → Good n s → Plays (Chosen count n) (show_menu count s)
unfolding show_menu
show_menu-Plays count n s shown (bag, typed, room, place, risk) =
    let fits : leb count 36 ≡ true = ground arith in
    elim (menu_loop_lem count s.input) [
      | inl (ended, no_choice) ↦ rw (fits, ended) no_choice
      | inr (i, rest, e, lt, less) ↦
          rw (fits, e)
            (
              lt,
              (
                length rest,
                omega (arith, less, typed),
                (bag, omega arith, omega (arith, less, room), place, risk),
              ),
              omega (arith, less, room),
            )
    ]

-- Any menu with entries answers with one of them.
pub show_menu-Good :
    (count n : ℕ) (s : Game)
    → 0 < count
    → Good n s
    → Plays (λ i s'. (i < count) × (s'.heap ≡ s.heap) × Good n s') (show_menu count s)
unfolding show_menu
show_menu-Good count n s entries (bag, typed, room, place, risk) =
    elim (Bool-cases (leb count 36)) [
      | inl shown ↦ elim (menu_loop_lem count s.input) [
        | inl (ended, no_choice) ↦ rw (shown, ended) no_choice
        | inr (i, rest, e, lt, less) ↦
            rw (shown, e)
              (lt, refl, (bag, omega (arith, less, typed), omega (arith, less, room), place, risk))
      ]
      | inr long ↦ rw (long) (entries, refl, (bag, typed, room, place, risk))
    ]
