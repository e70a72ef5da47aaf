-- ===== src/Game/State.antt =====
-- The state of game.c: the player, the items on the heap, the globals, what is typed and what
-- `rand` gives. What is printed is left out. Numbers are `uint32_t` and wrap.
use basic_jqr.Base.{
  ℕ, zero, suc, ◌+◌, ◌-◌, ◌%◌, ◌^◌, Bool, true, false, Option, none, some, List, [], ◌∷◌, length,
  get_elem?, ltb, leb, ◌==◌, ◌&&◌, if◌then◌else◌, Outcome, ok, fault, out_of_fuel, Bytes,
}
use basic_jqr.Heap.{Heap}

-- `inventory_item_t`, less its `next`. `name` is a string of its own.
pub record Item : Type 0 where
  pub item_index : ℕ
  pub kind : ℕ
  pub name : Option Bytes

-- `context_t` and the globals. `input` is what is still to be typed, `rand` what the calls of
-- `rand` give, of which `drawn` have been made.
pub record Game : Type 0 where
  pub health : ℕ
  pub location : ℕ
  pub coins : ℕ
  pub bag : Option ℕ
  pub heap : Heap Item
  pub item_index_counter : ℕ
  pub special_enabled : ℕ
  pub inverse_walking_risk : ℕ
  pub input : List ℕ
  pub rand : ℕ → ℕ
  pub drawn : ℕ

-- What a call ends in: a result; `show_menu` of so many entries calls itself for ever, at the end
-- of this input; an array of no elements is declared in this state; a write behind the buffer of a name; a name for an item that
-- `malloc` gave no memory; a wild pointer or index; a loop that does not end.
pub data Turn (A : Type 0) : Type 0 where
  next : A → Game → Turn A
  menu_for_ever : ℕ → List ℕ → Turn A
  empty_array : Game → Turn A
  overrun : Turn A
  out_of_memory : Turn A
  wild : Turn A
  endless : Turn A

abbrev pub Act : Type 0 → Type 0
Act A = Game → Turn A

abbrev pub pure : {A : Type 0} → A → Act A
pure a s = next a s

abbrev pub and_then : {A B : Type 0} → Turn A → (A → Act B) → Turn B
and_then (next a s) k = k a s
and_then (menu_for_ever item_count input) k = menu_for_ever item_count input
and_then (empty_array s) k = empty_array s
and_then overrun k = overrun
and_then out_of_memory k = out_of_memory
and_then wild k = wild
and_then endless k = endless

infixl 5 ◌>>=◌ ◌>>◌
abbrev pub ◌>>=◌ : {A B : Type 0} → Act A → (A → Act B) → Act B
m >>= k = λ s. and_then (m s) k

abbrev pub ◌>>◌ : {A B : Type 0} → Act A → Act B → Act B
m >> k = m >>= λ _. k

abbrev pub gets : {A : Type 0} → (Game → A) → Act A
gets f s = next (f s) s

abbrev pub modify : (Game → Game) → Act (Unit {0})
modify f s = next tt (f s)

abbrev pub when : {A : Type 0} → Bool → Act A → Act A → Act A
when true m k = m
when false m k = k

-- A loop over the items, which reads the heap.
abbrev pub read_turn : {A : Type 0} → Outcome A → Act A
read_turn (ok a) s = next a s
read_turn fault s = wild
read_turn out_of_fuel s = endless

abbrev pub reads : {A : Type 0} → (Game → Outcome A) → Act A
reads f s = read_turn (f s) s

-- One that changes the state.
abbrev pub turn : {A : Type 0} → Outcome (A × Game) → Turn A
turn (ok (a, s)) = next a s
turn fault = wild
turn out_of_fuel = endless

abbrev pub lift : {A : Type 0} → (Game → Outcome (A × Game)) → Act A
lift f s = turn (f s)

-- An element of a table or an array.
abbrev pub element : {A : Type 0} → Option A → Act A
element none s = wild
element (some a) s = next a s

abbrev pub at_index : {A : Type 0} → List A → ℕ → Act A
at_index xs i s = element (get_elem? xs i) s

-- `a + b` and `a - b` of two `uint32_t`.
abbrev pub u32_add : ℕ → ℕ → ℕ
u32_add a b = (a + b) % 2 ^ 32

abbrev pub u32_sub : ℕ → ℕ → ℕ
u32_sub a b = (a + 2 ^ 32 - b) % 2 ^ 32

-- The item that a character selects: those of "0123456789abcdefghijklmnopqrstuvwxyz" in turn.
unfoldable pub selection : ℕ → Option ℕ
selection c =
    if leb 48 c && leb c 57
    then some (c - 48)
    else (if leb 97 c && leb c 122 then some (c - 87) else none)

unfoldable pub accepted : ℕ → Option ℕ → Option ℕ
accepted item_count none = none
accepted item_count (some i) = if ltb i item_count then some i else none

-- `show_menu` on what is typed: a character and the newline behind it are taken, until it is one
-- of the menu's. `none` if none is: then the input ends, and the calls go on for ever.
unfoldable pub menu_loop : ℕ → List ℕ → Option (ℕ × List ℕ)
menu_loop item_count [] = none
menu_loop item_count (c ∷ []) = elim (accepted item_count (selection c)) [
  | none ↦ none
  | some i ↦ some (i, [])
]
menu_loop item_count (c ∷ newline ∷ input) =
    let again = menu_loop item_count input in
    elim (accepted item_count (selection c)) [ none ↦ again | some i ↦ some (i, input) ]

-- A menu of more than 36 items is not shown, and answers 0.
unfoldable pub show_menu : ℕ → Act ℕ
show_menu item_count s =
    if leb item_count 36
    then elim (menu_loop item_count s.input) [
      | none ↦ menu_for_ever item_count s.input
      | some (i, input) ↦ next i (record s { input = input })
    ]
    else next 0 s

-- A range of all numbers divides by zero.
unfoldable pub get_random_number : ℕ → ℕ → Act ℕ
get_random_number min max s =
    if leb min max
    then (let range = u32_sub (u32_add max 1) min in
        if range == 0
        then wild
        else next (u32_add (s.rand s.drawn % range) min) (record s { drawn = s.drawn + 1 }))
    else next 0 s

-- The loop of `read_until_newline_or_limit`, with room for `n` more characters: what is read, and
-- whether it ended in a newline. At the end of the input `getchar` gives a character of its own.
unfoldable pub read_loop : ℕ → List ℕ → Bytes × Bool × List ℕ
read_loop zero input = ([], false, input)
read_loop (suc n) [] = let (cs, found, rest) = read_loop n [] in (255 ∷ cs, found, rest)
read_loop (suc n) (c ∷ input) =
    let (cs, found, rest) = read_loop n input in
    if c == 10 then ([], true, input) else (c ∷ cs, found, rest)

abbrev pub max_str_len : ℕ
max_str_len = 250

-- The buffer, of two places at least, as a string; the call writes the NUL two places behind the
-- last character, which is outside of the buffer if the limit has been reached.
unfoldable pub read_until_newline_or_limit : ℕ → Act Bytes
read_until_newline_or_limit limit s =
    let (cs, found, rest) = read_loop (limit - 1) s.input in
    if ltb (length cs + 1) limit then next cs (record s { input = rest }) else overrun
