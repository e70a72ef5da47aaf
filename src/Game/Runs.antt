-- ===== src/Game/Runs.antt =====
-- How the calls of game.c run: what holds after each, if the game goes on.
use basic_jqr.Base.{
  ℕ, zero, suc, ◌+◌, ◌-◌, ◌%◌, ◌^◌, ◌≤◌, ◌<◌, ◌≡◌, refl, Bool, true, false, none, List, [], ◌∷◌,
  arith, length, All, leb, ◌==◌, Outcome, ok, fault, out_of_fuel, Returns,
}
use native.Mathlib.Nat.{mod-lt}
use basic_jqr.Game.State.{
  Game, Turn, selection, accepted, next, menu_for_ever, empty_array, overrun, out_of_memory, wild,
  endless, Act, and_then, when, read_turn, turn, at_index, u32_add, u32_sub, get_random_number,
}

-- None of the characters that are typed for a menu, with a newline behind each, is one of its.
abbrev pub NoChoice : ℕ → List ℕ → Type 0
NoChoice item_count [] = Unit
NoChoice item_count (c ∷ []) = accepted item_count (selection c) ≡ none
NoChoice item_count (c ∷ newline ∷ input) =
    (accepted item_count (selection c) ≡ none) × NoChoice item_count input

-- What the call comes back with satisfies `Q`, or it does not come back: the input ends without a
-- choice of the menu, which calls itself for ever; an array of no elements is declared, for an empty
-- bag; a name is too long for its buffer, or is for an item without memory. It does not go wild, and
-- no other loop goes on for ever.
abbrev pub Plays : {A : Type 0} → (A → Game → Type 0) → Turn A → Type 0
Plays Q (next a s) = Q a s
Plays Q (menu_for_ever item_count input) = NoChoice item_count input
Plays Q (empty_array s) = s.bag ≡ none
Plays Q overrun = Unit
Plays Q out_of_memory = Unit
Plays Q wild = ⊥
Plays Q endless = ⊥

-- What the call comes back with, if it does, satisfies `Q`.
abbrev pub Afterwards : {A : Type 0} → (A → Game → Type 0) → Turn A → Type 0
Afterwards Q (next a s) = Q a s
Afterwards Q (menu_for_ever item_count input) = Unit
Afterwards Q (empty_array s) = Unit
Afterwards Q overrun = Unit
Afterwards Q out_of_memory = Unit
Afterwards Q wild = Unit
Afterwards Q endless = Unit

module _ {A B : Type 0} where
  pub Plays-then :
      {P : A → Game → Type 0} (Q : B → Game → Type 0) (t : Turn A) (k : A → Act B)
      → Plays P t
      → ((a : A) (s : Game) → P a s → Plays Q (k a s))
      → Plays Q (and_then t k)
  Plays-then Q (next a s) k p f = f a s p
  Plays-then Q (menu_for_ever item_count input) k p f = p
  Plays-then Q (empty_array s) k p f = p
  Plays-then Q overrun k p f = tt
  Plays-then Q out_of_memory k p f = tt
  Plays-then Q wild k p f = absurd p
  Plays-then Q endless k p f = absurd p

  pub read_turn-then :
      {P : A → Type 0} (Q : B → Game → Type 0) (o : Outcome A) (s : Game) (k : A → Act B)
      → Returns P o
      → ((a : A) → P a → Plays Q (k a s))
      → Plays Q (and_then (read_turn o s) k)
  read_turn-then Q (ok a) s k p f = f a p
  read_turn-then Q fault s k p f = absurd p
  read_turn-then Q out_of_fuel s k p f = absurd p

  pub turn-then :
      (P : A × Game → Type 0) (Q : B → Game → Type 0) (o : Outcome (A × Game)) (k : A → Act B)
      → Returns P o
      → ((a : A) (s : Game) → P (a, s) → Plays Q (k a s))
      → Plays Q (and_then (turn o) k)
  turn-then P Q (ok (a, s)) k p f = f a s p
  turn-then P Q fault k p f = absurd p
  turn-then P Q out_of_fuel k p f = absurd p

  -- An element of a table has what all its elements have.
  pub at_index-then :
      {P : A → Type 0} (Q : B → Game → Type 0) (xs : List A) (i : ℕ) (s : Game) (k : A → Act B)
      → All P xs
      → i < length xs
      → ((a : A) → P a → Plays Q (k a s))
      → Plays Q (and_then (at_index xs i s) k)
  at_index-then Q [] i s k all lt f = absurd (omega arith)
  at_index-then Q (x ∷ xs) zero s k all lt f = f x all.0
  at_index-then Q (x ∷ xs) (suc i) s k all lt f =
      at_index-then Q xs i s k all.1 (omega (arith, lt)) f

  pub at_index_any :
      (Q : B → Game → Type 0) (xs : List A) (i : ℕ) (s : Game) (k : A → Act B)
      → i < length xs
      → ((a : A) → Plays Q (k a s))
      → Plays Q (and_then (at_index xs i s) k)
  at_index_any Q [] i s k lt f = absurd (omega arith)
  at_index_any Q (x ∷ xs) zero s k lt f = f x
  at_index_any Q (x ∷ xs) (suc i) s k lt f = at_index_any Q xs i s k (omega (arith, lt)) f

  pub when-then :
      (Q : B → Game → Type 0) (b : Bool) (m k : Act A) (f : A → Act B) (s : Game)
      → (b ≡ true → Plays Q (and_then (m s) f))
      → (b ≡ false → Plays Q (and_then (k s) f))
      → Plays Q (and_then (when b m k s) f)
  when-then Q true m k f s onward other = onward refl
  when-then Q false m k f s onward other = other refl

module _ {A : Type 0} where
  pub when-Plays :
      (Q : A → Game → Type 0) (b : Bool) (m k : Act A) (s : Game)
      → (b ≡ true → Plays Q (m s))
      → (b ≡ false → Plays Q (k s))
      → Plays Q (when b m k s)
  when-Plays Q true m k s onward other = onward refl
  when-Plays Q false m k s onward other = other refl

  pub Plays-imp :
      {P : A → Game → Type 0} (Q : A → Game → Type 0) (t : Turn A)
      → Plays P t
      → ((a : A) (s : Game) → P a s → Q a s)
      → Plays Q t
  Plays-imp Q (next a s) p f = f a s p
  Plays-imp Q (menu_for_ever item_count input) p f = p
  Plays-imp Q (empty_array s) p f = p
  Plays-imp Q overrun p f = tt
  Plays-imp Q out_of_memory p f = tt
  Plays-imp Q wild p f = absurd p
  Plays-imp Q endless p f = absurd p

  pub Plays-Afterwards :
      (P Q : A → Game → Type 0) (t : Turn A)
      → Plays P t
      → Afterwards Q t
      → Plays (λ a s. P a s × Q a s) t
  Plays-Afterwards P Q (next a s) p q = (p, q)
  Plays-Afterwards P Q (menu_for_ever item_count input) p q = p
  Plays-Afterwards P Q (empty_array s) p q = p
  Plays-Afterwards P Q overrun p q = tt
  Plays-Afterwards P Q out_of_memory p q = tt
  Plays-Afterwards P Q wild p q = absurd p
  Plays-Afterwards P Q endless p q = absurd p

  pub turn-Plays :
      (P : A × Game → Type 0) (Q : A → Game → Type 0) (o : Outcome (A × Game))
      → Returns P o
      → ((a : A) (s : Game) → P (a, s) → Q a s)
      → Plays Q (turn o)
  turn-Plays P Q (ok (a, s)) p f = f a s p
  turn-Plays P Q fault p f = absurd p
  turn-Plays P Q out_of_fuel p f = absurd p

  pub random-then :
      (Q : A → Game → Type 0) (min max : ℕ) (s : Game) (k : ℕ → Act A)
      → min ≤ max
      → max < 2 ^ 31
      → ((m : ℕ) → min ≤ m → m ≤ max → Plays Q (k m (record s { drawn = s.drawn + 1 })))
      → Plays Q (and_then (get_random_number min max s) k)
  unfolding get_random_number
  random-then Q min max s k le small f =
      let ordered : leb min max ≡ true = ground arith in
      let range : u32_sub (u32_add max 1) min ≡ max + 1 - min = omega (arith, le, small) in
      let some_numbers : (max + 1 - min == 0) ≡ false = ground (arith, le) in
      let some_range : 0 < max + 1 - min = omega (arith, le) in
      let below = mod-lt (s.rand s.drawn) some_range in
      let drawn : u32_add (s.rand s.drawn % (max + 1 - min)) min
          ≡ s.rand s.drawn % (max + 1 - min) + min =
        omega (arith, below, le, small) in
      rw (ordered, range, some_numbers, drawn)
        (f (s.rand s.drawn % (max + 1 - min) + min) (omega arith) (omega (arith, below, le)))
