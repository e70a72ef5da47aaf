-- ===== src/Chat/Ends.antt =====
-- What a handler of chat.c ends in, and the rules for its steps.
use basic_jqr.Base.{
  ℕ, zero, suc, ◌+◌, ◌-◌, ◌≤◌, ◌≡◌, refl, Bool, true, false, Option, none, some, List, [], ◌∷◌,
  arith, leb, length, take, drop, replicate, length-append, length-replicate, Returns, Bytes,
  Outcome, ok, fault, out_of_fuel, Bool-cases, inl, inr,
}
use basic_jqr.Chat.State.{
  World, Act, Arrival, arrives, broken, take_arrival, padded, and_then, when, if_some, lift, recv,
  recv_buffer,
}

-- The call does not run out of fuel; it meets undefined behaviour only if `F` holds; and if it
-- returns, its result and the new state satisfy `Q`.
pub data Ends {S A : Type 0} (F : Type 0) (Q : A → World S → Type 0)
    : Outcome (A × World S) → Type 0 where
  returns : {a : A} {w : World S} → Q a w → Ends F Q (ok (a, w))
  faults : F → Ends F Q fault

module _ {S A : Type 0} {F : Type 0} {Q : A → World S → Type 0} where
  pub Ends-imp :
      {F' : Type 0} {Q' : A → World S → Type 0} {m : Outcome (A × World S)}
      → Ends F' Q' m
      → (F' → F)
      → ((a : A) (w : World S) → Q' a w → Q a w)
      → Ends F Q m
  Ends-imp (returns {a} {w} q) f k = returns (k a w q)
  Ends-imp (faults x) f k = faults (f x)

  pub Ends-when :
      (w : World S) (b : Bool) (m k : Act S A)
      → (b ≡ true → Ends F Q (m w))
      → (b ≡ false → Ends F Q (k w))
      → Ends F Q (when b m k w)
  Ends-when w true m k t f = t refl
  Ends-when w false m k t f = f refl

  pub Ends-if_some :
      {B : Type 0} (w : World S) (o : Option B) (m : Act S A) (k : B → Act S A)
      → (o ≡ none → Ends F Q (m w))
      → ((b : B) → o ≡ some b → Ends F Q (k b w))
      → Ends F Q (if_some o m k w)
  Ends-if_some w none m k n s = n refl
  Ends-if_some w (some b) m k n s = s b refl

  pub Ends-lift :
      {B : Type 0} {P : B → Type 0} (w : World S) (m : Outcome B) (k : B → Act S A)
      → Returns P m
      → ((b : B) → m ≡ ok b → P b → Ends F Q (k b w))
      → Ends F Q (and_then (lift m w) k)
  Ends-lift w (ok b) k p s = s b refl p
  Ends-lift w fault k p s = absurd p
  Ends-lift w out_of_fuel k p s = absurd p

  pub Ends-bind :
      {B : Type 0} {P : B → World S → Type 0} {m : Outcome (B × World S)} (k : B → Act S A)
      → Ends F P m
      → ((b : B) (w : World S) → P b w → Ends F Q (k b w))
      → Ends F Q (and_then m k)
  Ends-bind k (returns {a} {w} p) s = s a w p
  Ends-bind k (faults f) s = faults f

-- How many bytes may still arrive.
unfoldable pub weight : List Arrival → ℕ
weight [] = 0
weight (broken ∷ rest) = weight rest
weight (arrives bs ∷ rest) = length bs + weight rest

length-take_le : {A : Type 0} (n : ℕ) (xs : List A) → length (take n xs) ≤ n
length-take_le zero xs = omega arith
length-take_le (suc n) [] = omega arith
length-take_le (suc n) (x ∷ xs) = omega (arith, length-take_le n xs)

length-take-drop :
    {A : Type 0} (n : ℕ) (xs : List A) → length (take n xs) + length (drop n xs) ≡ length xs
length-take-drop zero xs = omega arith
length-take-drop (suc n) [] = omega arith
length-take-drop (suc n) (x ∷ xs) = omega (arith, length-take-drop n xs)

-- What a `recv` of `n` bytes gives: no more than that, taken from what was to arrive.
abbrev pub Took : ℕ → List Arrival → Option Bytes × List Arrival → Type 0
Took n inbox (none, rest) = weight rest ≤ weight inbox
Took n inbox (some bs, rest) = (length bs ≤ n) × (length bs + weight rest ≤ weight inbox)

pub take_arrival-Took : (n : ℕ) (inbox : List Arrival) → Took n inbox (take_arrival n inbox)
unfolding weight
take_arrival-Took n [] = (omega arith, omega arith)
take_arrival-Took n (broken ∷ rest) = omega arith
take_arrival-Took n (arrives bs ∷ rest) = (
  length-take_le n bs,
  elim (Bool-cases (leb (length bs) n)) [
    | inl e ↦ rw e (omega (arith, length-take-drop n bs))
    | inr e ↦ rw e (omega (arith, length-take-drop n bs))
  ],
)

-- What a `recv` of `n` bytes into cleared room leaves there: what came first of what was to arrive.
abbrev pub Received : ℕ → List Arrival → Bytes → List Arrival → Type 0
Received n inbox bs rest =
    (raw : Bytes) × (take_arrival n inbox ≡ (some raw, rest)) × (bs ≡ padded n raw)

length-padded : (n : ℕ) (bs : Bytes) → length bs ≤ n → length (padded n bs) ≡ n
length-padded n bs le = omega (
  arith,
  length-append bs (replicate (n - length bs) 0),
  length-replicate {A = ℕ} (n - length bs) 0,
)

module _ {S A : Type 0} {F : Type 0} {Q : A → World S → Type 0} (w : World S) where
  pub Ends-recv :
      (n : ℕ) (k : Option Bytes → Act S A)
      → ((got : Option Bytes) (inbox : List Arrival)
          → Took n w.inbox (got, inbox)
          → take_arrival n w.inbox ≡ (got, inbox)
          → Ends F Q (k got (record w { inbox = inbox })))
      → Ends F Q (and_then (recv n w) k)
  unfolding recv
  Ends-recv n k s =
      s (take_arrival n w.inbox).0 (take_arrival n w.inbox).1 (take_arrival-Took n w.inbox) refl

  buffer_of_Took :
      (n : ℕ) (failed : Act S A) (k : Bytes → Act S A)
      → ((inbox : List Arrival)
          → weight inbox ≤ weight w.inbox
          → Ends F Q (failed (record w { inbox = inbox })))
      → ((inbox : List Arrival) (bs : Bytes)
          → weight inbox ≤ weight w.inbox
          → length bs ≡ n
          → Received n w.inbox bs inbox
          → Ends F Q (k bs (record w { inbox = inbox })))
      → (p : Option Bytes × List Arrival) → Took n w.inbox p
      → take_arrival n w.inbox ≡ p
      → Ends F Q (
          if_some
            (elim p.0 [ none ↦ none | some bs ↦ some (padded n bs) ])
            failed
            k
            (record w { inbox = p.1 }))
  buffer_of_Took n failed k lost came (none, inbox) took got = lost inbox took
  buffer_of_Took n failed k lost came (some bs, inbox) took got =
      came inbox (padded n bs) (omega (arith, took.1)) (length-padded n bs took.0) (bs, got, refl)

  -- A handler's usual beginning: a failed `recv` ends it, otherwise the buffer has its full length.
  pub Ends-recv_buffer :
      (n : ℕ) (failed : Act S A) (k : Bytes → Act S A)
      → ((inbox : List Arrival)
          → weight inbox ≤ weight w.inbox
          → Ends F Q (failed (record w { inbox = inbox })))
      → ((inbox : List Arrival) (bs : Bytes)
          → weight inbox ≤ weight w.inbox
          → length bs ≡ n
          → Received n w.inbox bs inbox
          → Ends F Q (k bs (record w { inbox = inbox })))
      → Ends F Q (and_then (recv_buffer n w) λ arrived. if_some arrived failed k)
  unfolding recv recv_buffer
  Ends-recv_buffer n failed k lost came =
      buffer_of_Took n failed k lost came (take_arrival n w.inbox) (take_arrival-Took n w.inbox)
        refl
