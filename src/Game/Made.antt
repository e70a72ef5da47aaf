-- ===== src/Game/Made.antt =====
-- New items of game.c: they are made and get a name.
use basic_jqr.Base.{
  ℕ, zero, suc, ◌+◌, ◌-◌, ◌^◌, ◌≤◌, ◌<◌, ◌≡◌, inl, inr, Option, none, some, List, [], ◌∷◌, arith,
  length, All, Bool-cases, Option-cases, ltb, ◌==◌, Bytes, ok, refl, Returns,
}
use basic_jqr.Heap.{cell, Heap}
use basic_jqr.Heap.Linked.{Cells, first, Linked, Apart, Distinct, write_self, Linked-write}
use basic_jqr.Game.State.{Item, Game, u32_add, read_loop, read_until_newline_or_limit}
use basic_jqr.Game.Bag.{print_name, create_item}
use basic_jqr.Game.Items.{name_item}
use basic_jqr.Game.Chain.{Named}
use basic_jqr.Game.Runs.{Plays}
use basic_jqr.Game.Played.{Good}

-- Nothing is stored where a chain has no node.
Linked-Apart :
    (heap : Heap Item) (a : ℕ) (cs : Cells Item) → heap a ≡ none → Linked heap cs none → Apart a cs
Linked-Apart heap a [] free l = tt
Linked-Apart heap a ((b, item) ∷ cs) free l = ((λ e. cc), Linked-Apart heap a cs free l.1)

-- A node with an item that is not in the bag yet.
pub record IsNew (heap : Heap Item) (bag : Option ℕ) (made a : ℕ) (item : Item) (cs : Cells Item)
    : Type 0 where
  pub start : bag ≡ first cs none
  pub linked : Linked heap cs none
  pub distinct : Distinct cs
  pub kinds : All (λ (a, item). item.kind < 10) cs
  pub few : length cs < made
  pub stored : heap a ≡ some (cell item none)
  pub kind : item.kind < 10
  pub apart : Apart a cs

-- As `Good`, with what `malloc` has given for a new item, of which `P` holds.
abbrev pub Made : (Item → Type 0) → ℕ → Option ℕ → Game → Type 0
Made P n none s = Good n s
Made P n (some a) s =
    ((cs : Cells Item) × (item : Item) × IsNew s.heap s.bag s.item_index_counter a item cs
      × Named cs
      × P item)
    × (length s.input ≤ n)
    × (s.item_index_counter + length s.input < 2 ^ 32)
    × (s.location < 7)
    × (s.inverse_walking_risk ≡ 90000)

pub Made-imp :
    (P Q : Item → Type 0) (n : ℕ) (p : Option ℕ) (s : Game)
    → Made P n p s
    → ((item : Item) → P item → Q item)
    → Made Q n p s
Made-imp P Q n none s good f = good
Made-imp P Q n (some a) s ((cs, item, k, named, holds), typed, room, place, risk) f =
    ((cs, item, k, named, f item holds), typed, room, place, risk)

-- What `malloc` promises: an address that it gives holds nothing.
abbrev pub Fresh : (Heap Item → Option ℕ) → Type 0
Fresh malloc = (heap : Heap Item) (a : ℕ) → malloc heap ≡ some a → heap a ≡ none

pub create_item-Made :
    (malloc : Heap Item → Option ℕ) (kind n : ℕ) (s : Game)
    → Fresh malloc
    → kind < 10
    → Good n s
    → s.item_index_counter + length s.input + 1 < 2 ^ 32
    → Returns (λ (p, s'). Made (λ item. item.kind ≡ kind) n p s') (create_item malloc kind s)
unfolding create_item
create_item-Made malloc kind n s fresh lt (bag, typed, room, place, risk) more =
    elim (Option-cases (malloc s.heap)) [
      | inl full ↦ rw (create_item, full) (bag, typed, room, place, risk)
      | inr (a, given) ↦
          let apart = Linked-Apart s.heap a bag.0 (fresh s.heap a given) bag.1.linked in
          let counted : u32_add s.item_index_counter 1 ≡ s.item_index_counter + 1 =
            omega (arith, more) in
          rw (create_item, given, counted)
            (
              (
                bag.0,
                _,
                record {
                  start = bag.1.start;
                  linked = Linked-write s.heap bag.0 none a _ apart bag.1.linked;
                  distinct = bag.1.distinct;
                  kinds = bag.1.kinds;
                  few = omega (arith, bag.1.few);
                  stored = write_self s.heap a _;
                  kind = lt;
                  apart = apart;
                },
                bag.2,
                refl,
              ),
              typed,
              omega (arith, more),
              place,
              risk,
            )
    ]

-- Reading takes characters off the front of what is typed.
read_loop-rest : (n : ℕ) (input : List ℕ) → length (read_loop n input).2 ≤ length input
unfolding read_loop
read_loop-rest zero input = omega arith
read_loop-rest (suc n) [] = read_loop-rest n []
read_loop-rest (suc n) (c ∷ input) = elim (Bool-cases (c == 10)) [
  | inl newline ↦ rw (newline) (omega arith)
  | inr other ↦ rw (other) (omega (arith, read_loop-rest n input))
]

Made-shorter :
    (P : Item → Type 0) (p : Option ℕ) (n : ℕ) (rest : List ℕ) (s : Game)
    → Made P n p s
    → length rest ≤ length s.input
    → Made P n p (record s { input = rest })
Made-shorter P none n rest s (bag, typed, room, place, risk) shorter =
    (bag, omega (arith, shorter, typed), omega (arith, shorter, room), place, risk)
Made-shorter P (some a) n rest s (new, typed, room, place, risk) shorter =
    (new, omega (arith, shorter, typed), omega (arith, shorter, room), place, risk)

pub read-Made :
    (P : Item → Type 0) (p : Option ℕ) (n limit : ℕ) (s : Game)
    → Made P n p s
    → Plays (λ name s'. Made P n p s') (read_until_newline_or_limit limit s)
unfolding read_until_newline_or_limit
read-Made P p n limit s made =
    let read = read_loop (limit - 1) s.input in
    elim (Bool-cases (ltb (length read.0 + 1) limit)) [
      | inl fits ↦
          rw (read_until_newline_or_limit, fits)
            (Made-shorter P p n read.2 s made (read_loop-rest (limit - 1) s.input))
      | inr full ↦ rw (read_until_newline_or_limit, full) tt
    ]

pub name_item-Made :
    (P : Item → Type 0) (p : Option ℕ) (name : Bytes) (n : ℕ) (s : Game)
    → Made P n p s
    → Plays (λ u s'. Made (λ item. print_name item ≡ ok tt) n p s') (name_item p name s)
unfolding print_name
name_item-Made P none name n s made = tt
name_item-Made P (some a) name n s ((cs, item, k, named, holds), typed, room, place, risk) =
    rw (k.stored) (
      (
        cs,
        record item { name = some name },
        record {
          start = k.start;
          linked = Linked-write s.heap cs none a _ k.apart k.linked;
          distinct = k.distinct;
          kinds = k.kinds;
          few = k.few;
          stored = write_self s.heap a _;
          kind = k.kind;
          apart = k.apart;
        },
        named,
        refl,
      ),
      typed,
      room,
      place,
      risk,
    )
