-- ===== src/Game/Added.antt =====
-- New items of game.c are put at the end of the bag.
use basic_jqr.Base.{
  ℕ, ◌+◌, ◌^◌, ◌<◌, ◌≡◌, ok, refl, sym, ◌∙◌, Option, none, some, [], ◌∷◌, ◌++◌, arith, length,
  length-append, All-append, ◌==◌, Returns,
}
use basic_jqr.Heap.{cell, Heap, write}
use basic_jqr.Heap.Linked.{
  Cells, last_of, write_ne, Linked-append, Linked-relink, Linked-last, Apart-last, Distinct-snoc,
}
use basic_jqr.Game.State.{Item, Game, and_then, max_str_len, read_until_newline_or_limit}
use basic_jqr.Game.Bag.{reach, item_doge, print_name, create_item, add_item_to_inventory}
use basic_jqr.Game.Items.{name_item, add_item_to_bag}
use basic_jqr.Game.Chain.{IsBag, print_name-other, last_loop-last_of}
use basic_jqr.Game.Runs.{Plays, Plays-then, turn-then, turn-Plays, when-then}
use basic_jqr.Game.Played.{Good}
use basic_jqr.Game.Made.{IsNew, Made, Made-imp, Fresh, create_item-Made, read-Made, name_item-Made}

snoc-IsBag :
    (heap : Heap Item) (bag : Option ℕ) (a : ℕ) (item : Item) (made : ℕ) (c : ℕ × Item)
    (cs : Cells Item)
    → IsNew heap bag made a item (c ∷ cs)
    → IsBag
        (write heap (last_of c cs).0 (some (cell (last_of c cs).1 (some a))))
        bag
        made
        ((c ∷ cs) ++ (a, item) ∷ [])
snoc-IsBag heap bag a item made c cs k = record {
  start = k.start;
  linked =
      Linked-append _ (c ∷ cs) ((a, item) ∷ []) none
        (Linked-relink heap c cs none (some a) k.distinct k.linked)
        (write_ne heap _ a _ (λ e. Apart-last a c cs k.apart (sym e)) ∙ k.stored, tt);
  distinct = Distinct-snoc (c ∷ cs) a item k.distinct k.apart;
  kinds = All-append _ (c ∷ cs) ((a, item) ∷ []) k.kinds (k.kind, tt);
  few = rw (length-append cs ((a, item) ∷ [])) (omega (arith, k.few));
}

add_item-Good :
    (p : Option ℕ) (n : ℕ) (s : Game)
    → Made (λ item. print_name item ≡ ok tt) n p s
    → Returns (λ (u, s'). Good n s') (add_item_to_inventory p s)
unfolding add_item_to_inventory
add_item-Good (some a) n s (([], item, k, named, printed), typed, room, place, risk) =
    rw (add_item_to_inventory, k.start)
      (
        (
          (a, item) ∷ [],
          record {
            start = refl;
            linked = (k.stored, tt);
            distinct = (tt, tt);
            kinds = (k.kind, tt);
            few = omega (arith, k.few);
          },
          (printed, tt),
        ),
        typed,
        room,
        place,
        risk,
      )
add_item-Good (some a) n s ((c ∷ cs, item, k, named, printed), typed, room, place, risk) =
    rw
      (
        add_item_to_inventory,
        k.start,
        last_loop-last_of (reach s) s.heap c cs k.linked (omega (arith, k.few)),
        Linked-last s.heap c cs none k.linked,
      )
      (
        (
          (c ∷ cs) ++ (a, item) ∷ [],
          snoc-IsBag s.heap s.bag a item s.item_index_counter c cs k,
          All-append _ (c ∷ cs) ((a, item) ∷ []) named (printed, tt),
        ),
        typed,
        room,
        place,
        risk,
      )
add_item-Good none n s (([], k, named), typed, room, place, risk) =
    rw (add_item_to_inventory, k.start)
      (
        (
          [],
          record { start = refl; linked = tt; distinct = tt; kinds = tt; few = omega arith },
          tt,
        ),
        typed,
        room,
        place,
        risk,
      )
add_item-Good none n s ((c ∷ cs, k, named), typed, room, place, risk) =
    rw
      (
        add_item_to_inventory,
        k.start,
        last_loop-last_of (reach s) s.heap c cs k.linked (omega (arith, k.few)),
        Linked-last s.heap c cs none k.linked,
      )
      (
        (
          c ∷ cs,
          record {
            start = k.start;
            linked = Linked-relink s.heap c cs none none k.distinct k.linked;
            distinct = k.distinct;
            kinds = k.kinds;
            few = k.few;
          },
          named,
        ),
        typed,
        room,
        place,
        risk,
      )

-- An item is made, named if it is a doge, and put in the bag.
pub add_item_to_bag-Good :
    (malloc : Heap Item → Option ℕ) (kind n : ℕ) (s : Game)
    → Fresh malloc
    → kind < 10
    → Good n s
    → s.item_index_counter + length s.input + 1 < 2 ^ 32
    → Plays (λ u s'. Good n s') (add_item_to_bag malloc kind s)
unfolding add_item_to_bag
add_item_to_bag-Good malloc kind n s fresh lt good more =
    turn-then (λ (p, s'). Made (λ item. item.kind ≡ kind) n p s') _ (create_item malloc kind s) _
      (create_item-Made malloc kind n s fresh lt good more)
      (λ p s' made.
        when-then _ (kind == item_doge) _ _ _ s'
          (λ doge.
            Plays-then _ (and_then (read_until_newline_or_limit max_str_len s') (name_item p)) _
              (Plays-then _ (read_until_newline_or_limit max_str_len s') (name_item p)
                (read-Made _ p n max_str_len s' made)
                (λ name s2 made'. name_item-Made _ p name n s2 made'))
              (λ u s3 made'.
                turn-Plays (λ (u, s4). Good n s4) _ _ (add_item-Good p n s3 made')
                  (λ u s4 good'. good')))
          (λ other.
            turn-Plays (λ (u, s4). Good n s4) _ _
              (add_item-Good p n s' (
                Made-imp _ _ n p s' made
                  (λ item same. print_name-other item (λ e. ground (arith, other, same, e)))))
              (λ u s4 good'. good')))
