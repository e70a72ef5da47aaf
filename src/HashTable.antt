-- ===== src/HashTable.antt =====
-- chat_server/Src/Src/my_ht.c: a hash table with open addressing over entries of any type. A slot
-- is an `Option`, `none` for NULL; `string_it` is the callback that gives an entry's name.
-- What `calloc` gives `resize` is taken to be there, as the code does not test it.
pub mod Probe
pub mod Slots
pub mod Found
pub mod Put
pub mod Insert
pub mod Lookup
pub mod Remove
pub mod Kept
mod Tests
use basic_jqr.Base.{
  ℕ, zero, suc, ◌+◌, ◌-◌, ◌*◌, ◌/◌, ◌%◌, ◌^◌, Bool, true, false, Option, none, some, List, [], ◌∷◌,
  leb, ltb, ◌==◌, if◌then◌else◌, length, get_elem?, set, replicate, Outcome, ok, fault, out_of_fuel,
  ◌>>=◌, deref, Bytes, strncmp_eq, ℤ, pos, negsuc, u64_mod,
}

-- `c = *str` of a signed `char`, as `unsigned long` arithmetic sees it.
abbrev pub char_word : ℕ → ℕ
char_word c = if ltb c 128 then c else c + 2 ^ 64 - 256

unfoldable pub hash_loop : ℕ → Bytes → ℕ
hash_loop h [] = h
hash_loop h (c ∷ str) = hash_loop ((h * 32 % u64_mod + h + char_word c) % u64_mod) str

-- A table of no slots divides by zero.
unfoldable pub hash : Bytes → ℕ → Outcome ℕ
hash str size = if size == 0 then fault else ok (hash_loop 5381 str % size)

pub record HashTable (E : Type 0) : Type 0 where
  pub entries : List (Option E)
  pub size : ℕ
  pub max_size : ℕ

abbrev pub next_index : ℕ → ℕ → ℕ
next_index max_size index = if index + 1 == max_size then 0 else index + 1

module _ {E : Type 0} where
  abbrev pub empty_table : ℕ → ℕ → HashTable E
  empty_table n capacity = record {
    entries = replicate capacity none;
    size = n;
    max_size = capacity;
  }

  -- The two arguments say whether the two calls of `calloc` succeed.
  unfoldable pub create_ht : Bool → Bool → ℕ → Option (HashTable E)
  create_ht false entries_ok capacity = none
  create_ht true false capacity = none
  create_ht true true capacity = some (empty_table 0 capacity)

  -- The `while` loops of insertion, lookup and removal, which differ in the slots they stop at.
  unfoldable pub probe : (Option E → Bool) → List (Option E) → ℕ → ℕ → ℕ → Outcome ℕ
  probe stop entries max_size zero index = out_of_fuel
  probe stop entries max_size (suc fuel) index =
      let rest = probe stop entries max_size fuel (next_index max_size index) in
      deref (get_elem? entries index) >>= λ e. if stop e then ok index else rest

  abbrev pub is_null : Option E → Bool
  is_null none = true
  is_null (some e) = false

  -- The loop of `resize` over the old entries, given the insertion that it calls.
  unfoldable pub reinsert :
      (HashTable E → E → Outcome (HashTable E))
      → List (Option E)
      → HashTable E
      → Outcome (HashTable E)
  reinsert insert [] ht = ok ht
  reinsert insert (none ∷ es) ht = reinsert insert es ht
  reinsert insert (some e ∷ es) ht = insert ht e >>= λ ht'. reinsert insert es ht'

  -- The new table: the sizes are taken to be far from the end of a `size_t`, and do not wrap here.
  unfoldable pub resize_with :
      (HashTable E → E → Outcome (HashTable E)) → HashTable E → Outcome (HashTable E)
  unfolding reinsert
  resize_with insert ht = reinsert insert ht.entries (empty_table ht.size (ht.max_size * 2 - 1))

  -- The loop of `destroy_ht`: what it hands to `free_it`, in order.
  unfoldable pub destroy_loop : ℕ → ℕ → List (Option E) → Outcome (List E)
  destroy_loop zero i entries = ok []
  destroy_loop (suc n) i entries =
      let rest = destroy_loop n (i + 1) entries in
      deref (get_elem? entries i) >>= λ e.
      rest >>= λ freed. ok (elim e [ none ↦ freed | some u ↦ u ∷ freed ])

  unfoldable pub destroy_ht : HashTable E → Outcome (List E)
  unfolding destroy_loop
  destroy_ht ht = destroy_loop ht.max_size 0 ht.entries

module _ {E : Type 0} (string_it : E → Bytes) where
  -- An entry matches a key that its name begins with.
  abbrev pub matches : Bytes → E → Bool
  matches key e = strncmp_eq (string_it e) key (length key)

  abbrev pub stops_at : Bytes → Option E → Bool
  stops_at key none = true
  stops_at key (some e) = matches key e

  -- `hash_table_insert` past its guard. `resize` calls it again: the fuel bounds that nesting.
  -- The test `(size / max_size) > .5` compares an integer quotient.
  unfoldable pub insert_entry : ℕ → HashTable E → E → Outcome (HashTable E)
  unfolding hash probe resize_with
  insert_entry zero ht u = out_of_fuel
  insert_entry (suc fuel) ht u = hash (string_it u) ht.max_size >>= λ start.
      probe is_null ht.entries ht.max_size ht.max_size start >>= λ index.
      let ht' = record ht { entries = set ht.entries index (some u); size = ht.size + 1 } in
      if leb 1 ((ht.size + 1) / ht.max_size) then resize_with (insert_entry fuel) ht' else ok ht'

  unfoldable pub hash_table_insert :
      ℕ → Option (HashTable E) → Option E → Outcome (Option (HashTable E) × ℤ)
  unfolding insert_entry
  hash_table_insert fuel ht none = ok (ht, negsuc 0)
  hash_table_insert fuel none (some u) = ok (none, negsuc 0)
  hash_table_insert fuel (some ht) (some u) = insert_entry fuel ht u >>= λ ht'. ok (some ht', pos 0)

  unfoldable pub resize : ℕ → HashTable E → Outcome (HashTable E)
  unfolding insert_entry
  resize fuel ht = resize_with (insert_entry fuel) ht

  unfoldable pub hash_table_lookup : HashTable E → Bytes → Outcome (Option E)
  unfolding hash probe
  hash_table_lookup ht key = hash key ht.max_size >>= λ start.
      probe (stops_at key) ht.entries ht.max_size ht.max_size start >>= λ index.
      deref (get_elem? ht.entries index)

  -- The table, what `free_it` got, and the result. `string_it` and `free_it` follow the pointer
  -- that they are given, so an empty slot is a fault.
  unfoldable pub remove_entry : HashTable E → Bytes → Outcome (HashTable E × E × ℤ)
  unfolding hash probe
  remove_entry ht key = hash key ht.max_size >>= λ start.
      probe (stops_at key) ht.entries ht.max_size ht.max_size start >>= λ index.
      deref (get_elem? ht.entries index) >>= λ slot.
      deref slot >>= λ e. ok (record ht { entries = set ht.entries index none }, e, pos 0)
