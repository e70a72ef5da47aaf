-- ===== src/HashTable/Found.antt =====
-- When a lookup in the table of my_ht.c finds a name, before and after a slot is filled.
use basic_jqr.Base.{
  ℕ, zero, suc, ◌≡◌, ◌≢◌, refl, sym, ◌∙◌, Bool, true, false, Option, none, some, List, arith, inl,
  inr, Bool-cases, Option-cases, length, get_elem?, set, get_elem?-set_self, get_elem?-set_ne,
  get_elem?-lt-length, Outcome, ok, chain-eq-ok, deref-eq-ok, fault, out_of_fuel, deref, ◌>>=◌,
  Bytes, strncmp_eq_refl,
}
use basic_jqr.HashTable.{
  HashTable, hash, probe, is_null, next_index, matches, stops_at, hash_table_lookup,
}

module _ {E : Type 0} (string_it : E → Bytes) where
  abbrev pub is_hit : Bytes → Outcome (Option E) → Bool
  is_hit key (ok (some e)) = matches string_it key e
  is_hit key (ok none) = false
  is_hit key fault = false
  is_hit key out_of_fuel = false

  -- The lookup of a name returns, with an entry whose name begins with it.
  abbrev pub is_found : HashTable E → Bytes → Bool
  is_found ht key = is_hit key (hash_table_lookup string_it ht key)

  -- A loop that stops at a matching entry is not disturbed by an empty slot that is filled.
  probe-set :
      (key : Bytes) (es : List (Option E)) (m fuel i j k : ℕ) (e u : E)
      → get_elem? es k ≡ some none
      → probe (stops_at string_it key) es m fuel i ≡ ok j
      → get_elem? es j ≡ some (some e)
      → probe (stops_at string_it key) (set es k (some u)) m fuel i ≡ ok j
  unfolding probe
  probe-set key es m zero i j k e u empty p got = absurd (cc)
  probe-set key es m (suc fuel) i j k e u empty p got = ground (
    arith,
    get_elem?-set_ne es k i (some u),
    probe-set key es m fuel (next_index m i) j k e u empty,
  )

  -- A slot holding a match of `u`'s name, at which the loop that looks for that name stops.
  abbrev HitAt : List (Option E) → ℕ → ℕ → ℕ → E → Type 0
  HitAt es m fuel i u =
      (j : ℕ) × (e : E) × (probe (stops_at string_it (string_it u)) es m fuel i ≡ ok j)
      × (get_elem? es j ≡ some (some e))
      × (matches string_it (string_it u) e ≡ true)

  hit_here :
      (es : List (Option E)) (m fuel i : ℕ) (u x : E)
      → get_elem? es i ≡ some (some x)
      → matches string_it (string_it u) x ≡ true
      → HitAt es m (suc fuel) i u
  unfolding probe
  hit_here es m fuel i u x got hit = (i, x, rw (got, hit), got, hit)

  hit_later :
      (es : List (Option E)) (m fuel i : ℕ) (u x : E)
      → get_elem? es i ≡ some (some x)
      → matches string_it (string_it u) x ≡ false
      → HitAt es m fuel (next_index m i) u
      → HitAt es m (suc fuel) i u
  unfolding probe
  hit_later es m fuel i u x got miss (j, e, p, at, hit) = (j, e, rw (got, miss) p, at, hit)

  -- The slot that an insertion fills is found by its name, or an entry before it is.
  probe-set_self :
      (es : List (Option E)) (m fuel i k : ℕ) (u : E)
      → probe is_null es m fuel i ≡ ok k
      → get_elem? es k ≡ some none
      → HitAt (set es k (some u)) m fuel i u
  unfolding probe
  probe-set_self es m zero i k u p empty = absurd (cc)
  probe-set_self es m (suc fuel) i k u p empty = elim (Option-cases (get_elem? es i)) [
    | inl e ↦ absurd (ground arith)
    | inr (none, e) ↦
        let same : i ≡ k = ground arith in
        hit_here _ m fuel i u u
          (rw same (get_elem?-set_self es k (some u) (get_elem?-lt-length es k empty)))
          (strncmp_eq_refl (string_it u) (length (string_it u)))
    | inr (some x, e) ↦
        let apart : k ≢ i = λ q. ground arith in
        let kept : get_elem? (set es k (some u)) i ≡ some (some x) =
          get_elem?-set_ne es k i (some u) apart ∙ e in
        elim (Bool-cases (matches string_it (string_it u) x)) [
          | inl hit ↦ hit_here _ m fuel i u x kept hit
          | inr miss ↦
              hit_later _ m fuel i u x kept miss
                (probe-set_self es m fuel (next_index m i) k u (rw e at p) empty)
        ]
  ]

  is_hit-eq-ok :
      (key : Bytes) (o : Outcome (Option E))
      → is_hit key o ≡ true
      → (e : E) × (o ≡ ok (some e)) × (matches string_it key e ≡ true)
  is_hit-eq-ok key (ok none) h = absurd (cc)
  is_hit-eq-ok key (ok (some e)) h = (e, refl, h)
  is_hit-eq-ok key fault h = absurd (cc)
  is_hit-eq-ok key out_of_fuel h = absurd (cc)

  -- The run of a lookup that finds something.
  abbrev pub LookupRun : HashTable E → Bytes → Type 0
  LookupRun ht key =
      (start : ℕ) × (j : ℕ) × (e : E) × (hash key ht.max_size ≡ ok start)
      × (probe (stops_at string_it key) ht.entries ht.max_size ht.max_size start ≡ ok j)
      × (get_elem? ht.entries j ≡ some (some e))
      × (matches string_it key e ≡ true)

  pub hash_table_lookup_lem :
      (ht : HashTable E) (key : Bytes)
      → hash_table_lookup string_it ht key ≡ (
          hash key ht.max_size >>= λ start.
          probe (stops_at string_it key) ht.entries ht.max_size ht.max_size start >>= λ j.
          deref (get_elem? ht.entries j))
  unfolding hash_table_lookup
  hash_table_lookup_lem ht key = refl

  pub LookupRun-of_is_found :
      (ht : HashTable E) (key : Bytes) → is_found ht key ≡ true → LookupRun ht key
  LookupRun-of_is_found ht key found =
      let (e, looked, hit) = is_hit-eq-ok key (hash_table_lookup string_it ht key) found in
      let (start, hashed, r₁) =
        chain-eq-ok (hash key ht.max_size) _ (sym (hash_table_lookup_lem ht key) ∙ looked) in
      let (j, probed, r₂) =
        chain-eq-ok (probe (stops_at string_it key) ht.entries ht.max_size ht.max_size start) _
          r₁ in
      (start, j, e, hashed, probed, deref-eq-ok (get_elem? ht.entries j) r₂, hit)

  pub is_found_of_LookupRun :
      (ht : HashTable E) (key : Bytes) → LookupRun ht key → is_found ht key ≡ true
  is_found_of_LookupRun ht key (start, j, e, hashed, probed, got, hit) =
      rw (hash_table_lookup_lem ht key, hashed, probed, got) hit

  -- Filling an empty slot hides no name that was found.
  pub is_found-set :
      (ht : HashTable E) (key : Bytes) (k n : ℕ) (u : E)
      → get_elem? ht.entries k ≡ some none
      → is_found ht key ≡ true
      → is_found (record ht { entries = set ht.entries k (some u); size = n }) key ≡ true
  is_found-set ht key k n u empty found =
      let (start, j, e, hashed, probed, got, hit) = LookupRun-of_is_found ht key found in
      let apart : k ≢ j = λ q. ground arith in
      is_found_of_LookupRun _ key (
        start,
        j,
        e,
        hashed,
        probe-set key ht.entries ht.max_size ht.max_size start j k e u empty probed got,
        get_elem?-set_ne ht.entries k j (some u) apart ∙ got,
        hit,
      )

  -- The name of the entry that fills the slot is found.
  pub is_found-set_self :
      (ht : HashTable E) (start k n : ℕ) (u : E)
      → hash (string_it u) ht.max_size ≡ ok start
      → probe is_null ht.entries ht.max_size ht.max_size start ≡ ok k
      → get_elem? ht.entries k ≡ some none
      → is_found (record ht { entries = set ht.entries k (some u); size = n }) (string_it u) ≡ true
  is_found-set_self ht start k n u hashed probed empty =
      let (j, e, found, got, hit) =
        probe-set_self ht.entries ht.max_size ht.max_size start k u probed empty in
      is_found_of_LookupRun _ (string_it u) (start, j, e, hashed, found, got, hit)
