-- ===== src/HashTable/Probe.antt =====
-- When the probing loops of my_ht.c end.
use basic_jqr.Base.{
  ℕ, zero, suc, ◌+◌, ◌-◌, ◌<◌, ◌≡◌, ◌≢◌, refl, Bool, true, false, Option, some, List, arith, ok,
  leb, if◌then◌else◌, inl, inr, Bool-cases, length, get_elem?, get_elem?_total, out_of_fuel,
  Returns,
}
use basic_jqr.HashTable.{probe, next_index}

module _ {E : Type 0} (stop : Option E → Bool) where
  -- A slot that ends the loop.
  abbrev pub StopsAt : List (Option E) → ℕ → Type 0
  StopsAt entries k = (e : Option E) × (get_elem? entries k ≡ some e) × (stop e ≡ true)

  -- Steps from slot `i` to slot `j`, round the end of the table.
  abbrev steps : ℕ → ℕ → ℕ → ℕ
  steps m i j = if leb i j then j - i else m + j - i

  probe_within :
      (entries : List (Option E)) (m fuel i j : ℕ) (e : Option E)
      → length entries ≡ m
      → i < m
      → j < m
      → get_elem? entries j ≡ some e
      → stop e ≡ true
      → steps m i j < fuel
      → Returns (λ k. (k < m) × StopsAt entries k) (probe stop entries m fuel i)
  unfolding probe
  probe_within entries m zero i j e len hi hj got st d = absurd (omega arith)
  probe_within entries m (suc fuel) i j e len hi hj got st d =
      let (e', here) = get_elem?_total entries i (omega arith) in
      elim (Bool-cases (stop e')) [
        | inl s ↦ rw (here, s) (hi, (e', here, s))
        | inr s ↦
            rw (here, s)
              (let ne : i ≢ j = λ q. ground arith in
                probe_within entries m fuel (next_index m i) j e len (ground arith) hj got st
                  (ground arith))
      ]

  -- If some slot stops the loop, as many rounds as there are slots find one.
  pub probe-StopsAt :
      (entries : List (Option E)) (m i j : ℕ)
      → length entries ≡ m
      → i < m
      → j < m
      → StopsAt entries j
      → Returns (λ k. (k < m) × StopsAt entries k) (probe stop entries m m i)
  probe-StopsAt entries m i j len hi hj (e, got, st) =
      probe_within entries m m i j e len hi hj got st (ground arith)

  -- If no slot stops the loop it never ends.
  pub probe-out_of_fuel :
      (entries : List (Option E)) (m fuel i : ℕ)
      → length entries ≡ m
      → i < m
      → ((k : ℕ) (e : Option E) → get_elem? entries k ≡ some e → stop e ≡ false)
      → probe stop entries m fuel i ≡ out_of_fuel
  unfolding probe
  probe-out_of_fuel entries m zero i len hi no_stop = refl
  probe-out_of_fuel entries m (suc fuel) i len hi no_stop =
      let (e, here) = get_elem?_total entries i (omega arith) in
      rw (here, no_stop i e here)
        (probe-out_of_fuel entries m fuel (next_index m i) len (ground arith) no_stop)

  -- A loop that starts at a slot that stops it ends there.
  pub probe_here :
      (entries : List (Option E)) (m fuel i : ℕ) (e : Option E)
      → 0 < fuel
      → get_elem? entries i ≡ some e
      → stop e ≡ true
      → probe stop entries m fuel i ≡ ok i
  unfolding probe
  probe_here entries m zero i e pos got st = elim pos [ ]
  probe_here entries m (suc fuel) i e pos got st = rw (got, st)
