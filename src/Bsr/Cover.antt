-- ===== src/Bsr/Cover.antt =====
-- The estimate of a buffer covers what the report says, with room for headers.
use user_ric.Prelude.{
  ltb, ◌&&◌, if◌then◌else◌, Bool-cases, inl, inr, refl, ◌≡◌, ℕ, suc, ◌+◌, ◌-◌, ◌*◌, ◌≤◌, ◌<◌, Bool,
  true, false, List, [], ◌∷◌, min, arith, length,
}
use user_ric.Bsr.{
  BsrTables, overestim_bsr_index, add_groups, estimate_ul_buffer_short_bsr,
  estimate_ul_buffer_long_bsr,
}

-- The sizes grow with the index.
pub record BsrTablesLaws (t : BsrTables) : Type 0 where
  pub short_grows : (i j : ℕ) → i ≤ j → t.get_short_bsr_value i ≤ t.get_short_bsr_value j
  pub long_grows : (i j : ℕ) → i ≤ j → t.get_long_bsr_value i ≤ t.get_long_bsr_value j

module _ (t : BsrTables) (laws : BsrTablesLaws t) where
  -- What is added for the headers of the data: the step from the size at an index to the next one of
  -- the table, but nothing for an empty buffer and for the last index.
  abbrev pub margin : (ℕ → ℕ) → ℕ → ℕ → ℕ
  margin value table_size i =
      if ltb 0 i && ltb (i + 1) table_size then value (i + 1) - value i else 0

  -- what a long report says, as the table reads it, with the margin of each group
  abbrev pub reported : (ℕ → ℕ) → ℕ → List Bool → ℕ
  reported payload m [] = 0
  reported payload m (false ∷ active) = reported payload m active
  reported payload m (true ∷ active) =
      t.get_long_bsr_value (payload m)
      + margin t.get_long_bsr_value t.long_table_size (payload m)
      + reported payload (suc m) active

  -- the value at the index that the estimate takes, for a table that grows
  with_margin :
      (value : ℕ → ℕ) (table_size i : ℕ)
      → ((i j : ℕ) → i ≤ j → value i ≤ value j)
      → i < table_size
      → value (min (overestim_bsr_index i) (table_size - 1)) ≡ value i + margin value table_size i
  unfolding overestim_bsr_index
  with_margin value table_size i grows inside = elim (Bool-cases (ltb 0 i)) [
    | inr empty ↦
        let e : min i (table_size - 1) ≡ i = omega (arith, inside) in rw (empty, e) (omega arith)
    | inl some_bytes ↦ elim (Bool-cases (ltb (i + 1) table_size)) [
      | inl next ↦
          let e : min (i + 1) (table_size - 1) ≡ i + 1 = ground (arith, next) in
          rw (some_bytes, next, e) (omega (arith, grows i (i + 1) (omega arith)))
      | inr last ↦
          let e : min (i + 1) (table_size - 1) ≡ i = ground (arith, last, inside) in
          rw (some_bytes, last, e) (omega arith)
    ]
  ]

  add_groups-eq :
      (payload : ℕ → ℕ) (m : ℕ) (active : List Bool)
      → ((k : ℕ) → payload k < t.long_table_size)
      → add_groups t payload m active ≡ reported payload m active
  unfolding add_groups
  add_groups-eq payload m [] inside = refl
  add_groups-eq payload m (false ∷ active) inside = add_groups-eq payload m active inside
  add_groups-eq payload m (true ∷ active) inside = omega (
    arith,
    add_groups-eq payload (suc m) active inside,
    with_margin t.get_long_bsr_value t.long_table_size (payload m) laws.long_grows (inside m),
  )

  add_groups_le :
      (payload : ℕ → ℕ) (m : ℕ) (active : List Bool)
      → add_groups t payload m active ≤ length active * t.get_long_bsr_value (t.long_table_size - 1)
  unfolding add_groups
  add_groups_le payload m [] = omega arith
  add_groups_le payload m (false ∷ active) = grind (arith, add_groups_le payload m active)
  add_groups_le payload m (true ∷ active) =
      let i = min (overestim_bsr_index (payload m)) (t.long_table_size - 1) in
      grind (
        arith,
        add_groups_le payload (suc m) active,
        laws.long_grows i (t.long_table_size - 1) (omega arith),
      )

  -- If every byte of a report is an index of the table, and the sizes in the table grow, the estimate
  -- is what the report says and, for each buffer that is not empty, the step to the next size of the
  -- table, which leaves room for headers; nothing is added at the last index. This holds for a short
  -- and for a long report, and the estimate of a long report is at most the largest size of the table
  -- for each group.
  pub bsr_estimates :
      (buffer_size : ℕ) (active : List Bool) (payload : ℕ → ℕ)
      → buffer_size < t.short_table_size
      → ((k : ℕ) → payload k < t.long_table_size)
      → (estimate_ul_buffer_short_bsr t buffer_size
          ≡ t.get_short_bsr_value buffer_size
            + margin t.get_short_bsr_value t.short_table_size buffer_size)
        × (estimate_ul_buffer_long_bsr t active payload ≡ reported payload 0 active)
        × (estimate_ul_buffer_long_bsr t active payload
            ≤ length active * t.get_long_bsr_value (t.long_table_size - 1))
  unfolding estimate_ul_buffer_short_bsr estimate_ul_buffer_long_bsr
  bsr_estimates buffer_size active payload short inside = (
    with_margin t.get_short_bsr_value t.short_table_size buffer_size laws.short_grows short,
    add_groups-eq payload 0 active inside,
    add_groups_le payload 0 active,
  )
