-- ===== src/CreateDiff/Latest.antt =====
-- The timestamp that `process_nodes`, `process_ways` and `process_relations` keep through
-- `max_timestamp`.
use osmdbt_pgoutput.Base.{false, ◌≡◌, refl, List, [], ◌∷◌, some, All, Bool-cases, inl, inr}
use osmdbt_pgoutput.Base.Result.{ok, >>=-eq-ok, ok-injective}
use osmdbt_pgoutput.Osmium.{Timestamps, IsOrdered}
use osmdbt_pgoutput.CreateDiff.Loop.{after_redacted, after_built, process_row_cases}
use osmdbt_pgoutput.Osmobj.{ChangesetUserLookup}
use osmdbt_pgoutput.CreateDiff.{Key, ObjectRow, Progress, max_of, process_row, process_rows}

module _ (ts : Timestamps) (ordered : IsOrdered ts) where
  max_of-new : (t m : ts.Timestamp) → ts.later t (max_of ts t m) ≡ false
  max_of-new t m = elim (Bool-cases (ts.later t m)) [
    | inl e ↦ rw e (ordered.later_irrefl t)
    | inr e ↦ rw e e
  ]

  max_of-old : (t u m : ts.Timestamp) → ts.later u m ≡ false → ts.later u (max_of ts t m) ≡ false
  max_of-old t u m h = elim (Bool-cases (ts.later t m)) [
    | inl e ↦ rw e (elim (Bool-cases (ts.later u t)) [
      | inl e' ↦ absurd (cc (ordered.later_trans u t m e' e, h))
      | inr e' ↦ e'
    ])
    | inr e ↦ rw e h
  ]

  module _ {L E I : Type 0} (cucache : ChangesetUserLookup) (add_entries : Key → I → E × I) where
    process_row-max :
        (row : ObjectRow L) (st st' : Progress ts L E I)
        → process_row ts cucache add_entries row st ≡ ok st'
        → (t : ts.Timestamp) × (ts.of_iso row.timestamp ≡ some t)
          × (st'.max_timestamp ≡ max_of ts t st.max_timestamp)
    unfolding after_redacted after_built
    process_row-max row st st' h =
        let (t, e, moves) = process_row_cases ts cucache add_entries row st st' h in
        (t, e, elim moves [ inl (_, e') ↦ rw e' refl | inr (_, (_, _, e')) ↦ rw e' refl ])

    process_rows_keeps :
        (rows : List (ObjectRow L)) (u : ts.Timestamp) (st st' : Progress ts L E I)
        → ts.later u st.max_timestamp ≡ false
        → process_rows ts cucache add_entries rows st ≡ ok st'
        → ts.later u st'.max_timestamp ≡ false
    unfolding process_rows
    process_rows_keeps [] u st st' h e = rw (← ok-injective e) h
    process_rows_keeps (row ∷ rows) u st st' h e =
        let (st1, e1, rest) =
          >>=-eq-ok (process_row ts cucache add_entries row st)
            (process_rows ts cucache add_entries rows) e in
        let (t, _, m) = process_row-max row st st1 e1 in
        process_rows_keeps rows u st1 st' (rw m (max_of-old t u st.max_timestamp h)) rest

    -- Where `operator>` of timestamps is irreflexive and transitive: if the loop over the rows of
    -- the objects succeeds, then every row's timestamp can be read, those of redacted rows too,
    -- and none is later than the maximum that the loop leaves.
    pub process_rows-max :
        (rows : List (ObjectRow L)) (st st' : Progress ts L E I)
        → process_rows ts cucache add_entries rows st ≡ ok st'
        → All
            (λ row.
              (t : ts.Timestamp) × (ts.of_iso row.timestamp ≡ some t)
              × (ts.later t st'.max_timestamp ≡ false))
            rows
    unfolding process_rows
    process_rows-max [] st st' e = tt
    process_rows-max (row ∷ rows) st st' e =
        let (st1, e1, rest) =
          >>=-eq-ok (process_row ts cucache add_entries row st)
            (process_rows ts cucache add_entries rows) e in
        let (t, read, m) = process_row-max row st st1 e1 in
        (
          (t, read, process_rows_keeps rows t st1 st' (rw m (max_of-new t st.max_timestamp)) rest),
          process_rows-max rows st1 st' rest,
        )
