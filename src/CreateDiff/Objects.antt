-- ===== src/CreateDiff/Objects.antt =====
-- What the loop builds, for `process_nodes`, `process_ways` and `process_relations`.
use osmdbt_pgoutput.Base.{
  Bool, ◌≡◌, refl, sym, ap, ◌∙◌, List, [], ◌∷◌, ◌++◌, map, append-nil, inl, inr,
}
use osmdbt_pgoutput.Base.Result.{ok, >>=-eq-ok, ok-injective}
use osmdbt_pgoutput.Osmium.{Timestamps}
use osmdbt_pgoutput.CreateDiff.Join.{walk}
use osmdbt_pgoutput.CreateDiff.Loop.{after_redacted, after_built, process_row_cases}
use osmdbt_pgoutput.Osmobj.{ChangesetUserLookup}
use osmdbt_pgoutput.CreateDiff.{
  Key, take_entries, ObjectRow, row_key, is_redacted, Built, Progress, start, process_row,
  process_rows,
}

abbrev pub keyed : {L : Type 0} → List (ObjectRow L) → List (Key × Bool)
keyed [] = []
keyed (row ∷ rows) = (row_key row, is_redacted row) ∷ keyed rows

module _ (ts : Timestamps) {L E I : Type 0} (cucache : ChangesetUserLookup)
    (add_entries : Key → I → E × I) where
  module _ {T : Type 0} (key_of : T → Key) (pe : E → List T) (pi : I → List T) where
    -- The objects with the entries of one kind.
    abbrev objects : List (Built ts L E) → List (Key × List T)
    objects = map (λ o. (o.key, pe o.entries))

    objects-concat :
        (b : List (Built ts L E)) (o : Built ts L E) (w : List (Key × List T))
        → objects (b ++ o ∷ []) ++ w ≡ objects b ++ (o.key, pe o.entries) ∷ w
    objects-concat [] o w = refl
    objects-concat (x ∷ b) o w = ap (◌∷◌ (x.key, pe x.entries)) (objects-concat b o w)

    process_row-walk :
        (row : ObjectRow L) (st st' : Progress ts L E I)
        → ((k : Key) (i : I)
            → (pe (add_entries k i).0 ≡ (take_entries key_of k (pi i)).0)
              × (pi (add_entries k i).1 ≡ (take_entries key_of k (pi i)).1))
        → process_row ts cucache add_entries row st ≡ ok st'
        → (rows : List (Key × Bool))
        → objects st'.buffer ++ walk key_of rows (pi st'.its)
          ≡ objects st.buffer ++ walk key_of ((row_key row, is_redacted row) ∷ rows) (pi st.its)
    unfolding after_redacted after_built
    process_row-walk row st st' follows h rows =
        let (time, _, moves) = process_row_cases ts cucache add_entries row st st' h in
        elim moves [
          | inl (redacted, e) ↦ rw (e, redacted) refl
          | inr (visible, (user, _, e)) ↦
              rw (e, visible)
                (rw
                  (
                    objects-concat,
                    ← (follows (row_key row) st.its).0,
                    ← (follows (row_key row) st.its).1,
                  )
                  refl)
        ]

    -- The objects that are built, in order, with what the iterator gives for them.
    process_rows-walk :
        (rows : List (ObjectRow L)) (st st' : Progress ts L E I)
        → ((k : Key) (i : I)
            → (pe (add_entries k i).0 ≡ (take_entries key_of k (pi i)).0)
              × (pi (add_entries k i).1 ≡ (take_entries key_of k (pi i)).1))
        → process_rows ts cucache add_entries rows st ≡ ok st'
        → objects st'.buffer ≡ objects st.buffer ++ walk key_of (keyed rows) (pi st.its)
    unfolding process_rows
    process_rows-walk [] st st' follows h =
        rw (append-nil (objects st.buffer))
          (ap (λ (s : Progress ts L E I). objects s.buffer) (sym (ok-injective h)))
    process_rows-walk (row ∷ rows) st st' follows h =
        let (st1, e, rest) =
          >>=-eq-ok (process_row ts cucache add_entries row st)
            (process_rows ts cucache add_entries rows) h in
        process_rows-walk rows st1 st' follows rest
        ∙ process_row-walk row st st1 follows e (keyed rows)

    -- The loop succeeds on rows that are ready, and its objects are those of the walk.
    pub process_rows-objects :
        (rows : List (ObjectRow L)) (max_timestamp : ts.Timestamp) (its : I)
        → ((k : Key) (i : I)
            → (pe (add_entries k i).0 ≡ (take_entries key_of k (pi i)).0)
              × (pi (add_entries k i).1 ≡ (take_entries key_of k (pi i)).1))
        → {st' : Progress ts L E I}
        → process_rows ts cucache add_entries rows (start ts max_timestamp its) ≡ ok st'
        → map (λ (o : Built ts L E). (o.key, pe o.entries)) st'.buffer
          ≡ walk key_of (keyed rows) (pi its)
    process_rows-objects rows max_timestamp its follows {st' = st'} h =
        process_rows-walk rows (start ts max_timestamp its) st' follows h
