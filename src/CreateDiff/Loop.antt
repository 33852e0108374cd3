-- ===== src/CreateDiff/Loop.antt =====
-- The loop over the rows of the objects: when it succeeds, and what it builds.
use osmdbt_pgoutput.Base.{
  true, false, ◌≡◌, refl, ◌∙◌, none, some, List, [], ◌∷◌, ◌++◌, arith, ◌⊎◌, All, Bool-cases,
  Option-cases, sym, Bytes, inl, inr,
}
use osmdbt_pgoutput.Base.Result.{ok, ◌>>=◌, >>=-eq-ok}
use osmdbt_pgoutput.Osmium.{Timestamps}
use osmdbt_pgoutput.Osmobj.{UserInfo, ChangesetUserLookup}
use osmdbt_pgoutput.CreateDiff.{
  Key, at, ObjectRow, row_key, is_redacted, Progress, timestamp_of, max_of, built, build,
  process_timed, process_row, process_rows,
}

timestamp_of_lem :
    (ts : Timestamps) (text : Bytes) {time : ts.Timestamp}
    → ts.of_iso text ≡ some time
    → timestamp_of ts text ≡ ok time
unfolding timestamp_of
timestamp_of_lem ts text e = rw (e, timestamp_of) refl

module _ (ts : Timestamps) {L E I : Type 0} (cucache : ChangesetUserLookup)
    (add_entries : Key → I → E × I) where
  -- The row's timestamp can be read, and its changeset is in the cache if the object is built.
  pub record IsReady (row : ObjectRow L) : Type 0 where
    pub time : ts.Timestamp
    pub user : UserInfo
    pub has_time : ts.of_iso row.timestamp ≡ some time
    pub has_user : (is_redacted row ≡ true) ⊎ (at row.changeset_id cucache ≡ ok user)

  unfoldable pub after_redacted : ts.Timestamp → Progress ts L E I → Progress ts L E I
  after_redacted time st = record st { max_timestamp = max_of ts time st.max_timestamp }

  unfoldable pub after_built :
      ObjectRow L → ts.Timestamp → UserInfo → Progress ts L E I → Progress ts L E I
  after_built row time user st = record {
    max_timestamp = max_of ts time st.max_timestamp;
    its = (add_entries (row_key row) st.its).1;
    buffer = st.buffer ++ built ts row user time (add_entries (row_key row) st.its).0 ∷ [];
  }

  process_timed_redacted :
      (row : ObjectRow L) (st : Progress ts L E I) (time : ts.Timestamp)
      → is_redacted row ≡ true
      → process_timed ts cucache add_entries row st time ≡ ok (after_redacted time st)
  unfolding process_timed after_redacted
  process_timed_redacted row st time r = rw r refl

  process_timed_built :
      (row : ObjectRow L) (st : Progress ts L E I) (time : ts.Timestamp) {user : UserInfo}
      → is_redacted row ≡ false
      → at row.changeset_id cucache ≡ ok user
      → process_timed ts cucache add_entries row st time ≡ ok (after_built row time user st)
  unfolding process_timed after_built build
  process_timed_built row st time v u = rw (v, u, build) refl

  process_row_timed :
      (row : ObjectRow L) (st : Progress ts L E I) {time : ts.Timestamp}
      → ts.of_iso row.timestamp ≡ some time
      → process_row ts cucache add_entries row st ≡ process_timed ts cucache add_entries row st time
  unfolding process_row
  process_row_timed row st e = rw (timestamp_of_lem ts row.timestamp e) refl

  process_row_total :
      (row : ObjectRow L) (st : Progress ts L E I)
      → IsReady row
      → (st' : Progress ts L E I) × (process_row ts cucache add_entries row st ≡ ok st')
  process_row_total row st h = elim (Bool-cases (is_redacted row)) [
    | inl redacted ↦ (
      after_redacted h.time st,
      process_row_timed row st h.has_time ∙ process_timed_redacted row st h.time redacted,
    )
    | inr visible ↦ elim h.has_user [
      | inl redacted ↦ absurd (cc (visible, redacted))
      | inr user ↦ (
        after_built row h.time h.user st,
        process_row_timed row st h.has_time ∙ process_timed_built row st h.time visible user,
      )
    ]
  ]

  -- The loop succeeds if every row is ready.
  pub process_rows_total :
      (rows : List (ObjectRow L)) (st : Progress ts L E I)
      → All IsReady rows
      → (st' : Progress ts L E I) × (process_rows ts cucache add_entries rows st ≡ ok st')
  unfolding process_rows
  process_rows_total [] st h = (st, refl)
  process_rows_total (row ∷ rows) st h =
      let (st1, e) = process_row_total row st h.0 in
      let (st2, e') = process_rows_total rows st1 h.1 in (st2, rw e e')

  unreadable :
      (row : ObjectRow L) (st st' : Progress ts L E I)
      → ts.of_iso row.timestamp ≡ none
      → process_row ts cucache add_entries row st ≡ ok st'
      → ⊥
  unfolding process_row timestamp_of
  unreadable row st st' e h = ground arith

  process_timed_cases :
      (row : ObjectRow L) (st st' : Progress ts L E I) (time : ts.Timestamp)
      → process_timed ts cucache add_entries row st time ≡ ok st'
      → ((is_redacted row ≡ true) × (st' ≡ after_redacted time st))
        ⊎ ((is_redacted row ≡ false)
            × ((user : UserInfo) × (at row.changeset_id cucache ≡ ok user)
                × (st' ≡ after_built row time user st)))
  unfolding process_timed build
  process_timed_cases row st st' time h = elim (Bool-cases (is_redacted row)) [
    | inl redacted ↦ inl (redacted, cc (process_timed_redacted row st time redacted))
    | inr visible ↦
        let h' : (build ts cucache add_entries row time (add_entries (row_key row) st.its).0
              >>= λ object. ok (record {
                max_timestamp = max_of ts time st.max_timestamp;
                its = (add_entries (row_key row) st.its).1;
                buffer = st.buffer ++ object ∷ [];
              }))
            ≡ ok st' =
          rw (visible, process_timed) at h in
        let (object, made, _) =
          >>=-eq-ok (build ts cucache add_entries row time (add_entries (row_key row) st.its).0) _
            h' in
        let (user, found, _) = >>=-eq-ok (at row.changeset_id cucache) _ made in
        inr (visible, (user, found, cc (process_timed_built row st time visible found)))
  ]

  -- A round that succeeds is one of the two.
  pub process_row_cases :
      (row : ObjectRow L) (st st' : Progress ts L E I)
      → process_row ts cucache add_entries row st ≡ ok st'
      → (time : ts.Timestamp) × (ts.of_iso row.timestamp ≡ some time)
        × (((is_redacted row ≡ true) × (st' ≡ after_redacted time st))
            ⊎ ((is_redacted row ≡ false)
                × ((user : UserInfo) × (at row.changeset_id cucache ≡ ok user)
                    × (st' ≡ after_built row time user st))))
  process_row_cases row st st' h = elim (Option-cases (ts.of_iso row.timestamp)) [
    | inl unread ↦ absurd (unreadable row st st' unread h)
    | inr (time, e) ↦
        (time, e, process_timed_cases row st st' time (sym (process_row_timed row st e) ∙ h))
  ]
