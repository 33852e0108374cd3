-- ===== src/FakeLog/Files.antt =====
-- Which files the loop over the entries writes.
use osmdbt_pgoutput.Base.{
  ◌≡◌, ◌≢◌, refl, sym, ap, ◌∙◌, false, List, [], ◌∷◌, ◌++◌, append_assoc, append-nil, Bytes, All,
  Bool-cases, inl, inr, if◌then◌else◌,
}
use osmdbt_pgoutput.Base.Int.{ℤ, pos, eq_ℤ, eq_ℤ_iff}
use osmdbt_pgoutput.Osmium.{Objects}
use osmdbt_pgoutput.FakeLog.Reading.{content}
use osmdbt_pgoutput.FakeLog.{
  LogEntry, line, append_to, Writing, nothing_written, write_entry, write_entries,
}

-- The entry joins the first run.
abbrev push : LogEntry → List (ℤ × List LogEntry) → List (ℤ × List LogEntry)
push entry [] = []
push entry ((time, run) ∷ rest) = (time, entry ∷ run) ∷ rest

-- The entries in runs of one time each.
abbrev pub runs_from : LogEntry → List LogEntry → List (ℤ × List LogEntry)
runs_from entry [] = (entry.m_time, entry ∷ []) ∷ []
runs_from entry (next ∷ entries) =
    let rest = runs_from next entries in
    if eq_ℤ entry.m_time next.m_time then push entry rest else (entry.m_time, entry ∷ []) ∷ rest

eq_ℤ_no : (a b : ℤ) → a ≢ b → eq_ℤ a b ≡ false
eq_ℤ_no a b h = elim (Bool-cases (eq_ℤ a b)) [ inl e ↦ absurd (h ((eq_ℤ_iff a b).0 e)) | inr e ↦ e ]

-- Text in front of the first file's.
abbrev before : Bytes → List (Bytes × Bytes) → List (Bytes × Bytes)
before d [] = []
before d ((name, data') ∷ fs) = (name, d ++ data') ∷ fs

before_nil : (fs : List (Bytes × Bytes)) → before [] fs ≡ fs
before_nil [] = refl
before_nil (f ∷ fs) = refl

module _ (osm : Objects) (name_of : ℤ → Bytes) where
  -- The files for the runs, each with the lines of its entries.
  abbrev pub files : List (ℤ × List LogEntry) → List (Bytes × Bytes)
  files [] = []
  files ((time, run) ∷ rest) = (name_of time, content osm run) ∷ files rest

  before-push :
      (d : Bytes) (entry : LogEntry) (runs : List (ℤ × List LogEntry))
      → before (d ++ line osm entry) (files runs) ≡ before d (files (push entry runs))
  before-push d entry [] = refl
  before-push d entry ((time, run) ∷ rest) =
      rw (append_assoc d (line osm entry) (content osm run)) refl

  write_entry-same :
      (entry : LogEntry) (st : Writing)
      → st.last ≡ entry.m_time
      → write_entry osm name_of entry st ≡ record st { data' = st.data' ++ line osm entry }
  unfolding write_entry append_to
  write_entry-same entry st e = rw ((eq_ℤ_iff st.last entry.m_time).1 e) refl

  write_entry-new :
      (entry : LogEntry) (st : Writing)
      → st.last ≢ entry.m_time
      → st.last ≢ pos 0
      → write_entry osm name_of entry st ≡ record {
        last = entry.m_time;
        file_name = name_of entry.m_time;
        data' = line osm entry;
        written = st.written ++ (st.file_name, st.data') ∷ [];
      }
  unfolding write_entry append_to
  write_entry-new entry st h k = rw (eq_ℤ_no st.last entry.m_time h, eq_ℤ_no st.last (pos 0) k) refl

  -- Within a run whose entries up to `entry` are in the data.
  abbrev within : LogEntry → Bytes → List (Bytes × Bytes) → Writing
  within entry d written = record {
    last = entry.m_time;
    file_name = name_of entry.m_time;
    data' = d ++ line osm entry;
    written = written;
  }

  write_entry-first :
      (entry : LogEntry)
      → entry.m_time ≢ pos 0
      → write_entry osm name_of entry nothing_written ≡ within entry [] []
  unfolding write_entry append_to
  write_entry-first entry h = rw (eq_ℤ_no (pos 0) entry.m_time (λ e. h (sym e))) refl

  write_entries-within :
      (entry : LogEntry) (entries : List LogEntry) (d : Bytes) (written : List (Bytes × Bytes))
      → entry.m_time ≢ pos 0
      → All (λ e. e.m_time ≢ pos 0) entries
      → (write_entries osm name_of entries (within entry d written)).written
        ≡ written ++ before d (files (runs_from entry entries))
  unfolding write_entries
  write_entries-within entry [] d written h hs = rw (append-nil (line osm entry)) refl
  write_entries-within entry (next ∷ entries) d written h hs =
      elim (Bool-cases (eq_ℤ entry.m_time next.m_time)) [
        | inl same ↦
            let t : entry.m_time ≡ next.m_time = (eq_ℤ_iff entry.m_time next.m_time).0 same in
            rw same (
              ap (λ (st : Writing). (write_entries osm name_of entries st).written)
                (write_entry-same next (within entry d written) t ∙ rw t refl)
              ∙ write_entries-within next entries (d ++ line osm entry) written hs.0 hs.1
              ∙ ap (λ fs. written ++ fs) (before-push d entry (runs_from next entries)))
        | inr other ↦
            let t : entry.m_time ≢ next.m_time =
              λ e. cc (other, (eq_ℤ_iff entry.m_time next.m_time).1 e) in
            rw (other, append-nil (line osm entry))
              (ap (λ (st : Writing). (write_entries osm name_of entries st).written)
                  (write_entry-new next (within entry d written) t h)
                ∙ write_entries-within next entries []
                    (written ++ (name_of entry.m_time, d ++ line osm entry) ∷ []) hs.0 hs.1
                ∙ rw (before_nil (files (runs_from next entries)), append_assoc written) refl)
      ]

  -- If there are entries and none has the time 0, the loop writes one file for each run of entries
  -- of one time, in order, with the name for that time and the lines of exactly those entries.
  pub write_entries_lem :
      (entry : LogEntry) (entries : List LogEntry)
      → All (λ e. e.m_time ≢ pos 0) (entry ∷ entries)
      → (write_entries osm name_of (entry ∷ entries) nothing_written).written
        ≡ files (runs_from entry entries)
  unfolding write_entries
  write_entries_lem entry entries h =
      ap (λ (st : Writing). (write_entries osm name_of entries st).written)
        (write_entry-first entry h.0)
      ∙ write_entries-within entry entries [] [] h.0 h.1
      ∙ before_nil (files (runs_from entry entries))
