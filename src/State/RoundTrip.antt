-- ===== src/State/RoundTrip.antt =====
-- The reading of the text that `to_string` gives for a state.
use osmdbt_pgoutput.Base.{
  ℕ, ◌<◌, ◌≡◌, ◌≢◌, refl, sym, ap, ◌∙◌, false, Option, none, some, [], ◌∷◌, ◌++◌, append_assoc,
  append-nil, arith, Bytes, codes, Lacks, All-append, Bool-cases, inl, inr, ◌==◌, equal,
}
use osmdbt_pgoutput.Base.Result.{ok}
use osmdbt_pgoutput.Cstd.{u64_mod, strtoull, to_string, lines, digit_value}
use osmdbt_pgoutput.Cstd.RoundTrip.{strtoull-to_string}
use osmdbt_pgoutput.Cstd.Lines.{lines-line, to_string-Lacks}
use osmdbt_pgoutput.Osmium.{Timestamps, IsIso, Objects, IsOsm}
use osmdbt_pgoutput.State.{
  remove_backslash, escape, comment_line, State, state_text, read_value, read_line, read_lines,
  check, read_state,
}

remove_backslash-escape : (s : Bytes) → Lacks b'\\' s → remove_backslash (escape s) ≡ s
unfolding remove_backslash escape
remove_backslash-escape [] h = refl
remove_backslash-escape (c ∷ s) h =
    let ih = remove_backslash-escape s h.1 in
    elim (Bool-cases (c == b':')) [
      | inl e ↦ rw (e, ih) (ground arith)
      | inr e ↦ rw (e, ih) (ground arith)
    ]

escape-Lacks : (c : ℕ) (s : Bytes) → b'\\' ≢ c → Lacks c s → Lacks c (escape s)
unfolding escape
escape-Lacks c [] h k = tt
escape-Lacks c (d ∷ s) h k =
    let ih = escape-Lacks c s h k.1 in
    elim (Bool-cases (d == b':')) [ inl e ↦ rw e (h, (k.0, ih)) | inr e ↦ rw e (k.0, ih) ]

strtoull-number : (n : ℕ) → n < u64_mod → strtoull 10 (to_string n) ≡ (n, [])
unfolding digit_value
strtoull-number n h =
    ap (strtoull 10) (sym (append-nil (to_string n)))
    ∙ strtoull-to_string n [] h (refl, omega arith, omega arith)

-- The date for the comment is of one line.
abbrev pub IsDate : Option Bytes → Type 0
IsDate none = Unit
IsDate (some date) = Lacks b'\n' date

commented :
    (date rest : Bytes)
    → Lacks b'\n' date
    → lines (comment_line (some date) ++ rest) ≡ (b'#' ∷ date) ∷ lines rest
commented date rest d =
    ap (λ s. lines (b'#' ∷ s)) (append_assoc date (b'\n' ∷ []) rest)
    ∙ lines-line (b'#' ∷ date) rest (omega arith, d)

module _ (ts : Timestamps) (iso : IsIso ts) (osm : Objects) (known : IsOsm osm)
    (filename : Bytes) where
  read_line-sequence_number :
      (n : ℕ) (st : State ts)
      → n < u64_mod
      → read_line ts osm filename (codes "sequenceNumber=" ++ to_string n) st
        ≡ ok (record st { m_sequence_number = n })
  unfolding read_line read_value equal digit_value
  read_line-sequence_number n st h =
      rw
        (
          known.splits b'=' b's' (codes "equenceNumber") (to_string n ∷ [])
              (ground arith, (to_string-Lacks b'=' n refl, tt)),
          strtoull-number n h,
        )
        refl

  read_line-timestamp :
      (t : ts.Timestamp) (st : State ts)
      → read_line ts osm filename (codes "timestamp=" ++ escape (ts.to_iso_all t)) st
        ≡ ok (record st { m_timestamp = t })
  unfolding read_line read_value equal
  read_line-timestamp t st =
      rw
        (
          known.splits b'=' b't' (codes "imestamp") (escape (ts.to_iso_all t) ∷ []) (
            ground arith,
            (escape-Lacks b'=' (ts.to_iso_all t) (omega arith) (iso.no_equals t), tt),
          ),
          remove_backslash-escape (ts.to_iso_all t) (iso.no_backslash t),
          iso.reads_iso t,
        )
        refl

  read_line-comment :
      (date : Bytes) (st : State ts) → read_line ts osm filename (b'#' ∷ date) st ≡ ok st
  unfolding read_line
  read_line-comment date st = refl

  two_lines :
      (n : ℕ) (t : ts.Timestamp)
      → lines (
          codes "sequenceNumber="
          ++ (to_string n
              ++ (b'\n' ∷ (codes "timestamp=" ++ (escape (ts.to_iso_all t) ++ b'\n' ∷ [])))))
        ≡ (codes "sequenceNumber=" ++ to_string n)
          ∷ (codes "timestamp=" ++ escape (ts.to_iso_all t))
          ∷ []
  unfolding digit_value
  two_lines n t =
      lines-line (codes "sequenceNumber=" ++ to_string n) _ (
        All-append (λ c. c ≢ b'\n') (codes "sequenceNumber=") (to_string n) (ground arith)
          (to_string-Lacks b'\n' n refl))
      ∙ ap (◌∷◌ (codes "sequenceNumber=" ++ to_string n)) (
          lines-line (codes "timestamp=" ++ escape (ts.to_iso_all t)) [] (
            All-append (λ c. c ≢ b'\n') (codes "timestamp=") (escape (ts.to_iso_all t))
              (ground arith)
              (escape-Lacks b'\n' (ts.to_iso_all t) (omega arith) (iso.no_newline t)))
          ∙ unfold lines in refl)

  read_both :
      (st st' : State ts)
      → st.m_sequence_number < u64_mod
      → read_lines ts osm filename
          ((codes "sequenceNumber=" ++ to_string st.m_sequence_number)
            ∷ (codes "timestamp=" ++ escape (ts.to_iso_all st.m_timestamp))
            ∷ [])
          st'
        ≡ ok st
  unfolding read_lines
  read_both st st' h = rw (read_line-sequence_number st.m_sequence_number st' h) (
      rw
        (read_line-timestamp st.m_timestamp
          (record st' { m_sequence_number = st.m_sequence_number }))
        refl)

  read_all :
      (st st' : State ts) (comment : Option Bytes)
      → st.m_sequence_number < u64_mod
      → IsDate comment
      → read_lines ts osm filename (lines (state_text ts st comment)) st' ≡ ok st
  unfolding state_text read_lines read_line
  read_all st st' none h d =
      ap (λ ls. read_lines ts osm filename ls st') (two_lines st.m_sequence_number st.m_timestamp)
      ∙ read_both st st' h
  read_all st st' (some date) h d =
      ap (λ ls. read_lines ts osm filename ls st')
        (commented date
            (codes "sequenceNumber="
              ++ (to_string st.m_sequence_number
                  ++ (b'\n'
                      ∷ (codes "timestamp="
                          ++ (escape (ts.to_iso_all st.m_timestamp) ++ b'\n' ∷ [])))))
            d
          ∙ ap (◌∷◌ (b'#' ∷ date)) (two_lines st.m_sequence_number st.m_timestamp))
      ∙ read_both st st' h

  -- Where the functions of libosmium behave as documented: the file that `to_string` gives for a
  -- state, with or without the comment, is read back as that state, if the sequence number is not 0
  -- and fits 64 bits and the timestamp is not the unset one.
  pub read_state-state_text :
      (st : State ts) (comment : Option Bytes)
      → IsDate comment
      → 0 < st.m_sequence_number
      → st.m_sequence_number < u64_mod
      → ts.same st.m_timestamp ts.unset ≡ false
      → read_state ts osm filename (some (state_text ts st comment)) ≡ ok st
  unfolding read_state check
  read_state-state_text st comment d low high set =
      let some_number : (st.m_sequence_number == 0) ≡ false = ground arith in
      rw
        (
          read_all st (record { m_sequence_number = 0; m_timestamp = ts.unset }) comment high d,
          some_number,
          set,
        )
        refl
