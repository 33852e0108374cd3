-- ===== src/State.antt =====
-- The state of the replication diffs and its file (src/state.hpp, src/state.cpp). A file is its
-- content, or `none` if it cannot be opened.
pub mod RoundTrip
pub mod Paths
pub mod Write
pub mod Written
use osmdbt_pgoutput.Base.{
  ℕ, ◌+◌, ◌-◌, Bool, true, false, not, ◌||◌, Option, none, some, List, [], ◌∷◌, ◌++◌, ltb, ◌==◌,
  if◌then◌else◌, Bytes, codes, equal, length, take, drop,
}
use osmdbt_pgoutput.Base.Result.{
  Result, ok, throws, runtime_error, system_error, invalid_argument, ◌>>=◌, ◌>>◌, throws_if,
  asserts,
}
use osmdbt_pgoutput.Cstd.{peek, strtoull, to_string, to_padded, snprintf, lines}
use osmdbt_pgoutput.Osmium.{Timestamps, Objects}

-- `remove_backslash`.
unfoldable pub remove_backslash : Bytes → Bytes
remove_backslash [] = []
remove_backslash (c ∷ s) = let out = remove_backslash s in if c == b'\\' then out else c ∷ out

-- The loop of `to_string` over the characters of the timestamp.
unfoldable pub escape : Bytes → Bytes
escape [] = []
escape (c ∷ s) = if c == b':' then b'\\' ∷ c ∷ escape s else c ∷ escape s

-- The line for `comment_timestamp`, if it is positive, by the date that `strftime` gives.
abbrev pub comment_line : Option Bytes → Bytes
comment_line none = []
comment_line (some date) = b'#' ∷ (date ++ b'\n' ∷ [])

-- `path`, behind the `snprintf`.
abbrev pub with_slashes : Bytes → Bytes
with_slashes path = take 3 path ++ (b'/' ∷ (take 3 (drop 3 path) ++ (b'/' ∷ drop 6 path)))

unfoldable pub path : ℕ → Result Bytes
path m_sequence_number = do
  let num = to_padded 9 m_sequence_number
  asserts (length num == 9)
  ok (with_slashes (snprintf 10 num))

unfoldable pub state_path : ℕ → Result Bytes
unfolding path
state_path m_sequence_number = do p ← path m_sequence_number; ok (p ++ codes ".state.txt")

unfoldable pub osc_path : ℕ → Result Bytes
unfolding path
osc_path m_sequence_number = do p ← path m_sequence_number; ok (p ++ codes ".osc")

unfoldable pub dir1_path : ℕ → Result Bytes
unfolding path
dir1_path m_sequence_number = do p ← path m_sequence_number; asserts (length p == 11); ok (take 3 p)

unfoldable pub dir2_path : ℕ → Result Bytes
unfolding path
dir2_path m_sequence_number = do
  p ← path m_sequence_number
  asserts (length p == 11)
  ok (take (length p - 4) p)

module _ (ts : Timestamps) where
  pub record State : Type 0 where
    pub m_sequence_number : ℕ
    pub m_timestamp : ts.Timestamp

  -- `next`, with its assertion.
  unfoldable pub next : State → ts.Timestamp → Result State
  next st timestamp = do
    asserts (ltb st.m_sequence_number 999999999)
    ok (record { m_sequence_number = st.m_sequence_number + 1; m_timestamp = timestamp })

  -- The method `to_string`.
  unfoldable pub state_text : State → Option Bytes → Bytes
  unfolding escape
  state_text st comment =
      comment_line comment
      ++ (codes "sequenceNumber="
          ++ (to_string st.m_sequence_number
              ++ (b'\n'
                  ∷ (codes "timestamp=" ++ (escape (ts.to_iso_all st.m_timestamp) ++ b'\n' ∷ [])))))

  module _ (osm : Objects) (filename : Bytes) where
    -- The value of one of the two keys; others are passed over.
    unfoldable pub read_value : Bytes → Bytes → State → Result State
    unfolding remove_backslash
    read_value key value st =
        if equal key (codes "sequenceNumber")
        then (do
          let (m_sequence_number, end) = strtoull 10 value
          throws_if (not (length end == 0)) (
              runtime_error
                (codes "Invalid sequenceNumber in state file '" ++ (filename ++ codes "'")))
          ok (record st { m_sequence_number = m_sequence_number }))
        else (if equal key (codes "timestamp")
            then (elim (ts.of_iso (remove_backslash value)) [
              | none ↦ throws (invalid_argument [])
              | some t ↦ ok (record st { m_timestamp = t })
            ])
            else ok st)

    abbrev read_parts : List Bytes → State → Result State
    read_parts (key ∷ value ∷ []) st = read_value key value st
    read_parts _ st = ok st

    -- One round of the loop.
    unfoldable pub read_line : Bytes → State → Result State
    unfolding read_value
    read_line line st =
        if peek line == 0 || peek line == b'#'
        then ok st
        else read_parts (osm.split_string line b'=') st

    unfoldable pub read_lines : List Bytes → State → Result State
    unfolding read_line
    read_lines [] st = ok st
    read_lines (line ∷ rest) st = do st' ← read_line line st; read_lines rest st'

    -- The tests behind the loop.
    unfoldable pub check : State → Result State
    check st = do
      throws_if (st.m_sequence_number == 0) (
          runtime_error (codes "Missing sequenceNumber in state file '" ++ (filename ++ codes "'")))
      throws_if (ts.same st.m_timestamp ts.unset)
          (runtime_error (codes "Missing timestamp in state file '" ++ (filename ++ codes "'")))
      ok st

    -- The constructor from a file.
    unfoldable pub read_state : Option Bytes → Result State
    unfolding read_lines check
    read_state none =
        throws (system_error (codes "Could not open state file '" ++ (filename ++ codes "'")))
    read_state (some statefile) = do
      st ← read_lines (lines statefile) (record { m_sequence_number = 0; m_timestamp = ts.unset })
      check st
