-- ===== src/CreateDiff/NextState.antt =====
-- The state of a new diff (src/osmdbt-create-diff.cpp, `get_state`).
use osmdbt_pgoutput.Base.{ℕ, Option, none, some, ◌++◌, ◌==◌, if◌then◌else◌, Bytes, codes}
use osmdbt_pgoutput.Base.Result.{Result, ok, throws, runtime_error, ◌>>=◌}
use osmdbt_pgoutput.Osmium.{Timestamps, Objects}
use osmdbt_pgoutput.Config.{Config}
use osmdbt_pgoutput.State.{State, next, read_state}

-- The state after the one in the file.
abbrev next_state : (ts : Timestamps) → Objects → Config → ts.Timestamp → Bytes → Result (State ts)
next_state ts osm config timestamp content = do
  state ← read_state ts osm (config.m_changes_dir ++ codes "state.txt") (some content)
  next ts state timestamp

-- The state of the new diff, from the content of the present state file, if there is one.
unfoldable pub get_state :
    (ts : Timestamps) → Objects → Config → ℕ → ts.Timestamp → Option Bytes → Result (State ts)
get_state ts osm config init_state timestamp state_file =
    if init_state == 0
    then (elim state_file [
      | none ↦ throws (
          runtime_error (
            codes "Missing state file: '"
            ++ ((config.m_changes_dir ++ codes "state.txt") ++ codes "'")))
      | some content ↦ next_state ts osm config timestamp content
    ])
    else ok (record { m_sequence_number = init_state; m_timestamp = timestamp })
