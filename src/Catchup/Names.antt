-- ===== src/Catchup/Names.antt =====
-- What `get_lsn` makes of the files that the programs put into the log directory
-- (src/osmdbt-catchup.cpp).
use osmdbt_pgoutput.Base.{◌≡◌, refl, List, [], ◌∷◌, ◌++◌, map, if◌then◌else◌, codes, All}
use osmdbt_pgoutput.Base.Result.{Result, ok, throws, runtime_error}
use osmdbt_pgoutput.Osmium.{Timestamps}
use osmdbt_pgoutput.Lsn.{LsnType, no_lsn, less, str}
use osmdbt_pgoutput.GetLog.{lsn_dash}
use osmdbt_pgoutput.GetLog.Dashes.{parse-dash}
use osmdbt_pgoutput.Util.{create_replication_log_name}
use osmdbt_pgoutput.LogNames.Entries.{
  Entry, complete, faked, in_progress, done, name_of, IsNamed, is_log-create_replication_log_name,
  is_log-tmp_name, is_log-done, match_lsn-complete, match_lsn-faked,
}
use osmdbt_pgoutput.Catchup.{visit_log, visit_files, get_lsn}

module _ (ts : Timestamps) where
  -- The greatest of an LSN and those of the logs, up to a log of `osmdbt-fake-log`, which has none.
  abbrev pub greatest : List (Entry ts) → LsnType → Result LsnType
  greatest [] lsn = ok lsn
  greatest (complete l now ∷ es) lsn = greatest es (if less lsn l then l else lsn)
  greatest (faked minute now ∷ es) lsn = throws (
      runtime_error (
        codes "Invalid log file format: '"
        ++ (create_replication_log_name ts minute now ++ codes "'")))
  greatest (in_progress name ∷ es) lsn = greatest es lsn
  greatest (done name ∷ es) lsn = greatest es lsn

  visit_files-name_of :
      (es : List (Entry ts)) (lsn : LsnType)
      → All (IsNamed ts) es
      → visit_files (map (name_of ts) es) lsn ≡ greatest es lsn
  unfolding visit_files visit_log
  visit_files-name_of [] lsn h = refl
  visit_files-name_of (complete l now ∷ es) lsn h =
      rw
        (
          is_log-create_replication_log_name ts (lsn_dash (str l)) now,
          match_lsn-complete ts l now h.0,
          parse-dash l h.0.0,
        )
        (visit_files-name_of es (if less lsn l then l else lsn) h.1)
  visit_files-name_of (faked minute now ∷ es) lsn h =
      rw (is_log-create_replication_log_name ts minute now, match_lsn-faked ts minute now h.0) refl
  visit_files-name_of (in_progress name ∷ es) lsn h =
      rw (is_log-tmp_name ts name) (visit_files-name_of es lsn h.1)
  visit_files-name_of (done name ∷ es) lsn h =
      rw (is_log-done ts name) (visit_files-name_of es lsn h.1)

  -- In a directory with logs of `osmdbt-get-log`, named with LSNs of 64 bits, logs of
  -- `osmdbt-fake-log`, files that are still written and logs that have been read, `get_lsn` returns
  -- the greatest LSN of the logs, or 0 if there is none; if a log of `osmdbt-fake-log` is among the
  -- files, it throws the error that names the first of these, instead.
  pub get_lsn-name_of :
      (es : List (Entry ts))
      → All (IsNamed ts) es
      → get_lsn (map (name_of ts) es) ≡ greatest es no_lsn
  unfolding get_lsn
  get_lsn-name_of es h = visit_files-name_of es no_lsn h
