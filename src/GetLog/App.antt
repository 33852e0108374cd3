-- ===== src/GetLog/App.antt =====
-- The rest of `osmdbt-get-log` around the loop over the rows (src/osmdbt-get-log.cpp).
use osmdbt_pgoutput.Base.{
  ℕ, ◌≡◌, refl, ◌⊎◌, inl, inr, Bool, true, List, [], ◌∷◌, ◌++◌, ◌==◌, if◌then◌else◌, Bytes, codes,
}
use osmdbt_pgoutput.Base.Result.{Result, ok, throws, fault, Exception, runtime_error}
use osmdbt_pgoutput.Cstd.{to_string}
use osmdbt_pgoutput.Lsn.{parse, str}
use osmdbt_pgoutput.Osmium.{Timestamps}
use osmdbt_pgoutput.Posix.{System, IsPosix}
use osmdbt_pgoutput.Posix.Program.{Program, pure, lift, after, attempt, ensure, ◌>>=◌, ◌>>◌}
use osmdbt_pgoutput.Posix.Meets.{Post}
use osmdbt_pgoutput.Io.{pid_file, release_pid_file}
use osmdbt_pgoutput.Util.{create_replication_log_name, write_data_to_file}
use osmdbt_pgoutput.Util.Whole.{IsWritten}
use osmdbt_pgoutput.Util.Atomic.{write_data_to_file_lem}
use osmdbt_pgoutput.Config.{Config}
use osmdbt_pgoutput.Db.{Database, get_db_version, catchup_to_lsn}
use osmdbt_pgoutput.GetLog.{Row, Log, process_rows, empty_log, lsn_dash}

-- The text of the query; 0 is no limit.
unfoldable pub select : ℕ → Bytes
select max_changes =
    codes
      "SELECT lsn, xid, encode(data, 'hex') as data FROM pg_logical_slot_peek_binary_changes($1, NULL, "
    ++ ((if max_changes == 0 then codes "NULL" else to_string max_changes)
        ++ codes ", 'proto_version', '1', 'publication_names', $2);")

-- What follows is not reached, or it starts where the first part has returned.
after_lem :
    {W : Type 0} (Q : W → Type 0) (passed : List W) (world : W) (r : Result (Unit {0}))
    (next : Program W (Unit {0}))
    → Post Unit (λ _. Q) r world
    → ((e : Exception) × ((after passed world r (λ _. next)).result ≡ throws e)
        × ((after passed world r (λ _. next)).world ≡ world))
      ⊎ ((v : W) × Q v
          × ((after passed world r (λ _. next)).result ≡ (next v).result)
          × ((after passed world r (λ _. next)).world ≡ (next v).world))
after_lem Q passed world (ok u) next q = inr (world, q, refl, refl)
after_lem Q passed world (throws e) next q = inl (e, refl, refl)
after_lem Q passed world fault next q = absurd q

module _ (sys : System) (db : Database sys.World) (ts : Timestamps) (config : Config)
    (now : ts.Timestamp) where
  abbrev pub log_file_name : Log → Bytes
  log_file_name log = create_replication_log_name ts (lsn_dash log.lsn) now

  unfoldable pub store_log : Log → Program sys.World (Unit {0})
  unfolding write_data_to_file
  store_log log =
      if log.has_actual_data
      then write_data_to_file sys log.text config.m_log_dir (log_file_name log)
      else pure tt

  unfoldable pub advance_slot : Bool → Log → Program sys.World (Unit {0})
  unfolding catchup_to_lsn
  advance_slot catchup log =
      if catchup
      then (do
        lsn ← lift (parse log.lsn)
        catchup_to_lsn db config.m_replication_slot (str lsn)
        attempt db.commit (runtime_error []))
      else pure tt

  unfoldable pub finish_log : Bool → Log → Program sys.World (Unit {0})
  unfolding store_log advance_slot
  finish_log catchup log = do store_log log; advance_slot catchup log

  -- Behind the query, whose result is the list of rows.
  unfoldable pub run : Bool → List Row → Program sys.World Bool
  unfolding finish_log
  run catchup [] = do _ ← lift (get_db_version db.version); pure true
  run catchup (row ∷ rows) = do
    _ ← lift (get_db_version db.version)
    log ← lift (process_rows (row ∷ rows) empty_log)
    finish_log catchup log
    pure true

  unfoldable pub app : Bool → List Row → Program sys.World Bool
  unfolding run pid_file release_pid_file
  app catchup rows = do
    m_path ← pid_file sys config.m_run_dir (codes "osmdbt-log")
    ensure (run catchup rows) (release_pid_file sys m_path)

  -- How a run of the two parts ends.
  abbrev pub IsStored : Bool → Log → sys.World → Type 0
  IsStored catchup log w =
      ((e : Exception) × ((finish_log catchup log w).result ≡ throws e)
        × ((finish_log catchup log w).world
            ≡ (write_data_to_file sys log.text config.m_log_dir (log_file_name log) w).world))
      ⊎ ((v : sys.World) × IsWritten (config.m_log_dir ++ log_file_name log) log.text (sys.disk w)
            (sys.disk v)
          × ((finish_log catchup log w).result ≡ (advance_slot catchup log v).result)
          × ((finish_log catchup log w).world ≡ (advance_slot catchup log v).world))

  module _ (posix : IsPosix sys) where
    -- If there are actual data, the slot is advanced only when the log is complete: either the run
    -- ends with the exception of `write_data_to_file`, in the state of the machine that this leaves, or
    -- what is left is to advance the slot, from a state in which the log file has the whole text.
    pub finish_log_lem :
        (catchup : Bool) (log : Log) (w : sys.World)
        → log.has_actual_data ≡ true
        → IsStored catchup log w
    unfolding finish_log store_log
    finish_log_lem catchup log w has =
        let stored = write_data_to_file sys log.text config.m_log_dir (log_file_name log) w in
        rw has (
          after_lem
            (λ v.
              IsWritten (config.m_log_dir ++ log_file_name log) log.text (sys.disk w) (sys.disk v))
            stored.passed stored.world stored.result (advance_slot catchup log)
            (write_data_to_file_lem sys posix log.text config.m_log_dir (log_file_name log) w).1)
