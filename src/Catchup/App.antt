-- ===== src/Catchup/App.antt =====
-- The rest of `osmdbt-catchup` (src/osmdbt-catchup.cpp).
use osmdbt_pgoutput.Base.{Bool, true, List, [], if◌then◌else◌, Bytes, codes}
use osmdbt_pgoutput.Base.Result.{Result, ok, runtime_error}
use osmdbt_pgoutput.Lsn.{LsnType, is_set, str}
use osmdbt_pgoutput.Posix.{System}
use osmdbt_pgoutput.Posix.Program.{Program, pure, lift, attempt, ensure, ◌>>=◌, ◌>>◌}
use osmdbt_pgoutput.Io.{pid_file, release_pid_file}
use osmdbt_pgoutput.Config.{Config}
use osmdbt_pgoutput.Db.{Database, get_db_version, catchup_to_lsn}
use osmdbt_pgoutput.Catchup.{get_lsn}

module _ (sys : System) (db : Database sys.World) (config : Config) where
  -- The LSN of the command line, or else the one of the log files.
  unfoldable pub choose_lsn : LsnType → List Bytes → Result LsnType
  unfolding is_set get_lsn
  choose_lsn option files = if is_set option then ok option else get_lsn files

  unfoldable pub catch_up : LsnType → Program sys.World Bool
  unfolding is_set catchup_to_lsn get_db_version
  catch_up lsn =
      if is_set lsn
      then (do
        _ ← lift (get_db_version db.version)
        catchup_to_lsn db config.m_replication_slot (str lsn)
        attempt db.commit (runtime_error [])
        pure true)
      else pure true

  unfoldable pub run : LsnType → List Bytes → Program sys.World Bool
  unfolding choose_lsn catch_up
  run option files = do lsn ← lift (choose_lsn option files); catch_up lsn

  unfoldable pub app : LsnType → List Bytes → Program sys.World Bool
  unfolding run pid_file release_pid_file
  app option files = do
    m_path ← pid_file sys config.m_run_dir (codes "osmdbt-log")
    ensure (run option files) (release_pid_file sys m_path)
