-- ===== src/Programs.antt =====
-- The programs that write log files or advance the slot, and their common PID file
-- (src/osmdbt-get-log.cpp, src/osmdbt-catchup.cpp, src/osmdbt-fake-log.cpp).
use osmdbt_pgoutput.Base.{Bool, ◌≡◌, ◌≢◌, some, List, [], Bytes, codes}
use osmdbt_pgoutput.Base.Int.{ℤ}
use osmdbt_pgoutput.Osmium.{Objects, Timestamps}
use osmdbt_pgoutput.Posix.{System, IsPosix}
use osmdbt_pgoutput.Io.{pid_path}
use osmdbt_pgoutput.Io.Refused.{IsRefused, pid_file-IsRefused}
use osmdbt_pgoutput.Config.{Config}
use osmdbt_pgoutput.Db.{Database}
use osmdbt_pgoutput.Lsn.{LsnType}
use osmdbt_pgoutput.GetLog
use osmdbt_pgoutput.GetLog.App as GetLogApp
use osmdbt_pgoutput.Catchup.App as CatchupApp
use osmdbt_pgoutput.FakeLog
use osmdbt_pgoutput.FakeLog.App as FakeLogApp

module _ (sys : System) (db : Database sys.World) (ts : Timestamps) (osm : Objects)
    (config : Config) where
  -- In a state of the machine, the run of each of the three programs is refused.
  abbrev pub AllRefused : sys.World → Type 0
  AllRefused w =
      ((now : ts.Timestamp) (catchup : Bool) (rows : List GetLog.Row)
        → IsRefused sys (pid_path config.m_run_dir (codes "osmdbt-log")) w
            (GetLogApp.app sys db ts config now catchup rows w))
      × ((lsn : LsnType) (files : List Bytes)
          → IsRefused sys (pid_path config.m_run_dir (codes "osmdbt-log")) w
              (CatchupApp.app sys db config lsn files w))
      × ((sort : List FakeLog.LogEntry → List FakeLog.LogEntry) (name_of : ℤ → Bytes)
            (logs version : List Bytes) (nodes ways relations : List FakeLog.Row)
          → IsRefused sys (pid_path config.m_run_dir (codes "osmdbt-log")) w
              (FakeLogApp.app sys osm sort name_of config logs version nodes ways relations w))

  -- For a system that does what its laws say: if a run directory is configured and has a file
  -- `osmdbt-log.pid`, then `osmdbt-get-log`, `osmdbt-catchup` and `osmdbt-fake-log` end with a
  -- `runtime_error`, whatever their arguments are, after the one call of `open` for this file, so the
  -- database is not asked for anything and all files stay as they are.
  pub app-AllRefused :
      IsPosix sys
      → (w : sys.World) (content : Bytes) → config.m_run_dir ≢ []
      → sys.disk w (pid_path config.m_run_dir (codes "osmdbt-log")) ≡ some content
      → AllRefused w
  unfolding GetLogApp.app CatchupApp.app FakeLogApp.app
  app-AllRefused posix w content used there = (
    λ now catchup rows.
        pid_file-IsRefused sys posix config.m_run_dir (codes "osmdbt-log") content _ w used there,
    λ lsn files.
        pid_file-IsRefused sys posix config.m_run_dir (codes "osmdbt-log") content _ w used there,
    λ sort name_of logs version nodes ways relations.
        pid_file-IsRefused sys posix config.m_run_dir (codes "osmdbt-log") content _ w used there,
  )
