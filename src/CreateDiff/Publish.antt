-- ===== src/CreateDiff/Publish.antt =====
-- How a diff is made public: the state, the lock file and the moves of the files
-- (src/osmdbt-create-diff.cpp, src/state.cpp). The messages of `std::filesystem` are left out.
use osmdbt_pgoutput.Base.{ℕ, Bool, Option, List, [], ◌∷◌, ◌++◌, if◌then◌else◌, Bytes, codes}
use osmdbt_pgoutput.Base.Result.{Result, ok, throws, runtime_error, system_error}
use osmdbt_pgoutput.Cstd.{to_string}
use osmdbt_pgoutput.Osmium.{Timestamps}
use osmdbt_pgoutput.Posix.{Fd, opened, exists, denied, System}
use osmdbt_pgoutput.Posix.Program.{Program, pure, lift, call, attempt, ◌>>=◌, ◌>>◌}
use osmdbt_pgoutput.Io.{rename_file, sync_dir, excl_write_open, reliable_write, reliable_close}
use osmdbt_pgoutput.Config.{Config}
use osmdbt_pgoutput.State.{State, dir1_path, dir2_path, osc_path, state_path}
use osmdbt_pgoutput.State.Write.{write}

unfoldable pub check_lock_fd : Bytes → Fd → Result (Unit {0})
check_lock_fd path (opened name) = ok tt
check_lock_fd path exists =
    throws
      (runtime_error (codes "Lock file '" ++ (path ++ codes "' exists. Need sysadmin cleanup.")))
check_lock_fd path denied =
    throws (runtime_error (codes "Can not create lock file '" ++ (path ++ codes "'.")))

unfoldable pub log_lines : List Bytes → Bytes
log_lines [] = []
log_lines (file ∷ log_files) = file ++ (b'\n' ∷ log_lines log_files)

-- What is written into the lock file.
abbrev pub lock_text : ℕ → ℕ → List Bytes → Bytes
lock_text pid sequence_number log_files =
    codes
      "# If this file is left around osmdbt-create-diff crashed in a criticial section.\n# Check log, diff, and state files and clean up.\n"
    ++ (codes "osmdbt-create-diff-pid="
        ++ (to_string pid
            ++ (codes "\nnew-state="
                ++ (to_string sequence_number ++ (codes "\nlog-files:\n" ++ log_lines log_files)))))

abbrev pub lock_file_path : Config → Bytes
lock_file_path config = config.m_tmp_dir ++ codes "osmdbt-create-diff.lock"

abbrev pub log_name : Config → Bytes → Bytes
log_name config log_file = config.m_log_dir ++ log_file

abbrev pub done_name : Config → Bytes → Bytes
done_name config log_file = config.m_log_dir ++ (log_file ++ codes ".done")

module _ (sys : System) where
  unfoldable pub write_lock_file : Bytes → ℕ → List Bytes → Program sys.World (Unit {0})
  unfolding check_lock_fd
  write_lock_file path sequence_number log_files = do
    fd ← excl_write_open sys path
    lift (check_lock_fd path fd)
    reliable_write sys fd (lock_text sys.getpid sequence_number log_files)
    reliable_close sys fd

  -- `std::filesystem::rename`.
  abbrev pub move : Bytes → Bytes → Program sys.World (Unit {0})
  move old new = attempt (sys.rename old new) (system_error [])

  -- The loop over the log files that were read.
  unfoldable pub rename_log_files : Config → List Bytes → Program sys.World (Unit {0})
  rename_log_files config [] = pure tt
  rename_log_files config (log_file ∷ read_log_files) = do
    rename_file sys (log_name config log_file) (done_name config log_file)
    rename_log_files config read_log_files

  module _ (config : Config) (sequence_number : ℕ) (read_log_files : List Bytes) where
    -- The diff and the state file, into their directory.
    unfoldable pub move_diff : Program sys.World (Unit {0})
    unfolding sync_dir
    move_diff = do
      dir2 ← lift (dir2_path sequence_number)
      attempt (sys.create_directories (config.m_changes_dir ++ dir2)) (system_error [])
      osc ← lift (osc_path sequence_number)
      move (config.m_tmp_dir ++ codes "new-change.osc.gz")
          (config.m_changes_dir ++ (osc ++ codes ".gz"))
      state ← lift (state_path sequence_number)
      move (config.m_tmp_dir ++ codes "new-state.txt") (config.m_changes_dir ++ state)
      sync_dir sys (config.m_changes_dir ++ dir2)
      dir1 ← lift (dir1_path sequence_number)
      sync_dir sys (config.m_changes_dir ++ dir1)

    -- What `app` does if it is no dry run.
    unfoldable pub publish : Program sys.World (Unit {0})
    unfolding move_diff write_lock_file rename_log_files
    publish = do
      write_lock_file (lock_file_path config) sequence_number read_log_files
      sync_dir sys config.m_tmp_dir
      move_diff
      move (config.m_tmp_dir ++ codes "new-state.txt.copy")
          (config.m_changes_dir ++ codes "state.txt")
      sync_dir sys config.m_changes_dir
      rename_log_files config read_log_files
      sync_dir sys config.m_log_dir
      call (λ w. (tt, sys.unlink (lock_file_path config) w))
      sync_dir sys config.m_tmp_dir

  -- The end of `app`: the state is written twice, and the files are moved if it is no dry run.
  unfoldable pub finish :
      (ts : Timestamps)
      → Config
      → State ts
      → Option Bytes
      → Bool
      → List Bytes
      → Program sys.World (Unit {0})
  unfolding publish
  finish ts config state comment dry_run read_log_files = do
    write sys ts state (config.m_tmp_dir ++ codes "new-state.txt") comment
    write sys ts state (config.m_tmp_dir ++ codes "new-state.txt.copy") comment
    if dry_run then pure tt else publish config state.m_sequence_number read_log_files
