-- ===== src/Io.antt =====
-- Files, directories and the PID file (src/io.hpp, src/io.cpp). The text that the system adds to a
-- message, and the messages of libosmium, are left out.
pub mod Rules
pub mod Create
pub mod Lock
pub mod Refused
use osmdbt_pgoutput.Base.{ℕ, Bool, true, false, [], ◌∷◌, ◌++◌, if◌then◌else◌, Bytes, codes}
use osmdbt_pgoutput.Base.Result.{ok, throws, Exception, Result, runtime_error, system_error}
use osmdbt_pgoutput.Cstd.{to_string}
use osmdbt_pgoutput.Posix.{Fd, opened, exists, denied, System}
use osmdbt_pgoutput.Posix.Program.{
  Outcome, Program, pure, lift, call, after, ◌>>=◌, ◌>>◌, raise, attempt, ensure,
}

abbrev pub dir_error : Bytes → Bytes → Exception
dir_error what dir_name =
    system_error (what ++ (codes " output directory failed for '" ++ (dir_name ++ codes "'")))

-- What a descriptor that is not open means for the PID file.
unfoldable pub check_pid_fd : Bytes → Bytes → Fd → Result (Unit {0})
check_pid_fd path name (opened _) = ok tt
check_pid_fd path name exists = throws (
    runtime_error (
      codes "pid file '"
      ++ (path ++ (codes "' exists. Is another " ++ (name ++ codes " process running?")))))
check_pid_fd path name denied =
    throws (runtime_error (codes "Can not create pid file '" ++ (path ++ codes "'.")))

abbrev pub pid_path : Bytes → Bytes → Bytes
pid_path dir name = dir ++ (name ++ codes ".pid")

module _ (sys : System) where
  unfoldable pub rename_file : Bytes → Bytes → Program sys.World (Unit {0})
  rename_file old_name new_name = attempt (sys.rename old_name new_name) (
      system_error
        (codes "Renaming '" ++ (old_name ++ (codes "' to '" ++ (new_name ++ codes "' failed.")))))

  unfoldable pub sync_dir : Bytes → Program sys.World (Unit {0})
  sync_dir dir_name = do
    attempt (sys.open_dir dir_name) (dir_error (codes "Opening") dir_name)
    attempt (sys.fsync_dir dir_name) (dir_error (codes "Syncing") dir_name)
    attempt (sys.close_dir dir_name) (dir_error (codes "Closing") dir_name)

  unfoldable pub excl_write_open : Bytes → Program sys.World Fd
  excl_write_open file_name = call (sys.open_excl file_name)

  -- `reliable_write`, `reliable_fsync` and `reliable_close`, which throw where the call fails.
  unfoldable pub reliable_write : Fd → Bytes → Program sys.World (Unit {0})
  reliable_write fd text = attempt (sys.write fd text) (system_error [])

  unfoldable pub reliable_fsync : Fd → Program sys.World (Unit {0})
  reliable_fsync fd = attempt (sys.fsync fd) (system_error [])

  unfoldable pub reliable_close : Fd → Program sys.World (Unit {0})
  reliable_close fd = attempt (sys.close fd) (system_error [])

  -- The constructor behind its test of the directory.
  unfoldable pub create_pid_file : Bytes → Bytes → Program sys.World Bytes
  unfolding excl_write_open check_pid_fd reliable_write reliable_close
  create_pid_file path name = do
    fd ← excl_write_open path
    lift (check_pid_fd path name fd)
    reliable_write fd (to_string sys.getpid ++ b'\n' ∷ [])
    reliable_close fd
    pure path

  -- The constructor of `PIDFile`; the result is `m_path`.
  unfoldable pub pid_file : Bytes → Bytes → Program sys.World Bytes
  unfolding create_pid_file
  pid_file [] name = pure []
  pid_file (c ∷ dir) name = create_pid_file (pid_path (c ∷ dir) name) name

  -- The destructor.
  unfoldable pub release_pid_file : Bytes → sys.World → sys.World
  release_pid_file [] w = w
  release_pid_file (c ∷ m_path) w = sys.unlink (c ∷ m_path) w
