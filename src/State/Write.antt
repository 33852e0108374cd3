-- ===== src/State/Write.antt =====
-- `State::write`: the file of a state is created and written.
use osmdbt_pgoutput.Base.{Option, ◌++◌, Bytes, codes}
use osmdbt_pgoutput.Base.Result.{Result, ok, throws, system_error}
use osmdbt_pgoutput.Osmium.{Timestamps}
use osmdbt_pgoutput.Posix.{Fd, opened, exists, denied, System}
use osmdbt_pgoutput.Posix.Program.{Program, lift, ◌>>=◌, ◌>>◌}
use osmdbt_pgoutput.Io.{excl_write_open, reliable_write, reliable_fsync, reliable_close}
use osmdbt_pgoutput.State.{State, state_text}

unfoldable pub check_state_fd : Bytes → Fd → Result (Unit {0})
check_state_fd filename (opened name) = ok tt
check_state_fd filename exists =
    throws (system_error (codes "Can not create state file '" ++ (filename ++ codes "'.")))
check_state_fd filename denied =
    throws (system_error (codes "Can not create state file '" ++ (filename ++ codes "'.")))

unfoldable pub write :
    (sys : System) (ts : Timestamps)
    → State ts
    → Bytes
    → Option Bytes
    → Program sys.World (Unit {0})
unfolding check_state_fd
write sys ts st filename comment = do
  let content = state_text ts st comment
  fd ← excl_write_open sys filename
  lift (check_state_fd filename fd)
  reliable_write sys fd content
  reliable_fsync sys fd
  reliable_close sys fd
