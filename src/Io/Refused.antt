-- ===== src/Io/Refused.antt =====
-- The programs when their PID file is there (src/io.cpp).
use osmdbt_pgoutput.Base.{◌≡◌, ◌≢◌, refl, some, [], ◌∷◌, Bytes}
use osmdbt_pgoutput.Base.Result.{throws, runtime_error}
use osmdbt_pgoutput.Posix.{Fd, opened, exists, denied, System, IsPosix}
use osmdbt_pgoutput.Posix.Program.{Outcome, Program, ◌>>=◌}
use osmdbt_pgoutput.Io.{check_pid_fd, pid_path, pid_file}

-- The run calls `open` for the path and nothing else, ends with a `runtime_error`, and leaves all
-- files as they are.
pub record IsRefused (sys : System) (path : Bytes) (w : sys.World) {A : Type 0}
    (run : Outcome sys.World A) : Type 0 where
  pub throws_error : (message : Bytes) × (run.result ≡ throws (runtime_error message))
  pub opens_only : run.passed ≡ (sys.open_excl path w).1 ∷ []
  pub ends_there : run.world ≡ (sys.open_excl path w).1
  pub files_same : sys.disk run.world ≡ sys.disk w

module _ (sys : System) (posix : IsPosix sys) where
  pub not_opened :
      (path name : Bytes) (w : sys.World) (fd : Fd) {content : Bytes}
      → sys.disk w path ≡ some content
      → (sys.open_excl path w).0 ≡ fd
      → ((message : Bytes) × (check_pid_fd path name fd ≡ throws (runtime_error message)))
        × (sys.disk (sys.open_excl path w).1 ≡ sys.disk w)
  unfolding check_pid_fd
  not_opened path name w (opened other) there e =
      absurd (cc ((posix.opens path other w e).1, there))
  not_opened path name w exists there e = ((_, refl), posix.open_exists path w e)
  not_opened path name w denied there e = ((_, refl), posix.open_denied path w e)

  -- Whatever follows on the constructor of `PIDFile`.
  pub pid_file-IsRefused :
      {A : Type 0} (dir name content : Bytes) (next : Bytes → Program sys.World A) (w : sys.World)
      → dir ≢ []
      → sys.disk w (pid_path dir name) ≡ some content
      → IsRefused sys (pid_path dir name) w ((pid_file sys dir name >>= next) w)
  unfolding pid_file
  pid_file-IsRefused [] name content next w used there = absurd (used refl)
  pid_file-IsRefused (c ∷ dir) name content next w used there =
      let path = pid_path (c ∷ dir) name in
      let ((message, e), same) = not_opened path name w (sys.open_excl path w).0 there refl in
      rw e (record {
        throws_error = (message, refl);
        opens_only = refl;
        ends_there = refl;
        files_same = same;
      })
