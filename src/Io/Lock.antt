-- ===== src/Io/Lock.antt =====
-- The PID file as a lock (src/io.cpp): programs that share one run in any order. The steps are the
-- states that runs of the constructor of `PIDFile` pass, and its destructor.
use osmdbt_pgoutput.Base.{
  ℕ, suc, ◌≡◌, ◌≢◌, refl, ap, ◌∙◌, inl, inr, some, List, [], ◌∷◌, ◌++◌, Bytes, Bool-cases, All,
}
use osmdbt_pgoutput.Base.Result.{ok, throws, runtime_error, Exception}
use osmdbt_pgoutput.Cstd.{to_string}
use osmdbt_pgoutput.Posix.{Fd, opened, exists, denied, System, IsPosix}
use osmdbt_pgoutput.Posix.Put.{put_same}
use osmdbt_pgoutput.Posix.Program.{Program, pure, ◌>>=◌, ◌>>◌}
use osmdbt_pgoutput.Posix.Meets.{Meets, Meets-bind, Meets-attempt, Meets-pure}
use osmdbt_pgoutput.Io.{
  check_pid_fd, pid_path, excl_write_open, reliable_write, reliable_close, create_pid_file,
  pid_file, release_pid_file,
}
use osmdbt_pgoutput.Io.Refused.{IsRefused, not_opened, pid_file-IsRefused}

-- The file is there.
abbrev pub IsThere : (sys : System) → Bytes → sys.World → Type 0
IsThere sys path w = (content : Bytes) × (sys.disk w path ≡ some content)

module _ (sys : System) (dir name : Bytes) where
  -- A step to another state of the machine, and to how many programs are inside: from the first call
  -- of a constructor of `PIDFile` that returns until the end of the destructor.
  pub data Step (w : sys.World) : ℕ → sys.World → ℕ → Type 0 where
    -- A program runs its constructor from here, which returns or throws, and is at one of the states
    -- that this passes; from there, what the constructor still does is a step of the last kind.
    enters :
        {k : ℕ} (m_path : Bytes) (before after : List sys.World) (v : sys.World)
        → (pid_file sys dir name w).result ≡ ok m_path
        → (pid_file sys dir name w).passed ≡ before ++ v ∷ after
        → Step w k v (suc k)
    fails :
        {k : ℕ} (e : Exception) (before after : List sys.World) (v : sys.World)
        → (pid_file sys dir name w).result ≡ throws e
        → (pid_file sys dir name w).passed ≡ before ++ v ∷ after
        → Step w k v k
    -- The destructor, or the end of a program without it.
    leaves : {k : ℕ} → Step w (suc k) (release_pid_file sys (pid_path dir name) w) k
    dies : {k : ℕ} → Step w (suc k) w k
    -- Whatever else happens, but the file does not go away.
    works :
        {k : ℕ} (v : sys.World)
        → (IsThere sys (pid_path dir name) w → IsThere sys (pid_path dir name) v)
        → Step w k v k

  pub data Reach (start : sys.World) : sys.World → ℕ → Type 0 where
    begin : Reach start start 0
    later : {v w : sys.World} {k l : ℕ} → Reach start v k → Step v k w l → Reach start w l

  -- Where a program is inside, it is the only one, and the file is there.
  data IsHeld (w : sys.World) : ℕ → Type 0 where
    nobody : IsHeld w 0
    somebody : IsThere sys (pid_path dir name) w → IsHeld w 1

All-at :
    {W : Type 0} (P : W → Type 0) (before after : List W) (v : W)
    → All P (before ++ v ∷ after)
    → P v
All-at P [] after v h = h.0
All-at P (w ∷ before) after v h = All-at P before after v h.1

module _ (sys : System) (posix : IsPosix sys) (path : Bytes) where
  write-IsThere :
      (text : Bytes) (w : sys.World)
      → IsThere sys path w
      → IsThere sys path (sys.write (opened path) text w).1
  write-IsThere text w (content, there) = elim (Bool-cases (sys.write (opened path) text w).0) [
    | inl e ↦ (
      content ++ text,
      rw (posix.writes path text content w there e)
          (put_same path (some (content ++ text)) (sys.disk w)),
    )
    | inr e ↦
        let (part, became) = posix.write_failed path text content w there e in
        (part, rw became (put_same path (some part) (sys.disk w)))
  ]

  close-IsThere :
      (w : sys.World) → IsThere sys path w → IsThere sys path (sys.close (opened path) w).1
  close-IsThere w (content, there) = (content, rw (posix.closes (opened path) w) there)

  -- What follows on `open` in the constructor.
  abbrev written : Fd → Program sys.World Bytes
  written fd = do
    reliable_write sys fd (to_string sys.getpid ++ b'\n' ∷ [])
    reliable_close sys fd
    pure path

  written-IsThere :
      Meets Unit
        (IsThere sys path)
        (IsThere sys path)
        (written (opened path))
        (λ _. IsThere sys path)
  unfolding reliable_write reliable_close
  written-IsThere =
      Meets-bind (λ _. IsThere sys path)
        (Meets-attempt (sys.write (opened path) _) _ (λ w p. inr tt) (λ w p. write-IsThere _ w p)
          (λ w p _. write-IsThere _ w p))
        (λ _.
          Meets-bind (λ _. IsThere sys path)
            (Meets-attempt (sys.close (opened path)) _ (λ w p. inr tt) (λ w p. close-IsThere w p)
              (λ w p _. close-IsThere w p))
            (λ _. Meets-pure path (λ w p. p)))

  -- If the constructor returns, then the file is there after each of its calls.
  created-IsThere :
      (name m_path : Bytes) (w : sys.World) (fd : Fd)
      → (sys.open_excl path w).0 ≡ fd
      → (create_pid_file sys path name w).result ≡ ok m_path
      → All (IsThere sys path) (create_pid_file sys path name w).passed
  unfolding create_pid_file excl_write_open check_pid_fd
  created-IsThere name m_path w (opened other) e h =
      let (same, free, became) = posix.opens path other w e in
      let there : IsThere sys path (sys.open_excl path w).1 =
        ([], rw became (put_same path (some []) (sys.disk w))) in
      rw (e ∙ ap opened same) (there, (written-IsThere.at (sys.open_excl path w).1 there).0)
  created-IsThere name m_path w exists e h = absurd (cc (rw e at h))
  created-IsThere name m_path w denied e h = absurd (cc (rw e at h))

  -- Where the file is there, the constructor throws, and passes one state, in which it still is.
  refused-IsThere :
      (name : Bytes) (w : sys.World)
      → IsThere sys path w
      → ((e : Exception) × ((create_pid_file sys path name w).result ≡ throws e))
        × All (IsThere sys path) (create_pid_file sys path name w).passed
  unfolding create_pid_file excl_write_open
  refused-IsThere name w (content, there) =
      let ((message, e), same) =
        not_opened sys posix path name w (sys.open_excl path w).0 there refl in
      rw e ((runtime_error message, refl), ((content, rw same there), tt))

module _ (sys : System) (posix : IsPosix sys) where
  entered :
      (dir name m_path : Bytes) (w : sys.World)
      → dir ≢ []
      → (pid_file sys dir name w).result ≡ ok m_path
      → All (IsThere sys (pid_path dir name)) (pid_file sys dir name w).passed
  unfolding pid_file
  entered [] name m_path w used h = absurd (used refl)
  entered (c ∷ dir) name m_path w used h =
      created-IsThere sys posix (pid_path (c ∷ dir) name) name m_path w _ refl h

  refused :
      (dir name : Bytes) (w : sys.World)
      → dir ≢ []
      → IsThere sys (pid_path dir name) w
      → ((e : Exception) × ((pid_file sys dir name w).result ≡ throws e))
        × All (IsThere sys (pid_path dir name)) (pid_file sys dir name w).passed
  unfolding pid_file
  refused [] name w used held = absurd (used refl)
  refused (c ∷ dir) name w used held =
      refused-IsThere sys posix (pid_path (c ∷ dir) name) name w held

module _ (sys : System) (posix : IsPosix sys) (dir name : Bytes) (used : dir ≢ []) where
  Step-IsHeld :
      {w v : sys.World} {k l : ℕ}
      → Step sys dir name w k v l
      → IsHeld sys dir name w k
      → IsHeld sys dir name v l
  Step-IsHeld {w} (enters m_path before after v returns there) nobody = somebody (
      All-at (IsThere sys (pid_path dir name)) before after v
        (rw there at (entered sys posix dir name m_path w used returns)))
  Step-IsHeld {w} (enters m_path before after v returns there) (somebody held) =
      let ((e, threw), _) = refused sys posix dir name w used held in absurd (cc (returns, threw))
  Step-IsHeld (fails e before after v threw there) nobody = nobody
  Step-IsHeld {w} (fails e before after v threw there) (somebody held) = somebody (
      All-at (IsThere sys (pid_path dir name)) before after v
        (rw there at (refused sys posix dir name w used held).1))
  Step-IsHeld leaves (somebody held) = nobody
  Step-IsHeld dies (somebody held) = nobody
  Step-IsHeld (works v keeps) nobody = nobody
  Step-IsHeld (works v keeps) (somebody held) = somebody (keeps held)

  Reach-IsHeld :
      {start w : sys.World} {k : ℕ} → Reach sys dir name start w k → IsHeld sys dir name w k
  Reach-IsHeld begin = nobody
  Reach-IsHeld (later r s) = Step-IsHeld s (Reach-IsHeld r)

  IsHeld-IsRefused :
      {A : Type 0} (next : Bytes → Program sys.World A) (w : sys.World) (k : ℕ)
      → IsHeld sys dir name w (suc k)
      → (k ≡ 0) × IsRefused sys (pid_path dir name) w ((pid_file sys dir name >>= next) w)
  IsHeld-IsRefused next w _ (somebody (content, there)) =
      (refl, pid_file-IsRefused sys posix dir name content next w used there)

  -- For a system that does what its laws say, and a directory that is not empty: however the programs
  -- that use one PID file are interleaved, also within the constructor of `PIDFile`, and whatever
  -- fails, while a program is inside, from the first call of its constructor to its destructor, no
  -- other is, and the constructor of any other throws a `runtime_error` after its first call and
  -- changes no file.
  pub pid_file_lem :
      {A : Type 0} (start w : sys.World) (k : ℕ) (next : Bytes → Program sys.World A)
      → Reach sys dir name start w (suc k)
      → (k ≡ 0) × IsRefused sys (pid_path dir name) w ((pid_file sys dir name >>= next) w)
  pid_file_lem start w k next r = IsHeld-IsRefused next w k (Reach-IsHeld r)
