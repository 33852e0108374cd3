-- ===== src/CreateDiff/Order/Safe.antt =====
-- `publish` may be cut short at any point, by an exception or by the end of the process.
use osmdbt_pgoutput.Base.{ℕ, ◌≡◌, refl, List, Bytes, All}
use osmdbt_pgoutput.Base.Result.{ok}
use osmdbt_pgoutput.Posix.{System, IsPosix, IsAble, any-IsAble}
use osmdbt_pgoutput.Posix.Meets.{Post, Post-returns}
use osmdbt_pgoutput.Config.{Config}
use osmdbt_pgoutput.CreateDiff.Publish.{publish}
use osmdbt_pgoutput.CreateDiff.Moves.{IsDone}
use osmdbt_pgoutput.CreateDiff.Order.{Places, AreDistinct, IsGuarded, IsPublished}
use osmdbt_pgoutput.CreateDiff.Order.Steps.{IsReady, any-IsReady, Meets-publish}

-- For a system that does what its laws say, and if the names of the files are different ones: after
-- each call of `publish`, the only change is in the lock file; or the lock file is complete and every
-- log file is as before; or the diff, its state file and the present state file are in place with
-- their contents, and the lock file is complete or every log file has its new name and its content.
-- So a log file is renamed only when the rest is in place. If `publish` returns, the three files are
-- in place and every log file is renamed; otherwise it throws, and does nothing undefined.
pub publish_lem :
    (sys : System) (posix : IsPosix sys) (config : Config) {n : ℕ} (places : Places n)
    (files : List Bytes) (w : sys.World)
    → AreDistinct config places files
    → All
        (λ v. IsGuarded config sys.getpid places files (sys.disk w) (sys.disk v))
        (publish sys config n files w).passed
      × Post Unit
          (λ _ v.
            IsPublished config sys.getpid places files (sys.disk w) (sys.disk v)
            × All (IsDone config (sys.disk w) (sys.disk v)) files)
          (publish sys config n files w).result
          (publish sys config n files w).world
publish_lem sys posix config places files w distinct =
    (Meets-publish Unit sys posix (any-IsAble sys) config (sys.disk w) places files distinct
        (any-IsReady config files (sys.disk w))).at
      w refl

-- If, besides, the calls of the system succeed where they can, the files that are to be moved exist
-- and there is no lock file, `publish` returns, and then the diff, its state file and the present
-- state file are in place and every log file is renamed.
pub publish_returns :
    (sys : System) (posix : IsPosix sys) (able : IsAble ⊥ sys) (config : Config) {n : ℕ}
    (places : Places n) (files : List Bytes) (w : sys.World)
    → AreDistinct config places files
    → IsReady ⊥ config files (sys.disk w)
    → ((publish sys config n files w).result ≡ ok tt)
      × IsPublished config sys.getpid places files
          (sys.disk w)
          (sys.disk (publish sys config n files w).world)
      × All (IsDone config (sys.disk w) (sys.disk (publish sys config n files w).world)) files
publish_returns sys posix able config {n} places files w distinct ready =
    let (u, same, (published, done)) =
      Post-returns
        (λ _ v.
          IsPublished config sys.getpid places files (sys.disk w) (sys.disk v)
          × All (IsDone config (sys.disk w) (sys.disk v)) files)
        (publish sys config n files w).world (publish sys config n files w).result
        ((Meets-publish ⊥ sys posix able config (sys.disk w) places files distinct ready).at w
          refl).1 in
    (same, published, done)
