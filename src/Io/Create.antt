-- ===== src/Io/Create.antt =====
-- A file that is created with `excl_write_open` and then written, as the PID file, the state files
-- and the lock file are.
use osmdbt_pgoutput.Base.{◌≡◌, refl, ◌⊎◌, Option, none, some, [], Bytes}
use osmdbt_pgoutput.Base.Result.{Result, ok, throws, Exception}
use osmdbt_pgoutput.Posix.{Fd, opened, exists, denied, Disk, put, System, IsPosix, IsAble}
use osmdbt_pgoutput.Posix.Put.{put_same, put-put}
use osmdbt_pgoutput.Posix.Program.{Program, lift, ◌>>=◌}
use osmdbt_pgoutput.Posix.Meets.{Meets, Meets-bind, Meets-lift, Meets-exists}
use osmdbt_pgoutput.Io.{excl_write_open, reliable_write}
use osmdbt_pgoutput.Io.Rules.{Has, Opened, Meets-excl_write_open, Meets-reliable_write}

-- The files with a new one.
abbrev pub Made : (Disk → Type 0) → Bytes → Bytes → Disk → Type 0
Made P name text e = (d : Disk) × P d × (d name ≡ none) × (e ≡ put name (some text) d)

-- What a descriptor that is not open means is an exception.
pub record IsCheck (check : Fd → Result (Unit {0})) : Type 0 where
  pub passes : (name : Bytes) → check (opened name) ≡ ok tt
  pub no_file : (e : Exception) × (check exists ≡ throws e)
  pub no_rights : (e : Exception) × (check denied ≡ throws e)

module _ (Fail : Type 0) (sys : System) (posix : IsPosix sys) (able : IsAble Fail sys)
    (I P : Disk → Type 0) (name text : Bytes) (check : Fd → Result (Unit {0}))
    (checks : IsCheck check) {A : Type 0} (next : Fd → Program sys.World A)
    (R : A → sys.World → Type 0)
    (part : (d : Disk) → P d → d name ≡ none → (c : Option Bytes) → I (put name c d))
    (rest : Meets Fail (Has sys I) (Has sys (Made P name text)) (next (opened name)) R) where
  -- What follows on `open`.
  abbrev write_new : Fd → Program sys.World A
  write_new fd = lift (check fd) >>= λ _. reliable_write sys fd text >>= λ _. next fd

  Made-part : (e : Disk) (c : Option Bytes) → Made P name [] e → I (put name c e)
  Made-part e c (d, p, free, became) = rw (became, put-put name (some []) c d) (part d p free c)

  Made-put : (e : Disk) → Made P name [] e → Made P name text (put name (some text) e)
  Made-put e (d, p, free, became) =
      (d, p, free, rw (became, put-put name (some []) (some text) d) refl)

  Meets-opened : Meets Fail (Has sys I) (Has sys (Made P name [])) (write_new (opened name)) R
  Meets-opened =
      Meets-bind (λ _. Has sys (Made P name []))
        (Meets-lift (check (opened name)) (λ w h. rw (checks.passes name) h))
        (λ _.
          Meets-bind (λ _. Has sys (Made P name text))
            (Meets-reliable_write Fail sys posix able I (Made P name []) (Made P name text) name []
              text (λ e (d, p, free, became). rw became (put_same name (some []) d))
              (λ e c h. Made-part e c h) (λ e h. Made-put e h))
            (λ _. rest))

  Meets-not_opened :
      (fd : Fd) (e : Exception)
      → check fd ≡ throws e
      → Meets Fail (Has sys I) (λ w. P (sys.disk w) × Fail) (write_new fd) R
  Meets-not_opened fd e bad =
      Meets-bind (λ _ _. ⊥) (Meets-lift (check fd) (λ w h. rw bad h.1))
        (λ _. record { at = λ w p. absurd p })

  Meets-write_new :
      (fd : Fd) → Meets Fail (Has sys I) (Has sys (Opened Fail P name fd)) (write_new fd) R
  Meets-write_new (opened other) = Meets-exists (λ same. rw same Meets-opened)
  Meets-write_new exists = Meets-not_opened exists checks.no_file.0 checks.no_file.1
  Meets-write_new denied = Meets-not_opened denied checks.no_rights.0 checks.no_rights.1

  pub Meets-create :
      ((d : Disk) → P d → I d)
      → ((d : Disk) → P d → (d name ≡ none) ⊎ Fail)
      → Meets Fail (Has sys I) (Has sys P) (excl_write_open sys name >>= write_new) R
  Meets-create safe free =
      Meets-bind (λ fd. Has sys (Opened Fail P name fd))
        (Meets-excl_write_open Fail sys posix able I P safe name free
          (λ d p missing. part d p missing (some [])))
        Meets-write_new
