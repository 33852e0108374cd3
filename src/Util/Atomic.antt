-- ===== src/Util/Atomic.antt =====
-- What other programs can see of a file that `write_data_to_file` writes.
use osmdbt_pgoutput.Base.{◌≡◌, refl, ◌∙◌, none, some, [], ◌++◌, Bytes, inl, inr, ◌⊎◌, All}
use osmdbt_pgoutput.Base.Result.{ok, throws, system_error}
use osmdbt_pgoutput.Posix.{
  Fd, opened, exists, denied, Disk, put, System, IsPosix, IsAble, any-IsAble,
}
use osmdbt_pgoutput.Posix.Program.{Program, ◌>>=◌}
use osmdbt_pgoutput.Posix.Meets.{Meets, Post, Meets-bind, Meets-exists, Meets-weaken, Post-returns}
use osmdbt_pgoutput.Io.{
  rename_file, sync_dir, excl_write_open, reliable_write, reliable_fsync, reliable_close,
}
use osmdbt_pgoutput.Io.Rules.{
  Has, Opened, Meets-excl_write_open, Meets-reliable_write, Meets-bad_write, Meets-reliable_fsync,
  Meets-reliable_close, Meets-rename_file, Meets-sync_dir,
}
use osmdbt_pgoutput.Util.{tmp_name, write_data_to_file}
use osmdbt_pgoutput.Util.Whole.{
  IsAtomic, IsWritten, tmp_name-ne, unchanged-IsAtomic, Scratch-IsAtomic, Scratch-put, Filled,
  Filled-IsAtomic, Filled-put, same-Scratch, IsWritten-IsAtomic, renamed-IsWritten,
}

module _ (Fail : Type 0) (sys : System) (posix : IsPosix sys) (able : IsAble Fail sys)
    (text dir_name file_name : Bytes) (before : Disk)
    (free : (before (tmp_name (dir_name ++ file_name)) ≡ none) ⊎ Fail) where
  abbrev final : Bytes
  final = dir_name ++ file_name

  abbrev tmp : Bytes
  tmp = tmp_name (dir_name ++ file_name)

  abbrev Safe : Disk → Type 0
  Safe = IsAtomic final text before

  abbrev Done : Disk → Type 0
  Done = IsWritten final text before

  -- What follows on `open`.
  abbrev store : Fd → Program sys.World (Unit {0})
  store fd = reliable_write sys fd text >>= λ _. reliable_fsync sys fd >>= λ _.
      reliable_close sys fd >>= λ _. rename_file sys tmp final >>= λ _. sync_dir sys dir_name

  -- What `open` gives is a file of its own name.
  abbrev Fresh : Disk → Type 0
  Fresh e = (d : Disk) × (d ≡ before) × (d tmp ≡ none) × (e ≡ put tmp (some []) d)

  Fresh-Filled : (e : Disk) → Fresh e → Filled final text before [] e
  Fresh-Filled e (d, same, free, became) =
      rw became (Filled-put final text before [] d (same-Scratch final text before d same))

  Meets-moved :
      Meets Fail
        (Has sys Safe)
        (Has sys (Filled final text before text))
        (rename_file sys tmp final >>= λ _. sync_dir sys dir_name)
        (λ _. Has sys Done)
  Meets-moved =
      Meets-bind (λ _. Has sys Done)
        (Meets-rename_file Fail sys posix able Safe (Filled final text before text)
          (Filled-IsAtomic final text before text) Done tmp final (tmp_name-ne final)
          (λ d h. inl (text, h.0))
          (λ d content p there.
            let done = renamed-IsWritten final text before d content p there in
            (IsWritten-IsAtomic final text before _ done, done)))
        (λ _.
          Meets-sync_dir Fail sys posix able Safe Done (IsWritten-IsAtomic final text before)
            dir_name)

  Meets-store_opened :
      Meets Fail
        (Has sys Safe)
        (Has sys (Filled final text before []))
        (store (opened tmp))
        (λ _. Has sys Done)
  Meets-store_opened =
      Meets-bind (λ _. Has sys (Filled final text before text))
        (Meets-reliable_write Fail sys posix able Safe (Filled final text before [])
          (Filled final text before text) tmp [] text (λ d h. h.0)
          (λ d part h.
            Scratch-IsAtomic final text before _ (Scratch-put final text before d part h.1))
          (λ d h. Filled-put final text before text d h.1))
        (λ _.
          Meets-bind (λ _. Has sys (Filled final text before text))
            (Meets-reliable_fsync Fail sys posix able Safe (Filled final text before text)
              (Filled-IsAtomic final text before text) tmp)
            (λ _.
              Meets-bind (λ _. Has sys (Filled final text before text))
                (Meets-reliable_close Fail sys posix able Safe (Filled final text before text)
                  (Filled-IsAtomic final text before text) tmp)
                (λ _. Meets-moved)))

  Meets-failed :
      {A : Type 0} {P : sys.World → Type 0} {m : Program sys.World A} {Q : A → sys.World → Type 0}
      → (Fail → Meets Fail (Has sys Safe) P m Q)
      → Meets Fail (Has sys Safe) (λ w. P w × Fail) m Q
  Meets-failed h = record { at = λ w p. (h p.1).at w p.0 }

  Meets-nothing :
      {A : Type 0} {m : Program sys.World A} {Q : A → sys.World → Type 0}
      → Meets Fail (Has sys Safe) (λ _. ⊥) m Q
  Meets-nothing = record { at = λ w p. absurd p }

  Meets-store_bad :
      (fd : Fd)
      → (fd ≡ exists) ⊎ (fd ≡ denied)
      → Fail
      → Meets Fail (Has sys Safe) (Has sys (λ d. d ≡ before)) (store fd) (λ _. Has sys Done)
  Meets-store_bad fd bad fails =
      Meets-bind (λ _ _. ⊥)
        (Meets-bad_write Fail sys posix able Safe (λ d. d ≡ before) (λ _. ⊥) fd text bad fails
          (unchanged-IsAtomic final text before))
        (λ _. Meets-nothing)

  Meets-store :
      (fd : Fd)
      → Meets Fail
          (Has sys Safe)
          (Has sys (Opened Fail (λ d. d ≡ before) tmp fd))
          (store fd)
          (λ _. Has sys Done)
  Meets-store (opened other) =
      Meets-exists
        (λ same. rw same (Meets-weaken (λ w. Fresh-Filled (sys.disk w)) Meets-store_opened))
  Meets-store exists = Meets-failed (λ fails. Meets-store_bad exists (inl refl) fails)
  Meets-store denied = Meets-failed (λ fails. Meets-store_bad denied (inr refl) fails)

  Meets-write_data_to_file :
      Meets Fail
        (Has sys Safe)
        (Has sys (λ d. d ≡ before))
        (write_data_to_file sys text dir_name file_name)
        (λ _. Has sys Done)
  unfolding write_data_to_file
  Meets-write_data_to_file =
      Meets-bind (λ fd. Has sys (Opened Fail (λ d. d ≡ before) tmp fd))
        (Meets-excl_write_open Fail sys posix able Safe (λ d. d ≡ before)
          (unchanged-IsAtomic final text before) tmp (λ d same. rw same free)
          (λ d same missing.
            Scratch-IsAtomic final text before _
              (Scratch-put final text before d (some []) (same-Scratch final text before d same))))
        Meets-store

-- For a system that does what its laws say, `write_data_to_file` is atomic: after each of its calls
-- the final file is as it was before or has exactly the given content, and all other files, but the
-- one named with `.new`, are as before. When it returns, the final file has that content and the one
-- named with `.new` is gone; otherwise it throws, and does nothing undefined.
pub write_data_to_file_lem :
    (sys : System) (posix : IsPosix sys) (text dir_name file_name : Bytes) (w : sys.World)
    → All
        (λ v. IsAtomic (dir_name ++ file_name) text (sys.disk w) (sys.disk v))
        (write_data_to_file sys text dir_name file_name w).passed
      × Post Unit
          (λ _ v. IsWritten (dir_name ++ file_name) text (sys.disk w) (sys.disk v))
          (write_data_to_file sys text dir_name file_name w).result
          (write_data_to_file sys text dir_name file_name w).world
write_data_to_file_lem sys posix text dir_name file_name w =
    (Meets-write_data_to_file Unit sys posix (any-IsAble sys) text dir_name file_name (sys.disk w)
        (inr tt)).at
      w refl

-- If the calls of the system succeed where they can and there is no file of that name with `.new`,
-- `write_data_to_file` returns: it throws nothing, and the final file has the given content.
pub write_data_to_file_returns :
    (sys : System) (posix : IsPosix sys) (able : IsAble ⊥ sys) (text dir_name file_name : Bytes)
    (w : sys.World)
    → sys.disk w (tmp_name (dir_name ++ file_name)) ≡ none
    → ((write_data_to_file sys text dir_name file_name w).result ≡ ok tt)
      × (sys.disk (write_data_to_file sys text dir_name file_name w).world (dir_name ++ file_name)
          ≡ some text)
write_data_to_file_returns sys posix able text dir_name file_name w free =
    let (u, same, done) =
      Post-returns (λ _ v. IsWritten (dir_name ++ file_name) text (sys.disk w) (sys.disk v))
        (write_data_to_file sys text dir_name file_name w).world
        (write_data_to_file sys text dir_name file_name w).result
        ((Meets-write_data_to_file ⊥ sys posix able text dir_name file_name (sys.disk w)
            (inl free)).at
          w refl).1 in
    (same, done.complete)

-- Without a descriptor, the first call that needs it throws.
left_over_lem :
    (sys : System) (posix : IsPosix sys) (text dir_name file_name : Bytes) (w : sys.World) (fd : Fd)
    (content : Bytes)
    → (sys.open_excl (tmp_name (dir_name ++ file_name)) w).0 ≡ fd
    → sys.disk w (tmp_name (dir_name ++ file_name)) ≡ some content
    → ((write_data_to_file sys text dir_name file_name w).result ≡ throws (system_error []))
      × (sys.disk (write_data_to_file sys text dir_name file_name w).world ≡ sys.disk w)
unfolding write_data_to_file excl_write_open reliable_write
left_over_lem sys posix text dir_name file_name w (opened other) content e there =
    absurd (cc ((posix.opens (tmp_name (dir_name ++ file_name)) other w e).1, there))
left_over_lem sys posix text dir_name file_name w exists content e there =
    let v = (sys.open_excl (tmp_name (dir_name ++ file_name)) w).1 in
    let (failed, same) = posix.write_exists text v in
    rw (e, failed) (refl, same ∙ posix.open_exists (tmp_name (dir_name ++ file_name)) w e)
left_over_lem sys posix text dir_name file_name w denied content e there =
    let v = (sys.open_excl (tmp_name (dir_name ++ file_name)) w).1 in
    let (failed, same) = posix.write_denied text v in
    rw (e, failed) (refl, same ∙ posix.open_denied (tmp_name (dir_name ++ file_name)) w e)

-- If a file of that name with `.new` is left from an earlier run, `write_data_to_file` throws and
-- no file changes.
pub write_data_to_file_left_over :
    (sys : System) (posix : IsPosix sys) (text dir_name file_name content : Bytes) (w : sys.World)
    → sys.disk w (tmp_name (dir_name ++ file_name)) ≡ some content
    → ((write_data_to_file sys text dir_name file_name w).result ≡ throws (system_error []))
      × (sys.disk (write_data_to_file sys text dir_name file_name w).world ≡ sys.disk w)
write_data_to_file_left_over sys posix text dir_name file_name content w there =
    left_over_lem sys posix text dir_name file_name w
      (sys.open_excl (tmp_name (dir_name ++ file_name)) w).0 content refl there
