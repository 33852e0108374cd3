-- ===== src/Io/Rules.antt =====
-- What the calls of `io.cpp` do to the contents of files, as rules.
use osmdbt_pgoutput.Base.{
  Bool, true, ◌≡◌, ◌≢◌, refl, Option, none, some, [], ◌++◌, Bytes, inl, inr, ◌⊎◌, Bool-cases,
  Option-cases,
}
use osmdbt_pgoutput.Base.Result.{Exception}
use osmdbt_pgoutput.Posix.{Fd, opened, exists, denied, Disk, put, System, IsPosix, IsAble}
use osmdbt_pgoutput.Posix.Program.{attempt}
use osmdbt_pgoutput.Posix.Meets.{Meets, Meets-call, Meets-attempt, Meets-bind}
use osmdbt_pgoutput.Io.{
  rename_file, sync_dir, excl_write_open, reliable_write, reliable_fsync, reliable_close,
}

-- A state of the machine with these files.
abbrev pub Has : (sys : System) → (Disk → Type 0) → sys.World → Type 0
Has sys P w = P (sys.disk w)

-- Which files there are once `open` has returned, if a result without a descriptor means `Fail`.
abbrev pub Opened : Type 0 → (Disk → Type 0) → Bytes → Fd → Disk → Type 0
Opened Fail P name (opened other) e =
    (other ≡ name) × ((d : Disk) × P d × (d name ≡ none) × (e ≡ put name (some []) d))
Opened Fail P name exists e = P e × Fail
Opened Fail P name denied e = P e × Fail

module _ (Fail : Type 0) (sys : System) (posix : IsPosix sys) (able : IsAble Fail sys) where
  module _ (I P : Disk → Type 0) (safe : (d : Disk) → P d → I d) where
    Meets-quiet :
        (f : sys.World → Bool × sys.World) (e : Exception)
        → ((w : sys.World) → ((f w).0 ≡ true) ⊎ Fail)
        → ((w : sys.World) → sys.disk (f w).1 ≡ sys.disk w)
        → Meets Fail (Has sys I) (Has sys P) (attempt f e) (λ _. Has sys P)
    Meets-quiet f e can same =
        Meets-attempt f e (λ w p. can w) (λ w p. rw (same w) (safe (sys.disk w) p))
          (λ w p _. rw (same w) p)

    pub Meets-sync_dir :
        (name : Bytes) → Meets Fail (Has sys I) (Has sys P) (sync_dir sys name) (λ _. Has sys P)
    unfolding sync_dir
    Meets-sync_dir name =
        Meets-bind (λ _. Has sys P)
          (Meets-quiet (sys.open_dir name) _ (able.opens_dir name) (posix.opens_dir name))
          (λ _.
            Meets-bind (λ _. Has sys P)
              (Meets-quiet (sys.fsync_dir name) _ (able.fsyncs_dir name) (posix.fsyncs_dir name))
              (λ _.
                Meets-quiet (sys.close_dir name) _ (able.closes_dir name) (posix.closes_dir name)))

    pub Meets-reliable_fsync :
        (name : Bytes)
        → Meets Fail (Has sys I) (Has sys P) (reliable_fsync sys (opened name)) (λ _. Has sys P)
    unfolding reliable_fsync
    Meets-reliable_fsync name =
        Meets-quiet (sys.fsync (opened name)) _ (able.fsyncs name) (posix.fsyncs (opened name))

    pub Meets-reliable_close :
        (name : Bytes)
        → Meets Fail (Has sys I) (Has sys P) (reliable_close sys (opened name)) (λ _. Has sys P)
    unfolding reliable_close
    Meets-reliable_close name =
        Meets-quiet (sys.close (opened name)) _ (able.closes name) (posix.closes (opened name))

    pub Meets-create_directories :
        (name : Bytes) (e : Exception)
        → Meets Fail
            (Has sys I)
            (Has sys P)
            (attempt (sys.create_directories name) e)
            (λ _. Has sys P)
    Meets-create_directories name e =
        Meets-quiet (sys.create_directories name) e (able.creates name) (posix.creates name)

  module _ (I P : Disk → Type 0) (safe : (d : Disk) → P d → I d) where
    -- Where a file can be created, another result of `open` is a failure.
    not_opened :
        (name : Bytes) (w : sys.World)
        → (((sys.open_excl name w).0 ≡ exists) ⊎ ((sys.open_excl name w).0 ≡ denied))
        → (sys.disk w name ≡ none) ⊎ Fail
        → Fail
    not_opened name w bad (inr fails) = fails
    not_opened name w bad (inl free) = elim (able.opens name w free) [
      | inl e ↦ elim bad [ inl e' ↦ absurd (cc (e, e')) | inr e' ↦ absurd (cc (e, e')) ]
      | inr fails ↦ fails
    ]

    module _ (name : Bytes) (free : (d : Disk) → P d → (d name ≡ none) ⊎ Fail)
        (new : (d : Disk) → P d → d name ≡ none → I (put name (some []) d)) where
      opened_lem :
          (w : sys.World) (fd : Fd)
          → (sys.open_excl name w).0 ≡ fd
          → P (sys.disk w)
          → I (sys.disk (sys.open_excl name w).1)
            × Opened Fail P name fd (sys.disk (sys.open_excl name w).1)
      opened_lem w (opened other) e p =
          let (same, missing, became) = posix.opens name other w e in
          (rw became (new (sys.disk w) p missing), (same, (sys.disk w, p, missing, became)))
      opened_lem w exists e p =
          let same = posix.open_exists name w e in
          let fails = not_opened name w (inl e) (free (sys.disk w) p) in
          (rw same (safe (sys.disk w) p), (rw same p, fails))
      opened_lem w denied e p =
          let same = posix.open_denied name w e in
          let fails = not_opened name w (inr e) (free (sys.disk w) p) in
          (rw same (safe (sys.disk w) p), (rw same p, fails))

      pub Meets-excl_write_open :
          Meets Fail
            (Has sys I)
            (Has sys P)
            (excl_write_open sys name)
            (λ fd. Has sys (Opened Fail P name fd))
      unfolding excl_write_open
      Meets-excl_write_open =
          Meets-call (sys.open_excl name) (λ w p. opened_lem w (sys.open_excl name w).0 refl p)

    renamed :
        (Q : Disk → Type 0) (old new : Bytes) (w : sys.World)
        → old ≢ new
        → ((d : Disk) (content : Bytes)
            → P d
            → d old ≡ some content
            → I (put old none (put new (some content) d))
              × Q (put old none (put new (some content) d)))
        → P (sys.disk w)
        → (sys.rename old new w).0 ≡ true
        → I (sys.disk (sys.rename old new w).1) × Q (sys.disk (sys.rename old new w).1)
    renamed Q old new w ne done p yes' = elim (Option-cases (sys.disk w old)) [
      | inl missing ↦ absurd (cc (posix.rename_missing old new w missing, yes'))
      | inr (content, there) ↦
          rw (posix.renames old new content w ne there yes') (done (sys.disk w) content p there)
    ]

    rename_safe :
        (Q : Disk → Type 0) (old new : Bytes) (w : sys.World)
        → old ≢ new
        → ((d : Disk) (content : Bytes)
            → P d
            → d old ≡ some content
            → I (put old none (put new (some content) d))
              × Q (put old none (put new (some content) d)))
        → P (sys.disk w)
        → I (sys.disk (sys.rename old new w).1)
    rename_safe Q old new w ne done p = elim (Bool-cases (sys.rename old new w).0) [
      | inl yes' ↦ (renamed Q old new w ne done p yes').0
      | inr failed ↦ rw (posix.rename_failed old new w failed) (safe (sys.disk w) p)
    ]

    pub Meets-rename :
        (Q : Disk → Type 0) (old new : Bytes) (e : Exception)
        → old ≢ new
        → ((d : Disk) → P d → ((content : Bytes) × (d old ≡ some content)) ⊎ Fail)
        → ((d : Disk) (content : Bytes)
            → P d
            → d old ≡ some content
            → I (put old none (put new (some content) d))
              × Q (put old none (put new (some content) d)))
        → Meets Fail (Has sys I) (Has sys P) (attempt (sys.rename old new) e) (λ _. Has sys Q)
    Meets-rename Q old new e ne ready done =
        Meets-attempt (sys.rename old new) e
          (λ w p. elim (ready (sys.disk w) p) [
            | inl (content, there) ↦ able.renames old new content w there
            | inr fails ↦ inr fails
          ])
          (λ w p. rename_safe Q old new w ne done p)
          (λ w p yes'. (renamed Q old new w ne done p yes').1)

    pub Meets-rename_file :
        (Q : Disk → Type 0) (old new : Bytes)
        → old ≢ new
        → ((d : Disk) → P d → ((content : Bytes) × (d old ≡ some content)) ⊎ Fail)
        → ((d : Disk) (content : Bytes)
            → P d
            → d old ≡ some content
            → I (put old none (put new (some content) d))
              × Q (put old none (put new (some content) d)))
        → Meets Fail (Has sys I) (Has sys P) (rename_file sys old new) (λ _. Has sys Q)
    unfolding rename_file
    Meets-rename_file Q old new ne ready done = Meets-rename Q old new _ ne ready done

  write_safe :
      (I P Q : Disk → Type 0) (name content text : Bytes) (w : sys.World)
      → sys.disk w name ≡ some content
      → ((d : Disk) (part : Option Bytes) → P d → I (put name part d))
      → P (sys.disk w)
      → I (sys.disk (sys.write (opened name) text w).1)
  write_safe I P Q name content text w there part p =
      elim (Bool-cases (sys.write (opened name) text w).0) [
        | inl yes' ↦
            rw (posix.writes name text content w there yes')
              (part (sys.disk w) (some (content ++ text)) p)
        | inr failed ↦
            let (rest, became) = posix.write_failed name text content w there failed in
            rw became (part (sys.disk w) (some rest) p)
      ]

  -- Writing into a file that has just been created.
  pub Meets-reliable_write :
      (I P Q : Disk → Type 0) (name content text : Bytes)
      → ((d : Disk) → P d → d name ≡ some content)
      → ((d : Disk) (part : Option Bytes) → P d → I (put name part d))
      → ((d : Disk) → P d → Q (put name (some (content ++ text)) d))
      → Meets Fail (Has sys I) (Has sys P) (reliable_write sys (opened name) text) (λ _. Has sys Q)
  unfolding reliable_write
  Meets-reliable_write I P Q name content text there part done =
      Meets-attempt (sys.write (opened name) text) _ (λ w p. able.writes name text w)
        (λ w p. write_safe I P Q name content text w (there (sys.disk w) p) part p)
        (λ w p yes'.
          rw (posix.writes name text content w (there (sys.disk w) p) yes') (done (sys.disk w) p))

  -- Writing where nothing was opened: an exception, and no file changes.
  pub Meets-bad_write :
      (I P Q : Disk → Type 0) (fd : Fd) (text : Bytes)
      → (fd ≡ exists) ⊎ (fd ≡ denied)
      → Fail
      → ((d : Disk) → P d → I d)
      → Meets Fail (Has sys I) (Has sys P) (reliable_write sys fd text) (λ _. Has sys Q)
  unfolding reliable_write
  Meets-bad_write I P Q exists text bad fails safe =
      Meets-attempt (sys.write exists text) _ (λ w p. inr fails)
        (λ w p. rw (posix.write_exists text w).1 (safe (sys.disk w) p))
        (λ w p yes'. absurd (cc ((posix.write_exists text w).0, yes')))
  Meets-bad_write I P Q denied text bad fails safe =
      Meets-attempt (sys.write denied text) _ (λ w p. inr fails)
        (λ w p. rw (posix.write_denied text w).1 (safe (sys.disk w) p))
        (λ w p yes'. absurd (cc ((posix.write_denied text w).0, yes')))
  Meets-bad_write I P Q (opened name) text (inl e) fails safe = absurd (cc e)
  Meets-bad_write I P Q (opened name) text (inr e) fails safe = absurd (cc e)
