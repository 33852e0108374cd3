-- ===== src/CreateDiff/Order/Stages.antt =====
-- The stages of `publish`, one after each file that is changed.
use osmdbt_pgoutput.Base.{ℕ, ◌≡◌, ◌≢◌, sym, ◌∙◌, Option, none, some, List, [], ◌∷◌, Bytes, All}
use osmdbt_pgoutput.Posix.{Disk, put}
use osmdbt_pgoutput.Posix.Put.{put_other, moved, moved_new, moved_other}
use osmdbt_pgoutput.Config.{Config}
use osmdbt_pgoutput.CreateDiff.Publish.{lock_file_path, log_name, done_name}
use osmdbt_pgoutput.CreateDiff.Moves.{IsKept, IsDone, IsStable}
use osmdbt_pgoutput.CreateDiff.Order.{
  Places, new_change, new_state, new_copy, current_state, public_change, public_state, IsClear,
  AreDistinct, IsLocked, IsPublished, IsGuarded,
}

flip : {a b : Bytes} → a ≢ b → b ≢ a
flip ne e = ne (sym e)

module _ (config : Config) (before : Disk) where
  Clear-IsStable :
      (files : List Bytes) (name : Bytes) (v : Option Bytes)
      → IsClear config files name
      → All (IsStable config before (λ d. d name ≡ v)) files
  Clear-IsStable [] name v h = tt
  Clear-IsStable (f ∷ files) name v ((ne, ne'), hs) = (
    λ d content e. moved_other (log_name config f) (done_name config f) content name d ne ne' ∙ e,
    Clear-IsStable files name v hs,
  )

  IsStable-and :
      (files : List Bytes) (P Q : Disk → Type 0)
      → All (IsStable config before P) files
      → All (IsStable config before Q) files
      → All (IsStable config before (λ d. P d × Q d)) files
  IsStable-and [] P Q h k = tt
  IsStable-and (f ∷ files) P Q (h, hs) (k, ks) =
      (λ d content (p, q). (h d content p, k d content q), IsStable-and files P Q hs ks)

  IsStable-same :
      (files : List Bytes) (P Q : Disk → Type 0)
      → ((d : Disk) → P d → Q d)
      → ((d : Disk) → Q d → P d)
      → All (IsStable config before P) files
      → All (IsStable config before Q) files
  IsStable-same [] P Q to from h = tt
  IsStable-same (f ∷ files) P Q to from (h, hs) =
      (λ d content q. to _ (h d content (from d q)), IsStable-same files P Q to from hs)

  IsKept-moved :
      (files : List Bytes) (old new content : Bytes) (d : Disk)
      → IsClear config files old
      → IsClear config files new
      → All (IsKept config before d) files
      → All (IsKept config before (moved old new content d)) files
  IsKept-moved [] old new content d h k kept = tt
  IsKept-moved (f ∷ files) old new content d (h, hs) (k, ks) (e, es) = (
    moved_other old new content (log_name config f) d (λ x. h.0 (sym x)) (λ x. k.0 (sym x)) ∙ e,
    IsKept-moved files old new content d hs ks es,
  )

  IsKept-start :
      (files : List Bytes) (name : Bytes) (d : Disk)
      → ((other : Bytes) → other ≢ name → d other ≡ before other)
      → IsClear config files name
      → All (IsKept config before d) files
  IsKept-start [] name d h k = tt
  IsKept-start (f ∷ files) name d h (k, ks) =
      (h (log_name config f) (λ x. k.0 (sym x)), IsKept-start files name d h ks)

  IsDone-removed :
      (files : List Bytes) (name : Bytes) (d : Disk)
      → IsClear config files name
      → All (IsDone config before d) files
      → All (IsDone config before (put name none d)) files
  IsDone-removed [] name d k h = tt
  IsDone-removed (f ∷ files) name d (k, ks) ((gone, there), hs) = (
    (
      put_other name (log_name config f) none d (λ x. k.0 (sym x)) ∙ gone,
      put_other name (done_name config f) none d (λ x. k.1 (sym x)) ∙ there,
    ),
    IsDone-removed files name d ks hs,
  )

  module _ (pid : ℕ) {n : ℕ} (places : Places n) (files : List Bytes)
      (distinct : AreDistinct config places files) where
    abbrev pub Locked : Disk → Type 0
    Locked = IsLocked config pid places files before

    abbrev pub Published : Disk → Type 0
    Published = IsPublished config pid places files before

    abbrev pub Guarded : Disk → Type 0
    Guarded = IsGuarded config pid places files before

    abbrev Kept : Disk → Type 0
    Kept d = All (IsKept config before d) files

    -- Only the lock file is new.
    abbrev pub Start : Disk → Type 0
    Start d = Locked d × ((other : Bytes) → other ≢ lock_file_path config → d other ≡ before other)

    -- The diff is in place.
    abbrev pub One : Disk → Type 0
    One d =
        (Locked d × Kept d)
        × (d (public_change config places) ≡ before (new_change config))
        × (d (new_state config) ≡ before (new_state config))
        × (d (new_copy config) ≡ before (new_copy config))

    -- So is its state.
    abbrev pub Two : Disk → Type 0
    Two d =
        (Locked d × Kept d)
        × (d (public_change config places) ≡ before (new_change config))
        × (d (public_state config places) ≡ before (new_state config))
        × (d (new_copy config) ≡ before (new_copy config))

    -- So is the present state.
    abbrev pub Three : Disk → Type 0
    Three d = (Locked d × Published d) × Kept d

    Locked-moved :
        (old new content : Bytes) (d : Disk)
        → old ≢ lock_file_path config
        → new ≢ lock_file_path config
        → IsClear config files old
        → IsClear config files new
        → Locked d × Kept d
        → Locked (moved old new content d) × Kept (moved old new content d)
    Locked-moved old new content d ne ne' clear clear' (locked, kept) = (
      moved_other old new content (lock_file_path config) d (λ e. ne (sym e)) (λ e. ne' (sym e))
          ∙ locked,
      IsKept-moved files old new content d clear clear' kept,
    )

    pub Start-One :
        (d : Disk) (content : Bytes)
        → Start d
        → d (new_change config) ≡ some content
        → One (moved (new_change config) (public_change config places) content d)
    Start-One d content (locked, same) there = (
      Locked-moved (new_change config) (public_change config places) content d distinct.lock.0
          distinct.lock.1.1.1.0 distinct.logs.1.0 distinct.logs.1.1.1.1.0
          (locked, IsKept-start files (lock_file_path config) d same distinct.logs.0),
      moved_new (new_change config) (public_change config places) content d
            (flip distinct.change.1.1.0)
          ∙ sym there
          ∙ same (new_change config) distinct.lock.0,
      moved_other (new_change config) (public_change config places) content (new_state config) d
            distinct.change.0 (flip distinct.state.1.0)
          ∙ same (new_state config) distinct.lock.1.0,
      moved_other (new_change config) (public_change config places) content (new_copy config) d
            distinct.change.1.0 (flip distinct.copy.0)
          ∙ same (new_copy config) distinct.lock.1.1.0,
    )

    pub One-Two :
        (d : Disk) (content : Bytes)
        → One d
        → d (new_state config) ≡ some content
        → Two (moved (new_state config) (public_state config places) content d)
    One-Two d content (held, change, state, copy) there = (
      Locked-moved (new_state config) (public_state config places) content d distinct.lock.1.0
          distinct.lock.1.1.1.1.0 distinct.logs.1.1.0 distinct.logs.1.1.1.1.1.0 held,
      moved_other (new_state config) (public_state config places) content
            (public_change config places) d distinct.state.1.0 (flip distinct.published.0)
          ∙ change,
      moved_new (new_state config) (public_state config places) content d
            (flip distinct.state.1.1.0)
          ∙ sym there
          ∙ state,
      moved_other (new_state config) (public_state config places) content (new_copy config) d
            distinct.state.0 (flip distinct.copy.1.0)
          ∙ copy,
    )

    pub Two-Three :
        (d : Disk) (content : Bytes)
        → Two d
        → d (new_copy config) ≡ some content
        → Three (moved (new_copy config) (current_state config) content d)
    Two-Three d content (held, change, state, copy) there =
        let (locked, kept) =
          Locked-moved (new_copy config) (current_state config) content d distinct.lock.1.1.0
            distinct.lock.1.1.1.1.1.0 distinct.logs.1.1.1.0 distinct.logs.1.1.1.1.1.1.0 held in
        (
          (
            locked,
            (
              moved_other (new_copy config) (current_state config) content
                    (public_change config places) d distinct.copy.0 (flip distinct.published.1.0)
                  ∙ change,
              moved_other (new_copy config) (current_state config) content
                    (public_state config places) d distinct.copy.1.0 (flip distinct.current)
                  ∙ state,
              moved_new (new_copy config) (current_state config) content d
                    (flip distinct.copy.1.1.0)
                  ∙ sym there
                  ∙ copy,
            ),
          ),
          kept,
        )

    abbrev Change : Disk → Type 0
    Change d = d (public_change config places) ≡ before (new_change config)

    abbrev State : Disk → Type 0
    State d = d (public_state config places) ≡ before (new_state config)

    abbrev Copy : Disk → Type 0
    Copy d = d (current_state config) ≡ before (new_copy config)

    -- The renaming of log files leaves the rest as it is.
    pub Frame-IsStable : All (IsStable config before (λ d. Locked d × Published d)) files
    Frame-IsStable =
        IsStable-and files Locked Published
          (Clear-IsStable files (lock_file_path config) _ distinct.logs.0)
          (IsStable-same files (λ d. Change d × (State d × Copy d)) Published
            (λ d (a, (b, c)). (a, b, c)) (λ d (a, b, c). (a, (b, c)))
            (IsStable-and files Change (λ d. State d × Copy d)
              (Clear-IsStable files (public_change config places) (before (new_change config))
                distinct.logs.1.1.1.1.0)
              (IsStable-and files State Copy
                (Clear-IsStable files (public_state config places) (before (new_state config))
                  distinct.logs.1.1.1.1.1.0)
                (Clear-IsStable files (current_state config) (before (new_copy config))
                  distinct.logs.1.1.1.1.1.1.0))))

    -- At the end the lock file is removed.
    pub Published-removed :
        (d : Disk)
        → Published d × All (IsDone config before d) files
        → Published (put (lock_file_path config) none d)
          × All (IsDone config before (put (lock_file_path config) none d)) files
    Published-removed d ((change, state, copy), done) = (
      (
        put_other (lock_file_path config) (public_change config places) none d distinct.lock.1.1.1.0
            ∙ change,
        put_other (lock_file_path config) (public_state config places) none d
              distinct.lock.1.1.1.1.0
            ∙ state,
        put_other (lock_file_path config) (current_state config) none d distinct.lock.1.1.1.1.1.0
            ∙ copy,
      ),
      IsDone-removed files (lock_file_path config) d distinct.logs.0 done,
    )
