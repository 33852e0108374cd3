-- ===== src/CreateDiff/Order/Steps.antt =====
-- `publish` by its stages, and what it needs to go through.
use osmdbt_pgoutput.Base.{
  ℕ, ◌≡◌, refl, sym, ◌∙◌, ◌⊎◌, inl, inr, none, some, List, [], ◌∷◌, ◌++◌, Bytes, All,
}
use osmdbt_pgoutput.Base.Result.{system_error}
use osmdbt_pgoutput.Posix.{Disk, System, IsPosix, IsAble}
use osmdbt_pgoutput.Posix.Put.{put_same, put_other}
use osmdbt_pgoutput.Posix.Meets.{Meets, Meets-bind, Meets-call, Meets-known, Meets-weaken}
use osmdbt_pgoutput.Io.Rules.{
  Has, Meets-reliable_close, Meets-sync_dir, Meets-create_directories, Meets-rename,
}
use osmdbt_pgoutput.Io.{reliable_close}
use osmdbt_pgoutput.Io.Create.{Made, IsCheck, Meets-create}
use osmdbt_pgoutput.Config.{Config}
use osmdbt_pgoutput.State.{dir1_path, dir2_path, osc_path, state_path}
use osmdbt_pgoutput.CreateDiff.Publish.{
  check_lock_fd, lock_file_path, lock_text, log_name, write_lock_file, move_diff, publish,
}
use osmdbt_pgoutput.CreateDiff.Moves.{IsDone, Meets-rename_log_files}
use osmdbt_pgoutput.CreateDiff.Order.{
  Places, new_change, new_state, new_copy, current_state, public_change, public_state, AreDistinct,
}
use osmdbt_pgoutput.CreateDiff.Order.Stages.{
  Locked, Published, Guarded, Start, One, Two, Three, Start-One, One-Two, Two-Three, Frame-IsStable,
  Published-removed,
}

check_lock_fd-IsCheck : (path : Bytes) → IsCheck (check_lock_fd path)
unfolding check_lock_fd
check_lock_fd-IsCheck path = record {
  passes = λ name. refl;
  no_file = (_, refl);
  no_rights = (_, refl);
}

-- The files that `publish` is to move, unless a failure is allowed for; there is no lock file yet.
pub record IsReady (Fail : Type 0) (config : Config) (files : List Bytes) (before : Disk)
    : Type 0 where
  pub no_lock : (before (lock_file_path config) ≡ none) ⊎ Fail
  pub change : ((content : Bytes) × (before (new_change config) ≡ some content)) ⊎ Fail
  pub state : ((content : Bytes) × (before (new_state config) ≡ some content)) ⊎ Fail
  pub copy : ((content : Bytes) × (before (new_copy config) ≡ some content)) ⊎ Fail
  pub logs :
      All (λ f. ((content : Bytes) × (before (log_name config f) ≡ some content)) ⊎ Fail) files

module _ (Fail : Type 0) (sys : System) (posix : IsPosix sys) (able : IsAble Fail sys)
    (config : Config) (before : Disk) {n : ℕ} (places : Places n) (files : List Bytes)
    (distinct : AreDistinct config places files) (ready : IsReady Fail config files before) where
  abbrev I : Disk → Type 0
  I = Guarded config before sys.getpid places files distinct

  abbrev S0 : Disk → Type 0
  S0 = Start config before sys.getpid places files distinct

  abbrev S1 : Disk → Type 0
  S1 = One config before sys.getpid places files distinct

  abbrev S2 : Disk → Type 0
  S2 = Two config before sys.getpid places files distinct

  abbrev S3 : Disk → Type 0
  S3 = Three config before sys.getpid places files distinct

  abbrev Frame : Disk → Type 0
  Frame d =
      Locked config before sys.getpid places files distinct d
      × Published config before sys.getpid places files distinct d

  abbrev End : Disk → Type 0
  End d =
      Published config before sys.getpid places files distinct d
      × All (IsDone config before d) files

  Made-Start :
      (d : Disk)
      → Made (λ e. e ≡ before) (lock_file_path config) (lock_text sys.getpid n files) d
      → S0 d
  Made-Start d (e, same, free, became) =
      rw (became, same)
        (
          put_same (lock_file_path config) (some (lock_text sys.getpid n files)) before,
          λ other ne.
              put_other (lock_file_path config) other (some (lock_text sys.getpid n files)) before
                ne,
        )

  Made-Guarded :
      (d : Disk)
      → Made (λ e. e ≡ before) (lock_file_path config) (lock_text sys.getpid n files) d
      → I d
  Made-Guarded d h = inl (Made-Start d h).1

  Meets-write_lock_file :
      Meets Fail
        (Has sys I)
        (Has sys (λ d. d ≡ before))
        (write_lock_file sys (lock_file_path config) n files)
        (λ _. Has sys S0)
  unfolding write_lock_file
  Meets-write_lock_file =
      let M = Made (λ e. e ≡ before) (lock_file_path config) (lock_text sys.getpid n files) in
      Meets-create Fail sys posix able I (λ d. d ≡ before) (lock_file_path config)
        (lock_text sys.getpid n files) (check_lock_fd (lock_file_path config))
        (check_lock_fd-IsCheck (lock_file_path config)) (reliable_close sys) (λ _. Has sys S0)
        (λ d e free c.
          inl (λ other ne. put_other (lock_file_path config) other c d ne ∙ (λ i. e i other)))
        (Meets-weaken (λ w. Made-Start (sys.disk w))
          (Meets-reliable_close Fail sys posix able I S0 (λ d h. inl h.1) (lock_file_path config)))
        (λ d e. inl (λ other ne. λ i. e i other)) (λ d e. rw e ready.no_lock)

  is_there :
      (name : Bytes) (d : Disk)
      → ((content : Bytes) × (before name ≡ some content)) ⊎ Fail
      → d name ≡ before name
      → ((content : Bytes) × (d name ≡ some content)) ⊎ Fail
  is_there name d (inl (content, e)) same = inl (content, same ∙ e)
  is_there name d (inr fails) same = inr fails

  One-Guarded : (d : Disk) → S1 d → I d
  One-Guarded d h = inr (inl h.0)

  Two-Guarded : (d : Disk) → S2 d → I d
  Two-Guarded d h = inr (inl h.0)

  Frame-Guarded : (d : Disk) → Frame d → I d
  Frame-Guarded d h = inr (inr (h.1, inl h.0))

  Three-Guarded : (d : Disk) → S3 d → I d
  Three-Guarded d h = Frame-Guarded d h.0

  Done-Guarded : (d : Disk) → Frame d × All (IsDone config before d) files → I d
  Done-Guarded d h = Frame-Guarded d h.0

  End-Guarded : (d : Disk) → End d → I d
  End-Guarded d h = inr (inr (h.0, inr h.1))

  Meets-move_diff :
      Meets Fail (Has sys I) (Has sys S0) (move_diff sys config n files) (λ _. Has sys S2)
  unfolding move_diff
  Meets-move_diff = Meets-known (dir2_path n) places.dir2 _ places.dir2_eq (
      Meets-bind (λ _. Has sys S0)
        (Meets-create_directories Fail sys posix able I S0 (λ d h. inl h.1)
          (config.m_changes_dir ++ places.dir2) (system_error []))
        (λ _. Meets-known (osc_path n) places.osc _ places.osc_eq (
          Meets-bind (λ _. Has sys S1)
            (Meets-rename Fail sys posix able I S0 (λ d h. inl h.1) S1 (new_change config)
              (public_change config places) (system_error []) (λ e. distinct.change.1.1.0 (sym e))
              (λ d h.
                is_there (new_change config) d ready.change
                  (h.1 (new_change config) distinct.lock.0))
              (λ d c h e.
                let h' = Start-One config before sys.getpid places files distinct d c h e in
                (One-Guarded _ h', h')))
            (λ _. Meets-known (state_path n) places.state _ places.state_eq (
              Meets-bind (λ _. Has sys S2)
                (Meets-rename Fail sys posix able I S1 One-Guarded S2 (new_state config)
                  (public_state config places) (system_error []) (λ e. distinct.state.1.1.0 (sym e))
                  (λ d h. is_there (new_state config) d ready.state h.2)
                  (λ d c h e.
                    let h' = One-Two config before sys.getpid places files distinct d c h e in
                    (Two-Guarded _ h', h')))
                (λ _.
                  Meets-bind (λ _. Has sys S2)
                    (Meets-sync_dir Fail sys posix able I S2 Two-Guarded
                      (config.m_changes_dir ++ places.dir2))
                    (λ _. Meets-known (dir1_path n) places.dir1 _ places.dir1_eq (
                      Meets-sync_dir Fail sys posix able I S2 Two-Guarded
                        (config.m_changes_dir ++ places.dir1)))))))))

  unlink_lem :
      (w : sys.World)
      → Has sys (λ d. Frame d × All (IsDone config before d) files) w
      → Has sys I (sys.unlink (lock_file_path config) w)
        × Has sys End (sys.unlink (lock_file_path config) w)
  unlink_lem w h =
      let p : End (sys.disk w) = (h.0.1, h.1) in
      let e : End (sys.disk (sys.unlink (lock_file_path config) w)) =
        elim (posix.unlinks (lock_file_path config) w) [
          | inl gone ↦
              rw gone
                (Published-removed config before sys.getpid places files distinct (sys.disk w) p)
          | inr kept ↦ rw kept p
        ] in
      (End-Guarded _ e, e)

  pub Meets-publish :
      Meets Fail
        (Has sys I)
        (Has sys (λ d. d ≡ before))
        (publish sys config n files)
        (λ _. Has sys End)
  unfolding publish
  Meets-publish =
      Meets-bind (λ _. Has sys S0) Meets-write_lock_file
        (λ _.
          Meets-bind (λ _. Has sys S0)
            (Meets-sync_dir Fail sys posix able I S0 (λ d h. inl h.1) config.m_tmp_dir)
            (λ _.
              Meets-bind (λ _. Has sys S2) Meets-move_diff
                (λ _.
                  Meets-bind (λ _. Has sys S3)
                    (Meets-rename Fail sys posix able I S2 Two-Guarded S3 (new_copy config)
                      (current_state config) (system_error []) (λ e. distinct.copy.1.1.0 (sym e))
                      (λ d h. is_there (new_copy config) d ready.copy h.3)
                      (λ d c h e.
                        let h' = Two-Three config before sys.getpid places files distinct d c h e in
                        (Three-Guarded _ h', h')))
                    (λ _.
                      Meets-bind (λ _. Has sys S3)
                        (Meets-sync_dir Fail sys posix able I S3 Three-Guarded config.m_changes_dir)
                        (λ _.
                          Meets-bind
                            (λ _. Has sys (λ d. Frame d × All (IsDone config before d) files))
                            (Meets-rename_log_files config before Fail sys posix able I files Frame
                              Frame-Guarded
                              (Frame-IsStable config before sys.getpid places files distinct)
                              distinct.apart ready.logs)
                            (λ _.
                              Meets-bind
                                (λ _. Has sys (λ d. Frame d × All (IsDone config before d) files))
                                (Meets-sync_dir Fail sys posix able I
                                  (λ d. Frame d × All (IsDone config before d) files) Done-Guarded
                                  config.m_log_dir)
                                (λ _.
                                  Meets-bind (λ _. Has sys End)
                                    (Meets-call (λ w. (tt, sys.unlink (lock_file_path config) w))
                                      unlink_lem)
                                    (λ _.
                                      Meets-sync_dir Fail sys posix able I End End-Guarded
                                        config.m_tmp_dir))))))))

any_log : (P : Bytes → Type 0) (files : List Bytes) → All (λ f. P f ⊎ Unit {0}) files
any_log P [] = tt
any_log P (f ∷ files) = (inr tt, any_log P files)

pub any-IsReady :
    (config : Config) (files : List Bytes) (before : Disk) → IsReady Unit config files before
any-IsReady config files before = record {
  no_lock = inr tt;
  change = inr tt;
  state = inr tt;
  copy = inr tt;
  logs = any_log _ files;
}
