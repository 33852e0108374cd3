-- ===== src/CreateDiff/Finish.antt =====
-- The end of a run of `osmdbt-create-diff`, and the state that the next run begins with.
use osmdbt_pgoutput.Base.{
  ℕ, ◌<◌, ◌≡◌, ◌≢◌, refl, sym, ◌∙◌, ◌⊎◌, inl, false, Option, none, some, List, [], ◌∷◌, Bytes, All,
}
use osmdbt_pgoutput.Base.Result.{ok}
use osmdbt_pgoutput.Cstd.{u64_mod}
use osmdbt_pgoutput.Osmium.{Timestamps, IsIso, Objects, IsOsm}
use osmdbt_pgoutput.Posix.{Disk, put, System, IsPosix, IsAble}
use osmdbt_pgoutput.Posix.Put.{put_same, put_other}
use osmdbt_pgoutput.Posix.Meets.{Meets, Meets-bind, Meets-weaken, Meets-forget, Post-returns}
use osmdbt_pgoutput.Io.Rules.{Has}
use osmdbt_pgoutput.Io.Create.{Made}
use osmdbt_pgoutput.Config.{Config}
use osmdbt_pgoutput.State.{State, state_text, read_state}
use osmdbt_pgoutput.State.RoundTrip.{IsDate, read_state-state_text}
use osmdbt_pgoutput.State.Written.{Meets-write}
use osmdbt_pgoutput.CreateDiff.Publish.{finish, lock_file_path, log_name}
use osmdbt_pgoutput.CreateDiff.Moves.{IsDone}
use osmdbt_pgoutput.CreateDiff.Order.{
  Places, new_change, new_state, new_copy, current_state, public_change, IsClear, AreDistinct,
  IsPublished,
}
use osmdbt_pgoutput.CreateDiff.Order.Steps.{IsReady, Meets-publish}

-- The files at the end of the loops: the new diff and the log files are there, and nothing is left
-- of an earlier run.
pub record IsClean (config : Config) (files : List Bytes) (before : Disk) : Type 0 where
  pub no_lock : before (lock_file_path config) ≡ none
  pub no_state : before (new_state config) ≡ none
  pub no_copy : before (new_copy config) ≡ none
  pub change : (content : Bytes) × (before (new_change config) ≡ some content)
  pub logs : All (λ f. (content : Bytes) × (before (log_name config f) ≡ some content)) files

module _ (config : Config) (before : Disk) (text : Bytes) where
  -- The files with the two new states.
  abbrev with_states : Disk
  with_states = put (new_copy config) (some text) (put (new_state config) (some text) before)

  with_states_other :
      (name : Bytes)
      → name ≢ new_state config
      → name ≢ new_copy config
      → with_states name ≡ before name
  with_states_other name ne ne' =
      put_other (new_copy config) name (some text) (put (new_state config) (some text) before) ne'
      ∙ put_other (new_state config) name (some text) before ne

  logs_there :
      (files : List Bytes)
      → IsClear config files (new_state config)
      → IsClear config files (new_copy config)
      → All (λ f. (content : Bytes) × (before (log_name config f) ≡ some content)) files
      → All (λ f. ((content : Bytes) × (with_states (log_name config f) ≡ some content)) ⊎ ⊥) files
  logs_there [] h k l = tt
  logs_there (f ∷ files) (h, hs) (k, ks) ((content, e), ls) = (
    inl (content, with_states_other (log_name config f) (λ x. h.0 (sym x)) (λ x. k.0 (sym x)) ∙ e),
    logs_there files hs ks ls,
  )

  logs-IsDone :
      (files : List Bytes) (d : Disk)
      → IsClear config files (new_state config)
      → IsClear config files (new_copy config)
      → All (IsDone config with_states d) files
      → All (IsDone config before d) files
  logs-IsDone [] d h k l = tt
  logs-IsDone (f ∷ files) d (h, hs) (k, ks) ((gone, there), ls) = (
    (gone, there ∙ with_states_other (log_name config f) (λ x. h.0 (sym x)) (λ x. k.0 (sym x))),
    logs-IsDone files d hs ks ls,
  )

  states_IsReady :
      {n : ℕ} (places : Places n) (files : List Bytes)
      → AreDistinct config places files
      → IsClean config files before
      → IsReady ⊥ config files with_states
  states_IsReady places files distinct clean = record {
    no_lock = inl (
        with_states_other (lock_file_path config) (λ e. distinct.lock.1.0 (sym e))
          (λ e. distinct.lock.1.1.0 (sym e))
        ∙ clean.no_lock);
    change = inl (
      clean.change.0,
      with_states_other (new_change config) (λ e. distinct.change.0 (sym e))
            (λ e. distinct.change.1.0 (sym e))
          ∙ clean.change.1,
    );
    state = inl (
      text,
      put_other (new_copy config) (new_state config) (some text)
            (put (new_state config) (some text) before) (λ e. distinct.state.0 (sym e))
          ∙ put_same (new_state config) (some text) before,
    );
    copy =
        inl (
          text,
          put_same (new_copy config) (some text) (put (new_state config) (some text) before),
        );
    logs = logs_there files distinct.logs.1.1.0 distinct.logs.1.1.1.0 clean.logs;
  }

module _ (sys : System) (posix : IsPosix sys) (able : IsAble ⊥ sys) (ts : Timestamps)
    (config : Config) (st : State ts) (comment : Option Bytes)
    (places : Places st.m_sequence_number) (files : List Bytes) (before : Disk)
    (distinct : AreDistinct config places files) (clean : IsClean config files before) where
  abbrev content : Bytes
  content = state_text ts st comment

  abbrev with_new : Disk
  with_new = with_states config before content

  -- The first state file, and then the second.
  abbrev First : Disk → Type 0
  First = Made (λ d. d ≡ before) (new_state config) content

  abbrev Second : Disk → Type 0
  Second = Made First (new_copy config) content

  First-free : (d : Disk) → First d → (d (new_copy config) ≡ none) ⊎ ⊥
  First-free d (e, same, missing, became) = inl (
      rw (became, same)
        (put_other (new_state config) (new_copy config) (some content) before distinct.state.0
          ∙ clean.no_copy))

  Second-with_new : (d : Disk) → Second d → d ≡ with_new
  Second-with_new d (e, (e', same, missing', became'), missing, became) =
      rw (became, became', same) refl

  -- What `publish` ends with.
  abbrev End : Disk → Type 0
  End d =
      IsPublished config sys.getpid places files with_new d × All (IsDone config with_new d) files

  Meets-finish :
      Meets ⊥
        (λ _. Unit)
        (Has sys (λ d. d ≡ before))
        (finish sys ts config st comment false files)
        (λ _. Has sys End)
  unfolding finish
  Meets-finish =
      Meets-bind (λ _. Has sys First)
        (Meets-write ⊥ sys posix able ts st (new_state config) comment (λ _. Unit) (λ d. d ≡ before)
          (λ d p. tt) (λ d p missing c. tt) (λ d e. inl (rw e clean.no_state)))
        (λ _.
          Meets-bind (λ _. Has sys Second)
            (Meets-write ⊥ sys posix able ts st (new_copy config) comment (λ _. Unit) First
              (λ d p. tt) (λ d p missing c. tt) First-free)
            (λ _.
              Meets-weaken (λ w. Second-with_new (sys.disk w))
                (Meets-forget (
                  Meets-publish ⊥ sys posix able config with_new places files distinct
                    (states_IsReady config before content places files distinct clean)))))

-- If the calls of the system succeed where they can, the names of the files are different ones, and
-- of an earlier run no lock file and no new state is left, then the end of a run that is no dry run
-- returns. The present state file is then read as the new state (where the functions of libosmium
-- behave as documented, the sequence number is not 0 and fits 64 bits, the timestamp is not the unset
-- one, and the date of the comment has no newline), so the next run goes on from it; the new diff is
-- in its place, and every log file has its new name with its content.
pub finish_lem :
    (sys : System) (posix : IsPosix sys) (able : IsAble ⊥ sys) (ts : Timestamps) (iso : IsIso ts)
    (osm : Objects) (known : IsOsm osm) (config : Config) (st : State ts) (comment : Option Bytes)
    (places : Places st.m_sequence_number) (files : List Bytes) (w : sys.World)
    → AreDistinct config places files
    → IsClean config files (sys.disk w)
    → IsDate comment
    → 0 < st.m_sequence_number
    → st.m_sequence_number < u64_mod
    → ts.same st.m_timestamp ts.unset ≡ false
    → ((finish sys ts config st comment false files w).result ≡ ok tt)
      × (read_state ts osm
            (current_state config)
            (sys.disk (finish sys ts config st comment false files w).world (current_state config))
          ≡ ok st)
      × (sys.disk
            (finish sys ts config st comment false files w).world
            (public_change config places)
          ≡ sys.disk w (new_change config))
      × All
          (IsDone config
            (sys.disk w)
            (sys.disk (finish sys ts config st comment false files w).world))
          files
finish_lem sys posix able ts iso osm known config st comment places files w distinct clean date low
      high set =
    let text = state_text ts st comment in
    let before = sys.disk w in
    let m = Meets-finish sys posix able ts config st comment places files before distinct clean in
    let (u, same, ((change, state, copy), done)) =
      Post-returns
        (λ _. Has sys (End sys posix able ts config st comment places files before distinct clean))
        (finish sys ts config st comment false files w).world
        (finish sys ts config st comment false files w).result (m.at w refl).1 in
    (
      same,
      rw (copy, put_same (new_copy config) (some text) (put (new_state config) (some text) before))
          (read_state-state_text ts iso osm known (current_state config) st comment date low high
            set),
      change
          ∙ with_states_other config before text (new_change config)
              (λ e. distinct.change.0 (sym e)) (λ e. distinct.change.1.0 (sym e)),
      logs-IsDone config before text files
          (sys.disk (finish sys ts config st comment false files w).world) distinct.logs.1.1.0
          distinct.logs.1.1.1.0 done,
    )
