-- ===== src/State/Written.antt =====
-- What is in a state file that `State::write` has written.
use osmdbt_pgoutput.Base.{◌<◌, ◌≡◌, refl, ◌⊎◌, inl, false, Option, none, some, Bytes}
use osmdbt_pgoutput.Base.Result.{ok}
use osmdbt_pgoutput.Cstd.{u64_mod}
use osmdbt_pgoutput.Osmium.{Timestamps, IsIso, Objects, IsOsm}
use osmdbt_pgoutput.Posix.{Disk, put, System, IsPosix, IsAble}
use osmdbt_pgoutput.Posix.Put.{put_same}
use osmdbt_pgoutput.Posix.Meets.{Meets, Meets-bind, Post-returns}
use osmdbt_pgoutput.Io.Rules.{Has, Meets-reliable_fsync, Meets-reliable_close}
use osmdbt_pgoutput.Io.Create.{Made, IsCheck, Meets-create}
use osmdbt_pgoutput.State.{State, state_text, read_state}
use osmdbt_pgoutput.State.Write.{check_state_fd, write}
use osmdbt_pgoutput.State.RoundTrip.{IsDate, read_state-state_text}

pub check_state_fd-IsCheck : (filename : Bytes) → IsCheck (check_state_fd filename)
unfolding check_state_fd
check_state_fd-IsCheck filename = record {
  passes = λ name. refl;
  no_file = (_, refl);
  no_rights = (_, refl);
}

module _ (Fail : Type 0) (sys : System) (posix : IsPosix sys) (able : IsAble Fail sys)
    (ts : Timestamps) (st : State ts) (filename : Bytes) (comment : Option Bytes) where
  -- The rule for `write`: a new file, complete when it returns.
  pub Meets-write :
      (I P : Disk → Type 0)
      → ((d : Disk) → P d → I d)
      → ((d : Disk) → P d → d filename ≡ none → (c : Option Bytes) → I (put filename c d))
      → ((d : Disk) → P d → (d filename ≡ none) ⊎ Fail)
      → Meets Fail
          (Has sys I)
          (Has sys P)
          (write sys ts st filename comment)
          (λ _. Has sys (Made P filename (state_text ts st comment)))
  unfolding write
  Meets-write I P safe part free =
      let M = Made P filename (state_text ts st comment) in
      let kept : (d : Disk) → M d → I d =
        λ e (d, p, missing, became). rw became (part d p missing _) in
      Meets-create Fail sys posix able I P filename (state_text ts st comment)
        (check_state_fd filename) (check_state_fd-IsCheck filename) _ (λ _. Has sys M) part
        (Meets-bind (λ _. Has sys M) (Meets-reliable_fsync Fail sys posix able I M kept filename)
          (λ _. Meets-reliable_close Fail sys posix able I M kept filename))
        safe free

-- If the calls of the system succeed where they can and there is no file of that name, `write`
-- returns, and the constructor that reads the file then gives the state back (where the functions of
-- libosmium behave as documented, the sequence number is not 0 and fits 64 bits, the timestamp is not
-- the unset one, and the date of the comment has no newline).
pub read_state-write :
    (sys : System) (posix : IsPosix sys) (able : IsAble ⊥ sys) (ts : Timestamps) (iso : IsIso ts)
    (osm : Objects) (known : IsOsm osm) (st : State ts) (filename : Bytes) (comment : Option Bytes)
    (w : sys.World)
    → sys.disk w filename ≡ none
    → IsDate comment
    → 0 < st.m_sequence_number
    → st.m_sequence_number < u64_mod
    → ts.same st.m_timestamp ts.unset ≡ false
    → ((write sys ts st filename comment w).result ≡ ok tt)
      × (read_state ts osm filename (sys.disk (write sys ts st filename comment w).world filename)
          ≡ ok st)
read_state-write sys posix able ts iso osm known st filename comment w free date low high set =
    let m =
      Meets-write ⊥ sys posix able ts st filename comment (λ _. Unit) (λ d. d filename ≡ none)
        (λ d p. tt) (λ d p missing c. tt) (λ d p. inl p) in
    let (u, same, (d, p, missing, became)) =
      Post-returns
        (λ _. Has sys (Made (λ d. d filename ≡ none) filename (state_text ts st comment)))
        (write sys ts st filename comment w).world (write sys ts st filename comment w).result
        (m.at w free).1 in
    (
      same,
      rw (became, put_same filename (some (state_text ts st comment)) d)
          (read_state-state_text ts iso osm known filename st comment date low high set),
    )
