-- ===== src/Tests/Publishing.antt =====
-- A diff that is made public, on a concrete system.
use osmdbt_pgoutput.Base.{
  ◌≡◌, ◌≢◌, refl, sym, Bool, true, false, none, some, List, [], ◌∷◌, Bytes, codes, equal,
  equal_refl, All, inl, inr, if◌then◌else◌, Bool-cases, arith,
}
use osmdbt_pgoutput.Base.Result.{ok}
use osmdbt_pgoutput.Cstd.{to_padded, snprintf}
use osmdbt_pgoutput.Posix.{Disk, put}
use osmdbt_pgoutput.Posix.Meets.{Post}
use osmdbt_pgoutput.Config.{Config, defaults}
use osmdbt_pgoutput.State.{path, state_path, osc_path, dir1_path, dir2_path}
use osmdbt_pgoutput.CreateDiff.Publish.{publish}
use osmdbt_pgoutput.CreateDiff.Moves.{IsOther, IsDone}
use osmdbt_pgoutput.CreateDiff.Order.{Places, AreDistinct, IsGuarded, IsPublished, IsClear}
use osmdbt_pgoutput.CreateDiff.Order.Safe.{publish_lem}
use osmdbt_pgoutput.CreateDiff.Order.Steps.{IsReady}
use osmdbt_pgoutput.State.{State, read_state}
use osmdbt_pgoutput.CreateDiff.Publish.{finish}
use osmdbt_pgoutput.CreateDiff.Finish.{IsClean, finish_lem}
use osmdbt_pgoutput.Tests.Diff.{ts}
use osmdbt_pgoutput.Tests.Files.{osm, osm-IsOsm}
use osmdbt_pgoutput.Tests.States.{ts_IsIso}
use osmdbt_pgoutput.Tests.Memory.{memory, memory-IsPosix, memory-IsAble}

abbrev config : Config
config = record defaults {
  m_log_dir = codes "/log/";
  m_changes_dir = codes "/changes/";
  m_tmp_dir = codes "/tmp/";
}

abbrev files : List Bytes
files = codes "a.log" ∷ codes "b.log" ∷ []

paths :
    (dir1_path 4999 ≡ ok (codes "000"))
    × (dir2_path 4999 ≡ ok (codes "000/004"))
    × (osc_path 4999 ≡ ok (codes "000/004/999.osc"))
    × (state_path 4999 ≡ ok (codes "000/004/999.state.txt"))
unfolding dir1_path dir2_path osc_path state_path path to_padded snprintf
paths = (refl, refl, refl, refl)

abbrev places : Places 4999
places = record {
  dir1 = codes "000";
  dir2 = codes "000/004";
  osc = codes "000/004/999.osc";
  state = codes "000/004/999.state.txt";
  dir1_eq = paths.0;
  dir2_eq = paths.1;
  osc_eq = paths.2;
  state_eq = paths.3;
}

-- Names that a test tells apart.
differ : (x y : Bytes) → equal x y ≡ false → x ≢ y
differ x y different same = absurd (cc (equal_refl y, different, same))

abbrev all_differ : Bytes → List Bytes → Bool
all_differ y [] = true
all_differ y (x ∷ xs) = let rest = all_differ y xs in if equal x y then false else rest

all_differ-All : (y : Bytes) (xs : List Bytes) → all_differ y xs ≡ true → All (λ x. x ≢ y) xs
all_differ-All y [] e = tt
all_differ-All y (x ∷ xs) e = elim (Bool-cases (equal x y)) [
  | inl same ↦ absurd (cc (rw same at e))
  | inr different ↦ (differ x y different, all_differ-All y xs (rw different at e))
]

abbrev states : List Bytes
states = codes "/changes/000/004/999.state.txt" ∷ codes "/changes/state.txt" ∷ []

abbrev published : List Bytes
published = codes "/changes/000/004/999.osc.gz" ∷ states

abbrev from_copy : List Bytes
from_copy = codes "/tmp/new-state.txt.copy" ∷ published

abbrev from_state : List Bytes
from_state = codes "/tmp/new-state.txt" ∷ from_copy

abbrev start : Disk
start = put (codes "/tmp/new-change.osc.gz") (some (codes "diff")) (
    put (codes "/tmp/new-state.txt") (some (codes "state")) (
      put (codes "/tmp/new-state.txt.copy") (some (codes "state")) (
        put (codes "/log/a.log") (some (codes "a"))
          (put (codes "/log/b.log") (some (codes "b")) (λ name. none)))))

abbrev log_names : List Bytes
log_names =
    codes "/log/a.log" ∷ codes "/log/a.log.done" ∷ codes "/log/b.log" ∷ codes "/log/b.log.done" ∷ []

clear : (name : Bytes) → all_differ name log_names ≡ true → IsClear config files name
clear name e =
    let (a, (a', (b, (b', u)))) = all_differ-All name log_names e in
    ((λ x. a (sym x), λ x. a' (sym x)), ((λ x. b (sym x), λ x. b' (sym x)), tt))

other : IsOther config (codes "a.log") (codes "b.log")
unfolding equal
other = record {
  log_log = differ (codes "/log/b.log") (codes "/log/a.log") refl;
  log_done = differ (codes "/log/b.log") (codes "/log/a.log.done") refl;
  done_log = differ (codes "/log/b.log.done") (codes "/log/a.log") refl;
  done_done = differ (codes "/log/b.log.done") (codes "/log/a.log.done") refl;
}

distinct : AreDistinct config places files
unfolding equal
distinct = record {
  lock =
      all_differ-All (codes "/tmp/osmdbt-create-diff.lock")
        (codes "/tmp/new-change.osc.gz" ∷ from_state) refl;
  change = all_differ-All (codes "/tmp/new-change.osc.gz") from_state refl;
  state = all_differ-All (codes "/tmp/new-state.txt") from_copy refl;
  copy = all_differ-All (codes "/tmp/new-state.txt.copy") published refl;
  published = all_differ-All (codes "/changes/000/004/999.osc.gz") states refl;
  current = differ (codes "/changes/state.txt") (codes "/changes/000/004/999.state.txt") refl;
  logs = (
    clear (codes "/tmp/osmdbt-create-diff.lock") refl,
    (
      clear (codes "/tmp/new-change.osc.gz") refl,
      (
        clear (codes "/tmp/new-state.txt") refl,
        (
          clear (codes "/tmp/new-state.txt.copy") refl,
          (
            clear (codes "/changes/000/004/999.osc.gz") refl,
            (
              clear (codes "/changes/000/004/999.state.txt") refl,
              (clear (codes "/changes/state.txt") refl, tt),
            ),
          ),
        ),
      ),
    ),
  );
  apart = ((other, tt), (tt, tt));
}

ready : IsReady ⊥ config files start
unfolding equal
ready = record {
  no_lock = inl refl;
  change = inl (codes "diff", refl);
  state = inl (codes "state", refl);
  copy = inl (codes "state", refl);
  logs = (inl (codes "a", refl), (inl (codes "b", refl), tt));
}

publish_lem_example :
    All
      (λ v. IsGuarded config 42 places files start v)
      (publish memory config 4999 files start).passed
    × Post Unit
        (λ _ v. IsPublished config 42 places files start v × All (IsDone config start v) files)
        (publish memory config 4999 files start).result
        (publish memory config 4999 files start).world
publish_lem_example = publish_lem memory memory-IsPosix config places files start distinct

abbrev state : State ts
state = record { m_sequence_number = 4999; m_timestamp = 20 }

-- No state file is there yet.
abbrev unwritten : Disk
unwritten = put (codes "/tmp/new-change.osc.gz") (some (codes "diff")) (
    put (codes "/log/a.log") (some (codes "a"))
      (put (codes "/log/b.log") (some (codes "b")) (λ name. none)))

clean : IsClean config files unwritten
unfolding equal
clean = record {
  no_lock = refl;
  no_state = refl;
  no_copy = refl;
  change = (codes "diff", refl);
  logs = ((codes "a", refl), ((codes "b", refl), tt));
}

finish_lem_example :
    ((finish memory ts config state none false files unwritten).result ≡ ok tt)
    × (read_state ts osm (codes "/changes/state.txt") (
          (finish memory ts config state none false files unwritten).world
            (codes "/changes/state.txt"))
        ≡ ok state)
    × ((finish memory ts config state none false files unwritten).world
          (codes "/changes/000/004/999.osc.gz")
        ≡ unwritten (codes "/tmp/new-change.osc.gz"))
    × All
        (IsDone config unwritten (finish memory ts config state none false files unwritten).world)
        files
finish_lem_example =
    finish_lem memory memory-IsPosix memory-IsAble ts ts_IsIso osm osm-IsOsm config state none
      places files unwritten distinct clean tt (omega arith) (omega arith) refl
