-- ===== src/Posix.antt =====
-- What the programs take from the operating system: an interface over an unknown state of the
-- machine, with the documented behaviour of its calls as laws. A descriptor is the name under which
-- `open` has created the file, since the programs close it before they rename the file.
pub mod Program
pub mod Meets
pub mod Ends
pub mod Put
use osmdbt_pgoutput.Base.{
  ℕ, Bool, true, false, Option, none, some, [], ◌++◌, ◌≡◌, ◌≢◌, ◌⊎◌, inr, if◌then◌else◌, Bytes,
  equal,
}

-- What `open` gives: a descriptor, or -1 with `errno` EEXIST or another.
pub data Fd : Type 0 where
  opened : Bytes → Fd
  exists denied : Fd

-- The content of each file, by its name; `none` where there is no file.
abbrev pub Disk : Type 0
Disk = Bytes → Option Bytes

abbrev pub put : Bytes → Option Bytes → Disk → Disk
put name content disk other = if equal other name then content else disk other

-- The calls, each with the success that it reports. `open_excl` creates a file for writing and
-- fails if there is one; `write`, `fsync` and `close` are those of libosmium, which try again until
-- all is done or an error is reported.
pub record System : Type 1 where
  pub World : Type 0
  pub disk : World → Disk
  pub getpid : ℕ
  pub open_excl : Bytes → World → Fd × World
  pub write : Fd → Bytes → World → Bool × World
  pub fsync : Fd → World → Bool × World
  pub close : Fd → World → Bool × World
  pub rename : Bytes → Bytes → World → Bool × World
  pub open_dir : Bytes → World → Bool × World
  pub fsync_dir : Bytes → World → Bool × World
  pub close_dir : Bytes → World → Bool × World
  pub create_directories : Bytes → World → Bool × World
  pub unlink : Bytes → World → World

-- The calls that change the contents of files, and the others, which do not.
pub record IsPosix (sys : System) : Type 0 where
  pub opens :
      (name other : Bytes) (w : sys.World)
      → (sys.open_excl name w).0 ≡ opened other
      → (other ≡ name)
        × (sys.disk w name ≡ none)
        × (sys.disk (sys.open_excl name w).1 ≡ put name (some []) (sys.disk w))
  pub open_exists :
      (name : Bytes) (w : sys.World)
      → (sys.open_excl name w).0 ≡ exists
      → sys.disk (sys.open_excl name w).1 ≡ sys.disk w
  pub open_denied :
      (name : Bytes) (w : sys.World)
      → (sys.open_excl name w).0 ≡ denied
      → sys.disk (sys.open_excl name w).1 ≡ sys.disk w
  pub writes :
      (name text content : Bytes) (w : sys.World)
      → sys.disk w name ≡ some content
      → (sys.write (opened name) text w).0 ≡ true
      → sys.disk (sys.write (opened name) text w).1 ≡ put name (some (content ++ text)) (sys.disk w)
  pub write_failed :
      (name text content : Bytes) (w : sys.World)
      → sys.disk w name ≡ some content
      → (sys.write (opened name) text w).0 ≡ false
      → (part : Bytes) × (sys.disk (sys.write (opened name) text w).1
          ≡ put name (some part) (sys.disk w))
  pub write_exists :
      (text : Bytes) (w : sys.World)
      → ((sys.write exists text w).0 ≡ false) × (sys.disk (sys.write exists text w).1 ≡ sys.disk w)
  pub write_denied :
      (text : Bytes) (w : sys.World)
      → ((sys.write denied text w).0 ≡ false) × (sys.disk (sys.write denied text w).1 ≡ sys.disk w)
  pub fsyncs : (fd : Fd) (w : sys.World) → sys.disk (sys.fsync fd w).1 ≡ sys.disk w
  pub closes : (fd : Fd) (w : sys.World) → sys.disk (sys.close fd w).1 ≡ sys.disk w
  pub renames :
      (old new content : Bytes) (w : sys.World)
      → old ≢ new
      → sys.disk w old ≡ some content
      → (sys.rename old new w).0 ≡ true
      → sys.disk (sys.rename old new w).1 ≡ put old none (put new (some content) (sys.disk w))
  pub rename_missing :
      (old new : Bytes) (w : sys.World) → sys.disk w old ≡ none → (sys.rename old new w).0 ≡ false
  pub rename_failed :
      (old new : Bytes) (w : sys.World)
      → (sys.rename old new w).0 ≡ false
      → sys.disk (sys.rename old new w).1 ≡ sys.disk w
  pub opens_dir : (name : Bytes) (w : sys.World) → sys.disk (sys.open_dir name w).1 ≡ sys.disk w
  pub fsyncs_dir : (name : Bytes) (w : sys.World) → sys.disk (sys.fsync_dir name w).1 ≡ sys.disk w
  pub closes_dir : (name : Bytes) (w : sys.World) → sys.disk (sys.close_dir name w).1 ≡ sys.disk w
  pub creates :
      (name : Bytes) (w : sys.World) → sys.disk (sys.create_directories name w).1 ≡ sys.disk w
  pub unlinks :
      (name : Bytes) (w : sys.World)
      → (sys.disk (sys.unlink name w) ≡ put name none (sys.disk w))
        ⊎ (sys.disk (sys.unlink name w) ≡ sys.disk w)

-- A system whose calls succeed where they can, if an exception means nothing (`Fail` is `⊥`); any
-- system, if exceptions may occur (`Fail` is `Unit`).
pub record IsAble (Fail : Type 0) (sys : System) : Type 0 where
  pub opens :
      (name : Bytes) (w : sys.World)
      → sys.disk w name ≡ none
      → ((sys.open_excl name w).0 ≡ opened name) ⊎ Fail
  pub writes :
      (name text : Bytes) (w : sys.World) → ((sys.write (opened name) text w).0 ≡ true) ⊎ Fail
  pub fsyncs : (name : Bytes) (w : sys.World) → ((sys.fsync (opened name) w).0 ≡ true) ⊎ Fail
  pub closes : (name : Bytes) (w : sys.World) → ((sys.close (opened name) w).0 ≡ true) ⊎ Fail
  pub renames :
      (old new content : Bytes) (w : sys.World)
      → sys.disk w old ≡ some content
      → ((sys.rename old new w).0 ≡ true) ⊎ Fail
  pub opens_dir : (name : Bytes) (w : sys.World) → ((sys.open_dir name w).0 ≡ true) ⊎ Fail
  pub fsyncs_dir : (name : Bytes) (w : sys.World) → ((sys.fsync_dir name w).0 ≡ true) ⊎ Fail
  pub closes_dir : (name : Bytes) (w : sys.World) → ((sys.close_dir name w).0 ≡ true) ⊎ Fail
  pub creates : (name : Bytes) (w : sys.World) → ((sys.create_directories name w).0 ≡ true) ⊎ Fail

pub any-IsAble : (sys : System) → IsAble Unit sys
any-IsAble sys = record {
  opens = λ name w free. inr tt;
  writes = λ name text w. inr tt;
  fsyncs = λ name w. inr tt;
  closes = λ name w. inr tt;
  renames = λ old new content w there. inr tt;
  opens_dir = λ name w. inr tt;
  fsyncs_dir = λ name w. inr tt;
  closes_dir = λ name w. inr tt;
  creates = λ name w. inr tt;
}
