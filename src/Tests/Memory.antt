-- ===== src/Tests/Memory.antt =====
-- A system whose state is nothing but the files, and in which every call succeeds that can.
use osmdbt_pgoutput.Base.{◌≡◌, refl, inl, Bool, true, false, Option, none, some, [], ◌++◌, Bytes}
use osmdbt_pgoutput.Posix.{Fd, opened, exists, denied, Disk, put, System, IsPosix, IsAble}

abbrev open_at : Option Bytes → Bytes → Disk → Fd × Disk
open_at none name d = (opened name, put name (some []) d)
open_at (some content) name d = (exists, d)

abbrev write_at : Option Bytes → Bytes → Bytes → Disk → Bool × Disk
write_at none name text d = (true, put name (some text) d)
write_at (some content) name text d = (true, put name (some (content ++ text)) d)

abbrev write_fd : Fd → Bytes → Disk → Bool × Disk
write_fd (opened name) text d = write_at (d name) name text d
write_fd exists text d = (false, d)
write_fd denied text d = (false, d)

abbrev rename_at : Option Bytes → Bytes → Bytes → Disk → Bool × Disk
rename_at none old new d = (false, d)
rename_at (some content) old new d = (true, put old none (put new (some content) d))

abbrev pub memory : System
memory = record {
  World = Disk;
  disk = λ d. d;
  getpid = 42;
  open_excl = λ name d. open_at (d name) name d;
  write = write_fd;
  fsync = λ fd d. (true, d);
  close = λ fd d. (true, d);
  rename = λ old new d. rename_at (d old) old new d;
  open_dir = λ name d. (true, d);
  fsync_dir = λ name d. (true, d);
  close_dir = λ name d. (true, d);
  create_directories = λ name d. (true, d);
  unlink = λ name d. put name none d;
}

open_lem :
    (o : Option Bytes) (name other : Bytes) (d : Disk)
    → (open_at o name d).0 ≡ opened other
    → (other ≡ name) × (o ≡ none) × ((open_at o name d).1 ≡ put name (some []) d)
open_lem none name other d e = (cc e, refl, refl)
open_lem (some content) name other d e = absurd (cc e)

open_same :
    (o : Option Bytes) (name : Bytes) (d : Disk)
    → (open_at o name d).0 ≡ exists
    → (open_at o name d).1 ≡ d
open_same none name d e = absurd (cc e)
open_same (some content) name d e = refl

open_not_denied :
    (o : Option Bytes) (name : Bytes) (d : Disk)
    → (open_at o name d).0 ≡ denied
    → (open_at o name d).1 ≡ d
open_not_denied none name d e = absurd (cc e)
open_not_denied (some content) name d e = refl

write_true : (o : Option Bytes) (name text : Bytes) (d : Disk) → (write_at o name text d).0 ≡ true
write_true none name text d = refl
write_true (some content) name text d = refl

rename_false :
    (o : Option Bytes) (old new : Bytes) (d : Disk)
    → (rename_at o old new d).0 ≡ false
    → (rename_at o old new d).1 ≡ d
rename_false none old new d e = refl
rename_false (some content) old new d e = absurd (cc e)

pub memory-IsPosix : IsPosix memory
memory-IsPosix = record {
  opens = λ name other d e. open_lem (d name) name other d e;
  open_exists = λ name d e. open_same (d name) name d e;
  open_denied = λ name d e. open_not_denied (d name) name d e;
  writes = λ name text content d there e. rw there refl;
  write_failed = λ name text content d there e. absurd (cc (write_true (d name) name text d, e));
  write_exists = λ text d. (refl, refl);
  write_denied = λ text d. (refl, refl);
  fsyncs = λ fd d. refl;
  closes = λ fd d. refl;
  renames = λ old new content d ne there e. rw there refl;
  rename_missing = λ old new d missing. rw missing refl;
  rename_failed = λ old new d e. rename_false (d old) old new d e;
  opens_dir = λ name d. refl;
  fsyncs_dir = λ name d. refl;
  closes_dir = λ name d. refl;
  creates = λ name d. refl;
  unlinks = λ name d. inl refl;
}

pub memory-IsAble : IsAble ⊥ memory
memory-IsAble = record {
  opens = λ name d free. inl (rw free refl);
  writes = λ name text d. inl (write_true (d name) name text d);
  fsyncs = λ name d. inl refl;
  closes = λ name d. inl refl;
  renames = λ old new content d there. inl (rw there refl);
  opens_dir = λ name d. inl refl;
  fsyncs_dir = λ name d. inl refl;
  closes_dir = λ name d. inl refl;
  creates = λ name d. inl refl;
}
