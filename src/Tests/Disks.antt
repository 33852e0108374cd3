-- ===== src/Tests/Disks.antt =====
-- Runs on files, and the theorems on files applied to a concrete system.
use osmdbt_pgoutput.Base.{ℕ, ◌∷◌, ◌≡◌, refl, none, some, [], Bytes, codes, equal, equal_refl, All}
use osmdbt_pgoutput.Base.Result.{ok, throws, system_error}
use osmdbt_pgoutput.Posix.{Disk, put}
use osmdbt_pgoutput.Posix.Meets.{Post}
use osmdbt_pgoutput.Io.{
  rename_file, sync_dir, excl_write_open, reliable_write, reliable_fsync, reliable_close,
  check_pid_fd, pid_path, create_pid_file, pid_file,
}
use osmdbt_pgoutput.Posix.Program.{pure, ◌>>=◌}
use osmdbt_pgoutput.Cstd.{to_string}
use osmdbt_pgoutput.Io.Refused.{IsRefused}
use osmdbt_pgoutput.Io.Lock.{Reach, begin, later, enters, pid_file_lem}
use osmdbt_pgoutput.Util.{write_data_to_file}
use osmdbt_pgoutput.Util.Whole.{IsAtomic, IsWritten}
use osmdbt_pgoutput.Util.Atomic.{
  write_data_to_file_lem, write_data_to_file_returns, write_data_to_file_left_over,
}
use osmdbt_pgoutput.Tests.Memory.{memory, memory-IsPosix, memory-IsAble}

abbrev nothing : Disk
nothing name = none

abbrev dir : Bytes
dir = codes "/log/"

abbrev file : Bytes
file = codes "a.log"

abbrev full : Bytes
full = codes "/log/a.log"

write_data_to_file_run :
    (write_data_to_file memory (codes "text") dir file nothing).world full ≡ some (codes "text")
unfolding write_data_to_file rename_file sync_dir excl_write_open reliable_write reliable_fsync
    reliable_close equal
write_data_to_file_run = refl

write_data_to_file_lem_example :
    All
      (λ v. IsAtomic full (codes "text") nothing v)
      (write_data_to_file memory (codes "text") dir file nothing).passed
    × Post Unit
        (λ _ v. IsWritten full (codes "text") nothing v)
        (write_data_to_file memory (codes "text") dir file nothing).result
        (write_data_to_file memory (codes "text") dir file nothing).world
write_data_to_file_lem_example =
    write_data_to_file_lem memory memory-IsPosix (codes "text") dir file nothing

write_data_to_file_returns_example :
    ((write_data_to_file memory (codes "text") dir file nothing).result ≡ ok tt)
    × ((write_data_to_file memory (codes "text") dir file nothing).world full ≡ some (codes "text"))
write_data_to_file_returns_example =
    write_data_to_file_returns memory memory-IsPosix memory-IsAble (codes "text") dir file nothing
      refl

abbrev left : Disk
left = put (codes "/log/a.log.new") (some (codes "te")) nothing

write_data_to_file_left_over_example :
    ((write_data_to_file memory (codes "text") dir file left).result ≡ throws (system_error []))
    × ((write_data_to_file memory (codes "text") dir file left).world ≡ left)
write_data_to_file_left_over_example =
    write_data_to_file_left_over memory memory-IsPosix (codes "text") dir file (codes "te") left
      (rw (equal_refl (codes "/log/a.log.new")) refl)

-- A program has called `open` for its PID file, when another starts.
abbrev run_dir : Bytes
run_dir = codes "/run/"

abbrev name : Bytes
name = codes "osmdbt-log"

abbrev pid : Bytes
pid = pid_path run_dir name

abbrev created : Disk
created = put pid (some []) nothing

abbrev written : Disk
written = put pid (some (codes "42\n")) created

inside : Reach memory run_dir name nothing created 1
unfolding pid_file create_pid_file excl_write_open check_pid_fd reliable_write reliable_close equal
    to_string
inside = later begin (enters pid [] (written ∷ written ∷ []) created refl refl)

pid_file_lem_example :
    (◌≡◌ {A = ℕ} 0 0)
    × IsRefused memory pid created ((pid_file memory run_dir name >>= pure) created)
pid_file_lem_example =
    pid_file_lem memory memory-IsPosix run_dir name (λ same. absurd (cc same)) nothing created 0
      pure inside
