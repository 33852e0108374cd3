-- ===== src/Tests/Names.antt =====
-- The log that is made from the rows for a node, as it is read again, and the names of log files.
use osmdbt_pgoutput.Base.{
  ℕ, Bool, true, not, ◌&&◌, ◌==◌, ◌≡◌, ◌≢◌, refl, false, some, none, List, [], ◌∷◌, ◌++◌, map,
  arith, Bytes, codes, equal,
}
use osmdbt_pgoutput.Base.Int.{pos}
use osmdbt_pgoutput.Base.Result.{ok, throws, runtime_error}
use osmdbt_pgoutput.Cstd.{to_string, to_string_ℤ}
use osmdbt_pgoutput.Osmium.{node, Timestamps}
use osmdbt_pgoutput.Osmobj.{Osmobj, read_log}
use osmdbt_pgoutput.Osmobj.Reading.{IsWord, with_objects}
use osmdbt_pgoutput.Lsn.{LsnType, less}
use osmdbt_pgoutput.Util.{create_replication_log_name}
use osmdbt_pgoutput.GetLog.{Row, Log, process_rows, empty_log}
use osmdbt_pgoutput.GetLog.Reading.{Tells, read_log-process_rows, IsNamed}
use osmdbt_pgoutput.GetLog.Events.{Event, skipped, inserts, log_of}
use osmdbt_pgoutput.GetLog.App.{log_file_name, run}
use osmdbt_pgoutput.CreateDiff.Selection.{read_log_files}
use osmdbt_pgoutput.Pipeline.{read_log_files-run}
use osmdbt_pgoutput.Posix.{Disk}
use osmdbt_pgoutput.Config.{defaults}
use osmdbt_pgoutput.Db.{get_db_version}
use osmdbt_pgoutput.Tests.Apps.{db}
use osmdbt_pgoutput.Tests.Diff.{ts}
use osmdbt_pgoutput.Tests.Memory.{memory, memory-IsPosix, memory-IsAble}
use osmdbt_pgoutput.LogNames.{logs_in_dir}
use osmdbt_pgoutput.LogNames.Entries.{
  Entry, complete, faked, in_progress, done, name_of, logs_in_dir-name_of,
}
use osmdbt_pgoutput.Catchup.{get_lsn}
use osmdbt_pgoutput.Catchup.Names.{get_lsn-name_of}
use osmdbt_pgoutput.Tests.Log.{relation_row, insert_row, decoded}
use osmdbt_pgoutput.Tests.Files.{osm, osm-IsOsm, no_objects}

abbrev obj : Osmobj
obj = record { m_type = node; m_id = pos 17; m_version = 2; m_cid = 4 }

abbrev is_word : Bytes → Bool
is_word [] = true
is_word (c ∷ s) = not (c == b' ') && not (c == b'\n') && is_word s

word : (s : Bytes) → is_word s ≡ true → IsWord s
word [] h = (tt, tt)
word (c ∷ s) h =
    let rest = word s (ground arith) in
    let (space, newline) : (c ≢ b' ') × (c ≢ b'\n') = ground arith in
    ((space, rest.0), (newline, rest.1))

insert_row-IsNamed : IsNamed insert_row
insert_row-IsNamed = record {
  lsn_there = λ e. cc;
  lsn_word = word (codes "0/1A2B3C8") refl;
  xid_word = word (codes "751") refl;
}

abbrev events : List (Row × Event)
events = (relation_row, skipped) ∷ (insert_row, inserts (codes "N n17 v2 c4")) ∷ []

tells : Tells osm events (obj ∷ [])
unfolding to_string to_string_ℤ
tells = (
  insert_row-IsNamed,
  record {
    of_object = refl;
    id_fits = omega arith;
    version_fits = omega arith;
    cid_fits = omega arith;
  },
  refl,
  tt,
)

read_log-process_rows_example :
    (log' : Log) × (process_rows (relation_row ∷ insert_row ∷ []) empty_log ≡ ok log')
    × (read_log osm (codes "/log/") (codes "a.log") (some log'.text) (no_objects, none)
        ≡ ok (with_objects osm (obj ∷ []) (no_objects, none)))
read_log-process_rows_example =
    read_log-process_rows osm osm-IsOsm (codes "/log/") (codes "a.log")
      (relation_row ∷ insert_row ∷ []) events decoded.0 (obj ∷ []) (no_objects, none) decoded.1
      tells

-- No file is there.
abbrev no_files : Disk
no_files name = none

abbrev log : Log
log = log_of empty_log events decoded.0

read_log_files-run_example :
    ((run memory db ts defaults 3 false (relation_row ∷ insert_row ∷ []) no_files).result ≡ ok true)
    × (read_log_files osm defaults.m_log_dir
          (λ name.
            (run memory db ts defaults 3 false (relation_row ∷ insert_row ∷ []) no_files).world
              (defaults.m_log_dir ++ name))
          0
          (log_file_name memory db ts defaults 3 log ∷ [])
          (no_objects, none)
        ≡ ok (
          with_objects osm (obj ∷ []) (no_objects, none),
          log_file_name memory db ts defaults 3 log ∷ [],
        ))
unfolding get_db_version equal
read_log_files-run_example =
    read_log_files-run memory memory-IsPosix memory-IsAble db ts defaults 3 osm osm-IsOsm
      relation_row (insert_row ∷ []) events decoded.0 (obj ∷ []) (codes "PostgreSQL 13") no_files 0
      (no_objects, none) refl decoded.1 tells refl refl

-- Times as their own texts.
abbrev texts : Timestamps
texts = record {
  Timestamp = Bytes;
  unset = [];
  later = λ t u. false;
  same = equal;
  of_iso = some;
  to_iso_all = λ t. t;
}

abbrev time : Bytes
time = codes "2020-03-18T14:18:49Z"

abbrev lsn : ℕ → LsnType
lsn n = record { m_lsn = n }

abbrev directory : List (Entry texts)
directory =
    done (codes "old.log")
    ∷ complete (lsn 0x1924DE0) time
    ∷ complete (lsn 0x1924D00) time
    ∷ in_progress (codes "new.log")
    ∷ []

logs_in_dir-name_of_example :
    logs_in_dir (map (name_of texts) directory)
    ≡ map (name_of texts) (complete (lsn 0x1924DE0) time ∷ complete (lsn 0x1924D00) time ∷ [])
logs_in_dir-name_of_example = logs_in_dir-name_of texts directory

get_lsn-name_of_example : get_lsn (map (name_of texts) directory) ≡ ok (lsn 0x1924DE0)
unfolding less
get_lsn-name_of_example =
    get_lsn-name_of texts directory (tt, ((omega arith, refl), ((omega arith, refl), (tt, tt))))

-- A log of `osmdbt-fake-log` in the log directory.
fails :
    get_lsn (map (name_of texts) (faked (codes "2020-03-18T14:18:00Z") time ∷ []))
    ≡ throws (
        runtime_error (
          codes
            "Invalid log file format: 'osm-repl-2020-03-18T14:18:49Z-2020-03-18T14:18:00Z.log'"))
unfolding create_replication_log_name
fails = get_lsn-name_of texts (faked (codes "2020-03-18T14:18:00Z") time ∷ []) ((refl, refl), tt)
