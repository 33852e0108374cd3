-- ===== src/Tests/Apps.antt =====
-- The programs around their parts, at concrete inputs.
use mathlib.Core.Logic.{◌↔◌}
use osmdbt_pgoutput.Base.{
  ◌≡◌, refl, true, false, Option, none, some, [], ◌∷◌, ◌++◌, map, if◌then◌else◌, Bytes, codes,
  equal,
}
use osmdbt_pgoutput.Base.Int.{pos}
use osmdbt_pgoutput.Base.Result.{ok, ◌>>=◌}
use osmdbt_pgoutput.Cstd.{strtoll}
use osmdbt_pgoutput.Osmium.{node, join}
use osmdbt_pgoutput.Osmobj.{Osmobj, Todo}
use osmdbt_pgoutput.Pgoutput.{new_parser}
use osmdbt_pgoutput.Posix.{Disk}
use osmdbt_pgoutput.Config.{Config, defaults}
use osmdbt_pgoutput.Programs.{AllRefused, app-AllRefused}
use osmdbt_pgoutput.Db.{Database}
use osmdbt_pgoutput.GetLog.{Log, lsn_dash, dash}
use osmdbt_pgoutput.GetLog.App.{IsStored, finish_log_lem}
use osmdbt_pgoutput.CreateDiff.Queries.{wanted}
use osmdbt_pgoutput.CreateDiff.Values.{value, wanted_lem}
use osmdbt_pgoutput.CreateDiff.Selection.{read_log_files, IsSelected, read_log_files_lem}
use osmdbt_pgoutput.Options.{VariablesMap, fake_log_options}
use osmdbt_pgoutput.Util.{create_replication_log_name}
use osmdbt_pgoutput.Util.ExitCode.{app_wrapper}
use osmdbt_pgoutput.Tests.Diff.{ts}
use osmdbt_pgoutput.Tests.Files.{osm}
use osmdbt_pgoutput.Tests.Memory.{memory, memory-IsPosix}

abbrev obj : Osmobj
obj = record { m_type = node; m_id = pos 17; m_version = 2; m_cid = 5 }

wanted_lem_example :
    wanted (obj ∷ obj ∷ [])
    ≡ ok (
        (codes "WITH wanted(id, version) AS (VALUES "
          ++ join b',' (value obj) (map value (obj ∷ [])))
        ++ codes ") ")
wanted_lem_example = wanted_lem obj (obj ∷ [])

abbrev todo : Todo
todo = (record { nodes = []; ways = []; relations = [] }, none)

abbrev found : Todo
found = (record { nodes = obj ∷ []; ways = []; relations = [] }, none)

abbrev logs : Bytes → Option Bytes
logs name = if equal name (codes "a.log") then some (codes "0/0 0 N n17 v2 c5\n") else none

-- One object is over a limit of none, so the second file is left.
selected :
    read_log_files osm (codes "/log/") logs 0 (codes "a.log" ∷ codes "b.log" ∷ []) todo
    ≡ ok (found, codes "a.log" ∷ [])
unfolding read_log_files equal strtoll
selected = refl

read_log_files_lem_example :
    (read_log_files osm (codes "/log/") logs 0 (codes "a.log" ∷ codes "b.log" ∷ []) todo
      ≡ ok (found, codes "a.log" ∷ []))
    ↔ IsSelected osm
        (codes "/log/")
        logs
        0
        (codes "a.log" ∷ codes "b.log" ∷ [])
        todo
        (found, codes "a.log" ∷ [])
read_log_files_lem_example =
    read_log_files_lem osm (codes "/log/") logs 0 (codes "a.log" ∷ codes "b.log" ∷ []) todo
      (found, codes "a.log" ∷ [])

abbrev pub db : Database Disk
db = record {
  server_version = 130000;
  version = codes "PostgreSQL 13" ∷ [];
  advance = λ slot lsn d. (true, d);
  commit = λ d. (true, d);
}

-- The PID file of another run.
abbrev with_pid_file : Disk
with_pid_file name = if equal name (codes "/run/osmdbt-log.pid") then some (codes "17") else none

abbrev with_run_dir : Config
with_run_dir = record defaults { m_run_dir = codes "/run/" }

app-AllRefused_example : AllRefused memory db ts osm with_run_dir with_pid_file
unfolding equal
app-AllRefused_example =
    app-AllRefused memory db ts osm with_run_dir memory-IsPosix with_pid_file (codes "17") (λ e. cc)
      refl

abbrev log : Log
log = record {
  lsn = codes "16/B374D848";
  text = codes "16/B374D848 1 Nn17 v2 c5\n";
  data_in_current_transaction = false;
  has_actual_data = true;
  parser = new_parser;
}

finish_log_lem_example : IsStored memory db ts defaults 3 true log (λ name. none)
finish_log_lem_example =
    finish_log_lem memory db ts defaults 3 memory-IsPosix true log (λ name. none) refl

-- `osmdbt-fake-log` without a timestamp.
abbrev no_options : VariablesMap
no_options = record {
  count = λ name. false;
  as_string = λ name. [];
  as_strings = λ name. [];
  as_number = λ name. 0;
}

no_timestamp :
    app_wrapper (fake_log_options no_options ts >>= λ _. ok tt) (ok tt) (λ _. ok true) ≡ ok 3
unfolding app_wrapper fake_log_options
no_timestamp = refl

log_name_test :
    create_replication_log_name ts (lsn_dash (codes "16/B374D848")) 3
    ≡ codes "osm-repl-000-lsn-16-B374D848.log"
unfolding create_replication_log_name lsn_dash dash
log_name_test = refl
