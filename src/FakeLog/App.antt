-- ===== src/FakeLog/App.antt =====
-- The rest of `osmdbt-fake-log`: the log files that it is told to leave out, and the order of its
-- parts (src/osmdbt-fake-log.cpp). The rows of its three queries and `std::sort` are arguments.
use osmdbt_pgoutput.Base.{
  Bool, true, false, none, List, [], ◌∷◌, ◌++◌, ◌==◌, map, if◌then◌else◌, Bytes, codes,
}
use osmdbt_pgoutput.Base.Int.{ℤ}
use osmdbt_pgoutput.Base.Result.{Result, ok}
use osmdbt_pgoutput.Base.Result
use osmdbt_pgoutput.Cstd.{peek}
use osmdbt_pgoutput.Osmium.{node, way, relation, Objects}
use osmdbt_pgoutput.Osmobj.{Osmobj, Osmobjects, read_log}
use osmdbt_pgoutput.Posix.{Disk, System}
use osmdbt_pgoutput.Posix.Program.{Program, pure, lift, ensure, ◌>>=◌, ◌>>◌}
use osmdbt_pgoutput.Io.{pid_file, release_pid_file}
use osmdbt_pgoutput.Util.{write_data_to_file}
use osmdbt_pgoutput.Config.{Config}
use osmdbt_pgoutput.Db.{get_db_version}
use osmdbt_pgoutput.FakeLog.{LogEntry, IdVersion, Row, read_objects, nothing_written, write_entries}

-- `objects_done`, a set for each type.
pub record ObjectsDone : Type 0 where
  pub nodes : List IdVersion
  pub ways : List IdVersion
  pub relations : List IdVersion

abbrev pub no_objects : Osmobjects
no_objects = record { nodes = []; ways = []; relations = [] }

abbrev pub id_version : Osmobj → IdVersion
id_version obj = (obj.m_id, obj.m_version)

module _ (osm : Objects) where
  -- One log file; a name from the root stands for itself.
  unfoldable pub note_log : Bytes → Bytes → Disk → ObjectsDone → Result ObjectsDone
  unfolding read_log
  note_log log_dir log disk objects_done =
      let dir = if peek log == b'/' then [] else log_dir in
      Result.◌>>=◌ (read_log osm dir log (disk (dir ++ log)) (no_objects, none)) (λ todo.
        ok (record {
          nodes = map id_version todo.0.nodes ++ objects_done.nodes;
          ways = map id_version todo.0.ways ++ objects_done.ways;
          relations = map id_version todo.0.relations ++ objects_done.relations;
        }))

  unfoldable pub read_log_files : Bytes → List Bytes → Disk → ObjectsDone → Result ObjectsDone
  unfolding note_log
  read_log_files log_dir [] disk objects_done = ok objects_done
  read_log_files log_dir (log ∷ log_names) disk objects_done =
      Result.◌>>=◌ (note_log log_dir log disk objects_done) (read_log_files log_dir log_names disk)

module _ (sys : System) (osm : Objects) (sort : List LogEntry → List LogEntry) (name_of : ℤ → Bytes)
    (config : Config) where
  -- The files in the order in which the loop over the entries writes them.
  unfoldable pub write_files : List (Bytes × Bytes) → Program sys.World (Unit {0})
  unfolding write_data_to_file
  write_files [] = pure tt
  write_files ((file_name, text) ∷ files) = do
    write_data_to_file sys text config.m_log_dir file_name
    write_files files

  unfoldable pub write_log : List LogEntry → Program sys.World Bool
  unfolding write_files write_entries
  write_log [] = pure false
  write_log (entry ∷ entries) = do
    write_files (write_entries osm name_of (sort (entry ∷ entries)) nothing_written).written
    pure true

  -- Behind the PID file.
  unfoldable pub run :
      List Bytes → List Bytes → List Row → List Row → List Row → Program sys.World Bool
  unfolding read_log_files get_db_version read_objects write_log
  run log_file_names version nodes ways relations w =
      (lift (
            read_log_files osm config.m_log_dir log_file_names (sys.disk w)
              (record { nodes = []; ways = []; relations = [] }))
          >>= λ objects_done. lift (get_db_version version) >>= λ _. write_log (
              read_objects relations
                (read_objects ways (read_objects nodes [] node objects_done.nodes) way
                  objects_done.ways)
                relation objects_done.relations))
        w

  unfoldable pub app :
      List Bytes → List Bytes → List Row → List Row → List Row → Program sys.World Bool
  unfolding run pid_file release_pid_file
  app log_file_names version nodes ways relations = do
    m_path ← pid_file sys config.m_run_dir (codes "osmdbt-log")
    ensure (run log_file_names version nodes ways relations) (release_pid_file sys m_path)
