-- ===== src/Pipeline.antt =====
-- From the rows of the replication slot through a log file to the objects of a diff: what
-- `osmdbt-get-log` stores (src/osmdbt-get-log.cpp), `osmdbt-create-diff` reads
-- (src/osmdbt-create-diff.cpp).
use osmdbt_pgoutput.Base.{
  ℕ, ◌≡◌, refl, ap, ◌∙◌, true, false, Option, none, some, List, [], ◌∷◌, ◌++◌, ltb, Bytes,
  Bool-cases, inl, inr,
}
use osmdbt_pgoutput.Base.Result.{ok}
use osmdbt_pgoutput.Osmium.{Objects, IsOsm, Timestamps}
use osmdbt_pgoutput.Osmobj.{Osmobj, Todo, size, read_log}
use osmdbt_pgoutput.Osmobj.Reading.{with_objects}
use osmdbt_pgoutput.Posix.{System, IsPosix, IsAble}
use osmdbt_pgoutput.Util.{tmp_name}
use osmdbt_pgoutput.Util.Atomic.{write_data_to_file_returns}
use osmdbt_pgoutput.Config.{Config}
use osmdbt_pgoutput.Db.{Database, get_db_version}
use osmdbt_pgoutput.Pgoutput.{Parser, new_parser}
use osmdbt_pgoutput.GetLog.{Row, Log, process_rows, empty_log}
use osmdbt_pgoutput.GetLog.Events.{Event, has_insert, decode_rows, log_of, process_rows_lem}
use osmdbt_pgoutput.GetLog.Reading.{Tells, read_log-log_of}
use osmdbt_pgoutput.GetLog.App.{log_file_name, store_log, advance_slot, finish_log, run}
use osmdbt_pgoutput.CreateDiff.Selection.{read_log_files}

-- One log file is read whatever the limit is.
read_log_files_single :
    (osm : Objects) (dir name : Bytes) (logs : Bytes → Option Bytes) (max_changes : ℕ)
    (todo todo' : Todo)
    → read_log osm dir name (logs name) todo ≡ ok todo'
    → read_log_files osm dir logs max_changes (name ∷ []) todo ≡ ok (todo', name ∷ [])
unfolding read_log_files
read_log_files_single osm dir name logs max_changes todo todo' e =
    elim (Bool-cases (ltb max_changes (size todo'.0))) [
      | inl over ↦ rw (e, over) refl
      | inr below ↦ rw (e, below) refl
    ]

module _ (sys : System) (posix : IsPosix sys) (able : IsAble ⊥ sys) (db : Database sys.World)
    (ts : Timestamps) (config : Config) (now : ts.Timestamp) where
  -- With actual data, and without the option to advance the slot, the log is stored.
  finish_log_returns :
      (log : Log) (w : sys.World)
      → log.has_actual_data ≡ true
      → sys.disk w (tmp_name (config.m_log_dir ++ log_file_name sys db ts config now log)) ≡ none
      → ((finish_log sys db ts config now false log w).result ≡ ok tt)
        × (sys.disk
              (finish_log sys db ts config now false log w).world
              (config.m_log_dir ++ log_file_name sys db ts config now log)
            ≡ some log.text)
  unfolding finish_log store_log advance_slot
  finish_log_returns log w has free =
      let (returned, there) =
        write_data_to_file_returns sys posix able log.text config.m_log_dir
          (log_file_name sys db ts config now log) w free in
      rw (has, returned) (refl, there)

  -- What the program does when the database answers and its rows are decoded.
  run_returns :
      (row : Row) (rows : List Row) (log : Log) (version : Bytes) (w : sys.World)
      → get_db_version db.version ≡ ok version
      → process_rows (row ∷ rows) empty_log ≡ ok log
      → log.has_actual_data ≡ true
      → sys.disk w (tmp_name (config.m_log_dir ++ log_file_name sys db ts config now log)) ≡ none
      → ((run sys db ts config now false (row ∷ rows) w).result ≡ ok true)
        × (sys.disk
              (run sys db ts config now false (row ∷ rows) w).world
              (config.m_log_dir ++ log_file_name sys db ts config now log)
            ≡ some log.text)
  unfolding run
  run_returns row rows log version w answered processed has free =
      let (returned, there) = finish_log_returns log w has free in
      rw (answered, processed, returned) (refl, there)

  -- Where libosmium behaves as documented and the calls of the system and the database succeed where
  -- they can: if the rows are decoded to events that insert these objects, one at least, and no file
  -- of the log's name with `.new` is there, then `osmdbt-get-log` without the option to advance the
  -- slot returns true behind its PID file, and `osmdbt-create-diff`, given the name of the log that it
  -- has written, reads exactly these objects from it, in this order, whatever its limit is.
  pub read_log_files-run :
      (osm : Objects) (known : IsOsm osm) (row : Row) (rows : List Row) (es : List (Row × Event))
      (p : Parser) (objs : List Osmobj) (version : Bytes) (w : sys.World) (max_changes : ℕ)
      (todo : Todo)
      → get_db_version db.version ≡ ok version
      → decode_rows (row ∷ rows) new_parser ≡ ok (es, p)
      → Tells osm es objs
      → has_insert es ≡ true
      → sys.disk w (
          tmp_name (config.m_log_dir ++ log_file_name sys db ts config now (log_of empty_log es p)))
        ≡ none
      → ((run sys db ts config now false (row ∷ rows) w).result ≡ ok true)
        × (read_log_files osm config.m_log_dir
              (λ name.
                sys.disk
                  (run sys db ts config now false (row ∷ rows) w).world
                  (config.m_log_dir ++ name))
              max_changes
              (log_file_name sys db ts config now (log_of empty_log es p) ∷ [])
              todo
            ≡ ok (
              with_objects osm objs todo,
              log_file_name sys db ts config now (log_of empty_log es p) ∷ [],
            ))
  read_log_files-run osm known row rows es p objs version w max_changes todo answered decoded told
        has free =
      let log = log_of empty_log es p in
      let name = log_file_name sys db ts config now log in
      let processed : process_rows (row ∷ rows) empty_log ≡ ok log =
        process_rows_lem (row ∷ rows) empty_log ∙ (rw decoded refl) in
      let (returned, there) = run_returns row rows log version w answered processed has free in
      (
        returned,
        read_log_files_single osm config.m_log_dir name _ max_changes todo
            (with_objects osm objs todo)
            (ap (λ content. read_log osm config.m_log_dir name content todo) there
              ∙ read_log-log_of osm known config.m_log_dir name es p objs todo told),
      )
