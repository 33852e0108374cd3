-- ===== src/CreateDiff/App.antt =====
-- `app` of `osmdbt-create-diff`, from its parts (src/osmdbt-create-diff.cpp). The names of the
-- files in the log directory, `std::sort` on names and on objects, the date of a comment and the writer of libosmium are arguments.
use osmdbt_pgoutput.Base.{
  Bool, true, Option, none, some, List, [], ◌∷◌, ◌++◌, if◌then◌else◌, Bytes, codes,
}
use osmdbt_pgoutput.Osmium.{Timestamps, Objects}
use osmdbt_pgoutput.Osmobj.{Osmobj, sort_objects, Osmobjects, ChangesetUserLookup, Todo, empty}
use osmdbt_pgoutput.Posix.{System}
use osmdbt_pgoutput.Posix.Program.{Program, pure, lift, ensure, ◌>>=◌, ◌>>◌}
use osmdbt_pgoutput.Io.{pid_file, release_pid_file}
use osmdbt_pgoutput.Config.{Config}
use osmdbt_pgoutput.Options.{CreateDiffOptions}
use osmdbt_pgoutput.LogNames.{logs_in_dir}
use osmdbt_pgoutput.Db.{get_db_version}
use osmdbt_pgoutput.CreateDiff.Queries.{changeset_query, populate_changeset_cache}
use osmdbt_pgoutput.CreateDiff.Selection.{read_log_files}
use osmdbt_pgoutput.CreateDiff.Diff.{Transaction, Diff, build_diff}
use osmdbt_pgoutput.CreateDiff.NextState.{get_state}
use osmdbt_pgoutput.CreateDiff.Publish.{finish}

-- The names on the command line, or else those in the log directory.
abbrev log_files : List Bytes → List Bytes → List Bytes
log_files [] in_dir = in_dir
log_files (name ∷ names) in_dir = name ∷ names

-- `cucache`, which is passed to `read_log`.
abbrev cache : Option ChangesetUserLookup → ChangesetUserLookup
cache none = []
cache (some cucache) = cucache

abbrev nothing_todo : Todo
nothing_todo = (record { nodes = []; ways = []; relations = [] }, some [])

module _ (sys : System) (osm : Objects) (ts : Timestamps) (txn : Transaction) (version : List Bytes)
    (config : Config) (options : CreateDiffOptions) (date : Bytes)
    (sort_names : List Bytes → List Bytes) (sort : List Osmobj → List Osmobj)
    (write_change : Diff ts → Program sys.World (Unit {0})) where
  -- Behind the loop over the log files.
  unfoldable pub make_diff : Osmobjects → ChangesetUserLookup → List Bytes → Program sys.World Bool
  unfolding changeset_query build_diff finish get_state sort_objects
  make_diff todo cucache read w =
      (do
        query ← lift (changeset_query cucache)
        diff ← lift (
            build_diff ts txn (populate_changeset_cache (txn.changesets query) cucache)
              (sort_objects sort todo))
        write_change diff
        publish_diff diff)
        w
    where
      publish_diff : Diff ts → Program sys.World Bool
      publish_diff diff v =
          (lift (
                get_state ts osm config options.m_init_state diff.max_timestamp
                  (sys.disk v (config.m_changes_dir ++ codes "state.txt")))
              >>= λ state.
                  finish sys ts config state (if options.m_with_comment then some date else none)
                    options.m_dry_run read
                  >>= λ _. pure true)
            v

  unfoldable pub read_and_make : List Bytes → Program sys.World Bool
  unfolding read_log_files empty make_diff
  read_and_make files w =
      (lift (
            read_log_files osm config.m_log_dir (λ name. sys.disk w (config.m_log_dir ++ name))
              options.m_max_changes files nothing_todo)
          >>= λ (todo, read).
              if empty todo.0 then pure true else make_diff todo.0 (cache todo.1) read)
        w

  -- Behind the PID file, with the names of the files in the log directory.
  unfoldable pub run : List Bytes → Program sys.World Bool
  unfolding get_db_version read_and_make logs_in_dir
  run in_dir = elim (log_files options.m_log_file_names (logs_in_dir in_dir)) [
    | [] ↦ pure true
    | name ∷ names ↦
        lift (get_db_version version) >>= λ _. read_and_make (sort_names (name ∷ names))
  ]

  unfoldable pub app : List Bytes → Program sys.World Bool
  unfolding run pid_file release_pid_file
  app in_dir = do
    m_path ← pid_file sys config.m_run_dir (codes "osmdbt-create-diff")
    ensure (run in_dir) (release_pid_file sys m_path)
