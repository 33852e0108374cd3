-- ===== src/Tests/Configs.antt =====
-- A configuration that is read.
use osmdbt_pgoutput.Base.{
  inl, inr, none, inr, ◌≡◌, refl, Bool, true, false, some, [], Bytes, codes, equal, if◌then◌else◌,
}
use osmdbt_pgoutput.Base.Result.{Result, ok}
use osmdbt_pgoutput.Config.{
  Yaml, Config, defaults, build_conn_str, build_connection, find_config_file, set_config, set_dir,
  load_config_file, read_database, read_dirs, read_config,
}
use osmdbt_pgoutput.Config.Connection.{sentence, entries, settings, read_config-connection}
use osmdbt_pgoutput.Util.ExitCode.{app_wrapper}
use osmdbt_pgoutput.Config.Exits.{app_wrapper-read_config}
use osmdbt_pgoutput.Config.Dirs.{EndsInSlash, read_config-dirs}

-- A parser that knows one file: a map with a log directory, and a database with a host and an empty
-- password.
data Node : Type 0 where
  missing null top database : Node
  text : Bytes → Node

abbrev is_defined : Node → Bool
is_defined missing = false
is_defined null = true
is_defined top = true
is_defined database = true
is_defined (text t) = true

abbrev is_null : Node → Bool
is_null null = true
is_null _ = false

abbrev is_map : Node → Bool
is_map top = true
is_map database = true
is_map _ = false

abbrev as_string : Node → Result Bytes
as_string (text t) = ok t
as_string _ = ok []

abbrev under : Node → Bytes → Node
under top key =
    if equal key (codes "database")
    then database
    else (if equal key (codes "log_dir") then text (codes "/var/log") else missing)
under database key =
    if equal key (codes "host")
    then text (codes "db")
    else (if equal key (codes "password") then null else missing)
under _ key = missing

abbrev yaml : Yaml
yaml = record {
  Node = Node;
  defined = is_defined;
  is_null = is_null;
  is_map = is_map;
  as_string = as_string;
  child = λ node key. ok (under node key);
  load = λ content. ok top;
}

abbrev read : Config
read = record defaults {
  m_db_host = codes "db";
  m_db_password = [];
  m_db_connection = codes "host=db port=5432 dbname=osm user=osm";
  m_log_dir = codes "/var/log/";
}

read_config_run : read_config yaml (λ name. some []) [] ≡ ok read
unfolding read_config load_config_file find_config_file read_database read_dirs build_connection
    build_conn_str set_config set_dir equal
read_config_run = refl

read_config-connection_example : read.m_db_connection ≡ sentence (settings (entries read))
read_config-connection_example =
    read_config-connection yaml (λ name. some []) [] read read_config_run

read_config-dirs_example :
    EndsInSlash (codes "/var/log/")
    × EndsInSlash (codes "/tmp/")
    × EndsInSlash (codes "/tmp/")
    × EndsInSlash (codes "/tmp/")
read_config-dirs_example = read_config-dirs yaml (λ name. some []) [] read read_config_run

-- A file whose entries are texts.
abbrev texts : Yaml
texts = record yaml { child = λ node key. ok (text key) }

-- A database that is a text.
no_map_run : app_wrapper (ok tt) (read_config texts (λ name. some []) []) (λ config. ok true) ≡ ok 2
no_map_run =
    app_wrapper-read_config texts (λ name. some []) [] (λ config. ok true)
      (inr (record {
        node = top;
        database = text (codes "database");
        content = [];
        is_read = inl refl;
        loads = refl;
        has_database = refl;
        is_there = refl;
        is_no_map = refl;
      }))

-- No file at all.
app_wrapper-read_config_example :
    app_wrapper (ok tt) (read_config texts (λ name. none) []) (λ config. ok true) ≡ ok 2
app_wrapper-read_config_example =
    app_wrapper-read_config texts (λ name. none) [] (λ config. ok true) (inl (refl, refl))
