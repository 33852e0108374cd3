-- ===== src/Config.antt =====
-- The configuration (src/config.hpp, src/config.cpp). The nodes of a parsed file and the parser are
-- those of yaml-cpp, the files are looked up by name.
pub mod Connection
pub mod Database
pub mod Dirs
pub mod Exits
use osmdbt_pgoutput.Base.{
  ◌≡◌, Bool, true, false, not, ◌==◌, Option, none, some, List, [], ◌∷◌, ◌++◌, if◌then◌else◌, Bytes,
  codes, ℕ,
}
use osmdbt_pgoutput.Base.Result.{
  Result, ok, throws, fault, config_error, system_error, ◌>>=◌, ◌>>◌, throws_if,
}

-- `YAML::Node`: whether it is there, `IsNull`, `IsMap`, `as<std::string>`, the node under a
-- key, and `YAML::Load`; the last three may throw.
pub record Yaml : Type 1 where
  pub Node : Type 0
  pub defined : Node → Bool
  pub is_null : Node → Bool
  pub is_map : Node → Bool
  pub as_string : Node → Result Bytes
  pub child : Node → Bytes → Result Node
  pub load : Bytes → Result Node

pub record Config : Type 0 where
  pub m_db_host : Bytes
  pub m_db_port : Bytes
  pub m_db_dbname : Bytes
  pub m_db_user : Bytes
  pub m_db_password : Bytes
  pub m_db_connection : Bytes
  pub m_publication : Bytes
  pub m_replication_slot : Bytes
  pub m_log_dir : Bytes
  pub m_changes_dir : Bytes
  pub m_tmp_dir : Bytes
  pub m_run_dir : Bytes

-- The values that the members start with.
abbrev pub defaults : Config
defaults = record {
  m_db_host = [];
  m_db_port = codes "5432";
  m_db_dbname = codes "osm";
  m_db_user = codes "osm";
  m_db_password = codes "osm";
  m_db_connection = [];
  m_publication = codes "osm_publication";
  m_replication_slot = codes "osm_repl";
  m_log_dir = codes "/tmp/";
  m_changes_dir = codes "/tmp/";
  m_tmp_dir = codes "/tmp/";
  m_run_dir = codes "/tmp/";
}

unfoldable pub build_conn_str : Bytes → Bytes → Bytes → Bytes
build_conn_str str key [] = str
build_conn_str [] key (c ∷ val) = key ++ (b'=' ∷ c ∷ val)
build_conn_str (s ∷ str) key (c ∷ val) = (s ∷ str) ++ (b' ' ∷ (key ++ (b'=' ∷ c ∷ val)))

unfoldable pub build_connection : Config → Config
unfolding build_conn_str
build_connection config =
    let host = build_conn_str config.m_db_connection (codes "host") config.m_db_host in
    let port = build_conn_str host (codes "port") config.m_db_port in
    let dbname = build_conn_str port (codes "dbname") config.m_db_dbname in
    let user = build_conn_str dbname (codes "user") config.m_db_user in
    record config { m_db_connection = build_conn_str user (codes "password") config.m_db_password }

-- The file is tried in the current directory and then in /etc/replication if none is named; `files`
-- gives the content, or `none`.
unfoldable pub find_config_file : (Bytes → Option Bytes) → Bytes → Result Bytes
find_config_file files [] = elim (files (codes "osmdbt-config.yaml")) [
  | some content ↦ ok content
  | none ↦ elim (files (codes "/etc/replication/osmdbt-config.yaml")) [
    | some content ↦ ok content
    | none ↦ throws (
        system_error (
          codes
            "Config error: Could not open config file 'osmdbt-config.yaml' in current directory or '/etc/replication'"))
  ]
]
find_config_file files (c ∷ config_file) = elim (files (c ∷ config_file)) [
  | some content ↦ ok content
  | none ↦ throws (
      system_error
        (codes "Config error: Could not open config file '" ++ ((c ∷ config_file) ++ codes "'")))
]

-- `back` of a string, which is undefined for the empty one.
abbrev pub back : Bytes → Result ℕ
back [] = fault
back (c ∷ []) = ok c
back (c ∷ d ∷ s) = back (d ∷ s)

module _ (yaml : Yaml) where
  unfoldable pub set_config : yaml.Node → Bytes → Result Bytes
  set_config node config =
      if not (yaml.defined node)
      then ok config
      else (if yaml.is_null node then ok [] else yaml.as_string node)

  -- `set_config` of the entry under a key.
  abbrev pub set_entry : yaml.Node → Bytes → Bytes → Result Bytes
  set_entry node key config = do entry ← yaml.child node key; set_config entry config

  unfoldable pub load_config_file : (Bytes → Option Bytes) → Bytes → Result yaml.Node
  unfolding find_config_file
  load_config_file files config_file = do
    content ← find_config_file files config_file
    yaml.load content

  unfoldable pub set_dir : yaml.Node → Bytes → Result Bytes
  set_dir config var = if not (yaml.defined config) then ok var else (do
    dir ← yaml.as_string config
    end ← back dir
    ok (if end == b'/' then dir else dir ++ b'/' ∷ []))

  abbrev pub set_dir_entry : yaml.Node → Bytes → Bytes → Result Bytes
  set_dir_entry node key var = do entry ← yaml.child node key; set_dir entry var

  -- The entries under `database`.
  unfoldable pub read_database : yaml.Node → Config → Result Config
  unfolding set_config
  read_database database config = if not (yaml.defined database) then ok config else (do
    throws_if (not (yaml.is_map database)) (config_error (codes "'database' entry must be a Map."))
    m_db_host ← set_entry database (codes "host") config.m_db_host
    m_db_port ← set_entry database (codes "port") config.m_db_port
    m_db_dbname ← set_entry database (codes "dbname") config.m_db_dbname
    m_db_user ← set_entry database (codes "user") config.m_db_user
    m_db_password ← set_entry database (codes "password") config.m_db_password
    m_replication_slot ← set_entry database (codes "replication_slot") config.m_replication_slot
    m_publication ← set_entry database (codes "publication") config.m_publication
    ok (record config {
      m_db_host = m_db_host;
      m_db_port = m_db_port;
      m_db_dbname = m_db_dbname;
      m_db_user = m_db_user;
      m_db_password = m_db_password;
      m_replication_slot = m_replication_slot;
      m_publication = m_publication;
    }))

  unfoldable pub read_dirs : yaml.Node → Config → Result Config
  unfolding set_dir
  read_dirs node config = do
    m_log_dir ← set_dir_entry node (codes "log_dir") config.m_log_dir
    m_changes_dir ← set_dir_entry node (codes "changes_dir") config.m_changes_dir
    m_tmp_dir ← set_dir_entry node (codes "tmp_dir") config.m_tmp_dir
    m_run_dir ← set_dir_entry node (codes "run_dir") config.m_run_dir
    ok (record config {
      m_log_dir = m_log_dir;
      m_changes_dir = m_changes_dir;
      m_tmp_dir = m_tmp_dir;
      m_run_dir = m_run_dir;
    })

  -- The constructor.
  unfoldable pub read_config : (Bytes → Option Bytes) → Bytes → Result Config
  unfolding load_config_file read_database read_dirs build_connection
  read_config files config_file = do
    node ← load_config_file files config_file
    database ← yaml.child node (codes "database")
    config ← read_database database defaults
    config' ← read_dirs node config
    ok (build_connection config')
