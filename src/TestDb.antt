-- ===== src/TestDb.antt =====
-- The program that tests the connection to the database (src/osmdbt-testdb.cpp). The state is what
-- `vout` writes to. The answers of the database are arguments; the transaction only reads.
pub mod Report
pub mod Printed
use osmdbt_pgoutput.Base.{
  ℕ, zero, suc, Bool, true, false, not, List, [], ◌∷◌, ◌++◌, map, length, if◌then◌else◌, Bytes,
  codes, equal,
}
use osmdbt_pgoutput.Base.Result.{Result, ok, throws, database_error}
use osmdbt_pgoutput.Cstd.{to_string}
use osmdbt_pgoutput.Posix.Program.{Program, pure, call, lift, ◌>>=◌, ◌>>◌}
use osmdbt_pgoutput.Config.{Config}
use osmdbt_pgoutput.Db.{get_db_version, get_db_major_version}
use osmdbt_pgoutput.Db.Server.{Rows, first, version_query}

-- What libpqxx does, which may throw: the connection, `exec`, `prepare` with a name, `exec_prepared`
-- with that name, `commit`, and the conversion of a text to a number.
pub record Answers : Type 0 where
  pub connection : Bytes → Result (Unit {0})
  pub exec : Bytes → Result Rows
  pub prepare : Bytes → Bytes → Result (Unit {0})
  pub exec_prepared : Bytes → List Bytes → Result Rows
  pub commit : Result (Unit {0})
  pub as_int : Bytes → Result ℕ

-- `osmium::VerboseOutput`: what `<<` of a text does to what has been written, the time that it puts
-- in front of a line included, for an object that was constructed with this `verbose`.
pub record VerboseOutput : Type 1 where
  pub Written : Type 0
  pub output : Bool → Bytes → Written → Written

-- `<<` of one text after the other.
abbrev pub put : (out : VerboseOutput) → Bool → List Bytes → out.Written → out.Written
put out verbose [] w = w
put out verbose (text ∷ texts) w = put out verbose texts (out.output verbose text w)

-- `row[n].c_str()`.
abbrev pub column : ℕ → List Bytes → Bytes
column n [] = []
column zero (c ∷ cs) = c
column (suc n) (c ∷ cs) = column n cs

-- The row of a result that has to be the only one.
unfoldable pub single : Bytes → Rows → Result (List Bytes)
single message [] = throws (database_error message)
single message (row ∷ []) = ok row
single message (_ ∷ _ ∷ _) = throws (database_error message)

abbrev pub slots_query : Bytes
slots_query =
    codes
      "SELECT slot_name, database, confirmed_flush_lsn FROM pg_replication_slots WHERE slot_type = 'logical' AND plugin = 'pgoutput';"

abbrev pub peek_query : Bytes
peek_query =
    codes
      "SELECT lsn, xid, encode(data, 'hex') as data FROM pg_logical_slot_peek_binary_changes($1, NULL, NULL, 'proto_version', '1', 'publication_names', $2);"

abbrev pub peek : Bytes
peek = codes "peek"

abbrev pub schema_query : Bytes
schema_query = codes "SELECT max(version) FROM schema_migrations WHERE char_length(version) = 14;"

module _ (out : VerboseOutput) (quiet : Bool) where
  -- `vout << ...`, where `vout` is constructed with `!options.quiet()`.
  abbrev pub say : List Bytes → Program out.Written (Unit {0})
  say texts = call (λ w. (tt, put out (not quiet) texts w))

  -- The number of changes.
  unfoldable pub print_number : Rows → Program out.Written (Unit {0})
  print_number [] = say (codes "There are no" ∷ [])
  print_number (row ∷ rows) = say (codes "There are " ∷ to_string (length (row ∷ rows)) ∷ [])

module _ (out : VerboseOutput) (quiet : Bool) (db : Answers) (config : Config) where
  unfoldable pub print_config : Bytes → Program out.Written (Unit {0})
  unfolding single
  print_config setting = do
    result ← lift (db.exec (codes "SHOW " ++ setting))
    row ← lift (single (codes "Expected single result (" ++ (setting ++ codes ").")) result)
    say out quiet (codes "  " ∷ setting ∷ codes "=" ∷ first row ∷ codes "\n" ∷ [])

  -- The loop over the slots; the result is `has_configured_replication_slot`.
  unfoldable pub print_slots : Rows → Bool → Program out.Written Bool
  print_slots [] has_slot = pure has_slot
  print_slots (row ∷ rows) has_slot = do
    say out quiet (
        codes "  name="
        ∷ column 0 row
        ∷ codes " db="
        ∷ column 1 row
        ∷ codes " lsn="
        ∷ column 2 row
        ∷ codes "\n"
        ∷ [])
    print_slots rows (if equal config.m_replication_slot (column 0 row) then true else has_slot)

  unfoldable pub print_changes : Bool → Program out.Written (Unit {0})
  unfolding print_number
  print_changes true = do
    lift (db.prepare peek peek_query)
    result_peek ←
        lift (db.exec_prepared peek (config.m_replication_slot ∷ config.m_publication ∷ []))
    print_number out quiet result_peek
    say out quiet (codes " changes in your configured replication slot.\n" ∷ [])
  print_changes false =
      say out quiet (codes "Your configured replication slot is not active!\n" ∷ [])

  unfoldable pub print_replication : Rows → Program out.Written (Unit {0})
  unfolding print_slots print_changes
  print_replication [] = say out quiet (codes "Replication not enabled\n" ∷ [])
  print_replication (row ∷ rows) = do
    say out quiet (codes "Active replication slots:\n" ∷ [])
    has_slot ← print_slots (row ∷ rows) false
    print_changes has_slot

  unfoldable pub print_version : Program out.Written (Unit {0})
  unfolding get_db_version get_db_major_version
  print_version = do
    result ← lift (db.exec (codes "SHOW server_version_num;"))
    db_version ← lift (get_db_major_version db.as_int (map first result))
    say out quiet (codes "Database version: " ∷ to_string db_version ∷ codes " [" ∷ [])
    rows ← lift (db.exec version_query)
    version ← lift (get_db_version (map first rows))
    say out quiet (version ∷ codes "]\n" ∷ [])

  unfoldable pub print_schema : Program out.Written (Unit {0})
  unfolding single
  print_schema = do
    result ← lift (db.exec schema_query)
    row ← lift (single (codes "Expected single result (schema_migration).") result)
    say out quiet (codes "Schema version: " ∷ first row ∷ codes "\n" ∷ [])

  unfoldable pub app : Program out.Written Bool
  unfolding print_version print_config print_replication print_schema
  app = do
    say out quiet (codes "Connecting to database...\n" ∷ [])
    lift (db.connection config.m_db_connection)
    print_version
    say out quiet (codes "Database config:\n" ∷ [])
    print_config (codes "wal_level")
    print_config (codes "max_replication_slots")
    slots ← lift (db.exec slots_query)
    print_replication slots
    print_schema
    lift db.commit
    say out quiet (codes "Done.\n" ∷ [])
    pure true
