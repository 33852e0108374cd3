-- ===== src/TestDb/Printed.antt =====
-- What the test of the database writes (src/osmdbt-testdb.cpp).
use osmdbt_pgoutput.Base.{
  ℕ, ◌≡◌, refl, ◌∙◌, Bool, true, false, not, List, [], ◌∷◌, ◌++◌, map, if◌then◌else◌, Bytes, codes,
  equal, take,
}
use osmdbt_pgoutput.Base.Result.{ok}
use osmdbt_pgoutput.Posix.Program.{pure}
use osmdbt_pgoutput.Config.{Config}
use osmdbt_pgoutput.Db.Server.{Rows, version_query}
use osmdbt_pgoutput.TestDb.{Answers, VerboseOutput, put, slots_query, schema_query, app}
use osmdbt_pgoutput.TestDb.Report.{
  Slot, row_of, is_there, version_texts, setting_texts, replication_texts, schema_texts,
  PeekAnswers, Says, Says-say, Says-pure, Says-then, Says-version, Says-config, Says-replication,
  Says-schema,
}

-- What libosmium documents: an object that is not verbose writes nothing.
pub record IsVerboseOutput (out : VerboseOutput) : Type 0 where
  pub silent : (text : Bytes) (w : out.Written) → out.output false text w ≡ w

put-silent :
    (out : VerboseOutput)
    → IsVerboseOutput out
    → (texts : List Bytes) (w : out.Written) → put out false texts w ≡ w
put-silent out law [] w = refl
put-silent out law (text ∷ texts) w =
    put-silent out law texts (out.output false text w) ∙ law.silent text w

-- The values that the database answers with.
pub record Values : Type 0 where
  pub number_text : Bytes
  pub number : ℕ
  pub version : Bytes
  pub wal_level : Bytes
  pub max_slots : Bytes
  pub slots : List Slot
  pub peeked : Rows
  pub schema : Bytes

-- Each query for one value is answered by one row with this value; the queries for the slots and for
-- the changes by any number of rows. The version is a PostgreSQL.
pub record IsAnswered (db : Answers) (config : Config) (values : Values) : Type 0 where
  pub connects : db.connection config.m_db_connection ≡ ok tt
  pub number_there :
      db.exec (codes "SHOW server_version_num;") ≡ ok ((values.number_text ∷ []) ∷ [])
  pub number_read : db.as_int values.number_text ≡ ok values.number
  pub version_there : db.exec version_query ≡ ok ((values.version ∷ []) ∷ [])
  pub is_postgres : equal (take 10 values.version) (codes "PostgreSQL") ≡ true
  pub wal_there : db.exec (codes "SHOW wal_level") ≡ ok ((values.wal_level ∷ []) ∷ [])
  pub max_there : db.exec (codes "SHOW max_replication_slots") ≡ ok ((values.max_slots ∷ []) ∷ [])
  pub slots_there : db.exec slots_query ≡ ok (map row_of values.slots)
  pub peek_there :
      PeekAnswers db config (is_there config.m_replication_slot values.slots) values.peeked
  pub schema_there : db.exec schema_query ≡ ok ((values.schema ∷ []) ∷ [])
  pub commits : db.commit ≡ ok tt

-- The texts that are written, one after the other.
abbrev pub report : Config → Values → List Bytes
report config values =
    codes "Connecting to database...\n"
    ∷ (version_texts values.number values.version
        ++ (codes "Database config:\n"
            ∷ (setting_texts (codes "wal_level") values.wal_level
                ++ (setting_texts (codes "max_replication_slots") values.max_slots
                    ++ (replication_texts config.m_replication_slot values.slots values.peeked
                        ++ (schema_texts values.schema ++ codes "Done.\n" ∷ []))))))

module _ (out : VerboseOutput) (quiet : Bool) (db : Answers) (config : Config) where
  app-report :
      (values : Values)
      → IsAnswered db config values
      → Says out quiet (app out quiet db config) (report config values) true
  unfolding app
  app-report values h =
      rw (h.connects, h.slots_there, h.commits)
        (Says-then out quiet _ (Says-say out quiet (codes "Connecting to database...\n" ∷ [])) (
          Says-then out quiet _
            (Says-version out quiet db config values.number_text values.number values.version
              h.number_there h.number_read h.version_there h.is_postgres)
            (Says-then out quiet _ (Says-say out quiet (codes "Database config:\n" ∷ [])) (
              Says-then out quiet _
                (Says-config out quiet db config (codes "wal_level") values.wal_level h.wal_there)
                (Says-then out quiet _
                  (Says-config out quiet db config (codes "max_replication_slots") values.max_slots
                    h.max_there)
                  (Says-then out quiet _
                    (Says-replication out quiet db config values.slots values.peeked h.peek_there)
                    (Says-then out quiet _
                      (Says-schema out quiet db config values.schema h.schema_there)
                      (Says-then out quiet (pure true) (Says-say out quiet (codes "Done.\n" ∷ []))
                        (Says-pure out quiet true)))))))))

  -- If the connection and the commit work and the database answers each query, the queries for the
  -- versions, the settings and the schema with one row each, and its version is a PostgreSQL, then
  -- `osmdbt-testdb` returns true. With `--quiet` it writes nothing; else it writes, through
  -- `osmium::VerboseOutput`, the versions, the settings, a line for each replication slot, if the
  -- configured slot is among them, how many changes it holds, else that it is not active, and the
  -- version of the schema.
  pub app_lem :
      (values : Values) (w : out.Written)
      → IsVerboseOutput out
      → IsAnswered db config values
      → ((app out quiet db config w).result ≡ ok true)
        × ((app out quiet db config w).world
            ≡ (if quiet then w else put out true (report config values) w))
  app_lem values w law h =
      let (returns, writes) = (app-report values h).at w in (returns, writes ∙ by_quiet quiet)
    where
      by_quiet :
          (q : Bool)
          → put out (not q) (report config values) w
            ≡ (if q then w else put out true (report config values) w)
      by_quiet true = put-silent out law (report config values) w
      by_quiet false = refl
