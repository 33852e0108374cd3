-- ===== src/Tests/Report.antt =====
-- The test of a database with one replication slot, which holds two changes.
use osmdbt_pgoutput.Base.{
  true, false, Bool, ◌≡◌, refl, [], ◌∷◌, ◌++◌, ◌==◌, if◌then◌else◌, Bytes, codes, equal,
}
use osmdbt_pgoutput.Base.Result.{ok}
use osmdbt_pgoutput.Cstd.{to_string}
use osmdbt_pgoutput.Config.{defaults}
use osmdbt_pgoutput.Db.Server.{Rows, version_query}
use osmdbt_pgoutput.TestDb.{Answers, VerboseOutput, put, slots_query, app}
use osmdbt_pgoutput.TestDb.Printed.{IsVerboseOutput, Values, IsAnswered, report, app_lem}

abbrev changes : Rows
changes =
    (codes "0/1924DE0" ∷ codes "751" ∷ codes "42" ∷ [])
    ∷ (codes "0/1924DE8" ∷ codes "751" ∷ codes "43" ∷ [])
    ∷ []

abbrev values : Values
values = record {
  number_text = codes "130004";
  number = 130004;
  version = codes "PostgreSQL 13.4";
  wal_level = codes "logical";
  max_slots = codes "10";
  slots =
      record { name = codes "osm_repl"; database = codes "osm"; confirmed = codes "0/1924DE0" }
      ∷ [];
  peeked = changes;
  schema = codes "20230101000000";
}

abbrev one : Bytes → Rows
one text = (text ∷ []) ∷ []

abbrev answer : Bytes → Rows
answer text =
    if equal text (codes "SHOW server_version_num;")
    then one (codes "130004")
    else if equal text version_query
    then one (codes "PostgreSQL 13.4")
    else if equal text (codes "SHOW wal_level")
    then one (codes "logical")
    else if equal text (codes "SHOW max_replication_slots")
    then one (codes "10")
    else if equal text slots_query
    then (codes "osm_repl" ∷ codes "osm" ∷ codes "0/1924DE0" ∷ []) ∷ []
    else one (codes "20230101000000")

abbrev database : Answers
database = record {
  connection = λ text. ok tt;
  exec = λ text. ok (answer text);
  prepare = λ name text. ok tt;
  exec_prepared = λ name arguments. ok changes;
  commit = ok tt;
  as_int = λ text. ok 130004;
}

-- What is written next stands at the start of a line.
abbrev is_start : Bytes → Bool
is_start [] = true
is_start (c ∷ []) = c == b'\n'
is_start (c ∷ d ∷ text) = is_start (d ∷ text)

-- The text on the screen, in the first second.
abbrev screen : VerboseOutput
screen = record {
  Written = Bytes;
  output = λ verbose text w.
      if verbose then w ++ ((if is_start w then codes "[ 0:00] " else []) ++ text) else w;
}

screen-IsVerboseOutput : IsVerboseOutput screen
screen-IsVerboseOutput = record { silent = λ text w. refl }

answered : IsAnswered database defaults values
unfolding equal
answered = record {
  connects = refl;
  number_there = refl;
  number_read = refl;
  version_there = refl;
  is_postgres = refl;
  wal_there = refl;
  max_there = refl;
  slots_there = refl;
  peek_there = (refl, refl);
  schema_there = refl;
  commits = refl;
}

app_lem_example :
    ((app screen false database defaults []).result ≡ ok true)
    × ((app screen false database defaults []).world ≡ put screen true (report defaults values) [])
app_lem_example = app_lem screen false database defaults values [] screen-IsVerboseOutput answered

-- What is on the screen then.
report_run :
    put screen true (report defaults values) []
    ≡ codes
        "[ 0:00] Connecting to database...\n[ 0:00] Database version: 13 [PostgreSQL 13.4]\n[ 0:00] Database config:\n[ 0:00]   wal_level=logical\n[ 0:00]   max_replication_slots=10\n[ 0:00] Active replication slots:\n[ 0:00]   name=osm_repl db=osm lsn=0/1924DE0\n[ 0:00] There are 2 changes in your configured replication slot.\n[ 0:00] Schema version: 20230101000000\n[ 0:00] Done.\n"
unfolding equal to_string
report_run = refl
