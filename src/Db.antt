-- ===== src/Db.antt =====
-- Access to the database (src/db.hpp, src/db.cpp). Results of queries and calls of the database are
-- those of libpqxx; a call that fails throws.
pub mod Server
use osmdbt_pgoutput.Base.{
  ℕ, ◌/◌, Bool, List, [], ◌∷◌, ltb, take, if◌then◌else◌, Bytes, codes, equal,
}
use osmdbt_pgoutput.Base.Result.{Result, ◌>>=◌, ok, throws, database_error, runtime_error}
use osmdbt_pgoutput.Posix.Program.{Program, raise, attempt}

-- The version of the server, the first column of `SELECT * FROM version();`, the call of
-- `pg_replication_slot_advance`, and the end of a transaction.
pub record Database (W : Type 0) : Type 0 where
  pub server_version : ℕ
  pub version : List Bytes
  pub advance : Bytes → Bytes → W → Bool × W
  pub commit : W → Bool × W

unfoldable pub get_db_version : List Bytes → Result Bytes
get_db_version [] = throws (database_error (codes "Expected exactly one result (version)."))
get_db_version (version ∷ []) =
    if equal (take 10 version) (codes "PostgreSQL")
    then ok version
    else throws (database_error (codes "Expected version string."))
get_db_version (_ ∷ _ ∷ _) =
    throws (database_error (codes "Expected exactly one result (version)."))

-- `get_db_major_version` on the first columns of the result; `as_int` is the conversion of libpqxx, of
-- a number that is not negative.
unfoldable pub get_db_major_version : (Bytes → Result ℕ) → List Bytes → Result ℕ
get_db_major_version as_int [] =
    throws (database_error (codes "Expected exactly one result (version)."))
get_db_major_version as_int (number ∷ []) = as_int number >>= λ n. ok (n / 10000)
get_db_major_version as_int (_ ∷ _ ∷ _) =
    throws (database_error (codes "Expected exactly one result (version)."))

module _ {W : Type 0} (db : Database W) where
  unfoldable pub catchup_to_lsn : Bytes → Bytes → Program W (Unit {0})
  catchup_to_lsn replication_slot lsn =
      if ltb db.server_version 110000
      then raise
          (database_error (codes "Unsupported database version, PostgreSQL 11 or newer required"))
      else attempt (db.advance replication_slot lsn) (runtime_error [])
