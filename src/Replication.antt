-- ===== src/Replication.antt =====
-- The programs that enable and disable replication (src/osmdbt-enable-replication.cpp,
-- src/osmdbt-disable-replication.cpp). Messages to the user are left out.
pub mod Catalogs
pub mod Outcomes
pub mod Setup
use osmdbt_pgoutput.Base.{Bool, true, List, [], ◌∷◌, map, Bytes}
use osmdbt_pgoutput.Posix.Program.{Program, pure, lift, ◌>>=◌, ◌>>◌}
use osmdbt_pgoutput.Config.{Config}
use osmdbt_pgoutput.Db.{get_db_version}
use osmdbt_pgoutput.Db.Server.{
  Server, query, transaction, version_query, create_publication, drop_publication, create_slot,
  drop_slot, first,
}

module _ (sv : Server) where
  -- `get_db_version(txn)`.
  unfoldable pub show_version : Program sv.World (Unit {0})
  unfolding get_db_version
  show_version = do
    rows ← query (sv.exec version_query)
    _ ← lift (get_db_version (map first rows))
    pure tt

module _ (sv : Server) (config : Config) where
  unfoldable pub publish_tables : Program sv.World (Unit {0})
  publish_tables = do _ ← query (sv.exec (create_publication config.m_publication)); pure tt

  unfoldable pub withdraw_tables : Program sv.World (Unit {0})
  withdraw_tables = do _ ← query (sv.exec (drop_publication config.m_publication)); pure tt

  unfoldable pub enable_slot : Program sv.World (Unit {0})
  enable_slot = do
    _ ← query (sv.exec_prepared create_slot (config.m_replication_slot ∷ []))
    pure tt

  unfoldable pub disable_slot : Program sv.World (Unit {0})
  disable_slot = do _ ← query (sv.exec_prepared drop_slot (config.m_replication_slot ∷ [])); pure tt

  -- `app` of `osmdbt-enable-replication`.
  unfoldable pub enable : Program sv.World Bool
  unfolding show_version publish_tables enable_slot
  enable = do
    transaction sv (do show_version sv; publish_tables)
    transaction sv enable_slot
    pure true

  -- `app` of `osmdbt-disable-replication`.
  unfoldable pub disable : Program sv.World Bool
  unfolding show_version disable_slot withdraw_tables
  disable = do
    transaction sv (do show_version sv; disable_slot)
    transaction sv withdraw_tables
    pure true
