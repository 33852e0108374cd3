-- ===== src/Config/Database.antt =====
-- What the entries under `database` cannot change.
use osmdbt_pgoutput.Base.{not, Bytes, codes}
use osmdbt_pgoutput.Base.Result.{throws_if, config_error, Holds, Holds-then, Holds-if, Holds-pure}
use osmdbt_pgoutput.Config.{Yaml, Config, set_entry, read_database}

module _ (yaml : Yaml) (P : Config → Type 0) where
  pub read_database-keeps :
      (database : yaml.Node) (config : Config)
      → P config
      → ((host port dbname user password slot publication : Bytes)
          → P (record config {
            m_db_host = host;
            m_db_port = port;
            m_db_dbname = dbname;
            m_db_user = user;
            m_db_password = password;
            m_replication_slot = slot;
            m_publication = publication;
          }))
      → Holds P (read_database yaml database config)
  unfolding read_database
  read_database-keeps database config h keeps =
      Holds-if (not (yaml.defined database)) (λ _. Holds-pure h)
        (λ _.
          Holds-then
            (throws_if (not (yaml.is_map database))
              (config_error (codes "'database' entry must be a Map.")))
            _
            (λ _. Holds-then (set_entry yaml database (codes "host") config.m_db_host) _ (λ host.
              Holds-then (set_entry yaml database (codes "port") config.m_db_port) _ (λ port.
                Holds-then (set_entry yaml database (codes "dbname") config.m_db_dbname) _
                  (λ dbname.
                    Holds-then (set_entry yaml database (codes "user") config.m_db_user) _ (λ user.
                      Holds-then (set_entry yaml database (codes "password") config.m_db_password) _
                        (λ password.
                          Holds-then
                            (set_entry yaml database (codes "replication_slot")
                              config.m_replication_slot)
                            _
                            (λ slot.
                              Holds-then
                                (set_entry yaml database (codes "publication") config.m_publication)
                                _
                                (λ publication.
                                  Holds-pure
                                    (keeps host port dbname user password slot publication))))))))))
