-- ===== src/Config/Connection.antt =====
-- The connection string of a configuration.
use osmdbt_pgoutput.Base.{
  ◌≡◌, refl, ap, ◌∙◌, sym, Option, List, [], ◌∷◌, ◌++◌, append_assoc, append-nil, Bytes, codes,
}
use osmdbt_pgoutput.Base.Result.{ok, Holds, Holds-bind, Holds-then, Holds-pure}
use osmdbt_pgoutput.Osmium.{join}
use osmdbt_pgoutput.Config.Database.{read_database-keeps}
use osmdbt_pgoutput.Config.{
  Yaml, Config, defaults, build_conn_str, build_connection, set_dir_entry, read_database, read_dirs,
  read_config, load_config_file,
}

-- A setting, unless the value is empty.
abbrev pub setting : Bytes → Bytes → List Bytes
setting key [] = []
setting key (c ∷ val) = (key ++ (b'=' ∷ c ∷ val)) ∷ []

-- Words with a space between each two.
abbrev pub sentence : List Bytes → Bytes
sentence [] = []
sentence (w ∷ ws) = join b' ' w ws

-- The settings of a connection, in their order.
abbrev pub entries : Config → List (Bytes × Bytes)
entries config =
    (codes "host", config.m_db_host)
    ∷ (codes "port", config.m_db_port)
    ∷ (codes "dbname", config.m_db_dbname)
    ∷ (codes "user", config.m_db_user)
    ∷ (codes "password", config.m_db_password)
    ∷ []

abbrev pub settings : List (Bytes × Bytes) → List Bytes
settings [] = []
settings ((key, val) ∷ rest) = setting key val ++ settings rest

join-snoc :
    (w x : Bytes) (ws : List Bytes) → join b' ' w (ws ++ x ∷ []) ≡ join b' ' w ws ++ (b' ' ∷ x)
join-snoc w x [] = refl
join-snoc w x (w' ∷ ws) =
    ap (λ s. w ++ (b' ' ∷ s)) (join-snoc w' x ws)
    ∙ sym (append_assoc w (b' ' ∷ join b' ' w' ws) (b' ' ∷ x))

-- No word is empty.
abbrev Full : List Bytes → Type 0
Full [] = Unit
Full ([] ∷ ws) = ⊥
Full ((c ∷ w) ∷ ws) = Full ws

build_conn_str-sentence :
    (ws : List Bytes) (key val : Bytes)
    → Full ws
    → build_conn_str (sentence ws) key val ≡ sentence (ws ++ setting key val)
unfolding build_conn_str
build_conn_str-sentence ws key [] full = ap sentence (sym (append-nil ws))
build_conn_str-sentence [] key (c ∷ val) full = refl
build_conn_str-sentence ([] ∷ ws) key (c ∷ val) full = absurd full
build_conn_str-sentence ((b ∷ w) ∷ []) key (c ∷ val) full = refl
build_conn_str-sentence ((b ∷ w) ∷ w' ∷ ws) key (c ∷ val) full =
    sym (join-snoc (b ∷ w) (key ++ (b'=' ∷ c ∷ val)) (w' ∷ ws))

setting-Full : (ws : List Bytes) (key val : Bytes) → Full ws → Full (ws ++ setting key val)
setting-Full [] key [] full = tt
setting-Full [] [] (c ∷ val) full = tt
setting-Full [] (k ∷ key) (c ∷ val) full = tt
setting-Full ([] ∷ ws) key val full = absurd full
setting-Full ((b ∷ w) ∷ ws) key val full = setting-Full ws key val full

-- One after the other.
abbrev build_all : Bytes → List (Bytes × Bytes) → Bytes
build_all str [] = str
build_all str ((key, val) ∷ rest) = build_all (build_conn_str str key val) rest

build_all-sentence :
    (ws : List Bytes) (es : List (Bytes × Bytes))
    → Full ws
    → build_all (sentence ws) es ≡ sentence (ws ++ settings es)
build_all-sentence ws [] full = ap sentence (sym (append-nil ws))
build_all-sentence ws ((key, val) ∷ rest) full =
    ap (λ s. build_all s rest) (build_conn_str-sentence ws key val full)
    ∙ build_all-sentence (ws ++ setting key val) rest (setting-Full ws key val full)
    ∙ ap sentence (append_assoc ws (setting key val) (settings rest))

build_connection-sentence :
    (config : Config)
    → config.m_db_connection ≡ []
    → (build_connection config).m_db_connection ≡ sentence (settings (entries config))
unfolding build_connection
build_connection-sentence config e =
    ap (λ s. build_all s (entries config)) e ∙ build_all-sentence [] (entries config) tt

-- Nothing before `build_connection` sets the string.
abbrev Unset : Config → Type 0
Unset config = config.m_db_connection ≡ []

module _ (yaml : Yaml) where
  read_dirs-Unset :
      (node : yaml.Node) (config : Config) → Unset config → Holds Unset (read_dirs yaml node config)
  unfolding read_dirs
  read_dirs-Unset node config e =
      Holds-then (set_dir_entry yaml node (codes "log_dir") config.m_log_dir) _ (λ _.
        Holds-then (set_dir_entry yaml node (codes "changes_dir") config.m_changes_dir) _ (λ _.
          Holds-then (set_dir_entry yaml node (codes "tmp_dir") config.m_tmp_dir) _ (λ _.
            Holds-then (set_dir_entry yaml node (codes "run_dir") config.m_run_dir) _
              (λ _. Holds-pure e))))

  abbrev Built : Config → Type 0
  Built config = config.m_db_connection ≡ sentence (settings (entries config))

  build_connection-Built : (config : Config) → Unset config → Built (build_connection config)
  unfolding build_connection
  build_connection-Built config e = build_connection-sentence config e

  read_config-Built :
      (files : Bytes → Option Bytes) (config_file : Bytes)
      → Holds Built (read_config yaml files config_file)
  unfolding read_config
  read_config-Built files config_file =
      Holds-then (load_config_file yaml files config_file) _ (λ node.
        Holds-then (yaml.child node (codes "database")) _ (λ database.
          Holds-bind Unset (read_database yaml database defaults) _
            (read_database-keeps yaml Unset database defaults refl (λ _ _ _ _ _ _ _. refl))
            (λ config e.
              Holds-bind Unset (read_dirs yaml node config) _ (read_dirs-Unset node config e)
                (λ config' e'. Holds-pure (build_connection-Built config' e')))))

  -- The connection string of a configuration that has been read consists of `key=value` for host,
  -- port, dbname, user and password, in this order, without those whose value is empty, and with a
  -- space between each two.
  pub read_config-connection :
      (files : Bytes → Option Bytes) (config_file : Bytes) (config : Config)
      → read_config yaml files config_file ≡ ok config
      → config.m_db_connection ≡ sentence (settings (entries config))
  read_config-connection files config_file config e =
      (read_config-Built files config_file).holds config e
