-- ===== src/Config/Dirs.antt =====
-- The directories of a configuration: the programs put a file's name directly behind them.
use osmdbt_pgoutput.Base.{
  ℕ, ◌==◌, ==_iff, ◌≡◌, refl, ap, not, Option, [], ◌∷◌, ◌++◌, if◌then◌else◌, Bytes, codes,
  Bool-cases, inl, inr,
}
use osmdbt_pgoutput.Base.Result.{
  ok, ok-injective, Holds, Holds-bind, Holds-then, Holds-if, Holds-pure,
}
use osmdbt_pgoutput.Config.Database.{read_database-keeps}
use osmdbt_pgoutput.Config.{
  Yaml, Config, defaults, back, build_connection, set_dir, set_dir_entry, read_database, read_dirs,
  read_config, load_config_file,
}

abbrev pub EndsInSlash : Bytes → Type 0
EndsInSlash dir = (path : Bytes) × (dir ≡ path ++ b'/' ∷ [])

abbrev pub AreDirs : Config → Type 0
AreDirs config =
    EndsInSlash config.m_log_dir
    × EndsInSlash config.m_changes_dir
    × EndsInSlash config.m_tmp_dir
    × EndsInSlash config.m_run_dir

back-eq : (s : Bytes) (c : ℕ) → back s ≡ ok c → (path : Bytes) × (s ≡ path ++ c ∷ [])
back-eq [] c e = absurd (cc e)
back-eq (b ∷ []) c e = ([], ap (λ k. k ∷ []) (ok-injective e))
back-eq (b ∷ d ∷ s) c e = let (path, same) = back-eq (d ∷ s) c e in (b ∷ path, ap (◌∷◌ b) same)

-- The end of `set_dir`.
slash-EndsInSlash :
    (dir : Bytes) (end : ℕ)
    → back dir ≡ ok end
    → EndsInSlash (if end == b'/' then dir else dir ++ b'/' ∷ [])
slash-EndsInSlash dir end e = elim (Bool-cases (end == b'/')) [
  | inl is ↦ rw is (back-eq dir b'/' (rw (← (==_iff end b'/').0 is) e))
  | inr isnt ↦ rw isnt (dir, refl)
]

built : (config : Config) → AreDirs config → AreDirs (build_connection config)
unfolding build_connection
built config h = h

module _ (yaml : Yaml) where
  set_dir-EndsInSlash :
      (node : yaml.Node) (var : Bytes) → EndsInSlash var → Holds EndsInSlash (set_dir yaml node var)
  unfolding set_dir
  set_dir-EndsInSlash node var h =
      Holds-if (not (yaml.defined node)) (λ _. Holds-pure h)
        (λ _. Holds-then (yaml.as_string node) _ (λ dir.
          Holds-bind (λ end. back dir ≡ ok end) (back dir) _ (record { holds = λ end e. e })
            (λ end e. Holds-pure (slash-EndsInSlash dir end e))))

  set_dir_entry-EndsInSlash :
      (node : yaml.Node) (key var : Bytes)
      → EndsInSlash var
      → Holds EndsInSlash (set_dir_entry yaml node key var)
  set_dir_entry-EndsInSlash node key var h =
      Holds-then (yaml.child node key) _ (λ entry. set_dir-EndsInSlash entry var h)

  read_dirs-AreDirs :
      (node : yaml.Node) (config : Config)
      → AreDirs config
      → Holds AreDirs (read_dirs yaml node config)
  unfolding read_dirs
  read_dirs-AreDirs node config (log, changes, tmp, run) =
      Holds-bind EndsInSlash (set_dir_entry yaml node (codes "log_dir") config.m_log_dir) _
        (set_dir_entry-EndsInSlash node _ _ log)
        (λ _ log'.
          Holds-bind EndsInSlash
            (set_dir_entry yaml node (codes "changes_dir") config.m_changes_dir) _
            (set_dir_entry-EndsInSlash node _ _ changes)
            (λ _ changes'.
              Holds-bind EndsInSlash (set_dir_entry yaml node (codes "tmp_dir") config.m_tmp_dir) _
                (set_dir_entry-EndsInSlash node _ _ tmp)
                (λ _ tmp'.
                  Holds-bind EndsInSlash
                    (set_dir_entry yaml node (codes "run_dir") config.m_run_dir) _
                    (set_dir_entry-EndsInSlash node _ _ run)
                    (λ _ run'. Holds-pure (log', changes', tmp', run')))))

  read_config-AreDirs :
      (files : Bytes → Option Bytes) (config_file : Bytes)
      → Holds AreDirs (read_config yaml files config_file)
  unfolding read_config
  read_config-AreDirs files config_file =
      let start : AreDirs defaults =
        ((codes "/tmp", refl), (codes "/tmp", refl), (codes "/tmp", refl), (codes "/tmp", refl)) in
      Holds-then (load_config_file yaml files config_file) _ (λ node.
        Holds-then (yaml.child node (codes "database")) _ (λ database.
          Holds-bind AreDirs (read_database yaml database defaults) _
            (read_database-keeps yaml AreDirs database defaults start (λ _ _ _ _ _ _ _. start))
            (λ config h.
              Holds-bind AreDirs (read_dirs yaml node config) _ (read_dirs-AreDirs node config h)
                (λ config' h'. Holds-pure (built config' h')))))

  -- In a configuration that has been read, each of the directories for log files, changes, temporary
  -- files and PID files ends in a slash.
  pub read_config-dirs :
      (files : Bytes → Option Bytes) (config_file : Bytes) (config : Config)
      → read_config yaml files config_file ≡ ok config
      → EndsInSlash config.m_log_dir
        × EndsInSlash config.m_changes_dir
        × EndsInSlash config.m_tmp_dir
        × EndsInSlash config.m_run_dir
  read_config-dirs files config_file config e =
      (read_config-AreDirs files config_file).holds config e
