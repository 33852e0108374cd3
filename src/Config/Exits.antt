-- ===== src/Config/Exits.antt =====
-- The exit code of a program whose configuration cannot be used (src/config.cpp, src/util.hpp).
use osmdbt_pgoutput.Base.{
  ◌≡◌, refl, ◌⊎◌, inl, inr, Bool, true, false, Option, none, some, [], ◌∷◌, ◌++◌, Bytes, codes,
}
use osmdbt_pgoutput.Base.Result.{Result, ok, throws, system_error}
use osmdbt_pgoutput.Util.ExitCode.{app_wrapper}
use osmdbt_pgoutput.Config.{
  Yaml, Config, find_config_file, load_config_file, read_database, read_config,
}

abbrev pub here : Bytes
here = codes "osmdbt-config.yaml"

abbrev pub etc : Bytes
etc = codes "/etc/replication/osmdbt-config.yaml"

module _ (files : Bytes → Option Bytes) where
  -- The file that is named, or, if none is, each of the two places, cannot be opened.
  abbrev pub NotOpened : Bytes → Type 0
  NotOpened [] = (files here ≡ none) × (files etc ≡ none)
  NotOpened (c ∷ config_file) = files (c ∷ config_file) ≡ none

  -- The content of the file that is named, or, if none is, of the first of the two places where
  -- there is one.
  abbrev pub IsContent : Bytes → Bytes → Type 0
  IsContent [] content =
      (files here ≡ some content) ⊎ ((files here ≡ none) × (files etc ≡ some content))
  IsContent (c ∷ config_file) content = files (c ∷ config_file) ≡ some content

  find-NotOpened :
      (config_file : Bytes)
      → NotOpened config_file
      → (message : Bytes) × (find_config_file files config_file ≡ throws (system_error message))
  unfolding find_config_file
  find-NotOpened [] (e, f) = (
    codes
        "Config error: Could not open config file 'osmdbt-config.yaml' in current directory or '/etc/replication'",
    rw (e, f, find_config_file) refl,
  )
  find-NotOpened (c ∷ config_file) e = (
    codes "Config error: Could not open config file '" ++ ((c ∷ config_file) ++ codes "'"),
    rw (e, find_config_file) refl,
  )

  find-IsContent :
      (config_file content : Bytes)
      → IsContent config_file content
      → find_config_file files config_file ≡ ok content
  unfolding find_config_file
  find-IsContent [] content (inl e) = rw (e, find_config_file) refl
  find-IsContent [] content (inr (e, f)) = rw (e, f, find_config_file) refl
  find-IsContent (c ∷ config_file) content e = rw (e, find_config_file) refl

module _ (yaml : Yaml) (files : Bytes → Option Bytes) (config_file : Bytes) where
  -- The file is read, and its `database` is there and is no map.
  pub record NoMap : Type 0 where
    pub node : yaml.Node
    pub database : yaml.Node
    pub content : Bytes
    pub is_read : IsContent files config_file content
    pub loads : yaml.load content ≡ ok node
    pub has_database : yaml.child node (codes "database") ≡ ok database
    pub is_there : yaml.defined database ≡ true
    pub is_no_map : yaml.is_map database ≡ false

  -- If the configuration file that is named cannot be opened, or none is named and there is none
  -- in the two usual places, or the file is read and its `database` is there and is no map, every
  -- program whose command line is right ends with the exit code 2, whatever it would do else.
  pub app_wrapper-read_config :
      (app : Config → Result Bool)
      → NotOpened files config_file ⊎ NoMap
      → app_wrapper (ok tt) (read_config yaml files config_file) app ≡ ok 2
  unfolding app_wrapper read_config read_database load_config_file
  app_wrapper-read_config app (inl closed) = rw (find-NotOpened files config_file closed).1 refl
  app_wrapper-read_config app (inr bad) =
      rw
        (
          find-IsContent files config_file bad.content bad.is_read,
          bad.loads,
          bad.has_database,
          bad.is_there,
          bad.is_no_map,
        )
        refl
