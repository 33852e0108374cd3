-- ===== src/Options.antt =====
-- What the programs take from their command lines (src/options.hpp, src/options.cpp, and
-- `check_command_options` of each program). The parsed options are those of boost::program_options.
use osmdbt_pgoutput.Base.{
  ℕ, ◌-◌, ◌^◌, Bool, Option, none, some, List, [], if◌then◌else◌, Bytes, codes,
}
use osmdbt_pgoutput.Base.Result.{Result, ok, throws, argument_error, invalid_argument, ◌>>=◌}
use osmdbt_pgoutput.Lsn.{LsnType, no_lsn, parse}
use osmdbt_pgoutput.Osmium.{Timestamps}

-- `po::variables_map`: whether an option is given, and its value.
pub record VariablesMap : Type 0 where
  pub count : Bytes → Bool
  pub as_string : Bytes → Bytes
  pub as_strings : Bytes → List Bytes
  pub as_number : Bytes → ℕ

pub record CommonOptions : Type 0 where
  pub m_quiet : Bool
  pub m_config_file : Bytes

pub record GetLogOptions : Type 0 where
  pub m_max_changes : ℕ
  pub m_catchup : Bool
  pub m_real_state : Bool

pub record FakeLogOptions (ts : Timestamps) : Type 0 where
  pub m_log_file_names : List Bytes
  pub m_timestamp : ts.Timestamp

pub record CreateDiffOptions : Type 0 where
  pub m_log_file_names : List Bytes
  pub m_init_state : ℕ
  pub m_max_changes : ℕ
  pub m_with_comment : Bool
  pub m_dry_run : Bool

module _ (vm : VariablesMap) where
  -- `check_common_options`; with the help, `none`, the program ends after printing it.
  unfoldable pub check_common_options : Option CommonOptions
  check_common_options =
      if vm.count (codes "help")
      then none
      else some (record {
        m_quiet = vm.count (codes "quiet");
        m_config_file = if vm.count (codes "config") then vm.as_string (codes "config") else [];
      })

  unfoldable pub get_log_options : GetLogOptions
  get_log_options = record {
    m_max_changes =
        if vm.count (codes "max-changes") then vm.as_number (codes "max-changes") else 0;
    m_catchup = vm.count (codes "catchup");
    m_real_state = vm.count (codes "real-state");
  }

  unfoldable pub catchup_options : Result LsnType
  catchup_options = if vm.count (codes "lsn") then parse (vm.as_string (codes "lsn")) else ok no_lsn

  unfoldable pub create_diff_options : CreateDiffOptions
  create_diff_options = record {
    m_log_file_names = if vm.count (codes "log-file") then vm.as_strings (codes "log-file") else [];
    m_init_state =
        if vm.count (codes "sequence-number") then vm.as_number (codes "sequence-number") else 0;
    m_max_changes =
        if vm.count (codes "max-changes") then vm.as_number (codes "max-changes") else 2 ^ 32 - 1;
    m_with_comment = vm.count (codes "with-comment");
    m_dry_run = vm.count (codes "dry-run");
  }

  module _ (ts : Timestamps) where
    abbrev timestamp_option : Bytes → Result ts.Timestamp
    timestamp_option text = elim (ts.of_iso text) [
      | none ↦ throws (invalid_argument [])
      | some t ↦ ok t
    ]

    unfoldable pub fake_log_options : Result (FakeLogOptions ts)
    fake_log_options = do
      m_timestamp ←
          if vm.count (codes "timestamp")
          then timestamp_option (vm.as_string (codes "timestamp"))
          else throws (
              argument_error
                (codes "Missing '--timestamp=TIMESTAMP' or '-t TIMESTAMP' on command line"))
      ok (record {
        m_log_file_names = if vm.count (codes "log") then vm.as_strings (codes "log") else [];
        m_timestamp = m_timestamp;
      })
