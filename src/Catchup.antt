-- ===== src/Catchup.antt =====
-- The LSN up to which `osmdbt-catchup` marks changes as done, from the names of the files in the log
-- directory (src/osmdbt-catchup.cpp).
pub mod App
pub mod Greatest
pub mod Names
use osmdbt_pgoutput.Base.{
  Bool, Option, none, some, List, [], ◌∷◌, ◌++◌, if◌then◌else◌, Bytes, codes,
}
use osmdbt_pgoutput.Base.Result.{Result, ok, throws, runtime_error, ◌>>=◌}
use osmdbt_pgoutput.Lsn.{LsnType, no_lsn, less, parse}
use osmdbt_pgoutput.LogNames.{is_log, match_lsn}

-- What one log file makes of the LSN so far; the text is `m.str(1)` where the expression matches.
unfoldable pub visit_log : Bytes → Option Bytes → LsnType → Result LsnType
unfolding less parse
visit_log fn none lsn =
    throws (runtime_error (codes "Invalid log file format: '" ++ (fn ++ codes "'")))
visit_log fn (some text) lsn = do
  new_lsn ← parse text
  ok (if less lsn new_lsn then new_lsn else lsn)

-- The loop over the files of the directory.
unfoldable pub visit_files : List Bytes → LsnType → Result LsnType
unfolding visit_log is_log match_lsn
visit_files [] lsn = ok lsn
visit_files (fn ∷ fns) lsn = do
  lsn' ← if is_log fn then visit_log fn (match_lsn fn) lsn else ok lsn
  visit_files fns lsn'

unfoldable pub get_lsn : List Bytes → Result LsnType
unfolding visit_files
get_lsn files = visit_files files no_lsn
