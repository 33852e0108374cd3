-- ===== src/Util.antt =====
-- The common parts of the programs (src/util.hpp, src/util.cpp).
pub mod Atomic
pub mod ExitCode
pub mod Whole
use osmdbt_pgoutput.Base.{◌++◌, Bytes, codes}
use osmdbt_pgoutput.Osmium.{Timestamps}
use osmdbt_pgoutput.Posix.{System}
use osmdbt_pgoutput.Posix.Program.{Program, ◌>>=◌, ◌>>◌}
use osmdbt_pgoutput.Io.{
  rename_file, sync_dir, excl_write_open, reliable_write, reliable_fsync, reliable_close,
}

-- The name for a timestamp and a text.
unfoldable pub create_replication_log_name : (ts : Timestamps) → Bytes → ts.Timestamp → Bytes
create_replication_log_name ts name now =
    codes "osm-repl-" ++ (ts.to_iso_all now ++ (codes "-" ++ (name ++ codes ".log")))

abbrev pub tmp_name : Bytes → Bytes
tmp_name name = name ++ codes ".new"

-- The file is written under another name first. That `open` may have failed is not tested.
unfoldable pub write_data_to_file :
    (sys : System) → Bytes → Bytes → Bytes → Program sys.World (Unit {0})
unfolding rename_file sync_dir excl_write_open reliable_write reliable_fsync reliable_close
write_data_to_file sys text dir_name file_name = do
  let file_name_final = dir_name ++ file_name
  let file_name_tmp = tmp_name file_name_final
  fd ← excl_write_open sys file_name_tmp
  reliable_write sys fd text
  reliable_fsync sys fd
  reliable_close sys fd
  rename_file sys file_name_tmp file_name_final
  sync_dir sys dir_name
