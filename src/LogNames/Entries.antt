-- ===== src/LogNames/Entries.antt =====
-- The files that the programs make in the log directory, by their names (src/util.cpp,
-- src/osmdbt-get-log.cpp, src/osmdbt-fake-log.cpp, src/osmdbt-create-diff.cpp), and those of them
-- that the loops over the directory take for log files.
use osmdbt_pgoutput.Base.{
  ◌<◌, ◌≡◌, refl, ap, ◌∙◌, sym, true, false, none, some, List, [], ◌∷◌, ◌++◌, append_assoc, arith,
  map, Bytes, codes, equal,
}
use osmdbt_pgoutput.Osmium.{Timestamps}
use osmdbt_pgoutput.Cstd.{u64_mod, to_hex}
use osmdbt_pgoutput.Lsn.{LsnType, str, upper, lower}
use osmdbt_pgoutput.GetLog.{dash, lsn_dash}
use osmdbt_pgoutput.GetLog.Dashes.{map-dash-str}
use osmdbt_pgoutput.Util.{create_replication_log_name, tmp_name}
use osmdbt_pgoutput.LogNames.{last_dot, extension, is_log, logs_in_dir, match_front, match_lsn}
use osmdbt_pgoutput.LogNames.Patterns.{
  match_lsn-none, extension-append, Fits, Fits-append, match_front-append, match_lsn-to_hex,
}

-- `YYYY-MM-DDTHH:MM:SSZ`, with 0 for a digit.
abbrev pub iso : Bytes
iso = codes "0000-00-00T00:00:00Z"

module _ (ts : Timestamps) where
  -- A log of `osmdbt-get-log` up to an LSN and one of `osmdbt-fake-log` for the text of a minute, at a
  -- time of writing; a file that is still written, and a log that has been read.
  pub data Entry : Type 0 where
    complete : LsnType → ts.Timestamp → Entry
    faked : Bytes → ts.Timestamp → Entry
    in_progress done : Bytes → Entry

  abbrev pub name_of : Entry → Bytes
  name_of (complete l now) = create_replication_log_name ts (lsn_dash (str l)) now
  name_of (faked minute now) = create_replication_log_name ts minute now
  name_of (in_progress name) = tmp_name name
  name_of (done name) = name ++ codes ".done"

  -- The LSN has 64 bits, and the times are written as ISO 8601 says.
  abbrev pub IsNamed : Entry → Type 0
  IsNamed (complete l now) = (l.m_lsn < u64_mod) × Fits iso (ts.to_iso_all now)
  IsNamed (faked minute now) = Fits iso minute × Fits iso (ts.to_iso_all now)
  IsNamed (in_progress name) = Unit
  IsNamed (done name) = Unit

  -- The logs among the entries.
  abbrev pub logs : List Entry → List Entry
  logs [] = []
  logs (complete l now ∷ es) = complete l now ∷ logs es
  logs (faked minute now ∷ es) = faked minute now ∷ logs es
  logs (in_progress name ∷ es) = logs es
  logs (done name ∷ es) = logs es

  pub is_log-create_replication_log_name :
      (w : Bytes) (now : ts.Timestamp) → is_log (create_replication_log_name ts w now) ≡ true
  unfolding is_log create_replication_log_name equal
  is_log-create_replication_log_name w now =
      rw (sym (append_assoc (ts.to_iso_all now) (b'-' ∷ w) (codes ".log"))) (
        rw
          (extension-append b'o' b'l' (codes "sm-repl-" ++ (ts.to_iso_all now ++ b'-' ∷ w))
            (codes "og") (omega arith, (omega arith, (omega arith, tt))))
          refl)

  pub is_log-tmp_name : (name : Bytes) → is_log (tmp_name name) ≡ false
  unfolding is_log extension last_dot equal
  is_log-tmp_name [] = refl
  is_log-tmp_name (c ∷ name) =
      rw (extension-append c b'n' name (codes "ew") (omega arith, (omega arith, (omega arith, tt))))
        refl

  pub is_log-done : (name : Bytes) → is_log (name ++ codes ".done") ≡ false
  unfolding is_log extension last_dot equal
  is_log-done [] = refl
  is_log-done (c ∷ name) =
      rw
        (extension-append c b'd' name (codes "one")
          (omega arith, (omega arith, (omega arith, (omega arith, tt)))))
        refl

  -- Whatever the files are called, the loop of `osmdbt-create-diff` over the log directory selects
  -- the logs of `osmdbt-get-log` and `osmdbt-fake-log`, in the order of the directory, and neither a
  -- file that is still written nor a log that has been read.
  pub logs_in_dir-name_of : (es : List Entry) → logs_in_dir (map name_of es) ≡ map name_of (logs es)
  unfolding logs_in_dir
  logs_in_dir-name_of [] = refl
  logs_in_dir-name_of (complete l now ∷ es) =
      rw (is_log-create_replication_log_name (lsn_dash (str l)) now, logs_in_dir-name_of es) refl
  logs_in_dir-name_of (faked minute now ∷ es) =
      rw (is_log-create_replication_log_name minute now, logs_in_dir-name_of es) refl
  logs_in_dir-name_of (in_progress name ∷ es) = rw (is_log-tmp_name name) (logs_in_dir-name_of es)
  logs_in_dir-name_of (done name ∷ es) = rw (is_log-done name) (logs_in_dir-name_of es)

  -- The name as the front of the expression and its group.
  name-regroup :
      (now : ts.Timestamp) (u v : Bytes)
      → codes "osm-repl-"
          ++ (ts.to_iso_all now
              ++ (codes "-" ++ ((codes "lsn-" ++ (u ++ (b'-' ∷ v))) ++ codes ".log")))
        ≡ (codes "osm-repl-" ++ (ts.to_iso_all now ++ codes "-lsn-"))
          ++ (u ++ (b'-' ∷ (v ++ codes ".log")))
  name-regroup now u v = simp (append_assoc)

  -- The expression on a name of `osmdbt-get-log`.
  pub match_lsn-complete :
      (l : LsnType) (now : ts.Timestamp)
      → IsNamed (complete l now)
      → match_lsn (create_replication_log_name ts (lsn_dash (str l)) now) ≡ some (map dash (str l))
  unfolding create_replication_log_name lsn_dash
  match_lsn-complete l now h = rw (map-dash-str l h.0) (
      ap match_lsn (name-regroup now (to_hex (upper l)) (to_hex (lower l)))
      ∙ match_lsn-to_hex (codes "osm-repl-" ++ (ts.to_iso_all now ++ codes "-lsn-")) (upper l)
          (lower l)
          (Fits-append (codes "osm-repl-") (codes "osm-repl-") (codes "0000-00-00T00:00:00Z-lsn-")
            (ts.to_iso_all now ++ codes "-lsn-") refl
            (Fits-append iso (ts.to_iso_all now) (codes "-lsn-") (codes "-lsn-") h.1 refl)))

  minute-regroup :
      (now : ts.Timestamp) (minute : Bytes)
      → codes "osm-repl-" ++ (ts.to_iso_all now ++ (codes "-" ++ (minute ++ codes ".log")))
        ≡ (codes "osm-repl-" ++ (ts.to_iso_all now ++ codes "-")) ++ (minute ++ codes ".log")
  minute-regroup now minute = simp (append_assoc)

  -- A minute starts with a digit, where the expression has a letter.
  match_front-minute :
      (minute t : Bytes) → Fits iso minute → match_front (codes "lsn-") (minute ++ t) ≡ none
  unfolding match_front
  match_front-minute [] t h = cc
  match_front-minute (c ∷ minute) t h = ground arith

  -- The expression on a name of `osmdbt-fake-log`.
  pub match_lsn-faked :
      (minute : Bytes) (now : ts.Timestamp)
      → IsNamed (faked minute now)
      → match_lsn (create_replication_log_name ts minute now) ≡ none
  unfolding create_replication_log_name
  match_lsn-faked minute now h =
      ap match_lsn (minute-regroup now minute)
      ∙ match_lsn-none
          ((codes "osm-repl-" ++ (ts.to_iso_all now ++ codes "-")) ++ (minute ++ codes ".log"))
          (match_front-append (codes "osm-repl-0000-00-00T00:00:00Z-")
              (codes "osm-repl-" ++ (ts.to_iso_all now ++ codes "-")) (codes "lsn-")
              (minute ++ codes ".log")
              (Fits-append (codes "osm-repl-") (codes "osm-repl-") (codes "0000-00-00T00:00:00Z-")
                (ts.to_iso_all now ++ codes "-") refl
                (Fits-append iso (ts.to_iso_all now) (codes "-") (codes "-") h.1 refl))
            ∙ match_front-minute minute (codes ".log") h.0)
