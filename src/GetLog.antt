-- ===== src/GetLog.antt =====
-- The loop of `osmdbt-get-log` over the rows of the replication slot (src/osmdbt-get-log.cpp).
pub mod Hex
pub mod Dashes
pub mod Events
pub mod App
pub mod Sent
pub mod Reading
use osmdbt_pgoutput.Base.{
  map, ℕ, Bool, true, false, List, [], ◌∷◌, ◌++◌, ◌==◌, if◌then◌else◌, Bytes, codes,
}
use osmdbt_pgoutput.Base.Result.{Result, ok, ◌>>=◌}
use osmdbt_pgoutput.Cstd.{peek}
use osmdbt_pgoutput.Pgoutput.{
  Parser, new_parser, set_row, parse_op, parse_op_relation, parse_op_insert, parse_op_update,
}
use Hex.{hex2bytes}

-- A row of the query's result: the columns lsn, xid and data.
pub record Row : Type 0 where
  pub lsn : Bytes
  pub xid : Bytes
  pub data' : Bytes

-- The variables of the loop.
pub record Log : Type 0 where
  pub lsn : Bytes
  pub text : Bytes
  pub data_in_current_transaction : Bool
  pub has_actual_data : Bool
  pub parser : Parser

abbrev pub line : Row → Bytes → Bytes
line row message = row.lsn ++ (b' ' ∷ (row.xid ++ (b' ' ∷ (message ++ (b'\n' ∷ [])))))

-- What follows the switch.
unfoldable pub finish_row : Row → Bytes → Log → Log
finish_row row message log =
    let text = if log.data_in_current_transaction then log.text ++ line row message else log.text in
    if peek message == b'C'
    then record log { lsn = row.lsn; text = text; data_in_current_transaction = false }
    else if peek message == b'N'
    then record log { text = text; has_actual_data = true }
    else record log { text = text }

-- The switch over the operation.
unfoldable pub process_op : ℕ → Row → Log → Result Log
process_op op row log =
    if op == b'B'
    then ok (record log { data_in_current_transaction = false })
    else if op == b'C'
    then ok (finish_row row (codes "C") log)
    else if op == b'R'
    then (do parser ← parse_op_relation log.parser; ok (record log { parser = parser }))
    else if op == b'I'
    then (do
      (message, parser) ← parse_op_insert log.parser
      ok (
          finish_row row message
            (record log { parser = parser; data_in_current_transaction = true })))
    else if op == b'U'
    then (do
      (message, parser) ← parse_op_update log.parser
      ok (
          finish_row row message
            (record log { parser = parser; data_in_current_transaction = true })))
    else ok log

unfoldable pub process_row : Row → Log → Result Log
process_row row log = do
  binary_string ← hex2bytes row.data'
  (op, parser) ← parse_op (set_row binary_string log.parser)
  process_op op row (record log { parser = parser })

unfoldable pub process_rows : List Row → Log → Result Log
process_rows [] log = ok log
process_rows (row ∷ rows) log = do log' ← process_row row log; process_rows rows log'

abbrev pub empty_log : Log
empty_log = record {
  lsn = [];
  text = [];
  data_in_current_transaction = false;
  has_actual_data = false;
  parser = new_parser;
}

-- The part of the log file's name for the LSN.
unfoldable pub dash : ℕ → ℕ
dash c = if c == b'/' then b'-' else c

unfoldable pub lsn_dash : Bytes → Bytes
unfolding dash
lsn_dash lsn = codes "lsn-" ++ map dash lsn
