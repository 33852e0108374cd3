-- ===== src/Tests/Log.antt =====
-- The rows for a node, from their hexadecimal text to the log.
use osmdbt_pgoutput.Base.{
  Bool, ◌&&◌, ltb, ℕ, suc, ◌+◌, ◌^◌, ◌<◌, ◌≡◌, refl, none, some, [], ◌∷◌, map, arith, Bytes, codes,
  All, length, get_elem?, equal, equal_iff, false, true, zero,
}
use osmdbt_pgoutput.Base.Result.{ok, ◌>>=◌}
use osmdbt_pgoutput.Pgoutput.Protocol.{value, insert_bytes, absent, update_bytes, relation_bytes}
use osmdbt_pgoutput.Pgoutput.Columns.{changeset_id, version, redaction_id}
use osmdbt_pgoutput.Pgoutput.Relations.{names}
use osmdbt_pgoutput.Pgoutput.{Parser, new_parser}
use osmdbt_pgoutput.GetLog.Hex.{encode_hex, IsByte}
use osmdbt_pgoutput.GetLog.Events.{skipped, inserts, updates, decode_rows, log_of, process_rows_lem}
use osmdbt_pgoutput.GetLog.Sent.{
  Carries, ColumnHolds, IsObjectRow, decode_rows-insert, decode_rows-update,
}
use osmdbt_pgoutput.GetLog.{Row, process_rows, empty_log}
use osmdbt_pgoutput.Tests.Messages.{
  nodes, tuple, tuple-IsTuple, nodes-IsRelation, nodes_kind, nodes_HasColumns,
}

abbrev all_bytes : Bytes → Bool
all_bytes [] = true
all_bytes (c ∷ s) = ltb c 256 && all_bytes s

abbrev row_of : Bytes → Row
row_of message = record { lsn = codes "0/1A2B3C8"; xid = codes "751"; data' = encode_hex message }

bytes_below : (s : Bytes) → all_bytes s ≡ true → All IsByte s
bytes_below [] h = tt
bytes_below (c ∷ s) h = let small : c < 256 = ground arith in (small, bytes_below s (ground arith))

carries :
    (op : ℕ) (body : Bytes)
    → all_bytes (op ∷ body) ≡ true
    → length body + 1 < 2 ^ 32
    → Carries (row_of (op ∷ body)) op body
carries op body h fits = record {
  in_hex = refl;
  are_bytes = bytes_below (op ∷ body) h;
  in_range = fits;
}

other : (a b : Bytes) → equal a b ≡ false → some a ≡ some b → ⊥
other a b h e = let same : a ≡ b = cc in cc ((equal_iff a b).1 same, h)

node_id_holds :
    ColumnHolds (names nodes.attributes) (map value tuple) (codes "node_id") (codes "17")
unfolding equal
node_id_holds zero e = refl
node_id_holds (suc zero) e = absurd (other (codes "changeset_id") (codes "node_id") refl e)
node_id_holds (suc (suc zero)) e = absurd (other (codes "version") (codes "node_id") refl e)
node_id_holds (suc (suc (suc zero))) e =
    absurd (other (codes "redaction_id") (codes "node_id") refl e)
node_id_holds (suc (suc (suc (suc i)))) e = cc

version_holds : ColumnHolds (names nodes.attributes) (map value tuple) version (codes "2")
unfolding equal
version_holds zero e = absurd (other (codes "node_id") (codes "version") refl e)
version_holds (suc zero) e = absurd (other (codes "changeset_id") (codes "version") refl e)
version_holds (suc (suc zero)) e = refl
version_holds (suc (suc (suc zero))) e =
    absurd (other (codes "redaction_id") (codes "version") refl e)
version_holds (suc (suc (suc (suc i)))) e = cc

changeset_holds : ColumnHolds (names nodes.attributes) (map value tuple) changeset_id (codes "4")
unfolding equal
changeset_holds zero e = absurd (other (codes "node_id") (codes "changeset_id") refl e)
changeset_holds (suc zero) e = refl
changeset_holds (suc (suc zero)) e = absurd (other (codes "version") (codes "changeset_id") refl e)
changeset_holds (suc (suc (suc zero))) e =
    absurd (other (codes "redaction_id") (codes "changeset_id") refl e)
changeset_holds (suc (suc (suc (suc i)))) e = cc

redaction_holds :
    (i : ℕ)
    → get_elem? (names nodes.attributes) i ≡ some redaction_id
    → get_elem? (map value tuple) i ≡ some none
unfolding equal
redaction_holds zero e = absurd (other (codes "node_id") (codes "redaction_id") refl e)
redaction_holds (suc zero) e = absurd (other (codes "changeset_id") (codes "redaction_id") refl e)
redaction_holds (suc (suc zero)) e = absurd (other (codes "version") (codes "redaction_id") refl e)
redaction_holds (suc (suc (suc zero))) e = refl
redaction_holds (suc (suc (suc (suc i)))) e = cc

tuple-IsObjectRow :
    IsObjectRow
      (codes "node_id")
      (names nodes.attributes)
      (map value tuple)
      (codes "17")
      (codes "2")
      (codes "4")
tuple-IsObjectRow = record {
  id_holds = node_id_holds;
  version_holds = version_holds;
  changeset_holds = changeset_holds;
}

abbrev pub relation_row : Row
relation_row = row_of (b'R' ∷ relation_bytes nodes)

abbrev pub insert_row : Row
insert_row = row_of (b'I' ∷ insert_bytes 16385 tuple)

abbrev update_row : Row
update_row = row_of (b'U' ∷ update_bytes 16385 absent tuple)

pub decoded :
    (p' : Parser) × (decode_rows (relation_row ∷ insert_row ∷ []) new_parser
      ≡ ok ((relation_row, skipped) ∷ (insert_row, inserts (codes "N n17 v2 c4")) ∷ [], p'))
decoded =
    decode_rows-insert new_parser nodes nodes-IsRelation nodes_kind nodes_HasColumns
      (carries b'R' (relation_bytes nodes) refl (omega arith)) tuple tuple-IsTuple tuple-IsObjectRow
      (carries b'I' (insert_bytes 16385 tuple) refl (omega arith))

decode_rows-insert_example :
    (p' : Parser) × (decode_rows (relation_row ∷ insert_row ∷ []) new_parser
      ≡ ok ((relation_row, skipped) ∷ (insert_row, inserts (codes "N n17 v2 c4")) ∷ [], p'))
decode_rows-insert_example =
    decode_rows-insert new_parser nodes nodes-IsRelation nodes_kind nodes_HasColumns
      (carries b'R' (relation_bytes nodes) refl (omega arith)) tuple tuple-IsTuple tuple-IsObjectRow
      (carries b'I' (insert_bytes 16385 tuple) refl (omega arith))

decode_rows-update_example :
    (p' : Parser) × (decode_rows (relation_row ∷ update_row ∷ []) new_parser
      ≡ ok ((relation_row, skipped) ∷ (update_row, updates (codes "R n17 v2 c4 NULL")) ∷ [], p'))
decode_rows-update_example =
    decode_rows-update new_parser nodes nodes-IsRelation nodes_kind nodes_HasColumns
      (carries b'R' (relation_bytes nodes) refl (omega arith)) tuple tuple-IsTuple tuple-IsObjectRow
      absent tt redaction_holds (carries b'U' (update_bytes 16385 absent tuple) refl (omega arith))

process_rows_lem_example : process_rows (relation_row ∷ insert_row ∷ []) empty_log ≡ (
    decode_rows (relation_row ∷ insert_row ∷ []) new_parser >>= λ r. ok (log_of empty_log r.0 r.1))
process_rows_lem_example = process_rows_lem (relation_row ∷ insert_row ∷ []) empty_log
