-- ===== src/GetLog/Sent.antt =====
-- The rows that PostgreSQL sends for a table and a new version of one of its objects.
use osmdbt_pgoutput.Base.{
  ℕ, ◌+◌, ◌^◌, ◌<◌, ◌≡◌, refl, some, Option, List, [], ◌∷◌, ◌++◌, map, Bytes, codes, All, length,
  get_elem?, ◌==◌, ==_refl, Bool-cases, inl, inr,
}
use osmdbt_pgoutput.Base.Result.{ok}
use osmdbt_pgoutput.Pgoutput.Reader.{RowLowLevelParser}
use osmdbt_pgoutput.Pgoutput.Reader.Yields.{At}
use osmdbt_pgoutput.Pgoutput.Protocol.{
  Column, value, IsTuple, insert_bytes, OldTuple, IsOldTuple, update_bytes, Relation,
  relation_bytes, IsRelation,
}
use osmdbt_pgoutput.Pgoutput.Columns.{changeset_id, version, redaction_id, IsLayout, HasColumns}
use osmdbt_pgoutput.Pgoutput.Relations.{names}
use osmdbt_pgoutput.Pgoutput.Rows.{Holds, redaction_text}
use osmdbt_pgoutput.Pgoutput.Messages.{
  parse_op_lem, parse_op_insert_lem, parse_op_update_lem, parse_op_relation_lem,
}
use osmdbt_pgoutput.Pgoutput.{
  RelevantTableColumns, RelIdRelevantColumns, Parser, find, assign, table_kind,
}
use osmdbt_pgoutput.GetLog.Hex.{encode_hex, IsByte, hex2bytes-encode_hex}
use osmdbt_pgoutput.GetLog.Events.{skipped, inserts, updates, event_of, decode_row, decode_rows}
use osmdbt_pgoutput.GetLog.{Row}

-- The row carries a message with this operation and these data.
pub record Carries (row : Row) (op : ℕ) (body : Bytes) : Type 0 where
  pub in_hex : row.data' ≡ encode_hex (op ∷ body)
  pub are_bytes : All IsByte (op ∷ body)
  pub in_range : length body + 1 < 2 ^ 32

decode_row_lem :
    {row : Row} {op : ℕ} {body : Bytes} (p : Parser)
    → Carries row op body
    → (msg : RowLowLevelParser) × (decode_row row p ≡ event_of op (record p { m_msg = msg }))
      × At msg body
decode_row_lem {row} {op} {body} p c =
    let (msg, e, h) = parse_op_lem op body p c.in_range in
    (msg, rw (c.in_hex, hex2bytes-encode_hex (op ∷ body) c.are_bytes, e) refl, h)

find-assign :
    (id : ℕ) (cols : RelevantTableColumns) (m : RelIdRelevantColumns)
    → find id (assign id cols m) ≡ some cols
unfolding find assign
find-assign id cols [] = rw (==_refl id) refl
find-assign id cols ((j, old) ∷ m) = elim (Bool-cases (j == id)) [
  | inl e ↦ rw (e, ==_refl id) refl
  | inr e ↦ rw (e, find, e) (find-assign id cols m)
]

-- Every column of that name holds the text.
abbrev pub ColumnHolds : List Bytes → List (Option Bytes) → Bytes → Bytes → Type 0
ColumnHolds ns row name t = (i : ℕ) → get_elem? ns i ≡ some name → get_elem? row i ≡ some (some t)

-- The values of the columns that the log names, in a row of the table.
pub record IsObjectRow (field : Bytes) (ns : List Bytes) (row : List (Option Bytes))
    (id v changeset : Bytes) : Type 0 where
  pub id_holds : ColumnHolds ns row field id
  pub version_holds : ColumnHolds ns row version v
  pub changeset_holds : ColumnHolds ns row changeset_id changeset

module _ (p : Parser) (r : Relation) {object_type : ℕ} {field : Bytes} {r_row : Row}
    (is_relation : IsRelation r) (kind : table_kind r.name ≡ some (object_type, field))
    (has : HasColumns field (names r.attributes))
    (carried : Carries r_row b'R' (relation_bytes r)) where
  decode_relation :
      (msg : RowLowLevelParser) × (cols : RelevantTableColumns) × (decode_row r_row p
        ≡ ok (
          skipped,
          record {
            m_msg = msg;
            m_relevant_columns_per_rel_id = assign r.id cols p.m_relevant_columns_per_rel_id;
          },
        ))
      × IsLayout field (names r.attributes) cols
      × (cols.object_type ≡ object_type)
  decode_relation =
      let (msg, e, h) = decode_row_lem p carried in
      let (msg', cols, e', layout, same_type) =
        parse_op_relation_lem (record p { m_msg = msg }) r is_relation kind has h in
      (msg', cols, rw (e, e') refl, layout, same_type)

  module _ (new_tuple : List Column) {id v changeset : Bytes} (t : IsTuple new_tuple)
      (o : IsObjectRow field (names r.attributes) (map value new_tuple) id v changeset) where
    IsLayout-Holds :
        (cols : RelevantTableColumns)
        → IsLayout field (names r.attributes) cols
        → Holds cols (map value new_tuple) id v changeset
    IsLayout-Holds cols layout = record {
      id_there = o.id_holds cols.osm_object_column layout.id_at;
      version_there = o.version_holds cols.version_column layout.version_at;
      changeset_there = o.changeset_holds cols.changeset_column layout.changeset_at;
    }

    -- Two rows, each with a message in hexadecimal: the metadata of one of the three tables with its
    -- four columns once each, and a new row of it. They are decoded to one event that counts, the
    -- insertion with the entry that the values of the new row's own columns make.
    pub decode_rows-insert :
        {row : Row}
        → Carries row b'I' (insert_bytes r.id new_tuple)
        → (p' : Parser) × (decode_rows (r_row ∷ row ∷ []) p
            ≡ ok (
              (r_row, skipped)
                  ∷ (
                    row,
                    inserts (
                        codes "N "
                        ++ (object_type
                            ∷ (id ++ (codes " v" ++ (v ++ (codes " c" ++ changeset)))))),
                  )
                  ∷ [],
              p',
            ))
    decode_rows-insert sent =
        let (msg, cols, e, layout, same_type) = decode_relation in
        let p1 : Parser = record {
          m_msg = msg;
          m_relevant_columns_per_rel_id = assign r.id cols p.m_relevant_columns_per_rel_id;
        } in
        let (msg', e', h) = decode_row_lem p1 sent in
        let (msg'', e'') =
          parse_op_insert_lem (record p1 { m_msg = msg' }) r.id new_tuple is_relation.id_fits t
            (find-assign r.id cols p.m_relevant_columns_per_rel_id) (IsLayout-Holds cols layout)
            h in
        (record p1 { m_msg = msg'' }, rw (e, e', e'', same_type) refl)

    -- Two rows, each with a message in hexadecimal: the metadata of one of the three tables with its
    -- four columns once each, and an updated row of it. They are decoded to one event that counts,
    -- the update with the entry of the new row and its redaction, whatever old row it carries.
    pub decode_rows-update :
        {row : Row} (before : OldTuple) {redaction : Option Bytes}
        → IsOldTuple before
        → ((i : ℕ)
            → get_elem? (names r.attributes) i ≡ some redaction_id
            → get_elem? (map value new_tuple) i ≡ some redaction)
        → Carries row b'U' (update_bytes r.id before new_tuple)
        → (p' : Parser) × (decode_rows (r_row ∷ row ∷ []) p
            ≡ ok (
              (r_row, skipped)
                  ∷ (
                    row,
                    updates (
                        codes "R "
                        ++ ((object_type ∷ (id ++ (codes " v" ++ (v ++ (codes " c" ++ changeset)))))
                            ++ (codes " " ++ redaction_text redaction))),
                  )
                  ∷ [],
              p',
            ))
    decode_rows-update before b holds sent =
        let (msg, cols, e, layout, same_type) = decode_relation in
        let p1 : Parser = record {
          m_msg = msg;
          m_relevant_columns_per_rel_id = assign r.id cols p.m_relevant_columns_per_rel_id;
        } in
        let (msg', e', h) = decode_row_lem p1 sent in
        let (msg'', e'') =
          parse_op_update_lem (record p1 { m_msg = msg' }) r.id before new_tuple is_relation.id_fits
            b t (find-assign r.id cols p.m_relevant_columns_per_rel_id) (IsLayout-Holds cols layout)
            (holds cols.redaction_column layout.redaction_at) h in
        (record p1 { m_msg = msg'' }, rw (e, e', e'', same_type) refl)
