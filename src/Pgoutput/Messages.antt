-- ===== src/Pgoutput/Messages.antt =====
-- The operations of the parser on the messages that the protocol sends.
use osmdbt_pgoutput.Base.{
  ℕ, ◌+◌, ◌*◌, ◌^◌, ◌<◌, ◌≡◌, ◌≢◌, refl, none, some, Option, List, [], ◌∷◌, ◌++◌, map, append-nil,
  arith, Bytes, codes, length, get_elem?,
}
use osmdbt_pgoutput.Base.Result.{ok, throws, runtime_error}
use osmdbt_pgoutput.Cstd.{peek}
use osmdbt_pgoutput.Pgoutput.Reader.{RowLowLevelParser, Reading, read, big_endian}
use osmdbt_pgoutput.Pgoutput.Reader.Yields.{At, Yields}
use osmdbt_pgoutput.Pgoutput.Protocol.{
  Column, value, IsTuple, insert_bytes, OldTuple, IsOldTuple, update_bytes, Relation,
  relation_bytes, IsRelation,
}
use osmdbt_pgoutput.Pgoutput.Columns.{IsLayout, HasColumns, found_in, note_all-IsLayout}
use osmdbt_pgoutput.Pgoutput.Relations.{
  names, start, table_kind-IsIdField, Yields-read_relation, Raises-unexpected_relation,
  Raises-missing_column,
}
use osmdbt_pgoutput.Pgoutput.Rows.{
  Holds, entry_text, redaction_text, Yields-read_insert, Yields-read_update,
}
use osmdbt_pgoutput.Pgoutput.{
  RelevantTableColumns, Parser, set_row, on_msg, find, assign, table_kind, unexpected_relation,
  parse_op, parse_op_relation, parse_op_insert, parse_op_update, read_insert, read_update,
  read_updated,
}

on_msg-Yields :
    {A : Type 0} {m : Reading A} {input : Bytes} {a : A} (p : Parser)
    → Yields m input a
    → At p.m_msg input
    → (msg : RowLowLevelParser) × (on_msg m p ≡ ok (a, record p { m_msg = msg })) × At msg []
on_msg-Yields {m} {input} p y h =
    let (msg, e, h') = y.runs p.m_msg [] (rw append-nil h) in (msg, rw (e, on_msg) refl, h')

-- The first byte of a message is its operation, and its data are left to read.
pub parse_op_lem :
    (op : ℕ) (body : Bytes) (p : Parser)
    → length body + 1 < 2 ^ 32
    → (msg : RowLowLevelParser) × (parse_op (set_row (op ∷ body) p)
        ≡ ok (op, record p { m_msg = msg }))
      × At msg body
unfolding parse_op read big_endian
parse_op_lem op body p h =
    let e : op * 256 ^ 0 + 0 ≡ op = omega arith in
    (
      record { m_row = op ∷ body; m_offset = 1 },
      rw e refl,
      record { is_unread = refl; in_range = omega (arith, h) },
    )

-- An Insert message whose table is known, and whose new tuple holds an id, a version and a
-- changeset where the stored metadata says, is read as `N`, the object type and id, the version and
-- the changeset; the stored metadata stays as it is.
pub parse_op_insert_lem :
    (p : Parser) (relation_id : ℕ) (new_tuple : List Column) {cols : RelevantTableColumns}
    {id version changeset : Bytes}
    → relation_id < 2 ^ 32
    → IsTuple new_tuple
    → find relation_id p.m_relevant_columns_per_rel_id ≡ some cols
    → Holds cols (map value new_tuple) id version changeset
    → At p.m_msg (insert_bytes relation_id new_tuple)
    → (msg : RowLowLevelParser) × (parse_op_insert p
        ≡ ok (codes "N " ++ entry_text cols id version changeset, record p { m_msg = msg }))
unfolding parse_op_insert
parse_op_insert_lem p relation_id new_tuple fits t known h at_msg =
    let (msg, e, _) =
      on_msg-Yields p
        (Yields-read_insert p.m_relevant_columns_per_rel_id relation_id new_tuple fits t known h)
        at_msg in
    (msg, e)

-- An Update message whose table is known, and whose new tuple holds the same and a redaction where
-- the stored metadata says, is read as `R` with the same entry and the redaction id or `NULL` at the
-- end, whether it carries no old tuple, a key or a whole old tuple.
pub parse_op_update_lem :
    (p : Parser) (relation_id : ℕ) (before : OldTuple) (new_tuple : List Column)
    {cols : RelevantTableColumns} {id version changeset : Bytes} {redaction : Option Bytes}
    → relation_id < 2 ^ 32
    → IsOldTuple before
    → IsTuple new_tuple
    → find relation_id p.m_relevant_columns_per_rel_id ≡ some cols
    → Holds cols (map value new_tuple) id version changeset
    → get_elem? (map value new_tuple) cols.redaction_column ≡ some redaction
    → At p.m_msg (update_bytes relation_id before new_tuple)
    → (msg : RowLowLevelParser) × (parse_op_update p
        ≡ ok (
          codes "R "
              ++ (entry_text cols id version changeset ++ (codes " " ++ redaction_text redaction)),
          record p { m_msg = msg },
        ))
unfolding parse_op_update
parse_op_update_lem p relation_id before new_tuple fits b t known h r at_msg =
    let (msg, e, _) =
      on_msg-Yields p
        (Yields-read_update p.m_relevant_columns_per_rel_id relation_id new_tuple fits t known h
          before b r)
        at_msg in
    (msg, e)

-- A Relation message of one of the three tables, with the four columns that are looked for, is
-- stored under its id, with the positions of those columns; the other tables stay as they are.
pub parse_op_relation_lem :
    (p : Parser) (r : Relation) {object_type : ℕ} {field : Bytes}
    → IsRelation r
    → table_kind r.name ≡ some (object_type, field)
    → HasColumns field (names r.attributes)
    → At p.m_msg (relation_bytes r)
    → (msg : RowLowLevelParser) × (cols : RelevantTableColumns) × (parse_op_relation p
        ≡ ok (record {
          m_msg = msg;
          m_relevant_columns_per_rel_id = assign r.id cols p.m_relevant_columns_per_rel_id;
        }))
      × IsLayout field (names r.attributes) cols
      × (cols.object_type ≡ object_type)
unfolding parse_op_relation
parse_op_relation_lem p r {object_type} {field} fits kind has at_msg =
    let (cols, noted, layout, same_type) =
      note_all-IsLayout field (names r.attributes) (start r.name object_type)
        (table_kind-IsIdField r.name kind) has refl refl refl refl in
    let (msg, e, _) = on_msg-Yields p (Yields-read_relation r fits kind noted) at_msg in
    (msg, cols, rw (e, parse_op_relation) refl, layout, same_type)

-- A Relation message of any table but `nodes`, `ways` and `relations` is refused with an exception
-- that names it.
pub parse_op_relation_unexpected :
    (p : Parser) (r : Relation)
    → IsRelation r
    → At p.m_msg (relation_bytes r)
    → table_kind r.name ≡ none
    → parse_op_relation p ≡ throws (runtime_error (unexpected_relation r.name r.id))
unfolding parse_op_relation
parse_op_relation_unexpected p r fits at_msg unknown =
    let whole = rw (← append-nil (relation_bytes r)) at at_msg in
    rw ((Raises-unexpected_relation r fits unknown).raises p.m_msg [] whole, parse_op_relation) refl

-- A Relation message of one of the three tables is refused if the columns with the four names that
-- are looked for are not exactly four.
pub parse_op_relation_missing :
    (p : Parser) (r : Relation) (kind : ℕ × Bytes)
    → IsRelation r
    → At p.m_msg (relation_bytes r)
    → table_kind r.name ≡ some kind
    → found_in kind.1 (names r.attributes) ≢ 4
    → parse_op_relation p ≡ throws (runtime_error (codes "Missing column in relation " ++ r.name))
unfolding parse_op_relation
parse_op_relation_missing p r kind fits at_msg known ne =
    let whole = rw (← append-nil (relation_bytes r)) at at_msg in
    rw ((Raises-missing_column r fits known ne).raises p.m_msg [] whole, parse_op_relation) refl

-- The entries of the two operations begin with their letters.
pub peek-parse_op_insert :
    (p : Parser) {m : Bytes} {p' : Parser} → parse_op_insert p ≡ ok (m, p') → peek m ≡ b'N'
unfolding parse_op_insert read_insert
peek-parse_op_insert p e = ground arith

pub peek-parse_op_update :
    (p : Parser) {m : Bytes} {p' : Parser} → parse_op_update p ≡ ok (m, p') → peek m ≡ b'R'
unfolding parse_op_update read_update read_updated
peek-parse_op_update p e = ground arith
