-- ===== src/Pgoutput.antt =====
-- `pgoutput::parser` (src/pgoutput.hpp, src/pgoutput.cpp): the messages of PostgreSQL's pgoutput
-- plugin. A method takes the parser, and returns its result with the parser that it leaves. The
-- keys of the map are relation ids by their 32 bit pattern.
pub mod Reader
pub mod Protocol
pub mod Tuple
pub mod Rows
pub mod Columns
pub mod Relations
pub mod Messages
use osmdbt_pgoutput.Base.{
  ℕ, zero, suc, ◌+◌, ◌^◌, Bool, true, false, not, ◌||◌, Option, none, some, List, [], ◌∷◌, ◌++◌,
  ltb, ◌==◌, if◌then◌else◌, Bytes, codes, equal, get_elem?,
}
use osmdbt_pgoutput.Base.Int.{signed}
use osmdbt_pgoutput.Base.Result
use osmdbt_pgoutput.Base.Result.{Result, ok, throws, fault, runtime_error, throws_if}
use osmdbt_pgoutput.Cstd.{to_string_ℤ}
use Reader.{
  RowLowLevelParser, Reading, of_row, ◌>>=◌, ◌>>◌, pure, lift, read, read_string, read_tuple_data,
}

-- The columns of a table that the log needs. `object_type` is a character.
pub record RelevantTableColumns : Type 0 where
  pub relation_name : Bytes
  pub object_type : ℕ
  pub osm_object_column : ℕ
  pub changeset_column : ℕ
  pub version_column : ℕ
  pub redaction_column : ℕ

abbrev pub RelIdRelevantColumns : Type 0
RelIdRelevantColumns = List (ℕ × RelevantTableColumns)

pub record Parser : Type 0 where
  pub m_msg : RowLowLevelParser
  pub m_relevant_columns_per_rel_id : RelIdRelevantColumns

abbrev pub new_parser : Parser
new_parser = record { m_msg = of_row []; m_relevant_columns_per_rel_id = [] }

unfoldable pub find : ℕ → RelIdRelevantColumns → Option RelevantTableColumns
find id [] = none
find id ((j, cols) ∷ m) = if j == id then some cols else find id m

-- `m[id] = cols`.
unfoldable pub assign : ℕ → RelevantTableColumns → RelIdRelevantColumns → RelIdRelevantColumns
assign id cols [] = (id, cols) ∷ []
assign id cols ((j, old) ∷ m) = if j == id then (id, cols) ∷ m else (j, old) ∷ assign id cols m

abbrev pub set_row : Bytes → Parser → Parser
set_row row p = record p { m_msg = of_row row }

-- A method of the reader, on the parser's message.
abbrev pub on_msg : {A : Type 0} → Reading A → Parser → Result (A × Parser)
on_msg m p = elim (m p.m_msg) [
  | ok (a, msg) ↦ ok (a, record p { m_msg = msg })
  | throws e ↦ throws e
  | fault ↦ fault
]

unfoldable pub parse_op : Parser → Result (ℕ × Parser)
parse_op p = on_msg (read 1) p

-- The object type and the name of the id column, by the table's name.
unfoldable pub table_kind : Bytes → Option (ℕ × Bytes)
table_kind name =
    if equal name (codes "nodes")
    then some (b'n', codes "node_id")
    else if equal name (codes "ways")
    then some (b'w', codes "way_id")
    else if equal name (codes "relations")
    then some (b'r', codes "relation_id")
    else none

pub unexpected_relation : Bytes → ℕ → Bytes
unexpected_relation relation_name relation_id =
    codes "pgoutput provided unexpected relation metadata for "
    ++ (relation_name
        ++ (codes " (relation_id: " ++ (to_string_ℤ (signed 32 relation_id) ++ codes ")")))

-- The test of one column's name: the columns noted so far, and how many were found.
unfoldable pub note_column : Bytes → ℕ → Bytes → RelevantTableColumns × ℕ → RelevantTableColumns × ℕ
note_column object_id_field col column_name (cols, found_columns) =
    if equal column_name object_id_field
    then (record cols { osm_object_column = col }, found_columns + 1)
    else if equal column_name (codes "changeset_id")
    then (record cols { changeset_column = col }, found_columns + 1)
    else if equal column_name (codes "version")
    then (record cols { version_column = col }, found_columns + 1)
    else if equal column_name (codes "redaction_id")
    then (record cols { redaction_column = col }, found_columns + 1)
    else (cols, found_columns)

-- The loop over the columns; the first argument counts the rounds that are left.
pub scan_columns : ℕ → ℕ → Bytes → RelevantTableColumns × ℕ → Reading (RelevantTableColumns × ℕ)
scan_columns zero col object_id_field found = pure found
scan_columns (suc rounds) col object_id_field found = do
  flags ← read 1
  column_name ← read_string
  column_type ← read 4
  type_modifier ← read 4
  scan_columns rounds (col + 1) object_id_field (note_column object_id_field col column_name found)

-- The test behind the loop.
pub check_columns : Bytes → RelevantTableColumns × ℕ → Reading RelevantTableColumns
check_columns relation_name (cols, found_columns) = do
  lift (
      throws_if (not (found_columns == 4))
        (runtime_error (codes "Missing column in relation " ++ relation_name)))
  pure cols

-- The columns of a message, behind the test of the table's name.
pub read_relation_columns : Bytes → ℕ → ℕ × Bytes → Reading RelevantTableColumns
read_relation_columns relation_name number_of_columns (object_type, object_id_field) = do
  let cols : RelevantTableColumns = record {
    relation_name = relation_name;
    object_type = object_type;
    osm_object_column = 0;
    changeset_column = 0;
    version_column = 0;
    redaction_column = 0;
  }
  found ← scan_columns number_of_columns 0 object_id_field (cols, 0)
  check_columns relation_name found

pub read_relation : Reading (ℕ × RelevantTableColumns)
read_relation = do
  relation_id ← read 4
  ns ← read_string
  relation_name ← read_string
  replica_identity ← read 1
  number_of_columns ← read 2
  cols ← elim (table_kind relation_name) [
    | none ↦ lift (throws (runtime_error (unexpected_relation relation_name relation_id)))
    | some kind ↦ read_relation_columns relation_name number_of_columns kind
  ]
  pure (relation_id, cols)

unfoldable pub parse_op_relation : Parser → Result Parser
parse_op_relation p = elim (on_msg read_relation p) [
  | ok ((relation_id, cols), p') ↦ ok (record p' {
    m_relevant_columns_per_rel_id = assign relation_id cols p'.m_relevant_columns_per_rel_id;
  })
  | throws e ↦ throws e
  | fault ↦ fault
]

-- `*new_tuple[i]`.
unfoldable pub column_value : List (Option Bytes) → ℕ → Result Bytes
column_value new_tuple i = elim (get_elem? new_tuple i) [
  | none ↦ fault
  | some v ↦ elim v [ none ↦ fault | some t ↦ ok t ]
]

-- `new_tuple[i].value_or("NULL")`.
unfoldable pub value_or_null : List (Option Bytes) → ℕ → Result Bytes
value_or_null new_tuple i = elim (get_elem? new_tuple i) [
  | none ↦ fault
  | some v ↦ ok (elim v [ none ↦ codes "NULL" | some t ↦ t ])
]

unfoldable pub columns_of : ℕ → RelIdRelevantColumns → Result RelevantTableColumns
unfolding find
columns_of relation_id m = elim (find relation_id m) [
  | none ↦ throws (
      runtime_error
        (codes "Missing metadata for relation id " ++ to_string_ℤ (signed 32 relation_id)))
  | some cols ↦ ok cols
]

-- The part of a log line that both operations write: object type and id, version, changeset.
unfoldable pub object_entry : RelevantTableColumns → List (Option Bytes) → Result Bytes
unfolding column_value
object_entry columns new_tuple =
    Result.◌>>=◌ (column_value new_tuple columns.osm_object_column) λ id.
      Result.◌>>=◌ (column_value new_tuple columns.version_column) λ version.
        Result.◌>>=◌ (column_value new_tuple columns.changeset_column) λ changeset.
          ok (columns.object_type ∷ (id ++ (codes " v" ++ (version ++ (codes " c" ++ changeset)))))

pub read_insert : RelIdRelevantColumns → Reading Bytes
read_insert m = do
  relation_id ← read 4
  new_tuple_byte ← read 1
  new_tuple ← read_tuple_data
  columns ← lift (columns_of relation_id m)
  entry ← lift (object_entry columns new_tuple)
  pure (codes "N " ++ entry)

unfoldable pub parse_op_insert : Parser → Result (Bytes × Parser)
parse_op_insert p = on_msg (read_insert p.m_relevant_columns_per_rel_id) p

-- Skips a key or an old tuple; the result is the byte that announces the next tuple.
pub skip_old_tuple : ℕ → Reading ℕ
skip_old_tuple tuple_byte =
    if tuple_byte == b'K' || tuple_byte == b'O'
    then (do old_tuple ← read_tuple_data; read 1)
    else pure tuple_byte

-- The rest of `parse_op_update`, behind the byte that announces the new tuple.
pub read_updated : RelIdRelevantColumns → ℕ → ℕ → Reading Bytes
read_updated m relation_id tuple_byte = do
  lift
      (throws_if (not (tuple_byte == b'N')) (runtime_error (codes "Update: expected N tuple byte")))
  new_tuple ← read_tuple_data
  columns ← lift (columns_of relation_id m)
  entry ← lift (object_entry columns new_tuple)
  redaction ← lift (value_or_null new_tuple columns.redaction_column)
  pure (codes "R " ++ (entry ++ (codes " " ++ redaction)))

pub read_update : RelIdRelevantColumns → Reading Bytes
read_update m = do
  relation_id ← read 4
  first_byte ← read 1
  tuple_byte ← skip_old_tuple first_byte
  read_updated m relation_id tuple_byte

unfoldable pub parse_op_update : Parser → Result (Bytes × Parser)
parse_op_update p = on_msg (read_update p.m_relevant_columns_per_rel_id) p
