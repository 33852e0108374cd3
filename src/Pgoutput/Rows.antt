-- ===== src/Pgoutput/Rows.antt =====
-- The Insert and Update messages that the protocol sends, through the parser.
use mathlib.Core.Path.{subst}
use osmdbt_pgoutput.Base.{
  ℕ, ◌^◌, ◌<◌, ◌≡◌, refl, none, some, Option, List, [], ◌∷◌, ◌++◌, map, append_assoc, append-nil,
  arith, Bytes, codes, get_elem?,
}
use osmdbt_pgoutput.Base.Result.{Result, ok}
use osmdbt_pgoutput.Pgoutput.Reader.{Reading, ◌>>=◌, lift}
use osmdbt_pgoutput.Pgoutput.Reader.Yields.{
  Yields, Yields-pure, Yields-bind, Yields-last, Yields-read,
}
use osmdbt_pgoutput.Pgoutput.Protocol.{
  Column, value, tuple_bytes, IsTuple, insert_bytes, OldTuple, absent, key, old, IsOldTuple,
  update_bytes,
}
use osmdbt_pgoutput.Pgoutput.Tuple.{Yields-read_tuple_data}
use osmdbt_pgoutput.Pgoutput.{
  RelevantTableColumns, RelIdRelevantColumns, find, columns_of, column_value, value_or_null,
  object_entry, read_insert, read_updated, skip_old_tuple, read_update,
}

pub Yields-lift : {A : Type 0} {r : Result A} {a : A} → r ≡ ok a → Yields (lift r) [] a
Yields-lift e = record { runs = λ p rest h. (p, rw (e, lift) refl, h) }

-- The row of a table holds an id, a version and a changeset where the metadata says.
pub record Holds (cols : RelevantTableColumns) (row : List (Option Bytes))
    (id version changeset : Bytes) : Type 0 where
  pub id_there : get_elem? row cols.osm_object_column ≡ some (some id)
  pub version_there : get_elem? row cols.version_column ≡ some (some version)
  pub changeset_there : get_elem? row cols.changeset_column ≡ some (some changeset)

abbrev pub entry_text : RelevantTableColumns → Bytes → Bytes → Bytes → Bytes
entry_text cols id version changeset =
    cols.object_type ∷ (id ++ (codes " v" ++ (version ++ (codes " c" ++ changeset))))

column_value_lem :
    (row : List (Option Bytes)) (i : ℕ) {t : Bytes}
    → get_elem? row i ≡ some (some t)
    → column_value row i ≡ ok t
unfolding column_value
column_value_lem row i e = rw (e, column_value)

object_entry-Holds :
    {cols : RelevantTableColumns} {row : List (Option Bytes)} {id version changeset : Bytes}
    → Holds cols row id version changeset
    → object_entry cols row ≡ ok (entry_text cols id version changeset)
unfolding object_entry
object_entry-Holds {cols} {row} h = rw (
  object_entry,
  column_value_lem row cols.osm_object_column h.id_there,
  column_value_lem row cols.version_column h.version_there,
  column_value_lem row cols.changeset_column h.changeset_there,
)

columns_of-find :
    (id : ℕ) (m : RelIdRelevantColumns) {cols : RelevantTableColumns}
    → find id m ≡ some cols
    → columns_of id m ≡ ok cols
unfolding columns_of
columns_of-find id m e = rw (e, columns_of)

-- The redaction of a row, as it is written.
abbrev pub redaction_text : Option Bytes → Bytes
redaction_text none = codes "NULL"
redaction_text (some t) = t

value_or_null_lem :
    (row : List (Option Bytes)) (i : ℕ) {v : Option Bytes}
    → get_elem? row i ≡ some v
    → value_or_null row i ≡ ok (redaction_text v)
unfolding value_or_null
value_or_null_lem row i {v = none} e = rw (e, value_or_null)
value_or_null_lem row i {v = some t} e = rw (e, value_or_null)

Yields-skip_old_tuple :
    (cs : List Column)
    → IsTuple cs
    → Yields (skip_old_tuple b'K') (tuple_bytes cs ++ b'N' ∷ []) b'N'
      × Yields (skip_old_tuple b'O') (tuple_bytes cs ++ b'N' ∷ []) b'N'
unfolding skip_old_tuple
Yields-skip_old_tuple cs h = (
  Yields-bind _ (Yields-read_tuple_data cs h) (Yields-read 1 b'N' (omega arith)),
  Yields-bind _ (Yields-read_tuple_data cs h) (Yields-read 1 b'N' (omega arith)),
)

Yields-skipped :
    {A : Type 0} {m : Reading ℕ} (f : ℕ → Reading A) (cs : List Column) {s : Bytes} {a : A}
    → Yields m (tuple_bytes cs ++ b'N' ∷ []) b'N'
    → Yields (f b'N') s a
    → Yields (m >>= f) (tuple_bytes cs ++ (b'N' ∷ s)) a
Yields-skipped {m} f cs {s} {a} y k =
    subst (λ i. Yields (m >>= f) i a) (append_assoc (tuple_bytes cs) (b'N' ∷ []) s)
      (Yields-bind f y k)

module _ (m : RelIdRelevantColumns) (relation_id : ℕ) (new_tuple : List Column)
    {cols : RelevantTableColumns} {id version changeset : Bytes} (fits : relation_id < 2 ^ 32)
    (t : IsTuple new_tuple) (known : find relation_id m ≡ some cols)
    (h : Holds cols (map value new_tuple) id version changeset) where
  pub Yields-read_insert :
      Yields
        (read_insert m)
        (insert_bytes relation_id new_tuple)
        (codes "N " ++ entry_text cols id version changeset)
  unfolding read_insert
  Yields-read_insert = Yields-bind _ (Yields-read 4 relation_id fits) (
      Yields-bind _ (Yields-read 1 b'N' (omega arith)) (
        rw (← append-nil (tuple_bytes new_tuple)) (
          Yields-bind _ (Yields-read_tuple_data new_tuple t) (
            Yields-bind _ (Yields-lift (columns_of-find relation_id m known))
              (Yields-last (λ entry. codes "N " ++ entry) (Yields-lift (object_entry-Holds h)))))))

  Yields-read_updated :
      {redaction : Option Bytes}
      → get_elem? (map value new_tuple) cols.redaction_column ≡ some redaction
      → Yields (read_updated m relation_id b'N') (tuple_bytes new_tuple) (
          codes "R "
          ++ (entry_text cols id version changeset ++ (codes " " ++ redaction_text redaction)))
  unfolding read_updated
  Yields-read_updated r = rw (← append-nil (tuple_bytes new_tuple)) (
      Yields-bind _ (Yields-read_tuple_data new_tuple t) (
        Yields-bind _ (Yields-lift (columns_of-find relation_id m known)) (
          Yields-bind _ (Yields-lift (object_entry-Holds h)) (
            Yields-last
              (λ w. codes "R " ++ (entry_text cols id version changeset ++ (codes " " ++ w)))
              (Yields-lift (value_or_null_lem (map value new_tuple) cols.redaction_column r))))))

  pub Yields-read_update :
      (before : OldTuple) {redaction : Option Bytes}
      → IsOldTuple before
      → get_elem? (map value new_tuple) cols.redaction_column ≡ some redaction
      → Yields (read_update m) (update_bytes relation_id before new_tuple) (
          codes "R "
          ++ (entry_text cols id version changeset ++ (codes " " ++ redaction_text redaction)))
  unfolding read_update skip_old_tuple
  Yields-read_update absent b r = Yields-bind _ (Yields-read 4 relation_id fits) (
      Yields-bind _ (Yields-read 1 b'N' (omega arith))
        (Yields-bind (read_updated m relation_id) (Yields-pure b'N') (Yields-read_updated r)))
  Yields-read_update (key cs) b r = Yields-bind _ (Yields-read 4 relation_id fits) (
      Yields-bind _ (Yields-read 1 b'K' (omega arith)) (
        Yields-skipped (read_updated m relation_id) cs (Yields-skip_old_tuple cs b).0
          (Yields-read_updated r)))
  Yields-read_update (old cs) b r = Yields-bind _ (Yields-read 4 relation_id fits) (
      Yields-bind _ (Yields-read 1 b'O' (omega arith)) (
        Yields-skipped (read_updated m relation_id) cs (Yields-skip_old_tuple cs b).1
          (Yields-read_updated r)))
