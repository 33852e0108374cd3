-- ===== src/Pgoutput/Relations.antt =====
-- The Relation messages that the protocol sends, through the parser.
use mathlib.Core.Path.{subst}
use osmdbt_pgoutput.Base.{
  ◌≢◌, ◌==◌, ℕ, suc, ◌+◌, ◌≡◌, refl, false, none, some, List, [], ◌∷◌, ◌++◌, append_assoc,
  append-nil, arith, Bytes, codes, All, length, equal,
}
use osmdbt_pgoutput.Base.Result.{runtime_error}
use osmdbt_pgoutput.Pgoutput.Reader.{pure}
use osmdbt_pgoutput.Pgoutput.Reader.Yields.{
  Yields, Yields-pure, Yields-bind, Yields-last, Yields-read, Yields-read_string, big, Raises,
  Raises-bind, Raises-first,
}
use osmdbt_pgoutput.Pgoutput.Protocol.{
  Attribute, attributes_bytes, IsAttribute, Relation, relation_bytes, IsRelation,
}
use osmdbt_pgoutput.Pgoutput.Columns.{IsIdField, note_all, found_in, noted, note_all_lem}
use osmdbt_pgoutput.Pgoutput.{
  RelevantTableColumns, table_kind, note_column, scan_columns, check_columns, read_relation_columns,
  unexpected_relation, read_relation,
}

abbrev pub names : List Attribute → List Bytes
names [] = []
names (a ∷ as') = a.name ∷ names as'

regroup : (a b c d e : Bytes) → a ++ (b ++ (c ++ (d ++ e))) ≡ (a ++ (b ++ (c ++ d))) ++ e
regroup a b c d e = simp append_assoc

Yields-scan_columns :
    (as' : List Attribute) (col : ℕ) (field : Bytes) (st : RelevantTableColumns × ℕ)
    → All IsAttribute as'
    → Yields
        (scan_columns (length as') col field st)
        (attributes_bytes as')
        (note_all field col (names as') st)
unfolding scan_columns
Yields-scan_columns [] col field st h = Yields-pure st
Yields-scan_columns (a ∷ as') col field st (h, hs) =
    subst
      (λ i.
        Yields (scan_columns (suc (length as')) col field st) i
          (note_all field col (a.name ∷ names as') st))
      (regroup (big 1 a.flags) (a.name ++ (0 ∷ [])) (big 4 a.type_id) (big 4 a.modifier)
        (attributes_bytes as'))
      (Yields-bind _ (Yields-read 1 a.flags h.flags_fits) (
        Yields-bind _ (Yields-read_string a.name h.name_text) (
          Yields-bind _ (Yields-read 4 a.type_id h.type_id_fits) (
            Yields-bind _ (Yields-read 4 a.modifier h.modifier_fits)
              (Yields-scan_columns as' (col + 1) field (note_column field col a.name st) hs)))))

-- The name of a table's id column differs from the other names.
pub table_kind-IsIdField :
    (name : Bytes) {object_type : ℕ} {field : Bytes}
    → table_kind name ≡ some (object_type, field)
    → IsIdField field
unfolding table_kind equal
table_kind-IsIdField name e = ground arith

abbrev pub start : Bytes → ℕ → RelevantTableColumns
start name object_type = record {
  relation_name = name;
  object_type = object_type;
  osm_object_column = 0;
  changeset_column = 0;
  version_column = 0;
  redaction_column = 0;
}

Yields-read_relation_columns :
    (name : Bytes) (as' : List Attribute) (object_type : ℕ) (field : Bytes)
    {cols : RelevantTableColumns}
    → All IsAttribute as'
    → note_all field 0 (names as') (start name object_type, 0) ≡ (cols, 4)
    → Yields
        (read_relation_columns name (length as') (object_type, field))
        (attributes_bytes as')
        cols
unfolding read_relation_columns check_columns
Yields-read_relation_columns name as' object_type field {cols} h e =
    rw (← append-nil (attributes_bytes as')) (
      Yields-bind (check_columns name)
        (subst
          (Yields (scan_columns (length as') 0 field (start name object_type, 0))
            (attributes_bytes as'))
          e (Yields-scan_columns as' 0 field (start name object_type, 0) h))
        (Yields-bind (λ _. pure cols) (Yields-pure tt) (Yields-pure cols)))

Raises-read_relation_columns :
    (name : Bytes) (as' : List Attribute) (object_type : ℕ) (field : Bytes)
    → All IsAttribute as'
    → IsIdField field
    → found_in field (names as') ≢ 4
    → Raises
        (read_relation_columns name (length as') (object_type, field))
        (attributes_bytes as')
        (runtime_error (codes "Missing column in relation " ++ name))
unfolding read_relation_columns check_columns
Raises-read_relation_columns name as' object_type field h f ne =
    rw (← append-nil (attributes_bytes as')) (
      Raises-bind (check_columns name)
        (subst
          (Yields (scan_columns (length as') 0 field (start name object_type, 0))
            (attributes_bytes as'))
          (note_all_lem field 0 (names as') (start name object_type) 0 f)
          (Yields-scan_columns as' 0 field (start name object_type, 0) h))
        (record {
          raises = λ p rest t.
              (let e : ((0 + found_in field (names as')) == 4) ≡ false = ground arith in rw e refl);
        }))

module _ (r : Relation) (fits : IsRelation r) where
  pub Yields-read_relation :
      {object_type : ℕ} {field : Bytes} {cols : RelevantTableColumns}
      → table_kind r.name ≡ some (object_type, field)
      → note_all field 0 (names r.attributes) (start r.name object_type, 0) ≡ (cols, 4)
      → Yields read_relation (relation_bytes r) (r.id, cols)
  unfolding read_relation
  Yields-read_relation {object_type} {field} {cols} kind noted =
      Yields-bind _ (Yields-read 4 r.id fits.id_fits) (
        Yields-bind _ (Yields-read_string r.namespace fits.namespace_text) (
          Yields-bind _ (Yields-read_string r.name fits.name_text) (
            Yields-bind _ (Yields-read 1 r.replica_identity fits.replica_identity_fits) (
              Yields-bind _ (Yields-read 2 (length r.attributes) fits.count_fits) (
                rw kind (
                  Yields-last (λ cols. (r.id, cols))
                    (Yields-read_relation_columns r.name r.attributes object_type field
                      fits.attributes_fit noted)))))))

  -- A table that is none of the three is refused.
  pub Raises-unexpected_relation :
      table_kind r.name ≡ none
      → Raises read_relation (relation_bytes r) (runtime_error (unexpected_relation r.name r.id))
  unfolding read_relation
  Raises-unexpected_relation unknown = Raises-bind _ (Yields-read 4 r.id fits.id_fits) (
      Raises-bind _ (Yields-read_string r.namespace fits.namespace_text) (
        Raises-bind _ (Yields-read_string r.name fits.name_text) (
          Raises-bind _ (Yields-read 1 r.replica_identity fits.replica_identity_fits) (
            Raises-bind _ (Yields-read 2 (length r.attributes) fits.count_fits)
              (rw unknown (record { raises = λ p rest t. refl }))))))

  -- A table in which not four columns are found is refused.
  pub Raises-missing_column :
      {object_type : ℕ} {field : Bytes}
      → table_kind r.name ≡ some (object_type, field)
      → found_in field (names r.attributes) ≢ 4
      → Raises read_relation
          (relation_bytes r)
          (runtime_error (codes "Missing column in relation " ++ r.name))
  unfolding read_relation
  Raises-missing_column {object_type} {field} kind ne =
      Raises-bind _ (Yields-read 4 r.id fits.id_fits) (
        Raises-bind _ (Yields-read_string r.namespace fits.namespace_text) (
          Raises-bind _ (Yields-read_string r.name fits.name_text) (
            Raises-bind _ (Yields-read 1 r.replica_identity fits.replica_identity_fits) (
              Raises-bind _ (Yields-read 2 (length r.attributes) fits.count_fits) (
                rw kind (
                  Raises-first _ (
                    Raises-read_relation_columns r.name r.attributes object_type field
                      fits.attributes_fit (table_kind-IsIdField r.name kind) ne)))))))
