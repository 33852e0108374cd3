-- ===== src/Pgoutput/Columns.antt =====
-- Which columns the loop of `parse_op_relation` notes.
use osmdbt_pgoutput.Base.{
  ℕ, suc, ◌+◌, ◌≡◌, ◌⊎◌, inl, inr, refl, ap, false, some, List, [], ◌∷◌, arith, if◌then◌else◌,
  Bool-cases, Bytes, codes, equal, equal_iff, get_elem?,
}
use osmdbt_pgoutput.Pgoutput.{RelevantTableColumns, note_column}

-- How often a name stands in a list, and where it stands last, counted from `col`.
abbrev pub count : Bytes → List Bytes → ℕ
count name [] = 0
count name (n ∷ ns) = (if equal n name then 1 else 0) + count name ns

abbrev pub last_at : Bytes → ℕ → List Bytes → ℕ → ℕ
last_at name col [] default = default
last_at name col (n ∷ ns) default =
    last_at name (col + 1) ns (if equal n name then col else default)

last_at_lem :
    (name : Bytes) (col : ℕ) (ns : List Bytes) (default : ℕ)
    → ((last_at name col ns default ≡ default) × (count name ns ≡ 0))
      ⊎ ((j : ℕ) × (last_at name col ns default ≡ col + j) × (get_elem? ns j ≡ some name))
last_at_lem name col [] default = inl (refl, refl)
last_at_lem name col (n ∷ ns) default =
    elim (last_at_lem name (col + 1) ns (if equal n name then col else default)) [
      | inr (j, e, g) ↦ inr (suc j, omega (arith, e), g)
      | inl (e, none_later) ↦ elim (Bool-cases (equal n name)) [
        | inl here ↦ inr (0, rw (e, here) (omega arith), ap some ((equal_iff n name).0 here))
        | inr other ↦ inl (rw (e, other) refl, rw other (omega (arith, none_later)))
      ]
    ]

-- The names that the loop looks for.
abbrev pub changeset_id : Bytes
changeset_id = codes "changeset_id"

abbrev pub version : Bytes
version = codes "version"

abbrev pub redaction_id : Bytes
redaction_id = codes "redaction_id"

-- The name of the id column is none of the others.
pub record IsIdField (field : Bytes) : Type 0 where
  pub ne_changeset_id : equal changeset_id field ≡ false
  pub ne_version : equal version field ≡ false
  pub ne_redaction_id : equal redaction_id field ≡ false

abbrev pub found_in : Bytes → List Bytes → ℕ
found_in field ns =
    count field ns + count changeset_id ns + count version ns + count redaction_id ns

abbrev pub note_all : Bytes → ℕ → List Bytes → RelevantTableColumns × ℕ → RelevantTableColumns × ℕ
note_all field col [] st = st
note_all field col (n ∷ ns) st = note_all field (col + 1) ns (note_column field col n st)

abbrev pub noted : Bytes → ℕ → List Bytes → RelevantTableColumns → RelevantTableColumns
noted field col ns cols = record cols {
  osm_object_column = last_at field col ns cols.osm_object_column;
  changeset_column = last_at changeset_id col ns cols.changeset_column;
  version_column = last_at version col ns cols.version_column;
  redaction_column = last_at redaction_id col ns cols.redaction_column;
}

note_column_lem :
    (field : Bytes) (col : ℕ) (n : Bytes) (cols : RelevantTableColumns) (found : ℕ)
    → IsIdField field
    → note_column field col n (cols, found)
      ≡ (noted field col (n ∷ []) cols, found + found_in field (n ∷ []))
unfolding note_column
note_column_lem field col n cols found h = ground (
  arith,
  equal_iff n field,
  equal_iff n changeset_id,
  equal_iff n version,
  equal_iff n redaction_id,
)

pub note_all_lem :
    (field : Bytes) (col : ℕ) (ns : List Bytes) (cols : RelevantTableColumns) (found : ℕ)
    → IsIdField field
    → note_all field col ns (cols, found) ≡ (noted field col ns cols, found + found_in field ns)
note_all_lem field col [] cols found h = ground arith
note_all_lem field col (n ∷ ns) cols found h =
    rw
      (
        note_column_lem field col n cols found h,
        note_all_lem field (col + 1) ns (noted field col (n ∷ []) cols)
            (found + found_in field (n ∷ [])) h,
      )
      (ground arith)

-- Each of the four names stands in the table, and the noted positions are theirs.
pub record IsLayout (field : Bytes) (ns : List Bytes) (cols : RelevantTableColumns) : Type 0 where
  pub id_at : get_elem? ns cols.osm_object_column ≡ some field
  pub changeset_at : get_elem? ns cols.changeset_column ≡ some changeset_id
  pub version_at : get_elem? ns cols.version_column ≡ some version
  pub redaction_at : get_elem? ns cols.redaction_column ≡ some redaction_id

-- The four names stand once each among the columns of the table.
pub record HasColumns (field : Bytes) (ns : List Bytes) : Type 0 where
  pub one_id : count field ns ≡ 1
  pub one_changeset : count changeset_id ns ≡ 1
  pub one_version : count version ns ≡ 1
  pub one_redaction : count redaction_id ns ≡ 1

found_at :
    (name : Bytes) (ns : List Bytes)
    → count name ns ≡ 1
    → get_elem? ns (last_at name 0 ns 0) ≡ some name
found_at name ns one = elim (last_at_lem name 0 ns 0) [
  | inl (_, zero_times) ↦ absurd (omega (arith, zero_times, one))
  | inr (j, e, g) ↦ let e' : last_at name 0 ns 0 ≡ j = omega (arith, e) in rw e' g
]

-- On a table that has the four columns the loop finds four, and notes where they stand.
pub note_all-IsLayout :
    (field : Bytes) (ns : List Bytes) (cols : RelevantTableColumns)
    → IsIdField field
    → HasColumns field ns
    → cols.osm_object_column ≡ 0
    → cols.changeset_column ≡ 0
    → cols.version_column ≡ 0
    → cols.redaction_column ≡ 0
    → (cols' : RelevantTableColumns) × (note_all field 0 ns (cols, 0) ≡ (cols', 4))
      × IsLayout field ns cols'
      × (cols'.object_type ≡ cols.object_type)
note_all-IsLayout field ns cols h c e1 e2 e3 e4 = (
  noted field 0 ns cols,
  rw (note_all_lem field 0 ns cols 0 h, c.one_id, c.one_changeset, c.one_version, c.one_redaction)
      refl,
  record {
    id_at = rw e1 (found_at field ns c.one_id);
    changeset_at = rw e2 (found_at changeset_id ns c.one_changeset);
    version_at = rw e3 (found_at version ns c.one_version);
    redaction_at = rw e4 (found_at redaction_id ns c.one_redaction);
  },
  refl,
)
