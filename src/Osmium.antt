-- ===== src/Osmium.antt =====
-- What the program takes from libosmium, a library that it calls and does not hold: the types of
-- objects by their names, and two interfaces whose values are parameters of the modules that use
-- them: `osmium::Timestamp`, and the types and functions for ids and types of objects.
use osmdbt_pgoutput.Base.{
  ℕ, ◌^◌, ◌<◌, Bool, true, false, Option, some, List, [], ◌∷◌, ◌++◌, ◌≡◌, ◌≢◌, Bytes, All, Lacks,
}
use osmdbt_pgoutput.Base.Int.{ℤ, pos, IsInt64}

-- The values of `osmium::item_type` that the program names.
pub data ItemType : Type 0 where
  node way relation undefined : ItemType

-- `osmium::Timestamp`: the value of `Timestamp{}`, `operator>`, `operator==`, the constructor from a text (it
-- throws where this is `none`), and `to_iso_all`.
pub record Timestamps : Type 1 where
  pub Timestamp : Type 0
  pub unset : Timestamp
  pub later : Timestamp → Timestamp → Bool
  pub same : Timestamp → Timestamp → Bool
  pub of_iso : Bytes → Option Timestamp
  pub to_iso_all : Timestamp → Bytes

-- Timestamps are compared as points in time.
pub record IsOrdered (ts : Timestamps) : Type 0 where
  pub later_irrefl : (t : ts.Timestamp) → ts.later t t ≡ false
  pub later_trans :
      (t u v : ts.Timestamp) → ts.later t u ≡ true → ts.later u v ≡ true → ts.later t v ≡ true

-- A timestamp is read back from its text, which has none of the characters of a state file.
pub record IsIso (ts : Timestamps) : Type 0 where
  pub reads_iso : (t : ts.Timestamp) → ts.of_iso (ts.to_iso_all t) ≡ some t
  pub no_newline : (t : ts.Timestamp) → Lacks b'\n' (ts.to_iso_all t)
  pub no_backslash : (t : ts.Timestamp) → Lacks b'\\' (ts.to_iso_all t)
  pub no_equals : (t : ts.Timestamp) → Lacks b'=' (ts.to_iso_all t)

-- The conversions of a number to `osmium::object_id_type`, `object_version_type` and
-- `changeset_id_type`, the functions on `osmium::item_type`, and `osmium::split_string`.
pub record Objects : Type 0 where
  pub object_id : ℤ → ℤ
  pub object_version : ℤ → ℕ
  pub changeset_id : ℤ → ℕ
  pub char_to_item_type : ℕ → ItemType
  pub item_type_to_char : ItemType → ℕ
  pub item_type_to_nwr_index : ItemType → ℕ
  pub split_string : Bytes → ℕ → List Bytes

abbrev pub join : ℕ → Bytes → List Bytes → Bytes
join sep w [] = w
join sep w (w' ∷ ws) = w ++ (sep ∷ join sep w' ws)

-- Nodes, ways and relations.
abbrev pub is_object : ItemType → Bool
is_object node = true
is_object way = true
is_object relation = true
is_object undefined = false

-- Ids are signed numbers of 64 bits, versions and ids of changesets unsigned ones of 32; the
-- character of a type is no space and is read back, and a text is split at its separators.
pub record IsOsm (osm : Objects) : Type 0 where
  pub keeps_id : (z : ℤ) → IsInt64 z → osm.object_id z ≡ z
  pub keeps_version : (n : ℕ) → n < 2 ^ 32 → osm.object_version (pos n) ≡ n
  pub keeps_changeset : (n : ℕ) → n < 2 ^ 32 → osm.changeset_id (pos n) ≡ n
  pub reads_char :
      (t : ItemType) → is_object t ≡ true → osm.char_to_item_type (osm.item_type_to_char t) ≡ t
  pub char_visible :
      (t : ItemType)
      → is_object t ≡ true
      → (osm.item_type_to_char t ≢ b' ') × (osm.item_type_to_char t ≢ b'\n')
  pub splits :
      (sep c : ℕ) (w : Bytes) (ws : List Bytes)
      → All (Lacks sep) ((c ∷ w) ∷ ws)
      → osm.split_string (join sep (c ∷ w) ws) sep ≡ (c ∷ w) ∷ ws
