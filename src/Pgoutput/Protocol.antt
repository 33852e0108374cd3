-- ===== src/Pgoutput/Protocol.antt =====
-- The messages as PostgreSQL's documentation of the logical replication message formats gives
-- them: what the server sends, as a description that is independent of the parser.
use osmdbt_pgoutput.Base.{
  ℕ, ◌^◌, ◌<◌, Option, none, some, List, [], ◌∷◌, ◌++◌, Bytes, Lacks, All, length,
}
use osmdbt_pgoutput.Pgoutput.Reader.Yields.{big}

-- A column of a tuple. A value that is stored out of line and was not changed is not sent.
pub data Column : Type 0 where
  null unchanged : Column
  text : Bytes → Column

abbrev pub value : Column → Option Bytes
value null = none
value unchanged = none
value (text t) = some t

abbrev pub column_bytes : Column → Bytes
column_bytes null = b'n' ∷ []
column_bytes unchanged = b'u' ∷ []
column_bytes (text t) = b't' ∷ (big 4 (length t) ++ t)

abbrev pub columns_bytes : List Column → Bytes
columns_bytes [] = []
columns_bytes (c ∷ cs) = column_bytes c ++ columns_bytes cs

abbrev pub tuple_bytes : List Column → Bytes
tuple_bytes cs = big 2 (length cs) ++ columns_bytes cs

abbrev pub IsColumn : Column → Type 0
IsColumn null = Unit
IsColumn unchanged = Unit
IsColumn (text t) = length t < 2 ^ 31

-- The counts fit the signed integers that carry them.
abbrev pub IsTuple : List Column → Type 0
IsTuple cs = (length cs < 2 ^ 15) × All IsColumn cs

-- The data of an Insert message, behind its first byte.
abbrev pub insert_bytes : ℕ → List Column → Bytes
insert_bytes id new_tuple = big 4 id ++ (b'N' ∷ tuple_bytes new_tuple)

-- What stands before the new tuple of an Update message.
pub data OldTuple : Type 0 where
  absent : OldTuple
  key old : List Column → OldTuple

abbrev pub old_bytes : OldTuple → Bytes
old_bytes absent = []
old_bytes (key cs) = b'K' ∷ tuple_bytes cs
old_bytes (old cs) = b'O' ∷ tuple_bytes cs

abbrev pub IsOldTuple : OldTuple → Type 0
IsOldTuple absent = Unit
IsOldTuple (key cs) = IsTuple cs
IsOldTuple (old cs) = IsTuple cs

abbrev pub update_bytes : ℕ → OldTuple → List Column → Bytes
update_bytes id before new_tuple = big 4 id ++ (old_bytes before ++ (b'N' ∷ tuple_bytes new_tuple))

-- A column of a Relation message.
pub record Attribute : Type 0 where
  pub flags : ℕ
  pub name : Bytes
  pub type_id : ℕ
  pub modifier : ℕ

abbrev pub attribute_bytes : Attribute → Bytes
attribute_bytes a = big 1 a.flags ++ ((a.name ++ (0 ∷ [])) ++ (big 4 a.type_id ++ big 4 a.modifier))

abbrev pub attributes_bytes : List Attribute → Bytes
attributes_bytes [] = []
attributes_bytes (a ∷ as') = attribute_bytes a ++ attributes_bytes as'

pub record IsAttribute (a : Attribute) : Type 0 where
  pub flags_fits : a.flags < 256
  pub name_text : Lacks 0 a.name
  pub type_id_fits : a.type_id < 2 ^ 32
  pub modifier_fits : a.modifier < 2 ^ 32

pub record Relation : Type 0 where
  pub id : ℕ
  pub namespace : Bytes
  pub name : Bytes
  pub replica_identity : ℕ
  pub attributes : List Attribute

-- The data of a Relation message, behind its first byte.
abbrev pub relation_bytes : Relation → Bytes
relation_bytes r =
    big 4 r.id
    ++ ((r.namespace ++ (0 ∷ []))
        ++ ((r.name ++ (0 ∷ []))
            ++ (big 1 r.replica_identity
                ++ (big 2 (length r.attributes) ++ attributes_bytes r.attributes))))

pub record IsRelation (r : Relation) : Type 0 where
  pub id_fits : r.id < 2 ^ 32
  pub namespace_text : Lacks 0 r.namespace
  pub name_text : Lacks 0 r.name
  pub replica_identity_fits : r.replica_identity < 256
  pub count_fits : length r.attributes < 2 ^ 16
  pub attributes_fit : All IsAttribute r.attributes
