-- ===== src/Tests/Messages.antt =====
-- The messages for a node and for other tables, through the parser.
use osmdbt_pgoutput.Base.{
  ◌-◌, ◌^◌, ◌≡◌, ◌≢◌, refl, none, some, List, [], ◌∷◌, map, arith, Bytes, codes, All, equal,
}
use osmdbt_pgoutput.Pgoutput.Protocol.{
  Column, null, text, IsTuple, Attribute, IsAttribute, Relation, IsRelation,
}
use osmdbt_pgoutput.Pgoutput.Columns.{HasColumns}
use osmdbt_pgoutput.Pgoutput.Relations.{names}
use osmdbt_pgoutput.Pgoutput.{table_kind}

abbrev pub attribute : Bytes → Attribute
attribute name = record { flags = 1; name = name; type_id = 20; modifier = 2 ^ 32 - 1 }

abbrev pub table : Bytes → List Bytes → Relation
table name columns = record {
  id = 16385;
  namespace = codes "public";
  name = name;
  replica_identity = b'd';
  attributes = map attribute columns;
}

abbrev pub nodes : Relation
nodes =
    table (codes "nodes")
      (codes "node_id" ∷ codes "changeset_id" ∷ codes "version" ∷ codes "redaction_id" ∷ [])

abbrev users : Relation
users = table (codes "users") []

abbrev pub tuple : List Column
tuple = text (codes "17") ∷ text (codes "4") ∷ text (codes "2") ∷ null ∷ []

pub tuple-IsTuple : IsTuple tuple
tuple-IsTuple = (omega arith, (omega arith, (omega arith, (omega arith, (tt, tt)))))

attribute_fits : (name : Bytes) → All (λ c. c ≢ 0) name → IsAttribute (attribute name)
attribute_fits name h = record {
  flags_fits = omega arith;
  name_text = h;
  type_id_fits = omega arith;
  modifier_fits = omega arith;
}

pub nodes-IsRelation : IsRelation nodes
nodes-IsRelation = record {
  id_fits = omega arith;
  namespace_text = ground arith;
  name_text = ground arith;
  replica_identity_fits = omega arith;
  count_fits = omega arith;
  attributes_fit = (
    attribute_fits (codes "node_id") (ground arith),
    (
      attribute_fits (codes "changeset_id") (ground arith),
      (
        attribute_fits (codes "version") (ground arith),
        (attribute_fits (codes "redaction_id") (ground arith), tt),
      ),
    ),
  );
}

pub nodes_kind : table_kind (codes "nodes") ≡ some (b'n', codes "node_id")
unfolding table_kind equal
nodes_kind = refl

pub nodes_HasColumns : HasColumns (codes "node_id") (names nodes.attributes)
unfolding equal
nodes_HasColumns = record {
  one_id = refl;
  one_changeset = refl;
  one_version = refl;
  one_redaction = refl;
}

users-IsRelation : IsRelation users
users-IsRelation = record {
  id_fits = omega arith;
  namespace_text = ground arith;
  name_text = ground arith;
  replica_identity_fits = omega arith;
  count_fits = omega arith;
  attributes_fit = tt;
}

users_kind : table_kind (codes "users") ≡ none
unfolding table_kind equal
users_kind = refl
