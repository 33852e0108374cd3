-- ===== src/CreateDiff/Queries.antt =====
-- The texts of the queries of `osmdbt-create-diff`, and what is made of the rows of their results
-- (src/osmdbt-create-diff.cpp). The fields of a row are those that libpqxx gives.
use osmdbt_pgoutput.Base.{ℕ, none, some, List, [], ◌∷◌, ◌++◌, Bytes, codes}
use osmdbt_pgoutput.Base.Int.{ℤ}
use osmdbt_pgoutput.Base.Result.{Result, ok, fault, ◌>>=◌}
use osmdbt_pgoutput.Cstd.{to_string, to_string_ℤ}
use osmdbt_pgoutput.Osmobj.{Osmobj, ChangesetUserLookup, set}
use osmdbt_pgoutput.CreateDiff.{Tag, WayNode, Member, type_from_char}

-- `s.back() = c`, which is undefined for the empty string.
abbrev pub set_back : ℕ → Bytes → Result Bytes
set_back c [] = fault
set_back c (b ∷ []) = ok (c ∷ [])
set_back c (b ∷ d ∷ s) = do rest ← set_back c (d ∷ s); ok (b ∷ rest)

-- The loop of `wanted`.
abbrev pub add_wanted : Bytes → List Osmobj → Bytes
add_wanted sql [] = sql
add_wanted sql (obj ∷ objs) =
    add_wanted
      (sql ++ (b'(' ∷ (to_string_ℤ obj.m_id ++ (b',' ∷ (to_string obj.m_version ++ codes "),")))))
      objs

unfoldable pub wanted : List Osmobj → Result Bytes
wanted [] = fault
wanted (obj ∷ objs) = do
  sql ← set_back b')' (add_wanted (codes "WITH wanted(id, version) AS (VALUES ") (obj ∷ objs))
  ok (sql ++ b' ' ∷ [])

unfoldable pub tags_query : Bytes → Bytes → Bytes
tags_query type wanted' =
    wanted'
    ++ (codes "SELECT w.id, w.version, t.k, t.v FROM "
        ++ (type
            ++ (codes "_tags t INNER JOIN wanted w ON t."
                ++ (type
                    ++ codes
                        "_id = w.id AND t.version = w.version  ORDER BY w.id, w.version, t.k COLLATE \"C\""))))

unfoldable pub nodes_query : Bytes → Bytes
nodes_query wanted' =
    wanted'
    ++ codes
        "SELECT wn.way_id, wn.version, wn.node_id FROM way_nodes wn  INNER JOIN wanted w ON wn.way_id = w.id AND wn.version = w.version  ORDER BY wn.way_id, wn.version, wn.sequence_id"

unfoldable pub members_query : Bytes → Bytes
members_query wanted' =
    wanted'
    ++ codes
        "SELECT m.relation_id, m.version, m.member_type,    m.member_id, m.member_role FROM relation_members m  INNER JOIN wanted w    ON m.relation_id = w.id AND m.version = w.version  ORDER BY m.relation_id, m.version, m.sequence_id"

-- The rows as tags and nodes of ways.
unfoldable pub get_tags : List (ℤ × ℕ × Bytes × Bytes) → List Tag
get_tags [] = []
get_tags ((id, version, key, value) ∷ result) =
    record { key = key; value = value; id = id; version = version } ∷ get_tags result

unfoldable pub get_nodes : List (ℤ × ℕ × ℤ) → List WayNode
get_nodes [] = []
get_nodes ((way_id, version, node_ref) ∷ result) =
    record { way_id = way_id; node_ref = node_ref; version = version } ∷ get_nodes result

-- The rows as members; the assertion in `type_from_char` is a fault.
unfoldable pub get_members : List (ℤ × ℕ × Bytes × ℤ × Bytes) → Result (List Member)
unfolding type_from_char
get_members [] = ok []
get_members ((relation_id, version, member_type, member_id, member_role) ∷ result) =
    elim (type_from_char member_type) [
      | none ↦ fault
      | some mtype ↦ get_members result >>= λ members. ok (
          record {
            mrole = member_role;
            relation_id = relation_id;
            mref = member_id;
            version = version;
            mtype = mtype;
          }
          ∷ members)
    ]

-- The loop over the changesets, and the query.
abbrev add_changesets : Bytes → ChangesetUserLookup → Bytes
add_changesets query [] = query
add_changesets query ((cid, user) ∷ cucache) =
    add_changesets (query ++ (to_string cid ++ b',' ∷ [])) cucache

unfoldable pub changeset_query : ChangesetUserLookup → Result Bytes
changeset_query [] = fault
changeset_query (c ∷ cucache) = set_back b')' (
    add_changesets
      (codes
        "SELECT c.id, c.user_id, u.display_name FROM changesets c, users u  WHERE c.user_id = u.id AND c.id IN (")
      (c ∷ cucache))

-- The loop over its result.
unfoldable pub populate_changeset_cache :
    List (ℕ × ℕ × Bytes) → ChangesetUserLookup → ChangesetUserLookup
unfolding set
populate_changeset_cache [] cucache = cucache
populate_changeset_cache ((cid, uid, username) ∷ result) cucache =
    populate_changeset_cache result (set cid (record { uid = uid; username = username }) cucache)
