-- ===== src/CreateDiff/Diff.antt =====
-- The objects of a diff, type by type, with the queries for them (src/osmdbt-create-diff.cpp). The
-- results of the queries, by their texts, are arguments.
use osmdbt_pgoutput.Base.{ℕ, List, [], ◌∷◌, ◌++◌, Bytes, codes}
use osmdbt_pgoutput.Base.Int.{ℤ}
use osmdbt_pgoutput.Base.Result.{Result, ok}
use osmdbt_pgoutput.Base.Result
use osmdbt_pgoutput.Osmium.{Timestamps}
use osmdbt_pgoutput.Osmobj.{Osmobj, Osmobjects, ChangesetUserLookup}
use osmdbt_pgoutput.CreateDiff.{
  Tag, WayNode, Member, ObjectRow, Built, Progress, process_nodes, process_ways, process_relations,
}
use osmdbt_pgoutput.CreateDiff.Queries.{
  wanted, tags_query, nodes_query, members_query, get_tags, get_nodes, get_members,
}

-- The rows that the database gives for a query.
pub record Transaction : Type 0 where
  pub changesets : Bytes → List (ℕ × ℕ × Bytes)
  pub tags : Bytes → List (ℤ × ℕ × Bytes × Bytes)
  pub way_nodes : Bytes → List (ℤ × ℕ × ℤ)
  pub members : Bytes → List (ℤ × ℕ × Bytes × ℤ × Bytes)
  pub nodes : Bytes → List (ObjectRow (ℤ × ℤ))
  pub objects : Bytes → List (ObjectRow (Unit {0}))

-- The columns that the three queries share.
abbrev attr : Bytes
attr =
    codes
      ", o.version, o.changeset_id, o.visible, to_char(o.timestamp, 'YYYY-MM-DD\"T\"HH24:MI:SS\"Z\"') AS timestamp, o.redaction_id"

-- The query for the objects of a type, with more columns.
unfoldable pub objects_query : Bytes → Bytes → Bytes → Bytes
objects_query type more wanted' =
    wanted'
    ++ (codes "SELECT o."
        ++ (type
            ++ (codes "_id"
                ++ (attr
                    ++ (more
                        ++ (codes "  FROM "
                            ++ (type
                                ++ (codes "s o    INNER JOIN wanted w      ON o."
                                    ++ (type
                                        ++ codes
                                            "_id = w.id AND o.version = w.version  ORDER BY w.id, w.version")))))))))

module _ (ts : Timestamps) where
  -- The three buffers, and the last timestamp that was seen.
  pub record Diff : Type 0 where
    pub nodes : List (Built ts (ℤ × ℤ) (List Tag))
    pub ways : List (Built ts (Unit {0}) (List Tag × List WayNode))
    pub relations : List (Built ts (Unit {0}) (List Tag × List Member))
    pub max_timestamp : ts.Timestamp

module _ (ts : Timestamps) (txn : Transaction) (cucache : ChangesetUserLookup) where
  unfoldable pub query_nodes :
      List Osmobj → ts.Timestamp → Result (Progress ts (ℤ × ℤ) (List Tag) (List Tag))
  unfolding wanted tags_query objects_query get_tags process_nodes
  query_nodes objs max_timestamp = Result.◌>>=◌ (wanted objs) (λ query.
      process_nodes ts cucache (get_tags (txn.tags (tags_query (codes "node") query)))
        (txn.nodes (objects_query (codes "node") (codes ", o.longitude, o.latitude") query))
        max_timestamp)

  unfoldable pub query_ways :
      List Osmobj
      → ts.Timestamp
      → Result (Progress ts (Unit {0}) (List Tag × List WayNode) (List Tag × List WayNode))
  unfolding wanted tags_query nodes_query objects_query get_tags get_nodes process_ways
  query_ways objs max_timestamp = Result.◌>>=◌ (wanted objs) (λ query.
      process_ways ts cucache (get_tags (txn.tags (tags_query (codes "way") query)))
        (get_nodes (txn.way_nodes (nodes_query query)))
        (txn.objects (objects_query (codes "way") [] query)) max_timestamp)

  unfoldable pub query_relations :
      List Osmobj
      → ts.Timestamp
      → Result (Progress ts (Unit {0}) (List Tag × List Member) (List Tag × List Member))
  unfolding wanted tags_query members_query objects_query get_tags get_members process_relations
  query_relations objs max_timestamp = Result.◌>>=◌ (wanted objs) (λ query.
      Result.◌>>=◌ (get_members (txn.members (members_query query))) (λ members.
        process_relations ts cucache (get_tags (txn.tags (tags_query (codes "relation") query)))
          members (txn.objects (objects_query (codes "relation") [] query)) max_timestamp))

  -- Queries are run for a type only if there is an object of it.
  abbrev nodes_of : List Osmobj → Result (Diff ts)
  nodes_of [] = ok (record { nodes = []; ways = []; relations = []; max_timestamp = ts.unset })
  nodes_of (obj ∷ objs) = Result.◌>>=◌ (query_nodes (obj ∷ objs) ts.unset) (λ st.
      ok
        (record { nodes = st.buffer; ways = []; relations = []; max_timestamp = st.max_timestamp }))

  abbrev add_ways : List Osmobj → Diff ts → Result (Diff ts)
  add_ways [] diff = ok diff
  add_ways (obj ∷ objs) diff =
      Result.◌>>=◌ (query_ways (obj ∷ objs) diff.max_timestamp)
        (λ st. ok (record diff { ways = st.buffer; max_timestamp = st.max_timestamp }))

  abbrev add_relations : List Osmobj → Diff ts → Result (Diff ts)
  add_relations [] diff = ok diff
  add_relations (obj ∷ objs) diff =
      Result.◌>>=◌ (query_relations (obj ∷ objs) diff.max_timestamp)
        (λ st. ok (record diff { relations = st.buffer; max_timestamp = st.max_timestamp }))

  unfoldable pub build_diff : Osmobjects → Result (Diff ts)
  unfolding query_nodes query_ways query_relations
  build_diff todo =
      Result.◌>>=◌ (nodes_of todo.nodes)
        (λ diff. Result.◌>>=◌ (add_ways todo.ways diff) (add_relations todo.relations))
