-- ===== src/CreateDiff/Entries.antt =====
-- The objects of `process_nodes`, `process_ways` and `process_relations` with their tags, nodes
-- and members. The results of the queries are those of the joins on id and version.
use osmdbt_pgoutput.Base.{true, ◌≡◌, refl, List, ◌∷◌, ◌++◌, map, All}
use osmdbt_pgoutput.Base.Int.{ℤ}
use osmdbt_pgoutput.Base.Result.{ok}
use osmdbt_pgoutput.Osmium.{Timestamps}
use osmdbt_pgoutput.CreateDiff.Join.{
  Group, rows_of, entries_of, visible_entries, no_entries, RedactedEmpty, IsJoin, walk, walk-join,
  walk_redacted,
}
use osmdbt_pgoutput.CreateDiff.Loop.{IsReady, process_rows_total}
use osmdbt_pgoutput.CreateDiff.Objects.{keyed, process_rows-objects}
use osmdbt_pgoutput.Osmobj.{ChangesetUserLookup}
use osmdbt_pgoutput.CreateDiff.{
  Key, Tag, WayNode, Member, tag_key, way_node_key, member_key, add_tags, add_way_nodes,
  add_members, ObjectRow, Built, Progress, start, process_nodes, process_ways, process_relations,
  way_entries, relation_entries,
}

module _ (ts : Timestamps) (cucache : ChangesetUserLookup) (max_timestamp : ts.Timestamp) where
  -- What `process_nodes` builds, by the walk of the tags.
  nodes_walk :
      (rows : List (ObjectRow (ℤ × ℤ))) (tags : List Tag)
      → All (IsReady ts cucache add_tags) rows
      → (st : Progress ts (ℤ × ℤ) (List Tag) (List Tag)) × (process_nodes ts cucache tags rows
            max_timestamp
          ≡ ok st)
        × (map (λ (o : Built ts (ℤ × ℤ) (List Tag)). (o.key, o.entries)) st.buffer
            ≡ walk tag_key (keyed rows) tags)
  unfolding process_nodes add_tags
  nodes_walk rows tags ready =
      let (st, e) =
        process_rows_total ts cucache add_tags rows (start ts max_timestamp tags) ready in
      (
        st,
        e,
        process_rows-objects ts cucache add_tags tag_key (λ t. t) (λ t. t) rows max_timestamp tags
            (λ _ _. (refl, refl)) e,
      )

  ways_walk :
      (rows : List (ObjectRow (Unit {0}))) (tags : List Tag) (way_nodes : List WayNode)
      → All (IsReady ts cucache way_entries) rows
      → (st : Progress ts (Unit {0}) (List Tag × List WayNode) (List Tag × List WayNode))
        × (process_ways ts cucache tags way_nodes rows max_timestamp ≡ ok st)
        × (map
              (λ (o : Built ts (Unit {0}) (List Tag × List WayNode)). (o.key, o.entries.0))
              st.buffer
            ≡ walk tag_key (keyed rows) tags)
        × (map
              (λ (o : Built ts (Unit {0}) (List Tag × List WayNode)). (o.key, o.entries.1))
              st.buffer
            ≡ walk way_node_key (keyed rows) way_nodes)
  unfolding process_ways add_tags add_way_nodes
  ways_walk rows tags way_nodes ready =
      let (st, e) =
        process_rows_total ts cucache way_entries rows (start ts max_timestamp (tags, way_nodes))
          ready in
      (
        st,
        e,
        process_rows-objects ts cucache way_entries tag_key (λ t. t.0) (λ t. t.0) rows max_timestamp
            (tags, way_nodes) (λ _ _. (refl, refl)) e,
        process_rows-objects ts cucache way_entries way_node_key (λ t. t.1) (λ t. t.1) rows
            max_timestamp (tags, way_nodes) (λ _ _. (refl, refl)) e,
      )

  relations_walk :
      (rows : List (ObjectRow (Unit {0}))) (tags : List Tag) (members : List Member)
      → All (IsReady ts cucache relation_entries) rows
      → (st : Progress ts (Unit {0}) (List Tag × List Member) (List Tag × List Member))
        × (process_relations ts cucache tags members rows max_timestamp ≡ ok st)
        × (map
              (λ (o : Built ts (Unit {0}) (List Tag × List Member)). (o.key, o.entries.0))
              st.buffer
            ≡ walk tag_key (keyed rows) tags)
        × (map
              (λ (o : Built ts (Unit {0}) (List Tag × List Member)). (o.key, o.entries.1))
              st.buffer
            ≡ walk member_key (keyed rows) members)
  unfolding process_relations add_tags add_members
  relations_walk rows tags members ready =
      let (st, e) =
        process_rows_total ts cucache relation_entries rows (start ts max_timestamp (tags, members))
          ready in
      (
        st,
        e,
        process_rows-objects ts cucache relation_entries tag_key (λ t. t.0) (λ t. t.0) rows
            max_timestamp (tags, members) (λ _ _. (refl, refl)) e,
        process_rows-objects ts cucache relation_entries member_key (λ t. t.1) (λ t. t.1) rows
            max_timestamp (tags, members) (λ _ _. (refl, refl)) e,
      )

  -- If every row of the nodes has a readable timestamp and, unless redacted, a cached changeset,
  -- the tags are the join of distinct rows with their tags, and no redacted row has tags, then
  -- `process_nodes` succeeds and builds the rows that are not redacted, in order, each with exactly
  -- its own tags.
  pub process_nodes-join :
      (rows : List (ObjectRow (ℤ × ℤ))) (gs : List (Group Tag))
      → keyed rows ≡ rows_of gs
      → IsJoin tag_key gs
      → RedactedEmpty gs
      → All (IsReady ts cucache add_tags) rows
      → (st : Progress ts (ℤ × ℤ) (List Tag) (List Tag)) × (process_nodes ts cucache
            (entries_of gs)
            rows
            max_timestamp
          ≡ ok st)
        × (map (λ (o : Built ts (ℤ × ℤ) (List Tag)). (o.key, o.entries)) st.buffer
            ≡ visible_entries gs)
  process_nodes-join rows gs same joined empty ready =
      let (st, e, objects) = nodes_walk rows (entries_of gs) ready in
      (st, e, rw (objects, same) (walk-join tag_key gs joined empty))

  -- If every row of the ways has a readable timestamp and, unless redacted, a cached changeset, the
  -- tags and the nodes of the ways are each the join of distinct rows with their entries, and no
  -- redacted row has any, then `process_ways` succeeds and builds the rows that are not redacted,
  -- in order, each with exactly its own tags and its own nodes.
  pub process_ways-join :
      (rows : List (ObjectRow (Unit {0}))) (gs : List (Group Tag)) (ws : List (Group WayNode))
      → keyed rows ≡ rows_of gs
      → keyed rows ≡ rows_of ws
      → IsJoin tag_key gs
      → IsJoin way_node_key ws
      → RedactedEmpty gs
      → RedactedEmpty ws
      → All (IsReady ts cucache way_entries) rows
      → (st : Progress ts (Unit {0}) (List Tag × List WayNode) (List Tag × List WayNode))
        × (process_ways ts cucache (entries_of gs) (entries_of ws) rows max_timestamp ≡ ok st)
        × (map
              (λ (o : Built ts (Unit {0}) (List Tag × List WayNode)). (o.key, o.entries.0))
              st.buffer
            ≡ visible_entries gs)
        × (map
              (λ (o : Built ts (Unit {0}) (List Tag × List WayNode)). (o.key, o.entries.1))
              st.buffer
            ≡ visible_entries ws)
  process_ways-join rows gs ws same same' joined joined' empty empty' ready =
      let (st, e, tags, way_nodes) = ways_walk rows (entries_of gs) (entries_of ws) ready in
      (
        st,
        e,
        rw (tags, same) (walk-join tag_key gs joined empty),
        rw (way_nodes, same') (walk-join way_node_key ws joined' empty'),
      )

  -- If every row of the relations has a readable timestamp and, unless redacted, a cached
  -- changeset, the tags and the members are each the join of distinct rows with their entries, and
  -- no redacted row has any, then `process_relations` succeeds and builds the rows that are not
  -- redacted, in order, each with exactly its own tags and its own members.
  pub process_relations-join :
      (rows : List (ObjectRow (Unit {0}))) (gs : List (Group Tag)) (ms : List (Group Member))
      → keyed rows ≡ rows_of gs
      → keyed rows ≡ rows_of ms
      → IsJoin tag_key gs
      → IsJoin member_key ms
      → RedactedEmpty gs
      → RedactedEmpty ms
      → All (IsReady ts cucache relation_entries) rows
      → (st : Progress ts (Unit {0}) (List Tag × List Member) (List Tag × List Member))
        × (process_relations ts cucache (entries_of gs) (entries_of ms) rows max_timestamp ≡ ok st)
        × (map
              (λ (o : Built ts (Unit {0}) (List Tag × List Member)). (o.key, o.entries.0))
              st.buffer
            ≡ visible_entries gs)
        × (map
              (λ (o : Built ts (Unit {0}) (List Tag × List Member)). (o.key, o.entries.1))
              st.buffer
            ≡ visible_entries ms)
  process_relations-join rows gs ms same same' joined joined' empty empty' ready =
      let (st, e, tags, members) = relations_walk rows (entries_of gs) (entries_of ms) ready in
      (
        st,
        e,
        rw (tags, same) (walk-join tag_key gs joined empty),
        rw (members, same') (walk-join member_key ms joined' empty'),
      )

  -- If the rows of the nodes are ready and the tags are the join of distinct rows with their tags,
  -- and one redacted row has tags while no redacted row before it has, then `process_nodes`
  -- succeeds, the nodes before that row get their own tags, and every node after it gets none.
  pub process_nodes_redacted :
      (rows : List (ObjectRow (ℤ × ℤ))) (before : List (Group Tag)) (k : Key) (t : Tag)
      (tags : List Tag) (after : List (Group Tag))
      → keyed rows ≡ rows_of (before ++ ((k, true, t ∷ tags) ∷ after))
      → IsJoin tag_key (before ++ ((k, true, t ∷ tags) ∷ after))
      → RedactedEmpty before
      → All (IsReady ts cucache add_tags) rows
      → (st : Progress ts (ℤ × ℤ) (List Tag) (List Tag)) × (process_nodes ts cucache
            (entries_of (before ++ ((k, true, t ∷ tags) ∷ after)))
            rows
            max_timestamp
          ≡ ok st)
        × (map (λ (o : Built ts (ℤ × ℤ) (List Tag)). (o.key, o.entries)) st.buffer
            ≡ visible_entries before ++ no_entries after)
  process_nodes_redacted rows before k t tags after same joined empty ready =
      let (st, e, objects) =
        nodes_walk rows (entries_of (before ++ ((k, true, t ∷ tags) ∷ after))) ready in
      (st, e, rw (objects, same) (walk_redacted tag_key before k t tags after joined empty))

  -- If the rows of the ways are ready and the nodes of the ways are the join of distinct rows with
  -- their nodes, and one redacted row has nodes while no redacted row before it has, then
  -- `process_ways` succeeds, the ways before that row get their own nodes, and every way after it
  -- gets none.
  pub process_ways_redacted :
      (rows : List (ObjectRow (Unit {0}))) (tags : List Tag) (before : List (Group WayNode))
      (k : Key) (w : WayNode) (way_nodes : List WayNode) (after : List (Group WayNode))
      → keyed rows ≡ rows_of (before ++ ((k, true, w ∷ way_nodes) ∷ after))
      → IsJoin way_node_key (before ++ ((k, true, w ∷ way_nodes) ∷ after))
      → RedactedEmpty before
      → All (IsReady ts cucache way_entries) rows
      → (st : Progress ts (Unit {0}) (List Tag × List WayNode) (List Tag × List WayNode))
        × (process_ways ts cucache tags
              (entries_of (before ++ ((k, true, w ∷ way_nodes) ∷ after)))
              rows
              max_timestamp
            ≡ ok st)
        × (map
              (λ (o : Built ts (Unit {0}) (List Tag × List WayNode)). (o.key, o.entries.1))
              st.buffer
            ≡ visible_entries before ++ no_entries after)
  process_ways_redacted rows tags before k w way_nodes after same joined empty ready =
      let (st, e, _, objects) =
        ways_walk rows tags (entries_of (before ++ ((k, true, w ∷ way_nodes) ∷ after))) ready in
      (
        st,
        e,
        rw (objects, same) (walk_redacted way_node_key before k w way_nodes after joined empty),
      )
