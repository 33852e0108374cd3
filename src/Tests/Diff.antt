-- ===== src/Tests/Diff.antt =====
-- The objects of a diff, with points in time as numbers.
use osmdbt_pgoutput.Base.{
  ℕ, ◌==◌, ◌≡◌, ◌≢◌, refl, true, false, Option, none, some, List, [], ◌∷◌, map, arith, Bytes, codes,
  All, ltb, length, replicate, inl, inr,
}
use osmdbt_pgoutput.Base.Int.{ℤ, pos}
use osmdbt_pgoutput.Base.Result.{ok}
use osmdbt_pgoutput.Osmium.{Timestamps, IsOrdered, node}
use osmdbt_pgoutput.Osmobj.{UserInfo, ChangesetUserLookup}
use osmdbt_pgoutput.CreateDiff.{
  Key, Tag, WayNode, Member, add_tags, way_entries, relation_entries, at, ObjectRow, Built,
  Progress, start, process_rows, process_nodes, process_ways, process_relations,
}
use osmdbt_pgoutput.CreateDiff.Join.{Group}
use osmdbt_pgoutput.CreateDiff.Loop.{IsReady}
use osmdbt_pgoutput.CreateDiff.Entries.{
  process_nodes-join, process_ways-join, process_relations-join, process_nodes_redacted,
  process_ways_redacted,
}
use osmdbt_pgoutput.CreateDiff.Latest.{process_rows-max}

-- The text of a point in time is as long as its number.
abbrev pub ts : Timestamps
ts = record {
  Timestamp = ℕ;
  unset = 0;
  later = λ a b. ltb b a;
  same = λ a b. a == b;
  of_iso = λ text. some (length text);
  to_iso_all = λ n. replicate n b'0';
}

ts_IsOrdered : IsOrdered ts
ts_IsOrdered = record { later_irrefl = λ t. ground arith; later_trans = λ t u v h k. ground arith }

abbrev user : UserInfo
user = record { uid = 8; username = codes "jo" }

abbrev cucache : ChangesetUserLookup
cucache = (40, user) ∷ []

abbrev row : {L : Type 0} → ℕ → Option Bytes → Bytes → L → ObjectRow L
row id redaction_id timestamp location = record {
  id = pos id;
  version = 1;
  changeset_id = 40;
  visible = codes "t";
  timestamp = timestamp;
  redaction_id = redaction_id;
  location = location;
}

-- The second object is redacted.
abbrev rows : {L : Type 0} → L → List (ObjectRow L)
rows l =
    row 1 none (codes "00") l
    ∷ row 2 (some (codes "5")) (codes "0000") l
    ∷ row 3 none (codes "000") l
    ∷ []

abbrev tag : ℕ → Tag
tag id = record { key = codes "highway"; value = codes "path"; id = pos id; version = 1 }

abbrev way_node : ℕ → WayNode
way_node id = record { way_id = pos id; node_ref = pos 17; version = 1 }

abbrev member : ℕ → Member
member id = record { mrole = []; relation_id = pos id; mref = pos 17; version = 1; mtype = node }

abbrev groups : {T : Type 0} → (ℕ → T) → List T → List (Group T)
groups of second =
    ((pos 1, 1), false, of 1 ∷ [])
    ∷ ((pos 2, 1), true, second)
    ∷ ((pos 3, 1), false, of 3 ∷ [])
    ∷ []

abbrev key_of : ℕ → Key
key_of id = (pos id, 1)

keys : (a b : ℕ) → a ≢ b → key_of a ≢ key_of b
keys a b h e = h cc

-- The entries of the first and of the third object.
abbrev kept : {T : Type 0} → List T → List T → List (Key × List T)
kept first third = ((pos 1, 1), first) ∷ ((pos 3, 1), third) ∷ []

at_user : at 40 cucache ≡ ok user
unfolding at
at_user = refl

rows-IsReady :
    {L E I : Type 0} (add_entries : Key → I → E × I) (l : L)
    → All (IsReady ts cucache add_entries) (rows l)
rows-IsReady add_entries l = (
  record { time = 2; user = user; has_time = refl; has_user = inr at_user },
  (
    record { time = 4; user = user; has_time = refl; has_user = inl refl },
    (record { time = 3; user = user; has_time = refl; has_user = inr at_user }, tt),
  ),
)

abbrev here : ℤ × ℤ
here = (pos 100, pos 200)

process_nodes-join_example :
    (st : Progress ts (ℤ × ℤ) (List Tag) (List Tag)) × (process_nodes ts cucache
        (tag 1 ∷ tag 3 ∷ [])
        (rows here)
        0
      ≡ ok st)
    × (map (λ (o : Built ts (ℤ × ℤ) (List Tag)). (o.key, o.entries)) st.buffer
        ≡ kept (tag 1 ∷ []) (tag 3 ∷ []))
process_nodes-join_example =
    process_nodes-join ts cucache 0 (rows here) (groups tag []) refl
      (
        (refl, tt),
        (keys 1 2 (omega arith), (keys 1 3 (omega arith), tt)),
        (tt, (keys 2 3 (omega arith), tt), ((refl, tt), tt, tt)),
      )
      (refl, tt) (rows-IsReady add_tags here)

process_ways-join_example :
    (st : Progress ts (Unit {0}) (List Tag × List WayNode) (List Tag × List WayNode))
    × (process_ways ts cucache (tag 1 ∷ tag 3 ∷ []) (way_node 1 ∷ way_node 3 ∷ []) (rows tt) 0
        ≡ ok st)
    × (map (λ (o : Built ts (Unit {0}) (List Tag × List WayNode)). (o.key, o.entries.0)) st.buffer
        ≡ kept (tag 1 ∷ []) (tag 3 ∷ []))
    × (map (λ (o : Built ts (Unit {0}) (List Tag × List WayNode)). (o.key, o.entries.1)) st.buffer
        ≡ kept (way_node 1 ∷ []) (way_node 3 ∷ []))
process_ways-join_example =
    process_ways-join ts cucache 0 (rows tt) (groups tag []) (groups way_node []) refl refl
      (
        (refl, tt),
        (keys 1 2 (omega arith), (keys 1 3 (omega arith), tt)),
        (tt, (keys 2 3 (omega arith), tt), ((refl, tt), tt, tt)),
      )
      (
        (refl, tt),
        (keys 1 2 (omega arith), (keys 1 3 (omega arith), tt)),
        (tt, (keys 2 3 (omega arith), tt), ((refl, tt), tt, tt)),
      )
      (refl, tt) (refl, tt) (rows-IsReady way_entries tt)

process_relations-join_example :
    (st : Progress ts (Unit {0}) (List Tag × List Member) (List Tag × List Member))
    × (process_relations ts cucache (tag 1 ∷ tag 3 ∷ []) (member 1 ∷ member 3 ∷ []) (rows tt) 0
        ≡ ok st)
    × (map (λ (o : Built ts (Unit {0}) (List Tag × List Member)). (o.key, o.entries.0)) st.buffer
        ≡ kept (tag 1 ∷ []) (tag 3 ∷ []))
    × (map (λ (o : Built ts (Unit {0}) (List Tag × List Member)). (o.key, o.entries.1)) st.buffer
        ≡ kept (member 1 ∷ []) (member 3 ∷ []))
process_relations-join_example =
    process_relations-join ts cucache 0 (rows tt) (groups tag []) (groups member []) refl refl
      (
        (refl, tt),
        (keys 1 2 (omega arith), (keys 1 3 (omega arith), tt)),
        (tt, (keys 2 3 (omega arith), tt), ((refl, tt), tt, tt)),
      )
      (
        (refl, tt),
        (keys 1 2 (omega arith), (keys 1 3 (omega arith), tt)),
        (tt, (keys 2 3 (omega arith), tt), ((refl, tt), tt, tt)),
      )
      (refl, tt) (refl, tt) (rows-IsReady relation_entries tt)

process_nodes_redacted_example :
    (st : Progress ts (ℤ × ℤ) (List Tag) (List Tag)) × (process_nodes ts cucache
        (tag 1 ∷ tag 2 ∷ tag 3 ∷ [])
        (rows here)
        0
      ≡ ok st)
    × (map (λ (o : Built ts (ℤ × ℤ) (List Tag)). (o.key, o.entries)) st.buffer
        ≡ kept (tag 1 ∷ []) ([]))
process_nodes_redacted_example =
    process_nodes_redacted ts cucache 0 (rows here) (((pos 1, 1), false, tag 1 ∷ []) ∷ [])
      (pos 2, 1) (tag 2) [] (((pos 3, 1), false, tag 3 ∷ []) ∷ []) refl
      (
        (refl, tt),
        (keys 1 2 (omega arith), (keys 1 3 (omega arith), tt)),
        ((refl, tt), (keys 2 3 (omega arith), tt), ((refl, tt), tt, tt)),
      )
      tt (rows-IsReady add_tags here)

process_ways_redacted_example :
    (st : Progress ts (Unit {0}) (List Tag × List WayNode) (List Tag × List WayNode))
    × (process_ways ts cucache [] (way_node 1 ∷ way_node 2 ∷ way_node 3 ∷ []) (rows tt) 0 ≡ ok st)
    × (map (λ (o : Built ts (Unit {0}) (List Tag × List WayNode)). (o.key, o.entries.1)) st.buffer
        ≡ kept (way_node 1 ∷ []) ([]))
process_ways_redacted_example =
    process_ways_redacted ts cucache 0 (rows tt) [] (((pos 1, 1), false, way_node 1 ∷ []) ∷ [])
      (pos 2, 1) (way_node 2) [] (((pos 3, 1), false, way_node 3 ∷ []) ∷ []) refl
      (
        (refl, tt),
        (keys 1 2 (omega arith), (keys 1 3 (omega arith), tt)),
        ((refl, tt), (keys 2 3 (omega arith), tt), ((refl, tt), tt, tt)),
      )
      tt (rows-IsReady way_entries tt)

abbrev node_built : ℕ → ℕ → Built ts (ℤ × ℤ) (List Tag)
node_built id time = record {
  key = (pos id, 1);
  changeset = 40;
  visible = true;
  user = user;
  timestamp = time;
  location = here;
  entries = tag id ∷ [];
}

abbrev processed : Progress ts (ℤ × ℤ) (List Tag) (List Tag)
processed = record { max_timestamp = 4; its = []; buffer = node_built 1 2 ∷ node_built 3 3 ∷ [] }

rows-processed :
    process_rows ts cucache add_tags (rows here) (start ts 0 (tag 1 ∷ tag 3 ∷ [])) ≡ ok processed
unfolding process_rows add_tags
rows-processed = refl

process_rows-max_example :
    All
      (λ row.
        (t : ℕ) × (ts.of_iso row.timestamp ≡ some t) × (ts.later t processed.max_timestamp ≡ false))
      (rows here)
process_rows-max_example =
    process_rows-max ts ts_IsOrdered cucache add_tags (rows here) (start ts 0 (tag 1 ∷ tag 3 ∷ []))
      processed rows-processed
