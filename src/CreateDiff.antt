-- ===== src/CreateDiff.antt =====
-- The objects of a diff, from the results of the queries (src/osmdbt-create-diff.cpp). A query's
-- result is a list of rows, an iterator over a vector is the part of it that is left, and the
-- buffer is the list of the objects built.
pub mod Join
pub mod Loop
pub mod Objects
pub mod Entries
pub mod Latest
pub mod NextState
pub mod Publish
pub mod App
pub mod Diff
pub mod Finish
pub mod Queries
pub mod Selection
pub mod Values
pub mod Moves
pub mod Order
use osmdbt_pgoutput.Base.{
  ℕ, Bool, true, false, ◌&&◌, Option, none, some, List, [], ◌∷◌, ◌++◌, map, ◌==◌, if◌then◌else◌,
  Bytes, codes,
}
use osmdbt_pgoutput.Base.Int.{ℤ, eq_ℤ}
use osmdbt_pgoutput.Base.Result.{Result, ok, throws, out_of_range, invalid_argument, ◌>>=◌}
use osmdbt_pgoutput.Cstd.{peek}
use osmdbt_pgoutput.Osmobj.{UserInfo, ChangesetUserLookup}
use osmdbt_pgoutput.Osmium.{ItemType, node, way, relation, undefined, Timestamps}

-- An object's id and version.
abbrev pub Key : Type 0
Key = ℤ × ℕ

abbrev pub same_key : Key → Key → Bool
same_key (id, version) (id', version') = eq_ℤ id id' && version == version'

pub record Tag : Type 0 where
  pub key : Bytes
  pub value : Bytes
  pub id : ℤ
  pub version : ℕ

pub record WayNode : Type 0 where
  pub way_id : ℤ
  pub node_ref : ℤ
  pub version : ℕ

pub record Member : Type 0 where
  pub mrole : Bytes
  pub relation_id : ℤ
  pub mref : ℤ
  pub version : ℕ
  pub mtype : ItemType

abbrev pub tag_key : Tag → Key
tag_key t = (t.id, t.version)

abbrev pub way_node_key : WayNode → Key
way_node_key w = (w.way_id, w.version)

abbrev pub member_key : Member → Key
member_key m = (m.relation_id, m.version)

-- `type_from_char`, by the first character; the assertion behind the switch is a fault here.
unfoldable pub type_from_char : Bytes → Option ItemType
type_from_char str =
    if peek str == b'N'
    then some node
    else if peek str == b'W'
    then some way
    else if peek str == b'R'
    then some relation
    else none

-- The loop that `add_tags`, `add_way_nodes` and `add_members` share: the entries of the object are
-- taken from the iterator as long as they come; the second part is where the iterator then stands.
unfoldable pub take_entries : {T : Type 0} → (T → Key) → Key → List T → List T × List T
take_entries key_of k [] = ([], [])
take_entries key_of k (t ∷ it) =
    let (taken, left) = take_entries key_of k it in
    if same_key (key_of t) k then (t ∷ taken, left) else ([], t ∷ it)

unfoldable pub add_tags : Key → List Tag → List Tag × List Tag
unfolding take_entries
add_tags = take_entries tag_key

unfoldable pub add_way_nodes : Key → List WayNode → List WayNode × List WayNode
unfolding take_entries
add_way_nodes = take_entries way_node_key

unfoldable pub add_members : Key → List Member → List Member × List Member
unfolding take_entries
add_members = take_entries member_key

-- The two calls for one way, and those for one relation.
abbrev pub way_entries :
    Key → List Tag × List WayNode → (List Tag × List WayNode) × (List Tag × List WayNode)
way_entries k (it, wn_it) =
    let (tags, it') = add_tags k it in
    let (way_nodes, wn_it') = add_way_nodes k wn_it in ((tags, way_nodes), (it', wn_it'))

abbrev pub relation_entries :
    Key → List Tag × List Member → (List Tag × List Member) × (List Tag × List Member)
relation_entries k (it, member_it) =
    let (tags, it') = add_tags k it in
    let (members, member_it') = add_members k member_it in ((tags, members), (it', member_it'))

-- `cucache.at(cid)`, which throws if there is no entry.
unfoldable pub at : ℕ → ChangesetUserLookup → Result UserInfo
at cid [] = throws (out_of_range [])
at cid ((j, user) ∷ m) = if j == cid then ok user else at cid m

-- A row of the query for the objects; the last field is a node's location.
pub record ObjectRow (L : Type 0) : Type 0 where
  pub id : ℤ
  pub version : ℕ
  pub changeset_id : ℕ
  pub visible : Bytes
  pub timestamp : Bytes
  pub redaction_id : Option Bytes
  pub location : L

abbrev pub row_key : {L : Type 0} → ObjectRow L → Key
row_key row = (row.id, row.version)

abbrev pub is_redacted : {L : Type 0} → ObjectRow L → Bool
is_redacted row = elim row.redaction_id [ none ↦ false | some _ ↦ true ]

module _ (ts : Timestamps) where
  -- An object as it is built, with the entries that the iterators gave.
  pub record Built (L E : Type 0) : Type 0 where
    pub key : Key
    pub changeset : ℕ
    pub visible : Bool
    pub user : UserInfo
    pub timestamp : ts.Timestamp
    pub location : L
    pub entries : E

  -- The timestamp so far, the iterators and the buffer.
  pub record Progress (L E I : Type 0) : Type 0 where
    pub max_timestamp : ts.Timestamp
    pub its : I
    pub buffer : List (Built L E)

  abbrev pub start : {L E I : Type 0} → ts.Timestamp → I → Progress L E I
  start max_timestamp its = record { max_timestamp = max_timestamp; its = its; buffer = [] }

  -- `osmium::Timestamp{text}`.
  unfoldable pub timestamp_of : Bytes → Result ts.Timestamp
  timestamp_of text = elim (ts.of_iso text) [ none ↦ throws (invalid_argument []) | some t ↦ ok t ]

  abbrev pub max_of : ts.Timestamp → ts.Timestamp → ts.Timestamp
  max_of timestamp max_timestamp =
      if ts.later timestamp max_timestamp then timestamp else max_timestamp

  -- The object that a row makes with its user, timestamp and entries.
  abbrev pub built : {L E : Type 0} → ObjectRow L → UserInfo → ts.Timestamp → E → Built L E
  built row user timestamp entries = record {
    key = row_key row;
    changeset = row.changeset_id;
    visible = peek row.visible == b't';
    user = user;
    timestamp = timestamp;
    location = row.location;
    entries = entries;
  }

  module _ {L E I : Type 0} (cucache : ChangesetUserLookup) (add_entries : Key → I → E × I) where
    -- `set_attributes`, and the builder of one object.
    unfoldable pub build : ObjectRow L → ts.Timestamp → E → Result (Built L E)
    unfolding at
    build row timestamp entries = do
      user ← at row.changeset_id cucache
      ok (built row user timestamp entries)

    -- One round of the loop over the rows, with the row's timestamp. A redacted object is passed
    -- over.
    unfoldable pub process_timed :
        ObjectRow L → Progress L E I → ts.Timestamp → Result (Progress L E I)
    unfolding build
    process_timed row st timestamp =
        if is_redacted row
        then ok (record st { max_timestamp = max_of timestamp st.max_timestamp })
        else (do
          let (entries, its) = add_entries (row_key row) st.its
          object ← build row timestamp entries
          ok (record {
            max_timestamp = max_of timestamp st.max_timestamp;
            its = its;
            buffer = st.buffer ++ object ∷ [];
          }))

    unfoldable pub process_row : ObjectRow L → Progress L E I → Result (Progress L E I)
    unfolding process_timed timestamp_of
    process_row row st = do timestamp ← timestamp_of row.timestamp; process_timed row st timestamp

    unfoldable pub process_rows : List (ObjectRow L) → Progress L E I → Result (Progress L E I)
    unfolding process_row
    process_rows [] st = ok st
    process_rows (row ∷ rows) st = do st' ← process_row row st; process_rows rows st'

  -- `process_nodes`, `process_ways` and `process_relations`, behind their queries.
  unfoldable pub process_nodes :
      ChangesetUserLookup
      → List Tag
      → List (ObjectRow (ℤ × ℤ))
      → ts.Timestamp
      → Result (Progress (ℤ × ℤ) (List Tag) (List Tag))
  unfolding process_rows add_tags
  process_nodes cucache tags rows max_timestamp =
      process_rows cucache add_tags rows (start max_timestamp tags)

  unfoldable pub process_ways :
      ChangesetUserLookup
      → List Tag
      → List WayNode
      → List (ObjectRow (Unit {0}))
      → ts.Timestamp
      → Result (Progress (Unit {0}) (List Tag × List WayNode) (List Tag × List WayNode))
  unfolding process_rows add_tags add_way_nodes
  process_ways cucache tags way_nodes rows max_timestamp =
      process_rows cucache way_entries rows (start max_timestamp (tags, way_nodes))

  unfoldable pub process_relations :
      ChangesetUserLookup
      → List Tag
      → List Member
      → List (ObjectRow (Unit {0}))
      → ts.Timestamp
      → Result (Progress (Unit {0}) (List Tag × List Member) (List Tag × List Member))
  unfolding process_rows add_tags add_members
  process_relations cucache tags members rows max_timestamp =
      process_rows cucache relation_entries rows (start max_timestamp (tags, members))
