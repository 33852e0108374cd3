-- ===== src/Osmobj.antt =====
-- The objects of a log file, and the reading of log files (src/osmobj.hpp, src/osmobj.cpp). The
-- warnings on `std::cerr` are left out. A log file is its content, or `none` if it cannot be opened.
pub mod Order
pub mod Reading
pub mod Sorting
use osmdbt_pgoutput.Base.{
  ℕ, Bool, true, false, not, ◌&&◌, ◌||◌, Option, none, some, List, [], ◌∷◌, ◌++◌, ◌+◌, ltb, ◌==◌,
  if◌then◌else◌, Bytes, codes, length, equal,
}
use osmdbt_pgoutput.Base.Int.{ℤ, ltb_ℤ, eq_ℤ}
use osmdbt_pgoutput.Base.Result.{
  Result, ok, throws, runtime_error, system_error, ◌>>=◌, ◌>>◌, throws_if,
}
use osmdbt_pgoutput.Cstd.{peek, strtoll, lines}
use osmdbt_pgoutput.Osmium.{ItemType, node, way, relation, undefined, Objects, is_object}

pub record UserInfo : Type 0 where
  pub uid : ℕ
  pub username : Bytes

-- `changeset_user_lookup`.
abbrev pub ChangesetUserLookup : Type 0
ChangesetUserLookup = List (ℕ × UserInfo)

-- `m[cid] = user`.
unfoldable pub set : ℕ → UserInfo → ChangesetUserLookup → ChangesetUserLookup
set cid user [] = (cid, user) ∷ []
set cid user ((j, old) ∷ m) = if j == cid then (j, user) ∷ m else (j, old) ∷ set cid user m

pub record Osmobj : Type 0 where
  pub m_type : ItemType
  pub m_id : ℤ
  pub m_version : ℕ
  pub m_cid : ℕ

pub record Osmobjects : Type 0 where
  pub nodes : List Osmobj
  pub ways : List Osmobj
  pub relations : List Osmobj

unfoldable pub size : Osmobjects → ℕ
size objects = length objects.nodes + length objects.ways + length objects.relations

abbrev is_empty : List Osmobj → Bool
is_empty [] = true
is_empty (_ ∷ _) = false

unfoldable pub empty : Osmobjects → Bool
empty objects = is_empty objects.nodes && is_empty objects.ways && is_empty objects.relations

-- `m_objects(obj.type()).push_back(obj)`.
unfoldable pub push_back : Osmobj → Osmobjects → Osmobjects
push_back obj objects = elim obj.m_type [
  | node ↦ record objects { nodes = objects.nodes ++ obj ∷ [] }
  | way ↦ record objects { ways = objects.ways ++ obj ∷ [] }
  | relation ↦ record objects { relations = objects.relations ++ obj ∷ [] }
  | undefined ↦ objects
]

-- `osmobjects::sort`; `std::sort` on a range of objects is an argument.
unfoldable pub sort_objects : (List Osmobj → List Osmobj) → Osmobjects → Osmobjects
sort_objects sort objects = record {
  nodes = sort objects.nodes;
  ways = sort objects.ways;
  relations = sort objects.relations;
}

-- `&s[1]`.
abbrev behind : Bytes → Bytes
behind [] = []
behind (_ ∷ s) = s

-- `std::tuple`'s `operator<` on a number, an id and a version.
abbrev pub less_tuple : ℕ × ℤ × ℕ → ℕ × ℤ × ℕ → Bool
less_tuple (a, b, c) (a', b', c') = ltb a a' || (a == a' && (ltb_ℤ b b' || (eq_ℤ b b' && ltb c c')))

-- The objects to do, and the lookup that `cucache` points to, if it is not null.
abbrev pub Todo : Type 0
Todo = Osmobjects × Option ChangesetUserLookup

abbrev pub no_user : UserInfo
no_user = record { uid = 0; username = [] }

-- What the constructor does with `cucache`.
unfoldable pub note_changeset : ℕ → Option ChangesetUserLookup → Option ChangesetUserLookup
unfolding set
note_changeset cid none = none
note_changeset cid (some m) = some (set cid no_user m)

module _ (osm : Objects) where
  abbrev pub tuple_of : Osmobj → ℕ × ℤ × ℕ
  tuple_of obj = (osm.item_type_to_nwr_index obj.m_type, obj.m_id, obj.m_version)

  -- `operator<`.
  unfoldable pub less : Osmobj → Osmobj → Bool
  less lhs rhs = less_tuple (tuple_of lhs) (tuple_of rhs)

  -- `operator<=`, by `operator>`, which is `operator<` with its arguments exchanged.
  unfoldable pub less_equal : Osmobj → Osmobj → Bool
  unfolding less
  less_equal lhs rhs = not (less rhs lhs)

  -- The constructor, and the lookup behind it.
  unfoldable pub osmobj :
      Bytes
      → Bytes
      → Bytes
      → Option ChangesetUserLookup
      → Result (Osmobj × Option ChangesetUserLookup)
  unfolding note_changeset
  osmobj obj version changeset cucache = do
    throws_if (ltb (length obj) 2 || ltb (length version) 2 || ltb (length changeset) 2)
        (runtime_error (codes "Log file has wrong format: entry too short"))
    let m_type = osm.char_to_item_type (peek obj)
    throws_if (not (is_object m_type))
        (runtime_error (codes "Log file has wrong format: type must be 'n', 'w', or 'r'"))
    let m_id = osm.object_id (strtoll (behind obj))
    throws_if (not (peek version == b'v'))
        (runtime_error (codes "Log file has wrong format: expected version"))
    let m_version = osm.object_version (strtoll (behind version))
    throws_if (not (peek changeset == b'c'))
        (runtime_error (codes "Log file has wrong format: expected changeset"))
    let m_cid = osm.changeset_id (strtoll (behind changeset))
    ok (
      record { m_type = m_type; m_id = m_id; m_version = m_version; m_cid = m_cid },
      note_changeset m_cid cucache,
    )

  unfoldable pub add : Bytes → Bytes → Bytes → Todo → Result Todo
  unfolding osmobj push_back
  add type_id version changeset (objects, cucache) = do
    (obj, cucache') ← osmobj type_id version changeset cucache
    ok (push_back obj objects, cucache')

  -- The parts of a line behind its third.
  unfoldable pub read_object : List Bytes → Todo → Result Todo
  unfolding add
  read_object (type_id ∷ version ∷ changeset ∷ []) st = add type_id version changeset st
  read_object _ st = ok st

  -- The parts of a line; a line that is too short, or of another kind, is passed over.
  unfoldable pub read_parts : List Bytes → Todo → Result Todo
  unfolding read_object
  read_parts (_ ∷ _ ∷ kind ∷ parts) st =
      if equal kind (codes "N") then read_object parts st else ok st
  read_parts _ st = ok st

  unfoldable pub read_lines : List Bytes → Todo → Result Todo
  unfolding read_parts
  read_lines [] st = ok st
  read_lines (line ∷ rest) st = do
    st' ← read_parts (osm.split_string line b' ') st
    read_lines rest st'

  unfoldable pub read_log : Bytes → Bytes → Option Bytes → Todo → Result Todo
  unfolding read_lines lines
  read_log dir_name file_name none st =
      throws
        (system_error (codes "Could not open log file '" ++ (dir_name ++ (file_name ++ codes "'"))))
  read_log dir_name file_name (some logfile) st = read_lines (lines logfile) st
