-- ===== src/Tests/Files.antt =====
-- The log files of `osmdbt-fake-log`, with functions that behave as libosmium's are documented.
use osmdbt_pgoutput.Base.{
  ◌||◌, map, ℕ, ◌^◌, ◌<◌, ◌≡◌, ◌≢◌, refl, ap, ◌∙◌, true, some, List, [], ◌∷◌, ◌++◌, arith, Bytes,
  codes, Lacks, All, ◌==◌, if◌then◌else◌,
}
use osmdbt_pgoutput.Base.Int.{ℤ, pos, negsuc, wrap_ℤ}
use osmdbt_pgoutput.Base.Result.{ok}
use osmdbt_pgoutput.Osmium.{
  ItemType, node, way, relation, undefined, Objects, IsOsm, join, is_object,
}
use osmdbt_pgoutput.Osmobj.{Osmobj, Osmobjects, sort_objects, less, read_log}
use mathlib.Core.List.Perm
use osmdbt_pgoutput.Osmobj.Sorting.{AreSorted, keys, sort_objects-keys}
use osmdbt_pgoutput.Posix.{Disk}
use osmdbt_pgoutput.FakeLog.App.{ObjectsDone, note_log}
use osmdbt_pgoutput.FakeLog.Selected.{
  entry_of, others, is_named, set_of, read_objects_lem, note_log-append_all,
}
use osmdbt_pgoutput.FakeLog.{
  LogEntry, IdVersion, Row, count, read_objects, nothing_written, write_entries,
}
use osmdbt_pgoutput.FakeLog.Reading.{IsEntry, done, append_all, read_log-content}
use osmdbt_pgoutput.FakeLog.Files.{runs_from, files, write_entries_lem}

abbrev with_first : ℕ → List Bytes → List Bytes
with_first c [] = (c ∷ []) ∷ []
with_first c (w ∷ ws) = (c ∷ w) ∷ ws

abbrev split_at : ℕ → Bytes → List Bytes
split_at sep [] = [] ∷ []
split_at sep (c ∷ s) =
    let rest = split_at sep s in if c == sep then [] ∷ rest else with_first c rest

abbrev split : Bytes → ℕ → List Bytes
split [] sep = []
split (c ∷ s) sep = split_at sep (c ∷ s)

split_at_word : (sep : ℕ) (w : Bytes) → Lacks sep w → split_at sep w ≡ w ∷ []
split_at_word sep [] h = refl
split_at_word sep (c ∷ w) h = rw (split_at_word sep w h.1) (ground arith)

split_at_front :
    (sep : ℕ) (w s : Bytes) → Lacks sep w → split_at sep (w ++ sep ∷ s) ≡ w ∷ split_at sep s
split_at_front sep [] s h = ground arith
split_at_front sep (c ∷ w) s h = rw (split_at_front sep w s h.1) (ground arith)

split_at-join :
    (sep : ℕ) (w : Bytes) (ws : List Bytes)
    → All (Lacks sep) (w ∷ ws)
    → split_at sep (join sep w ws) ≡ w ∷ ws
split_at-join sep w [] h = split_at_word sep w h.0
split_at-join sep w (w' ∷ ws) h =
    split_at_front sep w (join sep w' ws) h.0 ∙ ap (◌∷◌ w) (split_at-join sep w' ws h.1)

split-join :
    (sep c : ℕ) (w : Bytes) (ws : List Bytes)
    → All (Lacks sep) ((c ∷ w) ∷ ws)
    → split (join sep (c ∷ w) ws) sep ≡ (c ∷ w) ∷ ws
split-join sep c w [] h = split_at-join sep (c ∷ w) [] h
split-join sep c w (w' ∷ ws) h = split_at-join sep (c ∷ w) (w' ∷ ws) h

abbrev type_of : ℕ → ItemType
type_of c =
    if c == b'n' then node else if c == b'w' then way else if c == b'r' then relation else undefined

abbrev char_of : ItemType → ℕ
char_of node = b'n'
char_of way = b'w'
char_of relation = b'r'
char_of undefined = b'X'

abbrev index_of : ItemType → ℕ
index_of node = 0
index_of way = 1
index_of relation = 2
index_of undefined = 3

abbrev pub osm : Objects
osm = record {
  object_id = λ z. z;
  object_version = wrap_ℤ 32;
  changeset_id = wrap_ℤ 32;
  char_to_item_type = type_of;
  item_type_to_char = char_of;
  item_type_to_nwr_index = index_of;
  split_string = split;
}

type_of-char_of : (t : ItemType) → is_object t ≡ true → type_of (char_of t) ≡ t
type_of-char_of node h = refl
type_of-char_of way h = refl
type_of-char_of relation h = refl
type_of-char_of undefined h = cc

char_of_visible : (t : ItemType) → is_object t ≡ true → (char_of t ≢ b' ') × (char_of t ≢ b'\n')
char_of_visible node h = (omega arith, omega arith)
char_of_visible way h = (omega arith, omega arith)
char_of_visible relation h = (omega arith, omega arith)
char_of_visible undefined h = (omega arith, omega arith)

pub osm-IsOsm : IsOsm osm
osm-IsOsm = record {
  keeps_id = λ z h. refl;
  keeps_version = λ n h. omega (arith, h);
  keeps_changeset = λ n h. omega (arith, h);
  reads_char = type_of-char_of;
  char_visible = char_of_visible;
  splits = split-join;
}

abbrev object : ℕ → Osmobj
object version = record { m_type = node; m_id = negsuc 6; m_version = version; m_cid = 3 }

abbrev entry : ℕ → ItemType → ℕ → LogEntry
entry time type' id = record {
  m_time = pos time;
  m_id = pos id;
  m_version = 2;
  m_cid = 40;
  m_type = type';
}

entry-IsEntry :
    (time : ℕ) (type' : ItemType) (id : ℕ)
    → is_object type' ≡ true
    → id < 2 ^ 63
    → IsEntry osm (entry time type' id)
entry-IsEntry time type' id h fits = record {
  of_object = h;
  id_fits = fits;
  version_fits = omega arith;
  cid_fits = omega arith;
}

abbrev pub no_objects : Osmobjects
no_objects = record { nodes = []; ways = []; relations = [] }

read_log-content_example :
    read_log osm
      (codes "/log/")
      (codes "a.log")
      (some (append_all osm (entry 60 node 17 ∷ entry 60 way 4 ∷ []) []))
      (no_objects, some [])
    ≡ ok (done osm (entry 60 node 17 ∷ entry 60 way 4 ∷ []) (no_objects, some []))
read_log-content_example =
    read_log-content osm osm-IsOsm (codes "/log/") (codes "a.log")
      (entry 60 node 17 ∷ entry 60 way 4 ∷ []) (no_objects, some [])
      (entry-IsEntry 60 node 17 refl (omega arith), (entry-IsEntry 60 way 4 refl (omega arith), tt))

abbrev name_of : ℤ → Bytes
name_of (pos n) = codes "osm-repl-" ++ n ∷ []
name_of (negsuc n) = []

write_entries_lem_example :
    (write_entries osm name_of
      (entry 60 node 17 ∷ entry 60 way 4 ∷ entry 120 node 5 ∷ [])
      nothing_written).written
    ≡ files osm name_of (runs_from (entry 60 node 17) (entry 60 way 4 ∷ entry 120 node 5 ∷ []))
write_entries_lem_example =
    write_entries_lem osm name_of (entry 60 node 17) (entry 60 way 4 ∷ entry 120 node 5 ∷ [])
      ((λ e. cc), ((λ e. cc), ((λ e. cc), tt)))

-- `std::sort`, by insertion.
abbrev insert : Osmobj → List Osmobj → List Osmobj
insert obj [] = obj ∷ []
insert obj (other ∷ objs) =
    let rest = insert obj objs in if less osm obj other then obj ∷ other ∷ objs else other ∷ rest

abbrev sort : List Osmobj → List Osmobj
sort [] = []
sort (obj ∷ objs) = insert obj (sort objs)

abbrev versions : ℕ → ℕ → Osmobjects
versions a b = record { nodes = object a ∷ object b ∷ []; ways = []; relations = [] }

descending-AreSorted : AreSorted osm sort (versions 3 1)
unfolding less
descending-AreSorted = (
  record { permutes = Perm.swap (object 3) (object 1) []; in_order = ((refl, tt), (tt, tt)) },
  record { permutes = Perm.rfl; in_order = tt },
  record { permutes = Perm.rfl; in_order = tt },
)

ascending-AreSorted : AreSorted osm sort (versions 1 3)
unfolding less
ascending-AreSorted = (
  record { permutes = Perm.rfl; in_order = ((refl, tt), (tt, tt)) },
  record { permutes = Perm.rfl; in_order = tt },
  record { permutes = Perm.rfl; in_order = tt },
)

sort_objects-keys_example :
    (keys osm (sort_objects sort (versions 3 1)).nodes
      ≡ keys osm (sort_objects sort (versions 1 3)).nodes)
    × (keys osm (sort_objects sort (versions 3 1)).ways
        ≡ keys osm (sort_objects sort (versions 1 3)).ways)
    × (keys osm (sort_objects sort (versions 3 1)).relations
        ≡ keys osm (sort_objects sort (versions 1 3)).relations)
sort_objects-keys_example =
    sort_objects-keys osm sort sort (versions 3 1) (versions 1 3) descending-AreSorted
      ascending-AreSorted (Perm.swap (object 1) (object 3) []) Perm.rfl Perm.rfl

row : ℕ → ℕ → Row
row id version = record { ts = pos 60; id = pos id; version = version; changeset_id = 40 }

-- The second version of node 17 is in the log, its third one is not.
read_objects_lem_example :
    read_objects (row 17 2 ∷ row 17 3 ∷ []) [] node ((pos 17, 2) ∷ [])
    ≡ map (entry_of node) (others ((pos 17, 2) ∷ []) (row 17 2 ∷ row 17 3 ∷ []))
read_objects_lem_example = read_objects_lem (row 17 2 ∷ row 17 3 ∷ []) [] node ((pos 17, 2) ∷ [])

others_test : others ((pos 17, 2) ∷ []) (row 17 2 ∷ row 17 3 ∷ []) ≡ row 17 3 ∷ []
unfolding row count
others_test = refl

abbrev nothing_done : ObjectsDone
nothing_done = record { nodes = []; ways = []; relations = [] }

abbrev log_dir : Disk
log_dir name = some (append_all osm (entry 60 node 17 ∷ entry 60 way 4 ∷ []) [])

note_log-append_all_example :
    (after' : ObjectsDone) × (note_log osm (codes "/log/") (codes "a.log") log_dir nothing_done
      ≡ ok after')
    × ((k : IdVersion) (type' : ItemType)
        → count k (set_of type' after') ≡ (
            is_named type' k (entry 60 node 17 ∷ entry 60 way 4 ∷ [])
            || count k (set_of type' nothing_done)))
note_log-append_all_example =
    note_log-append_all osm osm-IsOsm (codes "/log/") (codes "a.log") log_dir
      (entry 60 node 17 ∷ entry 60 way 4 ∷ []) nothing_done
      (entry-IsEntry 60 node 17 refl (omega arith), (entry-IsEntry 60 way 4 refl (omega arith), tt))
      refl
