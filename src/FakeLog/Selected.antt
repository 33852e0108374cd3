-- ===== src/FakeLog/Selected.antt =====
-- The rows that `osmdbt-fake-log` leaves out, since they are in the log files that it is given
-- (src/osmdbt-fake-log.cpp).
use osmdbt_pgoutput.Base.{
  ℕ, ◌≡◌, refl, sym, ap, ◌∙◌, Bool, true, false, ◌&&◌, ◌||◌, none, some, List, [], ◌∷◌, ◌++◌, map,
  append_assoc, append-nil, arith, ◌==◌, if◌then◌else◌, Bytes, All, Bool-cases, inl, inr,
}
use osmdbt_pgoutput.Base.Int.{ℤ, eq_ℤ}
use mathlib.Core.List.{map-append}
use osmdbt_pgoutput.Base.Result.{ok}
use osmdbt_pgoutput.Cstd.{peek}
use osmdbt_pgoutput.Osmium.{ItemType, node, way, relation, undefined, Objects, IsOsm}
use osmdbt_pgoutput.Osmobj.{Osmobj, Osmobjects, Todo, push_back}
use osmdbt_pgoutput.Osmobj.Reading.{with_object}
use osmdbt_pgoutput.Posix.{Disk}
use osmdbt_pgoutput.FakeLog.{LogEntry, IdVersion, Row, count, read_objects}
use osmdbt_pgoutput.FakeLog.App.{ObjectsDone, note_log, id_version, no_objects}
use osmdbt_pgoutput.FakeLog.Reading.{IsEntry, object_of, done, append_all, read_log-content}

-- The entry of a row.
abbrev pub entry_of : ItemType → Row → LogEntry
entry_of type' row = record {
  m_time = row.ts;
  m_id = row.id;
  m_version = row.version;
  m_cid = row.changeset_id;
  m_type = type';
}

-- The rows whose id and version are not in the set.
abbrev pub others : List IdVersion → List Row → List Row
others objects_done [] = []
others objects_done (row ∷ rows) =
    let rest = others objects_done rows in
    if count (row.id, row.version) objects_done then rest else row ∷ rest

-- For whatever rows and set: `read_objects` adds to the entries those of the rows whose id and
-- version are not in the set, in the order of the rows.
pub read_objects_lem :
    (rows : List Row) (entries : List LogEntry) (type' : ItemType) (objects_done : List IdVersion)
    → read_objects rows entries type' objects_done
      ≡ entries ++ map (entry_of type') (others objects_done rows)
unfolding read_objects
read_objects_lem [] entries type' objects_done = sym (append-nil entries)
read_objects_lem (row ∷ rows) entries type' objects_done =
    elim (Bool-cases (count (row.id, row.version) objects_done)) [
      | inl there ↦ rw there (read_objects_lem rows entries type' objects_done)
      | inr new ↦ rw new (
          read_objects_lem rows (entries ++ entry_of type' row ∷ []) type' objects_done
          ∙ append_assoc entries (entry_of type' row ∷ [])
              (map (entry_of type') (others objects_done rows)))
    ]

count-append :
    (k : IdVersion) (xs ys : List IdVersion) → count k (xs ++ ys) ≡ (count k xs || count k ys)
unfolding count
count-append k [] ys = refl
count-append (id, version) ((i, v) ∷ xs) ys = rw (count-append (id, version) xs ys) (ground arith)

abbrev same_type : ItemType → ItemType → Bool
same_type node node = true
same_type way way = true
same_type relation relation = true
same_type _ _ = false

-- An entry is of an object of this type, with this id and version.
abbrev pub is_named : ItemType → IdVersion → List LogEntry → Bool
is_named type' k [] = false
is_named type' (id, version) (entry ∷ entries) =
    (same_type type' entry.m_type && (eq_ℤ entry.m_id id && entry.m_version == version))
    || is_named type' (id, version) entries

abbrev objects_of : ItemType → Osmobjects → List Osmobj
objects_of node objects = objects.nodes
objects_of way objects = objects.ways
objects_of relation objects = objects.relations
objects_of undefined objects = []

abbrev marks : IdVersion → ItemType → ItemType → Osmobj → Bool
marks (id, version) type' m_type obj =
    same_type type' m_type && (eq_ℤ obj.m_id id && obj.m_version == version)

abbrev counted : IdVersion → List Osmobj → Bool
counted k objects = count k (map id_version objects)

or_false : (b : Bool) → b ≡ (b || false)
or_false b = ground arith

counted-snoc :
    (id : ℤ) (version : ℕ) (objects : List Osmobj) (obj : Osmobj)
    → counted (id, version) (objects ++ obj ∷ [])
      ≡ (counted (id, version) objects || (eq_ℤ obj.m_id id && obj.m_version == version))
unfolding count
counted-snoc id version objects obj =
    ap (count (id, version)) (map-append id_version objects (obj ∷ []))
    ∙ count-append (id, version) (map id_version objects) (id_version obj ∷ [])
    ∙ ground arith

-- An object that is added is one of its type, and of no other.
counted-push_back :
    (id : ℤ) (version : ℕ) (type' m_type : ItemType) (obj : Osmobj) (objects : Osmobjects)
    → counted (id, version) (objects_of type' (push_back (record obj { m_type = m_type }) objects))
      ≡ (counted (id, version) (objects_of type' objects) || marks (id, version) type' m_type obj)
unfolding push_back count
counted-push_back id version node node obj objects =
    counted-snoc id version objects.nodes (record obj { m_type = node })
counted-push_back id version node way obj objects = or_false (counted (id, version) objects.nodes)
counted-push_back id version node relation obj objects =
    or_false (counted (id, version) objects.nodes)
counted-push_back id version node undefined obj objects =
    or_false (counted (id, version) objects.nodes)
counted-push_back id version way node obj objects = or_false (counted (id, version) objects.ways)
counted-push_back id version way way obj objects =
    counted-snoc id version objects.ways (record obj { m_type = way })
counted-push_back id version way relation obj objects =
    or_false (counted (id, version) objects.ways)
counted-push_back id version way undefined obj objects =
    or_false (counted (id, version) objects.ways)
counted-push_back id version relation node obj objects =
    or_false (counted (id, version) objects.relations)
counted-push_back id version relation way obj objects =
    or_false (counted (id, version) objects.relations)
counted-push_back id version relation relation obj objects =
    counted-snoc id version objects.relations (record obj { m_type = relation })
counted-push_back id version relation undefined obj objects =
    or_false (counted (id, version) objects.relations)
counted-push_back id version undefined m_type obj objects = refl

is_named_undefined :
    (k : IdVersion) (entries : List LogEntry) → is_named undefined k entries ≡ false
is_named_undefined k [] = refl
is_named_undefined (id, version) (entry ∷ entries) = is_named_undefined (id, version) entries

-- The set of a type.
abbrev pub set_of : ItemType → ObjectsDone → List IdVersion
set_of node objects_done = objects_done.nodes
set_of way objects_done = objects_done.ways
set_of relation objects_done = objects_done.relations
set_of undefined objects_done = []

module _ (osm : Objects) where
  counted-done :
      (k : IdVersion) (type' : ItemType) (entries : List LogEntry) (st : Todo)
      → counted k (objects_of type' (done osm entries st).0)
        ≡ (counted k (objects_of type' st.0) || is_named type' k entries)
  counted-done k type' [] st = or_false (counted k (objects_of type' st.0))
  counted-done (id, version) type' (entry ∷ entries) st =
      counted-done (id, version) type' entries (with_object osm (object_of entry) st)
      ∙ rw (counted-push_back id version type' entry.m_type (object_of entry) st.0) (ground arith)

  -- The sets behind the reading of a log with these entries.
  abbrev noted : List LogEntry → ObjectsDone → ObjectsDone
  noted entries objects_done =
      let todo = (done osm entries (no_objects, none)).0 in
      record {
        nodes = map id_version todo.nodes ++ objects_done.nodes;
        ways = map id_version todo.ways ++ objects_done.ways;
        relations = map id_version todo.relations ++ objects_done.relations;
      }

  none_before :
      (k : IdVersion) (type' : ItemType) (entries : List LogEntry)
      → (counted k (objects_of type' no_objects) || is_named type' k entries)
        ≡ is_named type' k entries
  unfolding count
  none_before k node entries = refl
  none_before k way entries = refl
  none_before k relation entries = refl
  none_before k undefined entries = refl

  count-joined :
      (k : IdVersion) (type' : ItemType) (entries : List LogEntry) (before : List IdVersion)
      → count k
          (map id_version (objects_of type' (done osm entries (no_objects, none)).0) ++ before)
        ≡ (is_named type' k entries || count k before)
  count-joined k type' entries before =
      count-append k (map id_version (objects_of type' (done osm entries (no_objects, none)).0))
        before
      ∙ ap (λ b. b || count k before)
          (counted-done k type' entries (no_objects, none) ∙ none_before k type' entries)

  count-noted :
      (k : IdVersion) (type' : ItemType) (entries : List LogEntry) (objects_done : ObjectsDone)
      → count k (set_of type' (noted entries objects_done))
        ≡ (is_named type' k entries || count k (set_of type' objects_done))
  unfolding count
  count-noted k node entries objects_done = count-joined k node entries objects_done.nodes
  count-noted k way entries objects_done = count-joined k way entries objects_done.ways
  count-noted k relation entries objects_done =
      count-joined k relation entries objects_done.relations
  count-noted k undefined entries objects_done = rw (is_named_undefined k entries) refl

  -- Where the functions of libosmium behave as documented: if the log file is there and is the text
  -- that `append_to` makes of entries for nodes, ways and relations with numbers that fit their
  -- types, then the round of `read_log_files` for this file succeeds, and an id and version is in the set of a
  -- type behind it if it was there before or an entry of that type has them, and not else.
  pub note_log-append_all :
      (known : IsOsm osm) (log_dir log : Bytes) (disk : Disk) (entries : List LogEntry)
      (objects_done : ObjectsDone)
      → All (IsEntry osm) entries
      → disk ((if peek log == b'/' then [] else log_dir) ++ log) ≡ some (append_all osm entries [])
      → (after' : ObjectsDone) × (note_log osm log_dir log disk objects_done ≡ ok after')
        × ((k : IdVersion) (type' : ItemType)
            → count k (set_of type' after')
              ≡ (is_named type' k entries || count k (set_of type' objects_done)))
  unfolding note_log
  note_log-append_all known log_dir log disk entries objects_done h there = (
    noted entries objects_done,
    rw
        (
          there,
          read_log-content osm known (if peek log == b'/' then [] else log_dir) log entries
              (no_objects, none) h,
        )
        refl,
    λ k type'. count-noted k type' entries objects_done,
  )
