-- ===== src/FakeLog/Reading.antt =====
-- The reading of the lines that `append_to` writes, by `read_log`.
use osmdbt_pgoutput.Base.{
  ◌≡◌, refl, sym, ap, ◌∙◌, some, List, [], ◌∷◌, ◌++◌, append_assoc, append-nil, arith, Bytes, codes,
  All,
}
use osmdbt_pgoutput.Base.Result.{ok, ◌>>=◌}
use osmdbt_pgoutput.Cstd.{lines}
use osmdbt_pgoutput.Osmium.{Objects, IsOsm, join}
use osmdbt_pgoutput.Osmobj.{Osmobj, Todo, read_lines, read_log}
use osmdbt_pgoutput.Osmobj.Reading.{
  IsWord, IsFit, words_of, words_of-IsWord, with_object, read_parts-object, read_lines-join,
}
use osmdbt_pgoutput.FakeLog.{LogEntry, line, append_to}

-- The object of an entry.
abbrev pub object_of : LogEntry → Osmobj
object_of entry = record {
  m_type = entry.m_type;
  m_id = entry.m_id;
  m_version = entry.m_version;
  m_cid = entry.m_cid;
}

module _ (osm : Objects) where
  -- The entry is of an object, and its numbers fit their types.
  abbrev pub IsEntry : LogEntry → Type 0
  IsEntry entry = IsFit osm (object_of entry)

  -- What the entries leave: each object at the end of its list, and its changeset in the lookup.
  abbrev pub done : List LogEntry → Todo → Todo
  done [] st = st
  done (entry ∷ entries) st = done entries (with_object osm (object_of entry) st)

  abbrev pub content : List LogEntry → Bytes
  content [] = []
  content (entry ∷ entries) = line osm entry ++ content entries

  -- The calls of `append_to` for the entries, one after the other.
  abbrev pub append_all : List LogEntry → Bytes → Bytes
  append_all [] data' = data'
  append_all (entry ∷ entries) data' = append_all entries (append_to osm entry data')

  append_all-content :
      (entries : List LogEntry) (data' : Bytes)
      → append_all entries data' ≡ data' ++ content entries
  unfolding append_to
  append_all-content [] data' = sym (append-nil data')
  append_all-content (entry ∷ entries) data' =
      append_all-content entries (data' ++ line osm entry)
      ∙ append_assoc data' (line osm entry) (content entries)

  module _ (known : IsOsm osm) where
    words : LogEntry → List Bytes
    words entry = codes "0" ∷ codes "N" ∷ words_of osm (object_of entry)

    line-words :
        (entry : LogEntry) (rest : Bytes)
        → line osm entry ++ rest ≡ join b' ' (codes "0/0") (words entry) ++ b'\n' ∷ rest
    unfolding words
    line-words entry rest = simp (append_assoc)

    words-IsWord : (entry : LogEntry) → IsEntry entry → All IsWord (codes "0/0" ∷ words entry)
    unfolding words
    words-IsWord entry h = (
      (
        (omega arith, (omega arith, (omega arith, tt))),
        (omega arith, (omega arith, (omega arith, tt))),
      ),
      (
        ((omega arith, tt), (omega arith, tt)),
        (((omega arith, tt), (omega arith, tt)), words_of-IsWord osm known (object_of entry) h),
      ),
    )

    read_lines-content :
        (entries : List LogEntry) (st : Todo)
        → All IsEntry entries
        → read_lines osm (lines (content entries)) st ≡ ok (done entries st)
    unfolding read_lines lines words
    read_lines-content [] st h = refl
    read_lines-content (entry ∷ entries) st h =
        ap (λ text. read_lines osm (lines text) st) (line-words entry (content entries))
        ∙ read_lines-join osm known b'0' (codes "/0") (words entry) (content entries) st
            (words-IsWord entry h.0)
        ∙ ap (λ r. r >>= read_lines osm (lines (content entries)))
            (read_parts-object osm known (codes "0/0") (codes "0") (object_of entry) st h.0)
        ∙ read_lines-content entries (with_object osm (object_of entry) st) h.1

    -- Where the functions of libosmium behave as documented, and each entry is of a node, way or
    -- relation with numbers that fit their types: `read_log` of the text that `append_to` makes of
    -- the entries succeeds, and puts each entry's object at the end of its list, in order, and its
    -- changeset into the lookup.
    pub read_log-content :
        (dir_name file_name : Bytes) (entries : List LogEntry) (st : Todo)
        → All IsEntry entries
        → read_log osm dir_name file_name (some (append_all entries [])) st ≡ ok (done entries st)
    unfolding read_log
    read_log-content dir_name file_name entries st h =
        rw (append_all-content entries []) (read_lines-content entries st h)
