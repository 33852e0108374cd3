-- ===== src/Osmobj/Reading.antt =====
-- The reading of a log file's lines by `read_log` (src/osmobj.cpp), when their words are separated
-- by single spaces, and of the line of one object.
use osmdbt_pgoutput.Base.{
  ℕ, suc, ◌^◌, ◌<◌, ◌≡◌, ◌≢◌, refl, sym, ap, ◌∙◌, true, false, Option, List, [], ◌∷◌, ◌++◌,
  append-nil, arith, Bytes, codes, Lacks, All, All-append, ltb, length, equal,
}
use osmdbt_pgoutput.Base.Int.{ℤ, pos, negsuc, IsInt64}
use osmdbt_pgoutput.Base.Result.{ok, ◌>>=◌}
use osmdbt_pgoutput.Cstd.{to_string, to_string_ℤ, strtoll, lines, digits, digit_value}
use osmdbt_pgoutput.Cstd.Digits.{digits-ne-nil}
use osmdbt_pgoutput.Cstd.Lines.{to_string-Lacks, to_string_ℤ-Lacks, lines-line}
use osmdbt_pgoutput.Cstd.RoundTrip.{strtoll-to_string_ℤ}
use osmdbt_pgoutput.Osmium.{Objects, IsOsm, join, is_object}
use osmdbt_pgoutput.Osmobj.{
  ChangesetUserLookup, Osmobj, Todo, push_back, note_changeset, osmobj, add, read_object,
  read_parts, read_lines,
}

long_enough : (c : ℕ) (s : Bytes) → s ≢ [] → ltb (length (c ∷ s)) 2 ≡ false
long_enough c [] h = absurd (h refl)
long_enough c (d ∷ s) h = ground arith

to_string_long : (c n : ℕ) → ltb (length (c ∷ to_string n)) 2 ≡ false
unfolding to_string
to_string_long c n = long_enough c (digits 10 (suc n) n) (digits-ne-nil 10 n n)

to_string_ℤ_long : (c : ℕ) (z : ℤ) → ltb (length (c ∷ to_string_ℤ z)) 2 ≡ false
unfolding to_string_ℤ
to_string_ℤ_long c (pos n) = to_string_long c n
to_string_ℤ_long c (negsuc n) = long_enough c (b'-' ∷ to_string (suc n)) (λ e. cc)

strtoll-id : (z : ℤ) → IsInt64 z → strtoll (to_string_ℤ z) ≡ z
unfolding digit_value
strtoll-id z h =
    ap strtoll (sym (append-nil (to_string_ℤ z)))
    ∙ strtoll-to_string_ℤ z [] h (refl, omega arith, omega arith)

strtoll-number : (n : ℕ) → n < 2 ^ 32 → strtoll (to_string n) ≡ pos n
unfolding to_string_ℤ
strtoll-number n h = strtoll-id (pos n) (omega arith)

Lacks-join :
    (c sep : ℕ) (w : Bytes) (ws : List Bytes)
    → sep ≢ c
    → All (Lacks c) (w ∷ ws)
    → Lacks c (join sep w ws)
Lacks-join c sep w [] h k = k.0
Lacks-join c sep w (w' ∷ ws) h k =
    All-append (λ d. d ≢ c) w (sep ∷ join sep w' ws) k.0 (h, Lacks-join c sep w' ws h k.1)

-- The texts can be words of a line: they have no space and no newline.
abbrev pub IsWord : Bytes → Type 0
IsWord w = Lacks b' ' w × Lacks b'\n' w

pub All-Lacks : (ws : List Bytes) → All IsWord ws → All (Lacks b' ') ws × All (Lacks b'\n') ws
All-Lacks [] h = (tt, tt)
All-Lacks (w ∷ ws) h = let (s, n) = All-Lacks ws h.1 in ((h.0.0, s), (h.0.1, n))

-- A printed number behind a letter is a word.
pub to_string-IsWord : (c n : ℕ) → c ≢ b' ' → c ≢ b'\n' → IsWord (c ∷ to_string n)
unfolding digit_value
to_string-IsWord c n h k = ((h, to_string-Lacks b' ' n refl), (k, to_string-Lacks b'\n' n refl))

pub to_string_ℤ-IsWord : (c : ℕ) (z : ℤ) → c ≢ b' ' → c ≢ b'\n' → IsWord (c ∷ to_string_ℤ z)
unfolding digit_value
to_string_ℤ-IsWord c z h k = (
  (h, to_string_ℤ-Lacks b' ' z refl (omega arith)),
  (k, to_string_ℤ-Lacks b'\n' z refl (omega arith)),
)

module _ (osm : Objects) where
  -- The object is a node, way or relation, and its numbers fit their types.
  pub record IsFit (obj : Osmobj) : Type 0 where
    pub of_object : is_object obj.m_type ≡ true
    pub id_fits : IsInt64 obj.m_id
    pub version_fits : obj.m_version < 2 ^ 32
    pub cid_fits : obj.m_cid < 2 ^ 32

  -- The three words of an object.
  abbrev pub words_of : Osmobj → List Bytes
  words_of obj =
      (osm.item_type_to_char obj.m_type ∷ to_string_ℤ obj.m_id)
      ∷ (b'v' ∷ to_string obj.m_version)
      ∷ (b'c' ∷ to_string obj.m_cid)
      ∷ []

  -- The state behind the reading of an object.
  abbrev pub with_object : Osmobj → Todo → Todo
  with_object obj (objects, cucache) = (push_back obj objects, note_changeset obj.m_cid cucache)

  -- The state behind the reading of several objects, in order.
  abbrev pub with_objects : List Osmobj → Todo → Todo
  with_objects [] st = st
  with_objects (obj ∷ objs) st = with_objects objs (with_object obj st)

  module _ (known : IsOsm osm) where
    pub words_of-IsWord : (obj : Osmobj) → IsFit obj → All IsWord (words_of obj)
    words_of-IsWord obj h =
        let visible = known.char_visible obj.m_type h.of_object in
        (
          to_string_ℤ-IsWord (osm.item_type_to_char obj.m_type) obj.m_id visible.0 visible.1,
          (
            to_string-IsWord b'v' obj.m_version (omega arith) (omega arith),
            (to_string-IsWord b'c' obj.m_cid (omega arith) (omega arith), tt),
          ),
        )

    osmobj-words :
        (obj : Osmobj) (cucache : Option ChangesetUserLookup)
        → IsFit obj
        → osmobj osm
            (osm.item_type_to_char obj.m_type ∷ to_string_ℤ obj.m_id)
            (b'v' ∷ to_string obj.m_version)
            (b'c' ∷ to_string obj.m_cid)
            cucache
          ≡ ok (obj, note_changeset obj.m_cid cucache)
    unfolding osmobj
    osmobj-words obj cucache h =
        rw
          (
            to_string_ℤ_long (osm.item_type_to_char obj.m_type) obj.m_id,
            to_string_long b'v' obj.m_version,
            to_string_long b'c' obj.m_cid,
            known.reads_char obj.m_type h.of_object,
            h.of_object,
            strtoll-id obj.m_id h.id_fits,
            known.keeps_id obj.m_id h.id_fits,
            strtoll-number obj.m_version h.version_fits,
            known.keeps_version obj.m_version h.version_fits,
            strtoll-number obj.m_cid h.cid_fits,
            known.keeps_changeset obj.m_cid h.cid_fits,
          )
          refl

    -- The parts of an object's line.
    pub read_parts-object :
        (lsn xid : Bytes) (obj : Osmobj) (st : Todo)
        → IsFit obj
        → read_parts osm (lsn ∷ xid ∷ codes "N" ∷ words_of obj) st ≡ ok (with_object obj st)
    unfolding read_parts read_object add equal
    read_parts-object lsn xid obj (objects, cucache) h = rw (osmobj-words obj cucache h) refl

    -- A line whose words are separated by spaces is read as its words are.
    pub read_lines-join :
        (c : ℕ) (w : Bytes) (ws : List Bytes) (rest : Bytes) (st : Todo)
        → All IsWord ((c ∷ w) ∷ ws)
        → read_lines osm (lines (join b' ' (c ∷ w) ws ++ b'\n' ∷ rest)) st
          ≡ (read_parts osm ((c ∷ w) ∷ ws) st >>= read_lines osm (lines rest))
    unfolding read_lines
    read_lines-join c w ws rest st h =
        let (spaces, newlines) = All-Lacks ((c ∷ w) ∷ ws) h in
        ap (λ ls. read_lines osm ls st)
          (lines-line (join b' ' (c ∷ w) ws) rest
            (Lacks-join b'\n' b' ' (c ∷ w) ws (omega arith) newlines))
        ∙ ap (λ parts. read_parts osm parts st >>= read_lines osm (lines rest))
            (known.splits b' ' c w ws spaces)
