-- ===== src/GetLog/Reading.antt =====
-- The reading by `read_log` (src/osmobj.cpp) of the log that `osmdbt-get-log` makes
-- (src/osmdbt-get-log.cpp).
use osmdbt_pgoutput.Base.{
  ◌≡◌, ◌≢◌, refl, ap, ◌∙◌, Bool, true, false, some, List, [], ◌∷◌, ◌++◌, append_assoc, arith, Bytes,
  codes, All, equal,
}
use osmdbt_pgoutput.Base.Result.{ok, ◌>>=◌}
use osmdbt_pgoutput.Cstd.{lines, to_string, to_string_ℤ}
use osmdbt_pgoutput.Osmium.{Objects, IsOsm, join}
use osmdbt_pgoutput.Osmobj.{Osmobj, Todo, read_parts, read_lines, read_log}
use osmdbt_pgoutput.Osmobj.Reading.{
  IsWord, IsFit, words_of, words_of-IsWord, with_object, with_objects, read_parts-object,
  read_lines-join,
}
use osmdbt_pgoutput.Pgoutput.{Parser, new_parser}
use osmdbt_pgoutput.GetLog.{Row, Log, line, process_rows, empty_log}
use osmdbt_pgoutput.GetLog.Events.{
  Event, begins, commits, skipped, inserts, updates, decode_rows, log_text, log_of,
  process_rows_lem,
}

-- The LSN and the transaction of a row have no space and no newline.
pub record IsNamed (row : Row) : Type 0 where
  pub lsn_there : row.lsn ≢ []
  pub lsn_word : IsWord row.lsn
  pub xid_word : IsWord row.xid

-- The text of an update: words behind the letter of its kind.
abbrev pub IsUpdate : Bytes → Type 0
IsUpdate m = (ws : List Bytes) × (m ≡ join b' ' (codes "R") ws) × All IsWord ws

module _ (osm : Objects) where
  -- The text of the insertion of an object.
  abbrev pub inserted : Osmobj → Bytes
  inserted obj =
      codes "N "
      ++ (osm.item_type_to_char obj.m_type
          ∷ (to_string_ℤ obj.m_id
              ++ (codes " v" ++ (to_string obj.m_version ++ (codes " c" ++ to_string obj.m_cid)))))

  -- The events insert these objects, in this order, and the rows that make a line are named.
  abbrev pub Tells : List (Row × Event) → List Osmobj → Type 0
  Tells [] [] = Unit
  Tells [] (obj ∷ objs) = ⊥
  Tells ((row, begins) ∷ es) objs = Tells es objs
  Tells ((row, skipped) ∷ es) objs = Tells es objs
  Tells ((row, commits) ∷ es) objs = IsNamed row × Tells es objs
  Tells ((row, updates m) ∷ es) objs = IsNamed row × IsUpdate m × Tells es objs
  Tells ((row, inserts m) ∷ es) [] = ⊥
  Tells ((row, inserts m) ∷ es) (obj ∷ objs) =
      IsNamed row × IsFit osm obj × (m ≡ inserted obj) × Tells es objs

  module _ (known : IsOsm osm) where
    -- A line of the log, by the words of its message.
    line-join :
        (row : Row) (m w : Bytes) (ws : List Bytes) (rest : Bytes)
        → m ≡ join b' ' w ws
        → line row m ++ rest ≡ join b' ' row.lsn (row.xid ∷ w ∷ ws) ++ b'\n' ∷ rest
    line-join row m w ws rest e = rw e (simp (append_assoc))

    read_lines-words :
        (lsn xid w : Bytes) (ws : List Bytes) (rest : Bytes) (st : Todo)
        → lsn ≢ []
        → IsWord lsn
        → IsWord xid
        → All IsWord (w ∷ ws)
        → read_lines osm (lines (join b' ' lsn (xid ∷ w ∷ ws) ++ b'\n' ∷ rest)) st
          ≡ (read_parts osm (lsn ∷ xid ∷ w ∷ ws) st >>= read_lines osm (lines rest))
    read_lines-words [] xid w ws rest st there l x h = absurd (there refl)
    read_lines-words (c ∷ lsn) xid w ws rest st there l x h =
        read_lines-join osm known c lsn (xid ∷ w ∷ ws) rest st (l, (x, h))

    -- A line of the log is read as its words are.
    read_lines-line :
        (row : Row) (m w : Bytes) (ws : List Bytes) (rest : Bytes) (st : Todo)
        → IsNamed row
        → m ≡ join b' ' w ws
        → All IsWord (w ∷ ws)
        → read_lines osm (lines (line row m ++ rest)) st
          ≡ (read_parts osm (row.lsn ∷ row.xid ∷ w ∷ ws) st >>= read_lines osm (lines rest))
    read_lines-line row m w ws rest st n e h =
        ap (λ text. read_lines osm (lines text) st) (line-join row m w ws rest e)
        ∙ read_lines-words row.lsn row.xid w ws rest st n.lsn_there n.lsn_word n.xid_word h

    letter-IsWord : IsWord (codes "N") × IsWord (codes "R") × IsWord (codes "C")
    letter-IsWord = (
      ((omega arith, tt), (omega arith, tt)),
      ((omega arith, tt), (omega arith, tt)),
      ((omega arith, tt), (omega arith, tt)),
    )

    inserted-join : (obj : Osmobj) → inserted obj ≡ join b' ' (codes "N") (words_of osm obj)
    inserted-join obj = refl

    read_lines-insert :
        (row : Row) (obj : Osmobj) (m rest : Bytes) (st : Todo)
        → IsNamed row
        → IsFit osm obj
        → m ≡ inserted obj
        → read_lines osm (lines (line row m ++ rest)) st
          ≡ read_lines osm (lines rest) (with_object osm obj st)
    read_lines-insert row obj m rest st n fit e =
        read_lines-line row m (codes "N") (words_of osm obj) rest st n (e ∙ inserted-join obj)
          (letter-IsWord.0, words_of-IsWord osm known obj fit)
        ∙ ap (λ r. r >>= read_lines osm (lines rest))
            (read_parts-object osm known row.lsn row.xid obj st fit)

    read_lines-update :
        (row : Row) (m rest : Bytes) (st : Todo)
        → IsNamed row
        → IsUpdate m
        → read_lines osm (lines (line row m ++ rest)) st ≡ read_lines osm (lines rest) st
    unfolding read_parts equal
    read_lines-update row m rest st n (ws, e, h) =
        read_lines-line row m (codes "R") ws rest st n e (letter-IsWord.1, h)

    read_lines-commit :
        (row : Row) (rest : Bytes) (st : Todo)
        → IsNamed row
        → read_lines osm (lines (line row (codes "C") ++ rest)) st ≡ read_lines osm (lines rest) st
    unfolding read_parts equal
    read_lines-commit row rest st n =
        read_lines-line row (codes "C") (codes "C") [] rest st n refl (letter-IsWord.2, tt)

    read_lines-log_text :
        (open' : Bool) (es : List (Row × Event)) (objs : List Osmobj) (st : Todo)
        → Tells es objs
        → read_lines osm (lines (log_text open' es)) st ≡ ok (with_objects osm objs st)
    unfolding read_lines lines
    read_lines-log_text open' [] [] st h = refl
    read_lines-log_text open' [] (obj ∷ objs) st h = absurd h
    read_lines-log_text open' ((row, begins) ∷ es) objs st h =
        read_lines-log_text false es objs st h
    read_lines-log_text open' ((row, skipped) ∷ es) objs st h =
        read_lines-log_text open' es objs st h
    read_lines-log_text false ((row, commits) ∷ es) objs st h =
        read_lines-log_text false es objs st h.1
    read_lines-log_text true ((row, commits) ∷ es) objs st h =
        read_lines-commit row (log_text false es) st h.0 ∙ read_lines-log_text false es objs st h.1
    read_lines-log_text open' ((row, updates m) ∷ es) objs st h =
        read_lines-update row m (log_text true es) st h.0 h.1
        ∙ read_lines-log_text true es objs st h.2
    read_lines-log_text open' ((row, inserts m) ∷ es) [] st h = absurd h
    read_lines-log_text open' ((row, inserts m) ∷ es) (obj ∷ objs) st h =
        read_lines-insert row obj m (log_text true es) st h.0 h.1 h.2
        ∙ read_lines-log_text true es objs (with_object osm obj st) h.3

    -- The log of the events is read.
    pub read_log-log_of :
        (dir_name file_name : Bytes) (es : List (Row × Event)) (p : Parser) (objs : List Osmobj)
        (st : Todo)
        → Tells es objs
        → read_log osm dir_name file_name (some (log_of empty_log es p).text) st
          ≡ ok (with_objects osm objs st)
    unfolding read_log
    read_log-log_of dir_name file_name es p objs st h = read_lines-log_text false es objs st h

    -- Where the functions of libosmium behave as documented: if the rows are decoded to events that
    -- insert these objects, whose numbers fit their types, and the rows have an LSN and a transaction
    -- without spaces and newlines, then the loop of `osmdbt-get-log` over the rows returns a log, and
    -- `read_log` of this log succeeds: it adds exactly these objects, in this order, with their
    -- changesets, to the state; the lines of updates and of the ends of transactions add nothing.
    pub read_log-process_rows :
        (dir_name file_name : Bytes) (rows : List Row) (es : List (Row × Event)) (p : Parser)
        (objs : List Osmobj) (st : Todo)
        → decode_rows rows new_parser ≡ ok (es, p)
        → Tells es objs
        → (log : Log) × (process_rows rows empty_log ≡ ok log)
          × (read_log osm dir_name file_name (some log.text) st ≡ ok (with_objects osm objs st))
    read_log-process_rows dir_name file_name rows es p objs st decoded h = (
      log_of empty_log es p,
      process_rows_lem rows empty_log ∙ ap (λ r. r >>= λ q. ok (log_of empty_log q.0 q.1)) decoded,
      read_log-log_of dir_name file_name es p objs st h,
    )
