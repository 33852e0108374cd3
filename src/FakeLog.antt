-- ===== src/FakeLog.antt =====
-- The log files that `osmdbt-fake-log` writes from the rows of its queries
-- (src/osmdbt-fake-log.cpp). A set of ids and versions is a list; a file that is written is its
-- name and its content.
pub mod App
pub mod Reading
pub mod Selected
pub mod Files
use osmdbt_pgoutput.Base.{
  ℕ, Bool, true, false, not, ◌&&◌, ◌||◌, List, [], ◌∷◌, ◌++◌, ltb, ◌==◌, if◌then◌else◌, Bytes,
  codes,
}
use osmdbt_pgoutput.Base.Int.{ℤ, pos, ltb_ℤ, eq_ℤ}
use osmdbt_pgoutput.Cstd.{to_string, to_string_ℤ}
use osmdbt_pgoutput.Osmium.{ItemType, Objects}
use osmdbt_pgoutput.Osmobj.{Osmobj, Osmobjects}

pub record LogEntry : Type 0 where
  pub m_time : ℤ
  pub m_id : ℤ
  pub m_version : ℕ
  pub m_cid : ℕ
  pub m_type : ItemType

abbrev pub IdVersion : Type 0
IdVersion = ℤ × ℕ

-- `objects_done.count`.
unfoldable pub count : IdVersion → List IdVersion → Bool
count (id, version) [] = false
count (id, version) ((i, v) ∷ done) = (eq_ℤ i id && v == version) || count (id, version) done

-- A row of a query: time, id, version and changeset.
pub record Row : Type 0 where
  pub ts : ℤ
  pub id : ℤ
  pub version : ℕ
  pub changeset_id : ℕ

-- The loop of `read_objects` over the result.
unfoldable pub read_objects : List Row → List LogEntry → ItemType → List IdVersion → List LogEntry
unfolding count
read_objects [] entries type' objects_done = entries
read_objects (row ∷ rows) entries type' objects_done =
    read_objects rows
      (if not (count (row.id, row.version) objects_done)
        then entries
          ++ (record {
            m_time = row.ts;
            m_id = row.id;
            m_version = row.version;
            m_cid = row.changeset_id;
            m_type = type';
          })
            ∷ []
        else entries)
      type' objects_done

-- The variables of the loop over the entries, and the files written.
pub record Writing : Type 0 where
  pub last : ℤ
  pub file_name : Bytes
  pub data' : Bytes
  pub written : List (Bytes × Bytes)

abbrev pub nothing_written : Writing
nothing_written = record { last = pos 0; file_name = []; data' = []; written = [] }

module _ (osm : Objects) where
  -- What `append_to` adds.
  abbrev pub line : LogEntry → Bytes
  line entry =
      codes "0/0 0 N "
      ++ (osm.item_type_to_char entry.m_type
          ∷ (to_string_ℤ entry.m_id
              ++ (codes " v"
                  ++ (to_string entry.m_version
                      ++ (codes " c" ++ (to_string entry.m_cid ++ b'\n' ∷ []))))))

  unfoldable pub append_to : LogEntry → Bytes → Bytes
  append_to entry data' = data' ++ line entry

module _ (osm : Objects) (name_of : ℤ → Bytes) where
  -- One round; `name_of` is `create_replication_log_name` of a time.
  unfoldable pub write_entry : LogEntry → Writing → Writing
  unfolding append_to
  write_entry entry st =
      if eq_ℤ st.last entry.m_time
      then record st { data' = append_to osm entry st.data' }
      else (if eq_ℤ st.last (pos 0)
          then record st {
            last = entry.m_time;
            file_name = name_of entry.m_time;
            data' = append_to osm entry st.data';
          }
          else record {
            last = entry.m_time;
            file_name = name_of entry.m_time;
            data' = append_to osm entry [];
            written = st.written ++ (st.file_name, st.data') ∷ [];
          })

  unfoldable pub write_entries : List LogEntry → Writing → Writing
  unfolding write_entry
  write_entries [] st = record st { written = st.written ++ (st.file_name, st.data') ∷ [] }
  write_entries (entry ∷ entries) st = write_entries entries (write_entry entry st)
