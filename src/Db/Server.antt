-- ===== src/Db/Server.antt =====
-- What the programs that set up replication take from libpqxx and PostgreSQL: an interface over an
-- unknown state of the machine, with the documented behaviour of its calls as laws.
use osmdbt_pgoutput.Base.{
  Bool, true, false, ◌&&◌, ◌||◌, Option, none, some, List, [], ◌∷◌, ◌++◌, ◌≡◌, ◌⊎◌, inr, map, leb,
  ◌==◌, if◌then◌else◌, Bytes, codes, equal,
}
use osmdbt_pgoutput.Base.Result.{Result, ok, throws, fault, runtime_error}
use osmdbt_pgoutput.Db.{get_db_version}
use osmdbt_pgoutput.Posix.Program.{Outcome, Program, pure, call, raise, attempt, ◌>>=◌, ◌>>◌}

-- The publications and the replication slots, each by its name.
pub record Catalog : Type 0 where
  pub publications : Bytes → Bool
  pub slots : Bytes → Bool

abbrev pub put : Bytes → Bool → (Bytes → Bool) → Bytes → Bool
put name b f other = if equal other name then b else f other

abbrev pub with_publication : Bytes → Bool → Catalog → Catalog
with_publication name b c = record c { publications = put name b c.publications }

abbrev pub with_slot : Bytes → Bool → Catalog → Catalog
with_slot name b c = record c { slots = put name b c.slots }

-- A result: its rows, each the texts of its columns.
abbrev pub Rows : Type 0
Rows = List (List Bytes)

-- The constructor of a transaction, `exec`, `prepare` with `exec_prepared`, `commit`, and the
-- destructor of a transaction that is not committed. No rows, or `false`, is an exception. What the
-- database keeps, and what the transaction that is open has made of it.
pub record Server : Type 1 where
  pub World : Type 0
  pub committed : World → Catalog
  pub pending : World → Catalog
  pub begin : World → Bool × World
  pub exec : Bytes → World → Option Rows × World
  pub exec_prepared : Bytes → List Bytes → World → Option Rows × World
  pub commit : World → Bool × World
  pub abort : World → World

-- A name that needs no quotes: small letters, digits and `_`.
abbrev pub is_plain : Bytes → Bool
is_plain [] = true
is_plain (c ∷ s) =
    ((leb b'a' c && leb c b'z') || (leb b'0' c && leb c b'9') || c == b'_') && is_plain s

abbrev pub version_query : Bytes
version_query = codes "SELECT * FROM version();"

abbrev pub create_publication : Bytes → Bytes
create_publication publication =
    codes "CREATE PUBLICATION " ++ (publication ++ codes " FOR TABLE ONLY nodes, ways, relations;")

abbrev pub drop_publication : Bytes → Bytes
drop_publication publication = codes "DROP PUBLICATION IF EXISTS " ++ (publication ++ codes ";")

abbrev pub create_slot : Bytes
create_slot = codes "SELECT * FROM pg_create_logical_replication_slot($1, 'pgoutput');"

abbrev pub drop_slot : Bytes
drop_slot = codes "SELECT * FROM pg_drop_replication_slot($1);"

-- A transaction keeps what it does to publications to itself until it is committed; a replication
-- slot may be there, or gone, before that. A commit that fails may have been done or not.
pub record IsServer (sv : Server) : Type 0 where
  pub begins :
      (w : sv.World)
      → (sv.committed (sv.begin w).1 ≡ sv.committed w)
        × ((sv.begin w).0 ≡ true → sv.pending (sv.begin w).1 ≡ sv.committed w)
  pub selects :
      (w : sv.World)
      → (sv.committed (sv.exec version_query w).1 ≡ sv.committed w)
        × (sv.pending (sv.exec version_query w).1 ≡ sv.pending w)
  pub publishes :
      (name : Bytes) (w : sv.World)
      → is_plain name ≡ true
      → (sv.committed (sv.exec (create_publication name) w).1 ≡ sv.committed w)
        × ((rows : Rows)
            → (sv.exec (create_publication name) w).0 ≡ some rows
            → sv.pending (sv.exec (create_publication name) w).1
              ≡ with_publication name true (sv.pending w))
  pub withdraws :
      (name : Bytes) (w : sv.World)
      → is_plain name ≡ true
      → (sv.committed (sv.exec (drop_publication name) w).1 ≡ sv.committed w)
        × ((rows : Rows)
            → (sv.exec (drop_publication name) w).0 ≡ some rows
            → sv.pending (sv.exec (drop_publication name) w).1
              ≡ with_publication name false (sv.pending w))
  pub creates_slot :
      (name : Bytes) (w : sv.World)
      → ((sv.committed (sv.exec_prepared create_slot (name ∷ []) w).1 ≡ sv.committed w)
          ⊎ (sv.committed (sv.exec_prepared create_slot (name ∷ []) w).1
              ≡ with_slot name true (sv.committed w)))
        × ((rows : Rows)
            → (sv.exec_prepared create_slot (name ∷ []) w).0 ≡ some rows
            → sv.pending (sv.exec_prepared create_slot (name ∷ []) w).1
              ≡ with_slot name true (sv.pending w))
  pub drops_slot :
      (name : Bytes) (w : sv.World)
      → ((sv.committed (sv.exec_prepared drop_slot (name ∷ []) w).1 ≡ sv.committed w)
          ⊎ (sv.committed (sv.exec_prepared drop_slot (name ∷ []) w).1
              ≡ with_slot name false (sv.committed w)))
        × ((rows : Rows)
            → (sv.exec_prepared drop_slot (name ∷ []) w).0 ≡ some rows
            → sv.pending (sv.exec_prepared drop_slot (name ∷ []) w).1
              ≡ with_slot name false (sv.pending w))
  pub commits :
      (w : sv.World)
      → ((sv.committed (sv.commit w).1 ≡ sv.committed w)
          ⊎ (sv.committed (sv.commit w).1 ≡ sv.pending w))
        × ((sv.commit w).0 ≡ true → sv.committed (sv.commit w).1 ≡ sv.pending w)
  pub aborts : (w : sv.World) → sv.committed (sv.abort w) ≡ sv.committed w

-- `row[0].c_str()`.
abbrev pub first : List Bytes → Bytes
first [] = []
first (column ∷ _) = column

-- A server whose calls succeed where they can, if an exception means nothing (`Fail` is `⊥`); any
-- server, if exceptions may occur (`Fail` is `Unit`).
pub record IsAble (Fail : Type 0) (sv : Server) : Type 0 where
  pub begins : (w : sv.World) → ((sv.begin w).0 ≡ true) ⊎ Fail
  pub commits : (w : sv.World) → ((sv.commit w).0 ≡ true) ⊎ Fail
  pub selects :
      (w : sv.World)
      → ((rows : Rows) × ((sv.exec version_query w).0 ≡ some rows)
          × ((v : Bytes) × (get_db_version (map first rows) ≡ ok v)))
        ⊎ Fail
  pub publishes :
      (name : Bytes) (w : sv.World)
      → is_plain name ≡ true
      → (sv.pending w).publications name ≡ false
      → ((rows : Rows) × ((sv.exec (create_publication name) w).0 ≡ some rows) × Unit {0}) ⊎ Fail
  pub withdraws :
      (name : Bytes) (w : sv.World)
      → is_plain name ≡ true
      → ((rows : Rows) × ((sv.exec (drop_publication name) w).0 ≡ some rows) × Unit {0}) ⊎ Fail
  pub creates_slot :
      (name : Bytes) (w : sv.World)
      → (sv.pending w).slots name ≡ false
      → ((rows : Rows) × ((sv.exec_prepared create_slot (name ∷ []) w).0 ≡ some rows) × Unit {0})
        ⊎ Fail
  pub drops_slot :
      (name : Bytes) (w : sv.World)
      → (sv.pending w).slots name ≡ true
      → ((rows : Rows) × ((sv.exec_prepared drop_slot (name ∷ []) w).0 ≡ some rows) × Unit {0})
        ⊎ Fail

pub any-IsAble : (sv : Server) → IsAble Unit sv
any-IsAble sv = record {
  begins = λ w. inr tt;
  commits = λ w. inr tt;
  selects = λ w. inr tt;
  publishes = λ name w plain free. inr tt;
  withdraws = λ name w plain. inr tt;
  creates_slot = λ name w free. inr tt;
  drops_slot = λ name w there. inr tt;
}

module _ {W : Type 0} where
  -- A call whose failure is an exception of libpqxx.
  abbrev pub received : Option Rows → Program W Rows
  received none = raise (runtime_error [])
  received (some rows) = pure rows

  abbrev pub query : (W → Option Rows × W) → Program W Rows
  query f = call f >>= received

  abbrev pub undone : {A : Type 0} → (W → W) → List W → W → Result A → Outcome W A
  undone destroy passed world (ok a) = record { passed = passed; world = world; result = ok a }
  undone destroy passed world (throws e) = record {
    passed = passed ++ destroy world ∷ [];
    world = destroy world;
    result = throws e;
  }
  undone destroy passed world fault = record { passed = passed; world = world; result = fault }

  -- After an exception only, the destructor.
  abbrev pub unwind : {A : Type 0} → (W → W) → Program W A → Program W A
  unwind destroy m w = undone destroy (m w).passed (m w).world (m w).result

module _ (sv : Server) where
  -- A block with a transaction that it commits at its end.
  abbrev pub transaction : Program sv.World (Unit {0}) → Program sv.World (Unit {0})
  transaction body =
      attempt sv.begin (runtime_error [])
      >> unwind sv.abort (body >> attempt sv.commit (runtime_error []))
