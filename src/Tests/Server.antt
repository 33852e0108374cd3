-- ===== src/Tests/Server.antt =====
-- A server whose state is its two catalogs, and replication on it.
use osmdbt_pgoutput.Base.{
  ℕ, Bool, true, false, ◌&&◌, ◌||◌, Option, none, some, List, [], ◌∷◌, ◌++◌, ◌≡◌, ◌⊎◌, inl, inr,
  refl, ap, arith, leb, ◌==◌, if◌then◌else◌, Bytes, codes, equal, Bool-cases,
}
use osmdbt_pgoutput.Base.Result.{ok}
use osmdbt_pgoutput.Config.{defaults}
use osmdbt_pgoutput.Db.{get_db_version}
use osmdbt_pgoutput.Db.Server.{
  Catalog, with_publication, with_slot, Rows, Server, IsServer, IsAble, is_plain,
  create_publication, create_slot, drop_slot,
}
use osmdbt_pgoutput.Replication.{enable, disable}
use osmdbt_pgoutput.Replication.Outcomes.{enabled, Enabling}
use osmdbt_pgoutput.Replication.Setup.{enable_lem, disable-enable}
use osmdbt_pgoutput.Posix.Ends.{Ending}

abbrev World : Type 0
World = Catalog × Catalog

-- What follows a prefix.
abbrev strip : Bytes → Bytes → Option Bytes
strip [] s = some s
strip (p ∷ ps) [] = none
strip (p ∷ ps) (c ∷ s) = let rest = strip ps s in if p == c then rest else none

abbrev is_letter : ℕ → Bool
is_letter c = (leb b'a' c && leb c b'z') || (leb b'0' c && leb c b'9') || c == b'_'

abbrev name_in : Bytes → Bytes
name_in [] = []
name_in (c ∷ s) = let rest = name_in s in if is_letter c then c ∷ rest else []

name_in-append :
    (name s : Bytes) (c : ℕ)
    → is_plain name ≡ true
    → is_letter c ≡ false
    → name_in (name ++ c ∷ s) ≡ name
name_in-append [] s c h stop = rw stop refl
name_in-append (d ∷ name) s c h stop =
    rw (name_in-append name s c (ground arith) stop) (ground arith)

abbrev done : World → Option Rows × World
done w = (some [], w)

abbrev created : Bytes → World → Option Rows × World
created name (c, p) =
    if p.publications name then (none, (c, p)) else done (c, with_publication name true p)

abbrev run_other : Option Bytes → World → Option Rows × World
run_other none w = (some ((codes "PostgreSQL 14.2" ∷ []) ∷ []), w)
run_other (some rest) (c, p) = done (c, with_publication (name_in rest) false p)

abbrev run_exec : Option Bytes → Bytes → World → Option Rows × World
run_exec (some rest) text w = created (name_in rest) w
run_exec none text w = run_other (strip (codes "DROP PUBLICATION IF EXISTS ") text) w

abbrev exec : Bytes → World → Option Rows × World
exec text w = run_exec (strip (codes "CREATE PUBLICATION ") text) text w

abbrev on_slot : Bool → Bytes → World → Option Rows × World
on_slot true name (c, p) =
    if p.slots name then (none, (c, p)) else done (with_slot name true c, with_slot name true p)
on_slot false name (c, p) =
    if p.slots name then done (with_slot name false c, with_slot name false p) else (none, (c, p))

abbrev exec_prepared : Bytes → List Bytes → World → Option Rows × World
exec_prepared text [] w = (none, w)
exec_prepared text (name ∷ _) w = on_slot (equal text create_slot) name w

abbrev server : Server
server = record {
  World = World;
  committed = λ w. w.0;
  pending = λ w. w.1;
  begin = λ w. (true, (w.0, w.0));
  exec = exec;
  exec_prepared = exec_prepared;
  commit = λ w. (true, (w.1, w.1));
  abort = λ w. (w.0, w.0);
}

run_create :
    (name : Bytes) (w : World)
    → is_plain name ≡ true
    → exec (create_publication name) w ≡ created name w
run_create name w h =
    ap (λ n. created n w)
      (name_in-append name (codes "FOR TABLE ONLY nodes, ways, relations;") b' ' h refl)

run_create_slot :
    (name : Bytes) (w : World) → exec_prepared create_slot (name ∷ []) w ≡ on_slot true name w
unfolding equal
run_create_slot name w = refl

run_drop_slot :
    (name : Bytes) (w : World) → exec_prepared drop_slot (name ∷ []) w ≡ on_slot false name w
unfolding equal
run_drop_slot name w = refl

created_lem :
    (name : Bytes) (w : World)
    → ((created name w).1.0 ≡ w.0)
      × ((rows : Rows)
          → (created name w).0 ≡ some rows
          → (created name w).1.1 ≡ with_publication name true w.1)
created_lem name w = elim (Bool-cases (w.1.publications name)) [
  | inl there ↦ rw there (refl, λ rows e. absurd (cc e))
  | inr free ↦ rw free (refl, λ rows e. refl)
]

-- What the calls for a slot may do to it.
abbrev Slotted : Bool → Bytes → World → Option Rows × World → Type 0
Slotted b name w r =
    ((r.1.0 ≡ w.0) ⊎ (r.1.0 ≡ with_slot name b w.0))
    × ((rows : Rows) → r.0 ≡ some rows → r.1.1 ≡ with_slot name b w.1)

on_slot-Slotted : (b : Bool) (name : Bytes) (w : World) → Slotted b name w (on_slot b name w)
on_slot-Slotted true name w = elim (Bool-cases (w.1.slots name)) [
  | inl there ↦ rw there (inl refl, λ rows e. absurd (cc e))
  | inr free ↦ rw free (inr refl, λ rows e. refl)
]
on_slot-Slotted false name w = elim (Bool-cases (w.1.slots name)) [
  | inl there ↦ rw there (inr refl, λ rows e. refl)
  | inr free ↦ rw free (inl refl, λ rows e. absurd (cc e))
]

server-IsServer : IsServer server
server-IsServer = record {
  begins = λ w. (refl, λ _. refl);
  selects = λ w. (refl, refl);
  publishes = λ name w h. rw (run_create name w h) (created_lem name w);
  withdraws = λ name w h.
      (refl, λ rows e. ap (λ n. with_publication n false w.1) (name_in-append name [] b';' h refl));
  creates_slot = λ name w. rw (run_create_slot name w) (on_slot-Slotted true name w);
  drops_slot = λ name w. rw (run_drop_slot name w) (on_slot-Slotted false name w);
  commits = λ w. (inr refl, λ _. refl);
  aborts = λ w. refl;
}

server-IsAble : IsAble ⊥ server
unfolding get_db_version equal
server-IsAble = record {
  begins = λ w. inl refl;
  commits = λ w. inl refl;
  selects = λ w. inl ((codes "PostgreSQL 14.2" ∷ []) ∷ [], refl, (codes "PostgreSQL 14.2", refl));
  publishes = λ name w h free. rw (run_create name w h) (rw free (inl ([], refl, tt)));
  withdraws = λ name w h. inl ([], refl, tt);
  creates_slot = λ name w free. rw (run_create_slot name w) (rw free (inl ([], refl, tt)));
  drops_slot = λ name w there. rw (run_drop_slot name w) (rw there (inl ([], refl, tt)));
}

abbrev nothing : Catalog
nothing = record { publications = λ _. false; slots = λ _. false }

enable_lem_example :
    Ending
      (λ b v. (b ≡ true) × (v.0 ≡ enabled defaults nothing))
      (λ v. Enabling defaults nothing v.0)
      (enable server defaults (nothing, nothing)).result
      (enable server defaults (nothing, nothing)).world
enable_lem_example = enable_lem server server-IsServer defaults refl (nothing, nothing)

disable-enable_example :
    ((enable server defaults (nothing, nothing)).result ≡ ok true)
    × ((disable server defaults (enable server defaults (nothing, nothing)).world).result ≡ ok true)
    × ((disable server defaults (enable server defaults (nothing, nothing)).world).world.0
        ≡ nothing)
disable-enable_example =
    disable-enable server server-IsServer defaults refl server-IsAble (nothing, nothing) refl refl
