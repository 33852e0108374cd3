-- ===== src/TestDb/Report.antt =====
-- The parts of the report of `osmdbt-testdb` (src/osmdbt-testdb.cpp): its texts, and that the parts of
-- the program write them.
use osmdbt_pgoutput.Base.{
  ℕ, zero, suc, ◌≡◌, refl, sym, ◌∙◌, Bool, true, false, not, ◌||◌, List, [], ◌∷◌, ◌++◌, map, length,
  ◌/◌, if◌then◌else◌, Bytes, codes, equal, take, arith,
}
use osmdbt_pgoutput.Base.Result.{Result, ok}
use osmdbt_pgoutput.Cstd.{to_string}
use osmdbt_pgoutput.Posix.Program.{Program, pure, lift, after, ◌>>=◌, ◌>>◌}
use osmdbt_pgoutput.Config.{Config}
use osmdbt_pgoutput.Db.{get_db_version, get_db_major_version}
use osmdbt_pgoutput.Db.Server.{Rows, version_query}
use osmdbt_pgoutput.TestDb.{
  Answers, VerboseOutput, put, say, single, peek, peek_query, schema_query, print_config,
  print_slots, print_number, print_changes, print_replication, print_version, print_schema,
}

-- A replication slot, and the row that the database gives for it.
pub record Slot : Type 0 where
  pub name : Bytes
  pub database : Bytes
  pub confirmed : Bytes

abbrev pub row_of : Slot → List Bytes
row_of slot = slot.name ∷ slot.database ∷ slot.confirmed ∷ []

abbrev pub slot_texts : List Slot → List Bytes
slot_texts [] = []
slot_texts (slot ∷ slots) =
    codes "  name="
    ∷ slot.name
    ∷ codes " db="
    ∷ slot.database
    ∷ codes " lsn="
    ∷ slot.confirmed
    ∷ codes "\n"
    ∷ slot_texts slots

-- The slot of this name is among the slots.
abbrev pub is_there : Bytes → List Slot → Bool
is_there slot [] = false
is_there slot (s ∷ slots) = equal slot s.name || is_there slot slots

-- The number of changes that wait in a slot.
abbrev pub number_texts : ℕ → List Bytes
number_texts zero =
    codes "There are no" ∷ codes " changes in your configured replication slot.\n" ∷ []
number_texts (suc n) =
    codes "There are "
    ∷ to_string (suc n)
    ∷ codes " changes in your configured replication slot.\n"
    ∷ []

abbrev pub changes_texts : Bool → Rows → List Bytes
changes_texts there peeked =
    if there
    then number_texts (length peeked)
    else codes "Your configured replication slot is not active!\n" ∷ []

abbrev pub replication_texts : Bytes → List Slot → Rows → List Bytes
replication_texts slot [] peeked = codes "Replication not enabled\n" ∷ []
replication_texts slot (s ∷ slots) peeked =
    codes "Active replication slots:\n"
    ∷ (slot_texts (s ∷ slots) ++ changes_texts (is_there slot (s ∷ slots)) peeked)

abbrev pub setting_texts : Bytes → Bytes → List Bytes
setting_texts setting value = codes "  " ∷ setting ∷ codes "=" ∷ value ∷ codes "\n" ∷ []

abbrev pub version_texts : ℕ → Bytes → List Bytes
version_texts number version =
    codes "Database version: "
    ∷ to_string (number / 10000)
    ∷ codes " ["
    ∷ version
    ∷ codes "]\n"
    ∷ []

abbrev pub schema_texts : Bytes → List Bytes
schema_texts value = codes "Schema version: " ∷ value ∷ codes "\n" ∷ []

or_false : (b : Bool) → (b || false) ≡ b
or_false b = ground arith

or_if : (has here rest : Bool) → ((if here then true else has) || rest) ≡ (has || (here || rest))
or_if has here rest = ground arith

put-append :
    (out : VerboseOutput) (verbose : Bool) (texts others : List Bytes) (w : out.Written)
    → put out verbose (texts ++ others) w ≡ put out verbose others (put out verbose texts w)
put-append out verbose [] others w = refl
put-append out verbose (text ∷ texts) others w =
    put-append out verbose texts others (out.output verbose text w)

module _ (out : VerboseOutput) (quiet : Bool) where
  -- The program returns the value, and writes the texts.
  pub record Says {A : Type 0} (m : Program out.Written A) (texts : List Bytes) (a : A)
      : Type 0 where
    pub at : (w : out.Written) → ((m w).result ≡ ok a) × ((m w).world ≡ put out (not quiet) texts w)

  pub Says-say : (texts : List Bytes) → Says (say out quiet texts) texts tt
  Says-say texts = record { at = λ w. (refl, refl) }

  pub Says-lift : {A : Type 0} {a : A} {r : Result A} → r ≡ ok a → Says (lift r) [] a
  Says-lift e = record { at = λ w. (e, refl) }

  pub Says-pure : {A : Type 0} (a : A) → Says (pure a) [] a
  Says-pure a = record { at = λ w. (refl, refl) }

  pub Says-bind :
      {A B : Type 0} {m : Program out.Written A} {texts others : List Bytes} {a : A} {b : B}
      (next : A → Program out.Written B)
      → Says m texts a
      → Says (next a) others b
      → Says (m >>= next) (texts ++ others) b
  Says-bind {m} {texts} {others} {a} {b} next h k = record { at = λ w. both w (h.at w) }
    where
      both :
          (w : out.Written)
          → ((m w).result ≡ ok a) × ((m w).world ≡ put out (not quiet) texts w)
          → ((after (m w).passed (m w).world (m w).result next).result ≡ ok b)
            × ((after (m w).passed (m w).world (m w).result next).world
                ≡ put out (not quiet) (texts ++ others) w)
      both w (e, f) =
          rw (e, f)
            (let (r, v) = k.at (put out (not quiet) texts w) in
              (r, v ∙ sym (put-append out (not quiet) texts others w)))

  pub Says-then :
      {B : Type 0} {m : Program out.Written (Unit {0})} {texts others : List Bytes} {b : B}
      (next : Program out.Written B)
      → Says m texts tt
      → Says next others b
      → Says (m >> next) (texts ++ others) b
  Says-then next h k = Says-bind (λ _. next) h k

-- What the database answers about the changes, if the configured slot is there.
abbrev pub PeekAnswers : Answers → Config → Bool → Rows → Type 0
PeekAnswers db config true peeked =
    (db.prepare peek peek_query ≡ ok tt)
    × (db.exec_prepared peek (config.m_replication_slot ∷ config.m_publication ∷ []) ≡ ok peeked)
PeekAnswers db config false peeked = Unit

module _ (out : VerboseOutput) (quiet : Bool) (db : Answers) (config : Config) where
  -- What the loop finds out about the configured slot, too.
  Says-slots :
      (slots : List Slot) (has_slot : Bool)
      → Says out quiet
          (print_slots out quiet db config (map row_of slots) has_slot)
          (slot_texts slots)
          (has_slot || is_there config.m_replication_slot slots)
  unfolding print_slots
  Says-slots [] has_slot = rw (or_false has_slot) (Says-pure out quiet has_slot)
  Says-slots (s ∷ slots) has_slot =
      let here = equal config.m_replication_slot s.name in
      rw⁻¹ (or_if has_slot here (is_there config.m_replication_slot slots)) (
        Says-bind out quiet
          (λ _.
            print_slots out quiet db config (map row_of slots) (if here then true else has_slot))
          (Says-say out quiet (slot_texts (s ∷ [])))
          (Says-slots slots (if here then true else has_slot)))

  Says-number :
      (peeked : Rows)
      → Says out quiet
          (print_number out quiet peeked
            >> say out quiet (codes " changes in your configured replication slot.\n" ∷ []))
          (number_texts (length peeked))
          tt
  unfolding print_number
  Says-number [] =
      Says-then out quiet
        (say out quiet (codes " changes in your configured replication slot.\n" ∷ []))
        (Says-say out quiet (codes "There are no" ∷ []))
        (Says-say out quiet (codes " changes in your configured replication slot.\n" ∷ []))
  Says-number (row ∷ rows) =
      Says-then out quiet
        (say out quiet (codes " changes in your configured replication slot.\n" ∷ []))
        (Says-say out quiet (codes "There are " ∷ to_string (length (row ∷ rows)) ∷ []))
        (Says-say out quiet (codes " changes in your configured replication slot.\n" ∷ []))

  Says-changes :
      (there : Bool) (peeked : Rows)
      → PeekAnswers db config there peeked
      → Says out quiet (print_changes out quiet db config there) (changes_texts there peeked) tt
  unfolding print_changes
  Says-changes true peeked (prepared, executed) = rw (prepared, executed) (Says-number peeked)
  Says-changes false peeked h =
      Says-say out quiet (codes "Your configured replication slot is not active!\n" ∷ [])

  pub Says-replication :
      (slots : List Slot) (peeked : Rows)
      → PeekAnswers db config (is_there config.m_replication_slot slots) peeked
      → Says out quiet
          (print_replication out quiet db config (map row_of slots))
          (replication_texts config.m_replication_slot slots peeked)
          tt
  unfolding print_replication
  Says-replication [] peeked h = Says-say out quiet (codes "Replication not enabled\n" ∷ [])
  Says-replication (s ∷ slots) peeked h =
      Says-then out quiet
        (print_slots out quiet db config (map row_of (s ∷ slots)) false
          >>= print_changes out quiet db config)
        (Says-say out quiet (codes "Active replication slots:\n" ∷ []))
        (Says-bind out quiet (print_changes out quiet db config) (Says-slots (s ∷ slots) false)
          (Says-changes (is_there config.m_replication_slot (s ∷ slots)) peeked h))

  pub Says-config :
      (setting value : Bytes)
      → db.exec (codes "SHOW " ++ setting) ≡ ok ((value ∷ []) ∷ [])
      → Says out quiet (print_config out quiet db config setting) (setting_texts setting value) tt
  unfolding print_config single
  Says-config setting value h = rw h (Says-say out quiet (setting_texts setting value))

  pub Says-version :
      (number_text : Bytes) (number : ℕ) (version : Bytes)
      → db.exec (codes "SHOW server_version_num;") ≡ ok ((number_text ∷ []) ∷ [])
      → db.as_int number_text ≡ ok number
      → db.exec version_query ≡ ok ((version ∷ []) ∷ [])
      → equal (take 10 version) (codes "PostgreSQL") ≡ true
      → Says out quiet (print_version out quiet db config) (version_texts number version) tt
  unfolding print_version get_db_major_version get_db_version
  Says-version number_text number version h i j k = record {
    at = λ w. rw (h, i, j, k) (refl, refl);
  }

  pub Says-schema :
      (value : Bytes)
      → db.exec schema_query ≡ ok ((value ∷ []) ∷ [])
      → Says out quiet (print_schema out quiet db config) (schema_texts value) tt
  unfolding print_schema single
  Says-schema value h = rw h (Says-say out quiet (schema_texts value))
