-- ===== src/Replication/Catalogs.antt =====
-- What the programs that enable and disable replication leave in the database, however they end.
use osmdbt_pgoutput.Base.{
  ◌≡◌, ◌≢◌, refl, ◌∙◌, ◌⊎◌, inl, inr, Bool, true, false, Option, none, some, List, [], ◌∷◌, map,
  Bytes, arith,
}
use osmdbt_pgoutput.Base.Result.{Result, ok, throws, fault, Exception, runtime_error}
use osmdbt_pgoutput.Posix.Program.{Program}
use osmdbt_pgoutput.Posix.Ends.{
  Ending, Ends, Ends-pure, Ends-lift, Ends-call, Ends-bind, Ends-attempt,
}
use osmdbt_pgoutput.Config.{Config}
use osmdbt_pgoutput.Db.{get_db_version}
use osmdbt_pgoutput.Db.Server.{
  Catalog, Rows, Server, IsServer, IsAble, first, received, query, unwind, undone, transaction,
  version_query,
}
use osmdbt_pgoutput.Replication.{show_version}

module _ {W : Type 0} {E : W → Type 0} where
  Ends-received :
      {Q : Rows → W → Type 0} (result : Option Rows)
      → Ends
          (λ w. (result ≡ none → E w) × ((rows : Rows) → result ≡ some rows → Q rows w))
          (received result)
          Q
          E
  Ends-received none = record { at = λ w h. h.0 refl }
  Ends-received (some rows) = record { at = λ w h. h.1 rows refl }

  pub Ends-query :
      {P : W → Type 0} {Q : Rows → W → Type 0} (f : W → Option Rows × W)
      → ((w : W) → P w → (f w).0 ≡ none → E (f w).1)
      → ((w : W) → P w → (rows : Rows) → (f w).0 ≡ some rows → Q rows (f w).1)
      → Ends P (query f) Q E
  Ends-query {Q} f failed done =
      Ends-bind
        (λ result w. (result ≡ none → E w) × ((rows : Rows) → result ≡ some rows → Q rows w))
        (Ends-call f (λ w p. (failed w p, done w p))) Ends-received

  Ending-undone :
      {A : Type 0} (Q : A → W → Type 0) (destroy : W → W) (passed : List W) (world : W)
      (r : Result A)
      → ((w : W) → E w → E (destroy w))
      → Ending Q E r world
      → Ending Q E (undone destroy passed world r).result (undone destroy passed world r).world
  Ending-undone Q destroy passed world (ok a) keeps h = h
  Ending-undone Q destroy passed world (throws e) keeps h = keeps world h
  Ending-undone Q destroy passed world fault keeps h = h

  Ends-unwind :
      {A : Type 0} {P : W → Type 0} {Q : A → W → Type 0} {m : Program W A} (destroy : W → W)
      → ((w : W) → E w → E (destroy w))
      → Ends P m Q E
      → Ends P (unwind destroy m) Q E
  Ends-unwind {Q} {m} destroy keeps h = record {
    at = λ w p. Ending-undone Q destroy (m w).passed (m w).world (m w).result keeps (h.at w p);
  }

get_db_version_ends :
    {W : Type 0} (P E : W → Type 0) (r : Result Bytes) (w : W)
    → r ≢ fault
    → P w
    → ((e : Exception) → r ≡ throws e → E w)
    → Ending (λ _. P) E r w
get_db_version_ends P E (ok v) w faultless p h = p
get_db_version_ends P E (throws e) w faultless p h = h e refl
get_db_version_ends P E fault w faultless p h = absurd (faultless refl)

get_db_version_faultless : (rows : List Bytes) → get_db_version rows ≢ fault
unfolding get_db_version
get_db_version_faultless [] e = cc
get_db_version_faultless (version ∷ []) e = ground arith
get_db_version_faultless (_ ∷ _ ∷ _) e = cc

-- A call that does not fail where nothing may.
pub fails : {Fail : Type 0} {b : Bool} → (b ≡ true) ⊎ Fail → b ≡ false → Fail
fails (inl yes') bad = absurd (cc (yes', bad))
fails (inr fail) bad = fail

-- What is given unless something may fail.
pub given : {Fail A B : Type 0} → A ⊎ Fail → (A → B ⊎ Fail) → B ⊎ Fail
given (inl a) f = f a
given (inr fail) f = inr fail

pub missing :
    {Fail : Type 0} {P : Rows → Type 0} {o : Option Rows}
    → ((rows : Rows) × (o ≡ some rows) × P rows) ⊎ Fail
    → o ≡ none
    → Fail
missing (inl (rows, there, _)) bad = absurd (cc (there, bad))
missing (inr fail) bad = fail

wrong :
    {Fail : Type 0} {o : Option Rows} {rows : Rows} {e : Exception}
    → ((rows : Rows) × (o ≡ some rows) × ((v : Bytes) × (get_db_version (map first rows) ≡ ok v)))
      ⊎ Fail
    → o ≡ some rows
    → get_db_version (map first rows) ≡ throws e
    → Fail
wrong {rows} (inl (rows', there, (v, right))) got bad =
    let same : rows' ≡ rows = cc (there, got) in absurd (cc (same, right, bad))
wrong (inr fail) got bad = fail

-- The database is as before, or half or wholly as after the run.
abbrev pub Between : Catalog → Catalog → Catalog → Catalog → Type 0
Between c0 c1 c2 c = (c ≡ c0) ⊎ ((c ≡ c1) ⊎ (c ≡ c2))

-- The transaction sees the one catalog, and the database has the other.
abbrev pub Seen : (sv : Server) → Catalog → Catalog → sv.World → Type 0
Seen sv p c w = (sv.pending w ≡ p) × (sv.committed w ≡ c)

module _ (Fail : Type 0) (sv : Server) (server : IsServer sv) (config : Config)
    (able : IsAble Fail sv) (c0 c1 c2 : Catalog) where
  -- An exception, and where it leaves the database.
  abbrev Stopped : sv.World → Type 0
  Stopped w = Fail × Between c0 c1 c2 (sv.committed w)

  pub Ends-transaction :
      (before after' : Catalog) (body : Program sv.World (Unit {0}))
      → Between c0 c1 c2 before
      → Between c0 c1 c2 after'
      → Ends
          (Seen sv before before)
          body
          (λ _ w. (sv.pending w ≡ after') × Between c0 c1 c2 (sv.committed w))
          Stopped
      → Ends
          (λ w. sv.committed w ≡ before)
          (transaction sv body)
          (λ _ w. sv.committed w ≡ after')
          Stopped
  Ends-transaction before after' body b a h =
      Ends-bind (λ _. Seen sv before before)
        (Ends-attempt sv.begin (runtime_error [])
          (λ w e bad. (fails (able.begins w) bad, rw ((server.begins w).0, e) b))
          (λ w e started. let (same, seen) = server.begins w in (seen started ∙ e, same ∙ e)))
        (λ _.
          Ends-unwind sv.abort (λ w (fail, p). (fail, rw (server.aborts w) p))
            (Ends-bind (λ _ w. (sv.pending w ≡ after') × Between c0 c1 c2 (sv.committed w)) h
              (λ _.
                Ends-attempt sv.commit (runtime_error [])
                  (λ w (seen, p) bad. (
                    fails (able.commits w) bad,
                    elim (server.commits w).0 [
                      | inl same ↦ rw same p
                      | inr taken ↦ rw (taken, seen) a
                    ],
                  ))
                  (λ w (seen, p) done. (server.commits w).1 done ∙ seen))))

  pub Ends-show_version :
      (c : Catalog)
      → Between c0 c1 c2 c
      → Ends (Seen sv c c) (show_version sv) (λ _. Seen sv c c) Stopped
  unfolding show_version
  Ends-show_version c b =
      Ends-bind
        (λ rows w.
          Seen sv c c w
          × ((e : Exception) → get_db_version (map first rows) ≡ throws e → Stopped w))
        (Ends-query (sv.exec version_query)
          (λ w (p, same) bad. (missing (able.selects w) bad, at_c w same))
          (λ w (p, same) rows got. (
            ((server.selects w).1 ∙ p, (server.selects w).0 ∙ same),
            λ e bad. (wrong (able.selects w) got bad, at_c w same),
          )))
        (λ rows.
          Ends-bind (λ _. Seen sv c c)
            (Ends-lift (get_db_version (map first rows)) (λ w h.
              get_db_version_ends (Seen sv c c) Stopped (get_db_version (map first rows)) w
                (get_db_version_faultless (map first rows)) h.0 h.1))
            (λ _. Ends-pure tt (λ w h. h)))
    where
      at_c :
          (w : sv.World)
          → sv.committed w ≡ c
          → Between c0 c1 c2 (sv.committed (sv.exec version_query w).1)
      at_c w same = rw ((server.selects w).0, same) b
