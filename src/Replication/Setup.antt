-- ===== src/Replication/Setup.antt =====
-- The programs that enable and disable replication, and one after the other.
use osmdbt_pgoutput.Base.{
  ◌≡◌, refl, sym, ap, ◌∙◌, inl, inr, Bool, true, false, Bytes, equal, equal_iff, equal_refl,
  Bool-cases, arith,
}
use mathlib.Core.Path.{fun_ext}
use osmdbt_pgoutput.Base.Result.{Result, ok, throws, fault}
use osmdbt_pgoutput.Posix.Ends.{Ending}
use osmdbt_pgoutput.Config.{Config}
use osmdbt_pgoutput.Db.Server.{Catalog, put, Server, IsServer, IsAble, any-IsAble, is_plain}
use osmdbt_pgoutput.Replication.{enable, disable}
use osmdbt_pgoutput.Replication.Outcomes.{
  enabled, disabled, Enabling, Disabling, Ends-enable, Ends-disable,
}

put-put :
    (name : Bytes) (b b' : Bool) (f : Bytes → Bool) → put name b (put name b' f) ≡ put name b f
put-put name b b' f = fun_ext (λ other. ground arith)

put-same : (name : Bytes) (b : Bool) (f : Bytes → Bool) → f name ≡ b → put name b f ≡ f
put-same name b f h = fun_ext (λ other. elim (Bool-cases (equal other name)) [
  | inl e ↦ rw e (sym h ∙ ap f (sym ((equal_iff other name).0 e)))
  | inr e ↦ rw e refl
])

Ending-weaken :
    {W A : Type 0} (Q : A → W → Type 0) (E E' : W → Type 0) (r : Result A) (w : W)
    → (E w → E' w)
    → Ending Q E r w
    → Ending Q E' r w
Ending-weaken Q E E' (ok a) w k h = h
Ending-weaken Q E E' (throws e) w k h = k h
Ending-weaken Q E E' fault w k h = h

-- Where no exception is possible, the program returns.
Ending-returns :
    {W : Type 0} (Q E : W → Type 0) (r : Result Bool) (w : W)
    → (E w → ⊥)
    → Ending (λ b v. (b ≡ true) × Q v) E r w
    → (r ≡ ok true) × Q w
Ending-returns Q E (ok b) w never h = (ap ok h.0, h.1)
Ending-returns Q E (throws e) w never h = absurd (never h)
Ending-returns Q E fault w never h = absurd h

module _ (sv : Server) (server : IsServer sv) (config : Config)
    (plain : is_plain config.m_publication ≡ true) where
  -- For a server that does what its laws say, and a publication whose name needs no quotes: if
  -- `osmdbt-enable-replication` returns, the database has the publication and the slot, and else is
  -- as before; if it ends with an exception, the database is as before, or has the publication only,
  -- or both. It does not end with the slot and without the publication.
  pub enable_lem :
      (w : sv.World)
      → Ending
          (λ b v. (b ≡ true) × (sv.committed v ≡ enabled config (sv.committed w)))
          (λ v. Enabling config (sv.committed w) (sv.committed v))
          (enable sv config w).result
          (enable sv config w).world
  enable_lem w =
      Ending-weaken _ (λ v. Unit {0} × Enabling config (sv.committed w) (sv.committed v)) _
        (enable sv config w).result (enable sv config w).world (λ h. h.1)
        ((Ends-enable Unit sv server config (any-IsAble sv) plain (sv.committed w) (inr tt)
            (inr tt)).at
          w refl)

  -- For a server that does what its laws say, and a publication whose name needs no quotes: if
  -- `osmdbt-disable-replication` returns, the slot and the publication are gone, and else the
  -- database is as before; if it ends with an exception, the database is as before, or the slot only
  -- is gone, or both.
  pub disable_lem :
      (w : sv.World)
      → Ending
          (λ b v. (b ≡ true) × (sv.committed v ≡ disabled config (sv.committed w)))
          (λ v. Disabling config (sv.committed w) (sv.committed v))
          (disable sv config w).result
          (disable sv config w).world
  disable_lem w =
      Ending-weaken _ (λ v. Unit {0} × Disabling config (sv.committed w) (sv.committed v)) _
        (disable sv config w).result (disable sv config w).world (λ h. h.1)
        ((Ends-disable Unit sv server config (any-IsAble sv) plain (sv.committed w) (inr tt)).at w
          refl)

  back :
      (c : Catalog)
      → c.publications config.m_publication ≡ false
      → c.slots config.m_replication_slot ≡ false
      → disabled config (enabled config c) ≡ c
  back c h k =
      rw
        (
          put-put config.m_publication false true c.publications,
          put-same config.m_publication false c.publications h,
          put-put config.m_replication_slot false true c.slots,
          put-same config.m_replication_slot false c.slots k,
        )
        refl

  -- For a server that does what its laws say and whose calls succeed where they can, and a
  -- publication whose name needs no quotes: if there is neither the publication nor the slot,
  -- `osmdbt-enable-replication` returns true, and `osmdbt-disable-replication` behind it returns true
  -- too, and then the database has the publications and slots that it had before.
  pub disable-enable :
      IsAble ⊥ sv
      → (w : sv.World) → (sv.committed w).publications config.m_publication ≡ false
      → (sv.committed w).slots config.m_replication_slot ≡ false
      → ((enable sv config w).result ≡ ok true)
        × ((disable sv config (enable sv config w).world).result ≡ ok true)
        × (sv.committed (disable sv config (enable sv config w).world).world ≡ sv.committed w)
  disable-enable able w no_publication no_slot =
      let v = (enable sv config w).world in
      let (on, is_on) =
        Ending-returns (λ v. sv.committed v ≡ enabled config (sv.committed w)) _
          (enable sv config w).result v (λ h. h.0)
          ((Ends-enable ⊥ sv server config able plain (sv.committed w) (inl no_publication)
              (inl no_slot)).at
            w refl) in
      let (off, is_off) =
        Ending-returns (λ u. sv.committed u ≡ disabled config (sv.committed v)) _
          (disable sv config v).result (disable sv config v).world (λ h. h.0)
          ((Ends-disable ⊥ sv server config able plain (sv.committed v)
              (inl (rw (is_on, equal_refl config.m_replication_slot) refl))).at
            v refl) in
      (on, off, is_off ∙ ap (disabled config) is_on ∙ back (sv.committed w) no_publication no_slot)
