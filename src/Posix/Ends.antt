-- ===== src/Posix/Ends.antt =====
-- Programs with what holds before them, after them, and after an exception. A fault is excluded.
use osmdbt_pgoutput.Base.{Bool, true, false, ◌≡◌, refl, List, if◌then◌else◌}
use osmdbt_pgoutput.Base.Result.{Result, ok, throws, fault, Exception}
use osmdbt_pgoutput.Posix.Program.{Program, pure, lift, call, after, raise, attempt, ◌>>=◌}

abbrev pub Ending : {W A : Type 0} → (A → W → Type 0) → (W → Type 0) → Result A → W → Type 0
Ending Q E (ok a) w = Q a w
Ending Q E (throws e) w = E w
Ending Q E fault w = ⊥

pub record Ends {W A : Type 0} (P : W → Type 0) (m : Program W A) (Q : A → W → Type 0)
    (E : W → Type 0) : Type 0 where
  pub at : (w : W) → P w → Ending Q E (m w).result (m w).world

module _ {W : Type 0} {E : W → Type 0} where
  pub Ends-pure :
      {A : Type 0} {P : W → Type 0} {Q : A → W → Type 0} (a : A)
      → ((w : W) → P w → Q a w)
      → Ends P (pure a) Q E
  Ends-pure a h = record { at = h }

  pub Ends-raise :
      {A : Type 0} {P : W → Type 0} {Q : A → W → Type 0} (e : Exception)
      → ((w : W) → P w → E w)
      → Ends P (raise e) Q E
  Ends-raise e h = record { at = h }

  -- A result that is known to be a value or an exception.
  pub Ends-lift :
      {A : Type 0} {P : W → Type 0} {Q : A → W → Type 0} (r : Result A)
      → ((w : W) → P w → Ending Q E r w)
      → Ends P (lift r) Q E
  Ends-lift r h = record { at = h }

  pub Ends-call :
      {A : Type 0} {P : W → Type 0} {Q : A → W → Type 0} (f : W → A × W)
      → ((w : W) → P w → Q (f w).0 (f w).1)
      → Ends P (call f) Q E
  Ends-call f h = record { at = h }

  Ending-after :
      {A B : Type 0} {Q : A → W → Type 0} {R : B → W → Type 0} (passed : List W) (world : W)
      (r : Result A) (next : A → Program W B)
      → Ending Q E r world
      → ((a : A) → Ends (Q a) (next a) R E)
      → Ending R E (after passed world r next).result (after passed world r next).world
  Ending-after passed world (ok a) next q h = (h a).at world q
  Ending-after passed world (throws e) next q h = q
  Ending-after passed world fault next q h = absurd q

  pub Ends-bind :
      {A B : Type 0} {P : W → Type 0} (Q : A → W → Type 0) {R : B → W → Type 0} {m : Program W A}
      {next : A → Program W B}
      → Ends P m Q E
      → ((a : A) → Ends (Q a) (next a) R E)
      → Ends P (m >>= next) R E
  Ends-bind Q {R} {m} {next} hm h = record {
    at = λ w p.
        Ending-after {Q = Q} {R = R} (m w).passed (m w).world (m w).result next (hm.at w p) h;
  }

  -- A call whose failure is an exception.
  pub Ends-attempt :
      {P Q : W → Type 0} (f : W → Bool × W) (e : Exception)
      → ((w : W) → P w → (f w).0 ≡ false → E (f w).1)
      → ((w : W) → P w → (f w).0 ≡ true → Q (f w).1)
      → Ends P (attempt f e) (λ _. Q) E
  Ends-attempt {P} {Q} f e failed done =
      Ends-bind (λ b w. (b ≡ false → E w) × (b ≡ true → Q w))
        (Ends-call f (λ w p. (failed w p, done w p))) ends_if
    where
      ends_if :
          (b : Bool)
          → Ends
              (λ w. (b ≡ false → E w) × (b ≡ true → Q w))
              (if b then pure tt else raise e)
              (λ _. Q)
              E
      ends_if true = record { at = λ w h. h.1 refl }
      ends_if false = record { at = λ w h. h.0 refl }
