-- ===== src/Posix/Program.antt =====
-- A run of a program: the states of the machine that it passes, one after each call, the last of
-- them, and what the run ends with.
use osmdbt_pgoutput.Base.{Bool, List, [], ◌∷◌, ◌++◌, if◌then◌else◌}
use osmdbt_pgoutput.Base.Result.{Result, ok, throws, fault, Exception}

pub record Outcome (W A : Type 0) : Type 0 where
  pub passed : List W
  pub world : W
  pub result : Result A

abbrev pub Program : Type 0 → Type 0 → Type 0
Program W A = W → Outcome W A

module _ {W : Type 0} where
  abbrev pub pure : {A : Type 0} → A → Program W A
  pure a w = record { passed = []; world = w; result = ok a }

  abbrev pub lift : {A : Type 0} → Result A → Program W A
  lift r w = record { passed = []; world = w; result = r }

  abbrev pub call : {A : Type 0} → (W → A × W) → Program W A
  call f w = record { passed = (f w).1 ∷ []; world = (f w).1; result = ok (f w).0 }

  -- What follows on a run so far.
  abbrev pub after : {A B : Type 0} → List W → W → Result A → (A → Program W B) → Outcome W B
  after passed world (ok a) next = record {
    passed = passed ++ (next a world).passed;
    world = (next a world).world;
    result = (next a world).result;
  }
  after passed world (throws e) next = record { passed = passed; world = world; result = throws e }
  after passed world fault next = record { passed = passed; world = world; result = fault }

  infixl 5 ◌>>=◌ ◌>>◌
  abbrev pub ◌>>=◌ : {A B : Type 0} → Program W A → (A → Program W B) → Program W B
  ◌>>=◌ m next w = after (m w).passed (m w).world (m w).result next

  abbrev pub ◌>>◌ : {B : Type 0} → Program W (Unit {0}) → Program W B → Program W B
  m >> next = m >>= λ _. next

  abbrev pub raise : {A : Type 0} → Exception → Program W A
  raise e = lift (throws e)

  -- A call whose failure is an exception.
  abbrev pub attempt : (W → Bool × W) → Exception → Program W (Unit {0})
  attempt f e = call f >>= λ done. if done then pure tt else raise e

  -- The first program, and then the second, also after an exception: the destructor of an object.
  abbrev pub ensure : {A : Type 0} → Program W A → (W → W) → Program W A
  ensure m destroy w = record {
    passed = (m w).passed ++ destroy (m w).world ∷ [];
    world = destroy (m w).world;
    result = (m w).result;
  }
