-- ===== src/Posix/Meets.antt =====
-- Programs with what holds before and after them and in every state on the way, one rule for each
-- way to build a program. An exception means `Fail`: where that is `Unit`, nothing is promised after
-- one but what holds on the way; where it is `⊥`, there is none. A fault is excluded.
use osmdbt_pgoutput.Base.{
  ◌⊎◌, inl, inr, Bool, true, false, ◌≡◌, refl, List, [], ◌∷◌, if◌then◌else◌, All, All-append,
}
use osmdbt_pgoutput.Base.Result.{Result, ok, throws, fault, Exception}
use osmdbt_pgoutput.Posix.Program.{Program, pure, lift, call, after, ◌>>=◌, raise, attempt}

abbrev pub Post : {W A : Type 0} → Type 0 → (A → W → Type 0) → Result A → W → Type 0
Post Fail Q (ok a) w = Q a w
Post Fail Q (throws e) w = Fail
Post Fail Q fault w = ⊥

-- Where no exception is possible, there is a value.
pub Post-returns :
    {W A : Type 0} (Q : A → W → Type 0) (w : W) (r : Result A)
    → Post ⊥ Q r w
    → (a : A) × (r ≡ ok a) × Q a w
Post-returns Q w (ok a) q = (a, refl, q)
Post-returns Q w (throws e) q = absurd q
Post-returns Q w fault q = absurd q

Post-map :
    {W A : Type 0} (Fail : Type 0) (Q Q' : A → W → Type 0) (r : Result A) (w : W)
    → ((a : A) (w : W) → Q a w → Q' a w)
    → Post Fail Q r w
    → Post Fail Q' r w
Post-map Fail Q Q' (ok a) w k q = k a w q
Post-map Fail Q Q' (throws e) w k q = q
Post-map Fail Q Q' fault w k q = q

all_unit : {W : Type 0} (ws : List W) → All (λ _. Unit {0}) ws
all_unit [] = tt
all_unit (w ∷ ws) = (tt, all_unit ws)

pub record Meets {W A : Type 0} (Fail : Type 0) (I P : W → Type 0) (m : Program W A)
    (Q : A → W → Type 0) : Type 0 where
  pub at : (w : W) → P w → All I (m w).passed × Post Fail Q (m w).result (m w).world

module _ {Fail W : Type 0} {I : W → Type 0} where
  pub Meets-pure :
      {A : Type 0} {P : W → Type 0} {Q : A → W → Type 0} (a : A)
      → ((w : W) → P w → Q a w)
      → Meets Fail I P (pure a) Q
  Meets-pure a h = record { at = λ w p. (tt, h w p) }

  pub Meets-raise :
      {A : Type 0} {P : W → Type 0} {Q : A → W → Type 0} (e : Exception)
      → ((w : W) → P w → Fail)
      → Meets Fail I P (raise e) Q
  Meets-raise e fails = record { at = λ w p. (tt, fails w p) }

  pub Meets-lift :
      {A : Type 0} {P : W → Type 0} {Q : A → W → Type 0} (r : Result A)
      → ((w : W) → P w → Post Fail Q r w)
      → Meets Fail I P (lift r) Q
  Meets-lift r h = record { at = λ w p. (tt, h w p) }

  pub Meets-call :
      {A : Type 0} {P : W → Type 0} {Q : A → W → Type 0} (f : W → A × W)
      → ((w : W) → P w → I (f w).1 × Q (f w).0 (f w).1)
      → Meets Fail I P (call f) Q
  Meets-call f h = record { at = λ w p. let (i, q) = h w p in ((i, tt), q) }

  pub Meets-if :
      {A : Type 0} {P : W → Type 0} {Q : A → W → Type 0} (b : Bool) (m n : Program W A)
      → (b ≡ true → Meets Fail I P m Q)
      → (b ≡ false → Meets Fail I P n Q)
      → Meets Fail I P (if b then m else n) Q
  Meets-if true m n hm hn = hm refl
  Meets-if false m n hm hn = hn refl

  Meets-after :
      {A B : Type 0} {Q : A → W → Type 0} {R : B → W → Type 0} (passed : List W) (world : W)
      (r : Result A) (next : A → Program W B)
      → All I passed
      → Post Fail Q r world
      → ((a : A) → Meets Fail I (Q a) (next a) R)
      → All I (after passed world r next).passed
        × Post Fail R (after passed world r next).result (after passed world r next).world
  Meets-after passed world (ok a) next i q h =
      let (i', q') = (h a).at world q in (All-append I passed (next a world).passed i i', q')
  Meets-after passed world (throws e) next i q h = (i, q)
  Meets-after passed world fault next i q h = elim q [ ]

  pub Meets-bind :
      {A B : Type 0} {P : W → Type 0} (Q : A → W → Type 0) {R : B → W → Type 0} {m : Program W A}
      {next : A → Program W B}
      → Meets Fail I P m Q
      → ((a : A) → Meets Fail I (Q a) (next a) R)
      → Meets Fail I P (m >>= next) R
  Meets-bind Q {R} {m} {next} hm h = record {
    at = λ w p.
        let (i, q) = hm.at w p in
        Meets-after {Q = Q} {R = R} (m w).passed (m w).world (m w).result next i q h;
  }

  pub Meets-known :
      {A B : Type 0} {P : W → Type 0} {R : B → W → Type 0} (r : Result A) (a : A)
      (next : A → Program W B)
      → r ≡ ok a
      → Meets Fail I P (next a) R
      → Meets Fail I P (lift r >>= next) R
  Meets-known r a next e h = record { at = λ w p. rw e (h.at w p) }

  pub Meets-weaken :
      {A : Type 0} {P P' : W → Type 0} {Q : A → W → Type 0} {m : Program W A}
      → ((w : W) → P' w → P w)
      → Meets Fail I P m Q
      → Meets Fail I P' m Q
  Meets-weaken k h = record { at = λ w p. h.at w (k w p) }

  pub Meets-strengthen :
      {A : Type 0} {P : W → Type 0} {Q Q' : A → W → Type 0} {m : Program W A}
      → ((a : A) (w : W) → Q a w → Q' a w)
      → Meets Fail I P m Q
      → Meets Fail I P m Q'
  Meets-strengthen {Q} {Q'} {m} k h = record {
    at = λ w p. let (i, q) = h.at w p in (i, Post-map Fail Q Q' (m w).result (m w).world k q);
  }

  -- What holds on the way is forgotten.
  pub Meets-forget :
      {A : Type 0} {P : W → Type 0} {Q : A → W → Type 0} {m : Program W A}
      → Meets Fail I P m Q
      → Meets Fail (λ _. Unit) P m Q
  Meets-forget {m} h = record { at = λ w p. (all_unit (m w).passed, (h.at w p).1) }

  pub Meets-exists :
      {A X : Type 0} {P : X → W → Type 0} {Q : A → W → Type 0} {m : Program W A}
      → ((x : X) → Meets Fail I (P x) m Q)
      → Meets Fail I (λ w. (x : X) × P x w) m Q
  Meets-exists h = record { at = λ w p. (h p.0).at w p.1 }

  -- A call whose failure is an exception.
  pub Meets-attempt :
      {P Q : W → Type 0} (f : W → Bool × W) (e : Exception)
      → ((w : W) → P w → ((f w).0 ≡ true) ⊎ Fail)
      → ((w : W) → P w → I (f w).1)
      → ((w : W) → P w → (f w).0 ≡ true → Q (f w).1)
      → Meets Fail I P (attempt f e) (λ _. Q)
  Meets-attempt {P} {Q} f e able i q =
      Meets-bind (λ done w. ((done ≡ true) ⊎ Fail) × (done ≡ true → Q w))
        (Meets-call f (λ w p. (i w p, (able w p, q w p))))
        (λ done.
          Meets-if done (pure tt) (raise e) (λ yes'. Meets-pure tt (λ w h. h.1 yes'))
            (λ no'.
              Meets-raise e
                (λ w h. elim h.0 [ inl yes' ↦ absurd (cc (no', yes')) | inr fails ↦ fails ])))
