-- ===== src/Base/Result.antt =====
-- What a call ends with: a value, an exception that it throws, or a fault. A fault is behaviour
-- that C++ leaves undefined (a read outside of an object, `*` on an empty optional) or a failed
-- assertion.
use mathlib.Core.Path.{◌≡◌, refl, transport}
use mathlib.Core.Bool.{Bool, true, false}
use osmdbt_pgoutput.Base.Text.{Bytes}
use osmdbt_pgoutput.Base.Tests.{if◌then◌else◌}

-- The exceptions that the modelled code throws, each with the message that it is given. What the
-- system adds to the message of a `system_error` is left out, and so is the message of an exception
-- that a library throws. The second line are the program's own, the third those of
-- boost::program_options and of yaml-cpp.
pub data Exception : Type 0 where
  runtime_error system_error out_of_range invalid_argument : Bytes → Exception
  argument_error config_error database_error : Bytes → Exception
  options_error yaml_error : Exception

pub data Result {ℓ} (A : Type ℓ) : Type ℓ where
  ok : A → Result A
  throws : Exception → Result A
  fault : Result A

infixl 5 ◌>>=◌ ◌>>◌
abbrev pub ◌>>=◌ {ℓ κ} : {A : Type ℓ} {B : Type κ} → Result A → (A → Result B) → Result B
fault >>= next = fault
throws exception >>= next = throws exception
ok value >>= next = next value

abbrev pub ◌>>◌ {κ} : {B : Type κ} → Result (Unit {0}) → Result B → Result B
first >> second = first >>= λ _. second

-- Goes on if the test passes.
abbrev pub asserts : Bool → Result (Unit {0})
asserts true = ok tt
asserts false = fault

abbrev pub throws_if : Bool → Exception → Result (Unit {0})
throws_if true e = throws e
throws_if false e = ok tt

-- What a chain that succeeds has gone through.
pub >>=-eq-ok {ℓ κ} :
    {A : Type ℓ} {B : Type κ} (first : Result A) (next : A → Result B) {result : B}
    → (first >>= next) ≡ ok result
    → (value : A) × (first ≡ ok value) × (next value ≡ ok result)
>>=-eq-ok fault next e = cc
>>=-eq-ok (throws exception) next e = cc
>>=-eq-ok (ok value) next e = (value, refl, e)

pub ok-injective {ℓ} : {A : Type ℓ} {a b : A} → ok a ≡ ok b → a ≡ b
ok-injective e = cc

-- What a value, if there is one, satisfies.
pub record Holds {ℓ κ} {A : Type ℓ} (P : A → Type κ) (r : Result A) : Type (ℓ ⊔ κ) where
  pub holds : (value : A) → r ≡ ok value → P value

pub Holds-pure {ℓ κ} : {A : Type ℓ} {P : A → Type κ} {a : A} → P a → Holds P (ok a)
Holds-pure {P} h = record { holds = λ value e. transport (λ i. P (ok-injective e i)) h }

pub Holds-bind {ℓ κ μ} :
    {A : Type ℓ} {B : Type κ} (Q : A → Type μ) {P : B → Type μ} (first : Result A)
    (next : A → Result B)
    → Holds Q first
    → ((value : A) → Q value → Holds P (next value))
    → Holds P (first >>= next)
Holds-bind Q first next h k = record {
  holds = λ result e.
      let (value, e', rest) = >>=-eq-ok first next e in
      (k value (h.holds value e')).holds result rest;
}

pub Holds-then {ℓ κ μ} :
    {A : Type ℓ} {B : Type κ} {P : B → Type μ} (first : Result A) (next : A → Result B)
    → ((value : A) → Holds P (next value))
    → Holds P (first >>= next)
Holds-then first next k = record {
  holds = λ result e. let (value, e', rest) = >>=-eq-ok first next e in (k value).holds result rest;
}

pub Holds-if {ℓ κ} :
    {A : Type ℓ} {P : A → Type κ} (b : Bool) {r s : Result A}
    → (b ≡ true → Holds P r)
    → (b ≡ false → Holds P s)
    → Holds P (if b then r else s)
Holds-if true hr hs = hr refl
Holds-if false hr hs = hs refl
