-- ===== src/Cstd/Lines.antt =====
-- The bytes of printed numbers, and the lines of a text.
use osmdbt_pgoutput.Base.{
  ℕ, suc, ◌≡◌, ◌≢◌, refl, sym, ap, ◌∙◌, none, List, [], ◌∷◌, ◌++◌, arith, Bytes, Lacks, All,
}
use osmdbt_pgoutput.Base.Int.{ℤ, pos, negsuc}
use osmdbt_pgoutput.Cstd.{to_hex, to_string, to_string_ℤ, lines, digits, digit_value}
use osmdbt_pgoutput.Cstd.Digits.{digits-IsDigit}

All-map :
    {A : Type 0} {P Q : A → Type 0} → ((a : A) → P a → Q a) → (xs : List A) → All P xs → All Q xs
All-map f [] h = tt
All-map f (a ∷ xs) h = (f a h.0, All-map f xs h.1)

-- A byte that is no digit and no sign is in no printed number.
pub to_string-Lacks : (c n : ℕ) → digit_value 10 c ≡ none → Lacks c (to_string n)
unfolding to_string
to_string-Lacks c n e =
    All-map (λ d h eq. h (ap (digit_value 10) eq ∙ e)) (digits 10 (suc n) n)
      (digits-IsDigit 10 (suc n) n (omega arith, omega arith))

pub to_hex-Lacks : (c n : ℕ) → digit_value 16 c ≡ none → Lacks c (to_hex n)
unfolding to_hex
to_hex-Lacks c n e =
    All-map (λ d h eq. h (ap (digit_value 16) eq ∙ e)) (digits 16 (suc n) n)
      (digits-IsDigit 16 (suc n) n (omega arith, omega arith))

pub to_string_ℤ-Lacks :
    (c : ℕ) (z : ℤ) → digit_value 10 c ≡ none → c ≢ b'-' → Lacks c (to_string_ℤ z)
unfolding to_string_ℤ
to_string_ℤ-Lacks c (pos n) e h = to_string-Lacks c n e
to_string_ℤ-Lacks c (negsuc n) e h = ((λ eq. h (sym eq)), to_string-Lacks c (suc n) e)

pub lines-line : (l rest : Bytes) → Lacks b'\n' l → lines (l ++ b'\n' ∷ rest) ≡ l ∷ lines rest
unfolding lines
lines-line [] rest h = refl
lines-line (c ∷ l) rest h = rw (lines-line l rest h.1) (ground arith)
