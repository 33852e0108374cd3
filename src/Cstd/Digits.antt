-- ===== src/Cstd/Digits.antt =====
-- The digits that are printed, and the reading of them.
use mathlib.Core.List.{cons-ne-nil, concat-ne-nil}
use native.Mathlib.Nat.{div-add-mod, div-lt_iff_lt-mul, pow-suc, pow-zero, one-mul}
use osmdbt_pgoutput.Base.{
  ℕ, zero, suc, ◌+◌, ◌*◌, ◌/◌, ◌%◌, ◌≤◌, ◌<◌, ◌≡◌, ◌≢◌, refl, ap, ◌∙◌, inl, inr, none, some, [],
  ◌∷◌, ◌++◌, append_assoc, arith, ltb, Bool-cases, Bytes, All, All-append, length, length-append,
  ◌^◌,
}
use osmdbt_pgoutput.Cstd.{peek, digit_value, scan, hex_digit, digits}

-- The bases that the program uses.
abbrev pub IsBase : ℕ → Type 0
IsBase base = (2 ≤ base) × (base ≤ 16)

abbrev pub IsDigit : ℕ → ℕ → Type 0
IsDigit base c = digit_value base c ≢ none

pub digit_value-hex_digit :
    (base k : ℕ) → IsBase base → k < base → digit_value base (hex_digit k) ≡ some k
unfolding digit_value
digit_value-hex_digit base k (lo, hi) h = ground arith

scan_digit :
    (base acc c : ℕ) (s : Bytes) {d : ℕ}
    → digit_value base c ≡ some d
    → scan base acc (c ∷ s) ≡ scan base (acc * base + d) s
unfolding scan
scan_digit base acc c s e = rw (e, scan)

div_lt : (base n fuel : ℕ) → 2 ≤ base → base ≤ n → n < suc fuel → n / base < fuel
div_lt base n fuel two long h = grind (arith, div-add-mod n base)

mod_lt : (base n : ℕ) → 2 ≤ base → n % base < base
mod_lt base n two = omega arith

zero_front : (base n : ℕ) → 0 * base + n ≡ n
zero_front base n = omega arith

pub split_number : (base n : ℕ) → n / base * base + n % base ≡ n
split_number base n = grind (arith, div-add-mod n base)

-- What follows a printed number is read from its value on.
pub scan-digits :
    (base fuel n : ℕ) (rest : Bytes)
    → IsBase base
    → n < fuel
    → scan base 0 (digits base fuel n ++ rest) ≡ scan base n rest
unfolding digits
scan-digits base zero n rest b h = elim h [ ]
scan-digits base (suc fuel) n rest b h = elim (Bool-cases (ltb n base)) [
  | inl short ↦ rw short (
      scan_digit base 0 (hex_digit n) rest (digit_value-hex_digit base n b (ground arith))
      ∙ ap (λ m. scan base m rest) (zero_front base n))
  | inr long ↦
      rw (long, append_assoc)
        (scan-digits base fuel (n / base) (hex_digit (n % base) ∷ rest) b
            (div_lt base n fuel b.0 (ground arith) h)
          ∙ scan_digit base (n / base) (hex_digit (n % base)) rest
              (digit_value-hex_digit base (n % base) b (mod_lt base n b.0))
          ∙ ap (λ m. scan base m rest) (split_number base n))
]

hex_digit-IsDigit : (base k : ℕ) → IsBase base → k < base → IsDigit base (hex_digit k)
hex_digit-IsDigit base k b h e = cc (digit_value-hex_digit base k b h)

-- What holds of every digit of the base holds of all digits of a number.
pub digits-All :
    (P : ℕ → Type 0) (base fuel n : ℕ)
    → 1 < base
    → ((k : ℕ) → k < base → P (hex_digit k))
    → All P (digits base fuel n)
unfolding digits
digits-All P base zero n b h = tt
digits-All P base (suc fuel) n b h = elim (Bool-cases (ltb n base)) [
  | inl short ↦ rw short (h n (ground arith), tt)
  | inr long ↦ rw long (
      All-append P (digits base fuel (n / base)) (hex_digit (n % base) ∷ [])
        (digits-All P base fuel (n / base) b h) (h (n % base) (mod_lt base n b), tt))
]

pub digits-IsDigit : (base fuel n : ℕ) → IsBase base → All (IsDigit base) (digits base fuel n)
digits-IsDigit base fuel n b =
    digits-All (IsDigit base) base fuel n b.0 (λ k. hex_digit-IsDigit base k b)

pub digits-ne-nil : (base fuel n : ℕ) → digits base (suc fuel) n ≢ []
unfolding digits
digits-ne-nil base fuel n = elim (Bool-cases (ltb n base)) [
  | inl short ↦ rw short (cons-ne-nil _ _)
  | inr long ↦ rw long (concat-ne-nil _ _)
]

-- Reading stops at the first byte that is no digit.
pub scan_stop :
    (base n : ℕ) (rest : Bytes) → digit_value base (peek rest) ≡ none → scan base n rest ≡ (n, rest)
unfolding scan
scan_stop base n [] h = refl
scan_stop base n (c ∷ s) h = rw (h, scan)

below_pow : (base k n : ℕ) → 2 ≤ base → n < base ^ suc (suc k) → n / base < base ^ suc k
below_pow base k n two h =
    (div-lt_iff_lt-mul {k = base} {x = n} (omega arith)).1 (rw (pow-suc base (suc k)) at h)

-- A number below base^k has at most k digits.
pub length-digits-le :
    (base k fuel n : ℕ) → 2 ≤ base → n < base ^ suc k → length (digits base fuel n) ≤ suc k
unfolding digits
length-digits-le base k zero n two h = omega arith
length-digits-le base zero (suc fuel) n two h =
    let small : n < base = rw (pow-suc base 0, pow-zero base, one-mul) at h in ground arith
length-digits-le base (suc k) (suc fuel) n two h = ground (
  arith,
  length-append (digits base fuel (n / base)) (hex_digit (n % base) ∷ []),
  length-digits-le base k fuel (n / base) two (below_pow base k n two h),
)
