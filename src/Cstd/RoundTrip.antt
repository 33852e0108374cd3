-- ===== src/Cstd/RoundTrip.antt =====
-- What `strtoull` and `strtoll` read from a printed number.
use osmdbt_pgoutput.Base.{
  ℕ, zero, suc, ◌<◌, ◌≡◌, ◌≢◌, refl, ◌∙◌, true, false, none, [], ◌∷◌, ◌++◌, arith, Bytes, All,
}
use osmdbt_pgoutput.Base.Int.{ℤ, pos, negsuc, IsInt64}
use osmdbt_pgoutput.Cstd.{
  u64_mod, peek, digit_value, skip_space, read_sign, is_digit, skip_prefix, scan, read_number,
  strtoull, strtoll, digits, to_string, to_string_ℤ, to_hex,
}
use osmdbt_pgoutput.Cstd.Digits.{
  IsBase, IsDigit, scan-digits, digits-IsDigit, digits-ne-nil, scan_stop,
}

-- The text that follows neither goes on with the number nor makes its first digit a prefix.
abbrev pub Ends : ℕ → Bytes → Type 0
Ends base rest = (digit_value base (peek rest) ≡ none) × (peek rest ≢ b'x') × (peek rest ≢ b'X')

skip_prefix_lem :
    (base z x : ℕ) (s : Bytes) → x ≢ b'x' → x ≢ b'X' → skip_prefix base (z ∷ x ∷ s) ≡ z ∷ x ∷ s
unfolding skip_prefix
skip_prefix_lem base z x [] h k = refl
skip_prefix_lem base z x (d ∷ s) h k = ground arith

IsDigit-ne_x : (base c : ℕ) → IsBase base → IsDigit base c → (c ≢ b'x') × (c ≢ b'X')
unfolding digit_value
IsDigit-ne_x base c b d = (λ e. d (ground arith), λ e. d (ground arith))

skip_prefix-digits :
    (base c : ℕ) (cs rest : Bytes)
    → IsBase base
    → All (IsDigit base) (c ∷ cs)
    → Ends base rest
    → skip_prefix base (c ∷ (cs ++ rest)) ≡ c ∷ (cs ++ rest)
skip_prefix-digits base c [] [] b ds e = unfold skip_prefix in refl
skip_prefix-digits base c [] (r ∷ rest) b ds e = skip_prefix_lem base c r rest e.1 e.2
skip_prefix-digits base c (x ∷ cs) rest b ds e =
    let ne = IsDigit-ne_x base x b ds.1.0 in skip_prefix_lem base c x (cs ++ rest) ne.0 ne.1

-- A digit is no space and no sign.
starts_number :
    (base c : ℕ) (s : Bytes)
    → IsBase base
    → IsDigit base c
    → read_sign (skip_space (c ∷ s)) ≡ (false, c ∷ s)
unfolding skip_space digit_value
starts_number base c s b d = ground arith

is_digit_lem : (base c : ℕ) → IsDigit base c → is_digit base c ≡ true
is_digit_lem base c d = ground arith

-- The text of a number is read back, whatever follows that ends it.
read_number-nonempty :
    (base n c : ℕ) (cs rest : Bytes)
    → IsBase base
    → All (IsDigit base) (c ∷ cs)
    → Ends base rest
    → scan base 0 (c ∷ (cs ++ rest)) ≡ (n, rest)
    → read_number base (c ∷ (cs ++ rest)) ≡ (false, n, rest)
unfolding read_number
read_number-nonempty base n c cs rest b ds e h = rw (
  starts_number base c (cs ++ rest) b ds.0,
  skip_prefix-digits base c cs rest b ds e,
  h,
  is_digit_lem base c ds.0,
)

read_number_minus-nonempty :
    (base n c : ℕ) (cs rest : Bytes)
    → IsBase base
    → All (IsDigit base) (c ∷ cs)
    → Ends base rest
    → scan base 0 (c ∷ (cs ++ rest)) ≡ (n, rest)
    → read_number base (b'-' ∷ c ∷ (cs ++ rest)) ≡ (true, n, rest)
unfolding read_number
read_number_minus-nonempty base n c cs rest b ds e h =
    rw (skip_prefix-digits base c cs rest b ds e, h, is_digit_lem base c ds.0)

-- A printed number is read back, and so is one behind a minus sign.
read_number-digits :
    (base fuel n : ℕ) (rest : Bytes)
    → IsBase base
    → n < fuel
    → Ends base rest
    → (read_number base (digits base fuel n ++ rest) ≡ (false, n, rest))
      × (read_number base (b'-' ∷ (digits base fuel n ++ rest)) ≡ (true, n, rest))
read_number-digits base zero n rest b h e = elim h [ ]
read_number-digits base (suc fuel) n rest b h e =
    go (digits base (suc fuel) n) (digits-ne-nil base fuel n) (digits-IsDigit base (suc fuel) n b)
      (scan-digits base (suc fuel) n rest b h ∙ scan_stop base n rest e.0)
  where
    go :
        (ds : Bytes)
        → ds ≢ []
        → All (IsDigit base) ds
        → scan base 0 (ds ++ rest) ≡ (n, rest)
        → (read_number base (ds ++ rest) ≡ (false, n, rest))
          × (read_number base (b'-' ∷ (ds ++ rest)) ≡ (true, n, rest))
    go [] ne all s = absurd (ne refl)
    go (c ∷ cs) ne all s = (
      read_number-nonempty base n c cs rest b all e s,
      read_number_minus-nonempty base n c cs rest b all e s,
    )

pub strtoull-to_hex :
    (n : ℕ) (rest : Bytes) → n < u64_mod → Ends 16 rest → strtoull 16 (to_hex n ++ rest) ≡ (n, rest)
unfolding strtoull to_hex
strtoull-to_hex n rest h e =
    rw ((read_number-digits 16 (suc n) n rest (omega arith) (omega arith) e).0) (ground arith)

pub strtoull-to_string :
    (n : ℕ) (rest : Bytes)
    → n < u64_mod
    → Ends 10 rest
    → strtoull 10 (to_string n ++ rest) ≡ (n, rest)
unfolding strtoull to_string
strtoull-to_string n rest h e =
    rw ((read_number-digits 10 (suc n) n rest (omega arith) (omega arith) e).0) (ground arith)

pub strtoll-to_string_ℤ :
    (z : ℤ) (rest : Bytes) → IsInt64 z → Ends 10 rest → strtoll (to_string_ℤ z ++ rest) ≡ z
strtoll-to_string_ℤ (pos n) rest h e =
    unfold strtoll to_string_ℤ in
    rw ((read_number-digits 10 (suc n) n rest (omega arith) (omega arith) e).0) (ground arith)
strtoll-to_string_ℤ (negsuc n) rest h e =
    unfold strtoll to_string_ℤ in
    rw ((read_number-digits 10 (suc (suc n)) (suc n) rest (omega arith) (omega arith) e).1)
      (ground arith)
