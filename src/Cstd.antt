-- ===== src/Cstd.antt =====
-- The functions of the C and C++ standard libraries that the program calls on numbers in texts:
-- `strtoull` and `strtoll` (with what they leave unread, `*end`), `std::to_string` and the `%X`
-- conversion of `printf`. A text is read up to its end, where `*end` is 0. No byte 0 is a digit, a
-- sign or a space, so a C string and the text that holds it are read alike.
pub mod Digits
pub mod RoundTrip
pub mod Lines
use osmdbt_pgoutput.Base.{
  ℕ, zero, suc, ◌+◌, ◌-◌, ◌*◌, ◌/◌, ◌%◌, ◌^◌, Bool, true, false, ◌&&◌, ◌||◌, Option, none, some,
  List, [], ◌∷◌, ◌++◌, ltb, leb, ◌==◌, if◌then◌else◌, Bytes, length, take, replicate,
}
use osmdbt_pgoutput.Base.Int.{ℤ, pos, negsuc}

abbrev pub u64_mod : ℕ
u64_mod = 2 ^ 64

-- `*p` for a pointer into a C string.
abbrev pub peek : Bytes → ℕ
peek [] = 0
peek (c ∷ _) = c

abbrev pub is_space : ℕ → Bool
is_space c = c == b' ' || leb 9 c && leb c 13

-- The value of a digit or letter, if it is below the base.
unfoldable pub digit_value : ℕ → ℕ → Option ℕ
digit_value base c =
    let v : ℕ =
      if leb b'0' c && leb c b'9'
      then c - b'0'
      else if leb b'a' c && leb c b'z'
      then c - b'a' + 10
      else if leb b'A' c && leb c b'Z'
      then c - b'A' + 10
      else base in
    if ltb v base then some v else none

unfoldable pub skip_space : Bytes → Bytes
skip_space [] = []
skip_space (c ∷ s) = if is_space c then skip_space s else c ∷ s

-- Whether there is a minus sign, and what follows the sign.
abbrev pub read_sign : Bytes → Bool × Bytes
read_sign [] = (false, [])
read_sign (c ∷ s) =
    if c == b'-' then (true, s) else if c == b'+' then (false, s) else (false, c ∷ s)

abbrev pub is_digit : ℕ → ℕ → Bool
is_digit base c = elim (digit_value base c) [ none ↦ false | some _ ↦ true ]

-- The `0x` that base 16 allows, if a digit follows it.
unfoldable pub skip_prefix : ℕ → Bytes → Bytes
unfolding digit_value
skip_prefix base (z ∷ x ∷ d ∷ s) =
    if base == 16 && z == b'0' && (x == b'x' || x == b'X') && is_digit 16 d
    then d ∷ s
    else z ∷ x ∷ d ∷ s
skip_prefix base s = s

-- The digits, with no bound: the number that they spell behind `acc`, and what follows them.
unfoldable pub scan : ℕ → ℕ → Bytes → ℕ × Bytes
unfolding digit_value
scan base acc [] = (acc, [])
scan base acc (c ∷ s) = elim (digit_value base c) [
  | none ↦ (acc, c ∷ s)
  | some d ↦ scan base (acc * base + d) s
]

-- The sign, the exact value and the rest; the last is the whole text where there is no number.
unfoldable pub read_number : ℕ → Bytes → Bool × ℕ × Bytes
unfolding digit_value skip_space skip_prefix scan
read_number base s =
    let (minus, t) = read_sign (skip_space s) in
    let u = skip_prefix base t in
    let (v, rest) = scan base 0 u in
    if is_digit base (peek u) then (minus, v, rest) else (false, 0, s)

-- Out of range gives ULLONG_MAX; a minus sign negates modulo 2^64.
unfoldable pub strtoull : ℕ → Bytes → ℕ × Bytes
unfolding read_number
strtoull base s =
    let (minus, v, rest) = read_number base s in
    (if leb u64_mod v then u64_mod - 1 else if minus then (u64_mod - v) % u64_mod else v, rest)

-- Out of range gives LLONG_MAX or LLONG_MIN.
unfoldable pub strtoll : Bytes → ℤ
unfolding read_number
strtoll s =
    let (minus, v, rest) = read_number 10 s in
    if minus
    then (if v == 0 then pos 0 else if ltb (2 ^ 63) v then negsuc (2 ^ 63 - 1) else negsuc (v - 1))
    else (if leb (2 ^ 63) v then pos (2 ^ 63 - 1) else pos v)

abbrev pub hex_digit : ℕ → ℕ
hex_digit k = if ltb k 10 then b'0' + k else b'A' + (k - 10)

-- The digits of a number; more fuel than its value is enough.
unfoldable pub digits : ℕ → ℕ → ℕ → Bytes
digits base zero n = []
digits base (suc fuel) n =
    let front = digits base fuel (n / base) in
    if ltb n base then hex_digit n ∷ [] else front ++ hex_digit (n % base) ∷ []

-- `std::to_string` of an unsigned number, and `%zu`.
unfoldable pub to_string : ℕ → Bytes
unfolding digits
to_string n = digits 10 (suc n) n

-- `std::to_string` of a signed number.
unfoldable pub to_string_ℤ : ℤ → Bytes
unfolding to_string
to_string_ℤ (pos n) = to_string n
to_string_ℤ (negsuc n) = b'-' ∷ to_string (suc n)

-- `%lX`.
unfoldable pub to_hex : ℕ → Bytes
unfolding digits
to_hex n = digits 16 (suc n) n

-- `%0wzu`.
unfoldable pub to_padded : ℕ → ℕ → Bytes
unfolding to_string
to_padded w n = replicate (w - length (to_string n)) b'0' ++ to_string n

-- `std::snprintf` into a string of `cap` bytes, of which the returned number of bytes is kept.
unfoldable pub snprintf : ℕ → Bytes → Bytes
snprintf cap text =
    if ltb (length text) cap
    then text
    else take (cap - 1) text ++ replicate (length text + 1 - cap) 0

-- The C string that a text holds: up to its first byte 0.
unfoldable pub c_str : Bytes → Bytes
c_str [] = []
c_str (c ∷ s) = if c == 0 then [] else c ∷ c_str s

-- What `std::getline` reads, one call after the other.
abbrev prepend : ℕ → List Bytes → List Bytes
prepend c [] = (c ∷ []) ∷ []
prepend c (l ∷ ls) = (c ∷ l) ∷ ls

unfoldable pub lines : Bytes → List Bytes
lines [] = []
lines (c ∷ s) = let rest = lines s in if c == b'\n' then [] ∷ rest else prepend c rest
