-- ===== src/GetLog/Hex.antt =====
-- `hex2bytes` (src/osmdbt-get-log.cpp): the bytes of a message from their hexadecimal text.
use Prim.Native.Nat.{bit_and, bit_or, bit_xor}
use osmdbt_pgoutput.Base.{
  ℕ, zero, suc, ◌+◌, ◌-◌, ◌*◌, ◌/◌, ◌%◌, ◌<◌, ◌≡◌, refl, ap, Bool, true, false, none, some, List,
  [], ◌∷◌, arith, ltb, ◌==◌, ==_iff, if◌then◌else◌, Bytes, All, get_elem?, length,
}
use osmdbt_pgoutput.Base.Result.{Result, ok, throws, fault, ◌>>=◌}

-- `hashmap`.
abbrev hashmap : List ℕ
hashmap =
    0 ∷ 1 ∷ 2 ∷ 3 ∷ 4 ∷ 5 ∷ 6 ∷ 7 ∷ 8 ∷ 9 ∷ 0 ∷ 0 ∷ 0 ∷ 0 ∷ 0 ∷ 0 ∷ 0 ∷ 10 ∷ 11 ∷ 12 ∷ 13 ∷ 14 ∷ 15
    ∷ 0 ∷ 0 ∷ 0 ∷ 0 ∷ 0 ∷ 0 ∷ 0 ∷ 0 ∷ 0 ∷ []

-- The entry of the table for a character.
unfoldable pub nibble : ℕ → Result ℕ
nibble c = elim (get_elem? hashmap (bit_xor (bit_and c 0x1f) 0x10)) [ none ↦ fault | some v ↦ ok v ]

-- `(hashmap[idx0] << 4) | hashmap[idx1]`.
unfoldable pub byte_of : ℕ → ℕ → Result ℕ
unfolding nibble
byte_of a b = do high ← nibble a; low ← nibble b; ok (bit_or (high * 16) low)

-- A last character with no partner is read together with the byte behind the view.
unfoldable pub hex2bytes : Bytes → Result Bytes
unfolding byte_of
hex2bytes [] = ok []
hex2bytes (a ∷ []) = fault
hex2bytes (a ∷ b ∷ hex) = do byte ← byte_of a b; bytes ← hex2bytes hex; ok (byte ∷ bytes)

-- The text that `encode(data, 'hex')` gives: two lower case digits for each byte.
abbrev hex_char : ℕ → ℕ
hex_char k = if ltb k 10 then b'0' + k else b'a' + (k - 10)

abbrev pub encode_hex : Bytes → Bytes
encode_hex [] = []
encode_hex (c ∷ s) = hex_char (c / 16) ∷ hex_char (c % 16) ∷ encode_hex s

abbrev pub IsByte : ℕ → Type 0
IsByte c = c < 256

-- The test of each number below a bound, by evaluation.
holds_upto : (ℕ → Bool) → ℕ → Bool
holds_upto test zero = true
holds_upto test (suc top) = if test top then holds_upto test top else false

holds_upto-at :
    (test : ℕ → Bool) (bound c : ℕ) → c < bound → holds_upto test bound ≡ true → test c ≡ true
unfolding holds_upto
holds_upto-at test (suc top) c below e = ground (arith, holds_upto-at test top c)
holds_upto-at test zero c below e = absurd (omega (arith, below))

abbrev is_value : Result ℕ → ℕ → Bool
is_value (ok v) c = v == c
is_value _ c = false

is_value_lem : (r : Result ℕ) (c : ℕ) → is_value r c ≡ true → r ≡ ok c
is_value_lem (ok v) c h = ap ok ((==_iff v c).0 h)
is_value_lem (throws e) c h = cc
is_value_lem fault c h = cc

pair_table :
    holds_upto (λ c. is_value (byte_of (hex_char (c / 16)) (hex_char (c % 16))) c) 256 ≡ true
unfolding holds_upto byte_of
pair_table = refl

byte_of-hex_char : (c : ℕ) → IsByte c → byte_of (hex_char (c / 16)) (hex_char (c % 16)) ≡ ok c
byte_of-hex_char c h = is_value_lem (byte_of (hex_char (c / 16)) (hex_char (c % 16))) c (
    holds_upto-at (λ c. is_value (byte_of (hex_char (c / 16)) (hex_char (c % 16))) c) 256 c h
      pair_table)

-- If every number of a list is a byte, the hexadecimal text that PostgreSQL writes for them is read
-- back as that list.
pub hex2bytes-encode_hex : (s : Bytes) → All IsByte s → hex2bytes (encode_hex s) ≡ ok s
unfolding hex2bytes
hex2bytes-encode_hex [] h = refl
hex2bytes-encode_hex (c ∷ s) h = rw (byte_of-hex_char c h.0, hex2bytes-encode_hex s h.1) refl

abbrev has_value : Result ℕ → Bool
has_value (ok v) = true
has_value _ = false

has_value_lem : (r : Result ℕ) → has_value r ≡ true → (v : ℕ) × (r ≡ ok v)
has_value_lem (ok v) h = (v, refl)
has_value_lem (throws e) h = cc
has_value_lem fault h = cc

nibble_table : holds_upto (λ c. has_value (nibble c)) 256 ≡ true
unfolding holds_upto nibble
nibble_table = refl

nibble_total : (c : ℕ) → IsByte c → (v : ℕ) × (nibble c ≡ ok v)
nibble_total c h =
    has_value_lem (nibble c) (holds_upto-at (λ c. has_value (nibble c)) 256 c h nibble_table)

-- Texts of even and of odd length.
hex2bytes_total :
    (s : Bytes)
    → All IsByte s
    → ((n : ℕ) → n + n ≡ length s → (t : Bytes) × (hex2bytes s ≡ ok t) × (length t ≡ n))
      × ((n : ℕ) → suc (n + n) ≡ length s → hex2bytes s ≡ fault)
unfolding hex2bytes byte_of
hex2bytes_total [] h = (λ n e. ([], refl, omega arith), λ n e. absurd (omega arith))
hex2bytes_total (a ∷ []) h = (λ n e. absurd (omega arith), λ n e. refl)
hex2bytes_total (a ∷ b ∷ s) (ha, (hb, hs)) =
    let (x, ea) = nibble_total a ha in
    let (y, eb) = nibble_total b hb in
    let (even, odd) = hex2bytes_total s hs in
    (
      λ n e.
          let (t, et, en) = even (n - 1) (omega arith) in
          (bit_or (x * 16) y ∷ t, rw (ea, eb, et) refl, omega (arith, en)),
      λ n e. rw (ea, eb, odd (n - 1) (omega arith)) refl,
    )

-- Whatever its characters are, a text of even length is read, with every look into the table inside
-- the table, and gives half as many bytes.
pub hex2bytes_even :
    (s : Bytes) (n : ℕ)
    → All IsByte s
    → n + n ≡ length s
    → (t : Bytes) × (hex2bytes s ≡ ok t) × (length t ≡ n)
hex2bytes_even s n h e = (hex2bytes_total s h).0 n e

-- Whatever its characters are, a text of odd length ends in a read behind its end.
pub hex2bytes_odd :
    (s : Bytes) (n : ℕ) → All IsByte s → suc (n + n) ≡ length s → hex2bytes s ≡ fault
hex2bytes_odd s n h e = (hex2bytes_total s h).1 n e
