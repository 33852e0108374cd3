-- ===== src/Lsn/RoundTrip.antt =====
-- What `lsn_type` reads from two hexadecimal numbers, and from its own output.
use mathlib.Core.Path.{subst}
use osmdbt_pgoutput.Base.{
  suc, ◌/◌, ℕ, ◌+◌, ◌*◌, ◌%◌, ◌^◌, ◌≤◌, ◌<◌, ◌≡◌, ◌⊎◌, inl, inr, refl, true, [], ◌∷◌, ◌++◌,
  append-nil, arith, ◌↔◌, Bytes, length, length-append,
}
use osmdbt_pgoutput.Base.Result.{ok}
use osmdbt_pgoutput.Cstd.{u64_mod, digit_value, strtoull, to_hex, snprintf}
use osmdbt_pgoutput.Cstd.Digits.{length-digits-le}
use osmdbt_pgoutput.Cstd.RoundTrip.{Ends, strtoull-to_hex}
use osmdbt_pgoutput.Lsn.{LsnType, upper, lower, less, parse, str}

-- The two separators that are read; the dash stands in file names.
abbrev pub IsSeparator : ℕ → Type 0
IsSeparator sep = (sep ≡ b'-') ⊎ (sep ≡ b'/')

Ends-separator : (sep : ℕ) (rest : Bytes) → IsSeparator sep → Ends 16 (sep ∷ rest)
unfolding digit_value
Ends-separator sep rest (inl e) = rw e (refl, omega arith, omega arith)
Ends-separator sep rest (inr e) = rw e (refl, omega arith, omega arith)

-- Any two 64 bit numbers in hexadecimal with a dash or a slash between them are read, and combined modulo 2^64: of the first number
-- only the low 32 bits count, and a second number above 32 bits is added into the upper half.
pub parse-to_hex :
    (n m sep : ℕ)
    → n < u64_mod
    → m < u64_mod
    → IsSeparator sep
    → parse (to_hex n ++ (sep ∷ to_hex m)) ≡ ok (record { m_lsn = (n * 2 ^ 32 + m) % u64_mod })
unfolding parse digit_value
parse-to_hex n m sep hn hm s =
    let first = strtoull-to_hex n (sep ∷ to_hex m) hn (Ends-separator sep (to_hex m) s) in
    let second : strtoull 16 (to_hex m) ≡ (m, []) =
      subst (λ t. strtoull 16 t ≡ (m, [])) (append-nil (to_hex m))
        (strtoull-to_hex m [] hm (refl, omega arith, omega arith)) in
    elim s [ inl e ↦ rw (first, e, second) | inr e ↦ rw (first, e, second) ]

length-to_hex : (n : ℕ) → n < 2 ^ 32 → length (to_hex n) ≤ 8
unfolding to_hex
length-to_hex n h = length-digits-le 16 7 (suc n) n (omega arith) h

-- For an LSN of 64 bits the 20 bytes of the buffer are enough: nothing of the text is cut off.
pub str-fits :
    (l : LsnType) → l.m_lsn < u64_mod → str l ≡ to_hex (upper l) ++ (b'/' ∷ to_hex (lower l))
unfolding str upper lower snprintf
str-fits l h = ground (
  arith,
  length-append (to_hex (l.m_lsn / 2 ^ 32)) (b'/' ∷ to_hex (l.m_lsn % 2 ^ 32)),
  length-to_hex (l.m_lsn / 2 ^ 32),
  length-to_hex (l.m_lsn % 2 ^ 32),
)

-- An LSN of 64 bits is read back from its own text.
pub parse-str : (l : LsnType) → l.m_lsn < u64_mod → parse (str l) ≡ ok l
parse-str l h =
    rw
      (
        str-fits l h,
        parse-to_hex (upper l) (lower l) b'/' (unfold upper in omega arith)
            (unfold lower in omega arith) (inr refl),
      )
      (unfold upper lower in ground arith)

-- An LSN is before another by `operator<` exactly if its upper half is smaller, or the upper halves
-- are equal and its lower half is smaller.
pub less_iff :
    (l k : LsnType)
    → (less l k ≡ true) ↔ ((upper l < upper k) ⊎ ((upper l ≡ upper k) × (lower l < lower k)))
unfolding less upper lower
less_iff l k = ground arith
