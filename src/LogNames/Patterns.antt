-- ===== src/LogNames/Patterns.antt =====
-- What the extension and the expression make of a name that `osmdbt-get-log` gives.
use osmdbt_pgoutput.Base.{
  ℕ, suc, ◌<◌, ◌≡◌, ◌≢◌, refl, ap, ◌∙◌, Bool, true, false, ◌&&◌, none, some, [], ◌∷◌, ◌++◌, arith,
  Bytes, codes, Lacks, All, equal,
}
use osmdbt_pgoutput.Cstd.{to_hex, digits, hex_digit}
use osmdbt_pgoutput.Cstd.Digits.{digits-ne-nil, digits-All}
use osmdbt_pgoutput.LogNames.{
  last_dot, extension, is_some, is_hex, fits, match_front, span_hex, front, match_dash, match_lsn,
}

last_dot-Lacks : (s : Bytes) → Lacks b'.' s → last_dot s ≡ none
unfolding last_dot
last_dot-Lacks [] h = refl
last_dot-Lacks (c ∷ s) h = rw (last_dot-Lacks s h.1) (ground arith)

-- The last dot of a text that ends in a dot and letters is this dot.
last_dot-append : (s ext : Bytes) → Lacks b'.' ext → last_dot (s ++ b'.' ∷ ext) ≡ some (b'.' ∷ ext)
unfolding last_dot
last_dot-append [] ext h = rw (last_dot-Lacks ext h) refl
last_dot-append (c ∷ s) ext h = rw (last_dot-append s ext h) refl

pub extension-append :
    (c d : ℕ) (s ext : Bytes)
    → Lacks b'.' (d ∷ ext)
    → extension (c ∷ (s ++ b'.' ∷ d ∷ ext)) ≡ b'.' ∷ d ∷ ext
unfolding extension equal last_dot
extension-append c d [] ext h = rw (last_dot-append [] (d ∷ ext) h) (ground arith)
extension-append c d (e ∷ []) ext h = rw (last_dot-append (e ∷ []) (d ∷ ext) h) (ground arith)
extension-append c d (e ∷ f ∷ s) ext h = rw (last_dot-append (e ∷ f ∷ s) (d ∷ ext) h) (ground arith)

&&-true : (a b : Bool) → (a && b) ≡ true → (a ≡ true) × (b ≡ true)
&&-true true b h = (refl, h)
&&-true false b h = cc

IsHex : ℕ → Type 0
IsHex c = is_hex c ≡ true

hex_digit-IsHex : (k : ℕ) → k < 16 → IsHex (hex_digit k)
unfolding IsHex
hex_digit-IsHex k h = ground arith

to_hex-IsHex : (n : ℕ) → All IsHex (to_hex n)
unfolding to_hex
to_hex-IsHex n = digits-All IsHex 16 (suc n) n (omega arith) hex_digit-IsHex

to_hex-is_some : (n : ℕ) → is_some (to_hex n) ≡ true
unfolding to_hex
to_hex-is_some n = ne-is_some (digits 16 (suc n) n) (digits-ne-nil 16 n n)
  where
    ne-is_some : (s : Bytes) → s ≢ [] → is_some s ≡ true
    ne-is_some [] h = absurd (h refl)
    ne-is_some (c ∷ s) h = refl

span_hex-append :
    (s t : Bytes) (c : ℕ) → All IsHex s → is_hex c ≡ false → span_hex (s ++ c ∷ t) ≡ (s, c ∷ t)
unfolding span_hex IsHex
span_hex-append [] t c h stop = rw stop refl
span_hex-append (d ∷ s) t c h stop = rw (h.0, span_hex-append s t c h.1 stop) refl

abbrev fits_all : Bytes → Bytes → Bool
fits_all [] [] = true
fits_all (p ∷ ps) (c ∷ s) = fits p c && fits_all ps s
fits_all _ _ = false

-- Each element of the front fits.
abbrev pub Fits : Bytes → Bytes → Type 0
Fits ps s = fits_all ps s ≡ true

match_front-step :
    (p c : ℕ) (ps s : Bytes) → fits p c ≡ true → match_front (p ∷ ps) (c ∷ s) ≡ match_front ps s
unfolding match_front
match_front-step p c ps s h = rw h refl

-- A front that fits leaves the rest of the text to the rest of the expression.
pub match_front-append :
    (ps s qs t : Bytes) → Fits ps s → match_front (ps ++ qs) (s ++ t) ≡ match_front qs t
match_front-append [] [] qs t h = refl
match_front-append [] (c ∷ s) qs t h = cc
match_front-append (p ∷ ps) [] qs t h = cc
match_front-append (p ∷ ps) (c ∷ s) qs t h =
    let (here, rest) = &&-true (fits p c) (fits_all ps s) h in
    match_front-step p c (ps ++ qs) (s ++ t) here ∙ match_front-append ps s qs t rest

pub Fits-append : (ps s qs t : Bytes) → Fits ps s → Fits qs t → Fits (ps ++ qs) (s ++ t)
Fits-append [] [] qs t h k = k
Fits-append [] (c ∷ s) qs t h k = cc
Fits-append (p ∷ ps) [] qs t h k = cc
Fits-append (p ∷ ps) (c ∷ s) qs t h k =
    let (here, rest) = &&-true (fits p c) (fits_all ps s) h in
    let rest' : Fits (ps ++ qs) (s ++ t) = Fits-append ps s qs t rest k in
    ap (λ b. b && fits_all (ps ++ qs) (s ++ t)) here ∙ rest'

-- The text behind a front that fits.
match_front-rest : (s t : Bytes) → Fits front s → match_front front (s ++ t) ≡ some t
unfolding match_front
match_front-rest s t h = match_front-append front s [] t h

-- Behind a front that fits, two numbers in hexadecimal are the group of the expression.
pub match_lsn-to_hex :
    (s : Bytes) (m n : ℕ)
    → Fits front s
    → match_lsn (s ++ (to_hex m ++ (b'-' ∷ (to_hex n ++ codes ".log"))))
      ≡ some (to_hex m ++ (b'-' ∷ to_hex n))
unfolding match_lsn match_dash
match_lsn-to_hex s m n h =
    rw
      (
        match_lsn,
        match_front-rest s (to_hex m ++ (b'-' ∷ (to_hex n ++ codes ".log"))) h,
        span_hex-append (to_hex m) (to_hex n ++ codes ".log") b'-' (to_hex-IsHex m) refl,
        to_hex-is_some m,
        match_dash,
        span_hex-append (to_hex n) (codes "log") b'.' (to_hex-IsHex n) refl,
        to_hex-is_some n,
      )
      (rw (span_hex-append (to_hex m) (to_hex n ++ codes ".log") b'-' (to_hex-IsHex m) refl)
        (unfold equal in refl))

pub match_lsn-none : (fn : Bytes) → match_front front fn ≡ none → match_lsn fn ≡ none
unfolding match_lsn
match_lsn-none fn h = rw (match_lsn, h) refl
