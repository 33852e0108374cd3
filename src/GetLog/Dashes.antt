-- ===== src/GetLog/Dashes.antt =====
-- The text of an LSN in the name of a log file (src/osmdbt-get-log.cpp).
use osmdbt_pgoutput.Base.{◌<◌, ◌≡◌, inl, refl, ap, ◌∙◌, [], ◌∷◌, ◌++◌, map, arith, Bytes, Lacks}
use osmdbt_pgoutput.Base.Result.{ok}
use mathlib.Core.List.{map-append}
use osmdbt_pgoutput.Cstd.Lines.{to_hex-Lacks}
use osmdbt_pgoutput.Cstd.{u64_mod, to_hex, digit_value}
use osmdbt_pgoutput.Lsn.{LsnType, parse, str, upper, lower}
use osmdbt_pgoutput.Lsn.RoundTrip.{parse-to_hex, str-fits}
use osmdbt_pgoutput.GetLog.{dash}

map-dash : (s : Bytes) → Lacks b'/' s → map dash s ≡ s
unfolding dash
map-dash [] h = refl
map-dash (c ∷ s) h = rw (map-dash s h.1) (ground arith)

map-dash_join :
    (s t : Bytes) → Lacks b'/' s → Lacks b'/' t → map dash (s ++ (b'/' ∷ t)) ≡ s ++ (b'-' ∷ t)
unfolding dash
map-dash_join s t h k = map-append dash s (b'/' ∷ t) ∙ rw (map-dash s h, map-dash t k) refl

pub map-dash-str :
    (l : LsnType)
    → l.m_lsn < u64_mod
    → map dash (str l) ≡ to_hex (upper l) ++ (b'-' ∷ to_hex (lower l))
unfolding digit_value
map-dash-str l h =
    ap (map dash) (str-fits l h)
    ∙ map-dash_join (to_hex (upper l)) (to_hex (lower l)) (to_hex-Lacks b'/' (upper l) refl)
        (to_hex-Lacks b'/' (lower l) refl)

-- The text of an LSN of 64 bits, with the dash that `osmdbt-get-log` writes for the slash in the name
-- of a log file, is read as that LSN.
pub parse-dash : (l : LsnType) → l.m_lsn < u64_mod → parse (map dash (str l)) ≡ ok l
parse-dash l h =
    ap parse (map-dash-str l h)
    ∙ parse-to_hex (upper l) (lower l) b'-' (unfold upper in omega arith)
        (unfold lower in omega arith) (inl refl)
    ∙ (unfold upper lower in ground arith)
