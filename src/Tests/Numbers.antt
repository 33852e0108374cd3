-- ===== src/Tests/Numbers.antt =====
-- Log sequence numbers and their texts.
use osmdbt_pgoutput.Base.{equal, ◌≡◌, ◌⊎◌, inr, refl, List, [], ◌∷◌, ◌++◌, arith, Bytes, codes, All}
use osmdbt_pgoutput.Base.Result.{ok}
use osmdbt_pgoutput.Cstd.{to_hex}
use osmdbt_pgoutput.Lsn.{LsnType, no_lsn, parse, str, upper, lower}
use osmdbt_pgoutput.Cstd.{strtoull}
use osmdbt_pgoutput.Catchup.{get_lsn}
use osmdbt_pgoutput.Catchup.Greatest.{NotAbove, Named, get_lsn_lem}
use osmdbt_pgoutput.LogNames.{is_log, match_lsn}
use osmdbt_pgoutput.Lsn.RoundTrip.{parse-to_hex, str-fits}

parse-to_hex_example : parse (codes "1F/A0B1") ≡ ok (record { m_lsn = 0x1F0000A0B1 })
unfolding to_hex
parse-to_hex_example = parse-to_hex 0x1F 0xA0B1 b'/' (omega arith) (omega arith) (inr refl)

some_lsn : LsnType
some_lsn = record { m_lsn = 0x1F0000A0B1 }

str-fits_example : str some_lsn ≡ to_hex (upper some_lsn) ++ (b'/' ∷ to_hex (lower some_lsn))
unfolding some_lsn
str-fits_example = str-fits some_lsn (omega arith)

abbrev names : List Bytes
names =
    codes "osm-repl-2020-03-18T14:18:49Z-lsn-1F-A0B1.log"
    ∷ codes "osmdbt.log.done"
    ∷ codes "osm-repl-2020-03-18T14:19:49Z-lsn-1E-FFFF.log"
    ∷ []

greatest : get_lsn names ≡ ok (record { m_lsn = 0x1F0000A0B1 })
unfolding get_lsn strtoull is_log match_lsn equal
greatest = refl

get_lsn_lem_example :
    All (NotAbove (record { m_lsn = 0x1F0000A0B1 })) names
    × ((record { m_lsn = 0x1F0000A0B1 } ≡ no_lsn) ⊎ Named (record { m_lsn = 0x1F0000A0B1 }) names)
get_lsn_lem_example = get_lsn_lem names (record { m_lsn = 0x1F0000A0B1 }) greatest
