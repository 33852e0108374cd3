-- ===== src/Lsn.antt =====
-- The log sequence number (src/lsn.hpp, src/lsn.cpp).
pub mod RoundTrip
use osmdbt_pgoutput.Base.{
  ℕ, ◌+◌, ◌*◌, ◌/◌, ◌%◌, ◌^◌, Bool, not, ◌&&◌, [], ◌∷◌, ◌++◌, ltb, ◌==◌, Bytes, codes,
}
use osmdbt_pgoutput.Base.Result.{runtime_error, Exception, Result, ok, ◌>>=◌, ◌>>◌, throws_if}
use osmdbt_pgoutput.Cstd.{u64_mod, peek, strtoull, to_hex, snprintf, c_str}

-- `m_lsn` is a `uint64_t`.
pub record LsnType : Type 0 where
  pub m_lsn : ℕ

abbrev pub no_lsn : LsnType
no_lsn = record { m_lsn = 0 }

-- `operator bool`.
unfoldable pub is_set : LsnType → Bool
is_set lsn = not (lsn.m_lsn == 0)

unfoldable pub upper : LsnType → ℕ
upper lsn = lsn.m_lsn / 2 ^ 32

-- `m_lsn & 0xffffffff`.
unfoldable pub lower : LsnType → ℕ
lower lsn = lsn.m_lsn % 2 ^ 32

-- `operator<`; `operator>` is this with its arguments exchanged.
unfoldable pub less : LsnType → LsnType → Bool
less lhs rhs = ltb lhs.m_lsn rhs.m_lsn

unfoldable pub same : LsnType → LsnType → Bool
same lhs rhs = lhs.m_lsn == rhs.m_lsn

parse_error : Bytes → Exception
parse_error lsn = runtime_error (codes "Error parsing LSN '" ++ (c_str lsn ++ codes "'"))

-- `end + 1`; the byte at `end` is no 0 there.
abbrev behind : Bytes → Bytes
behind [] = []
behind (_ ∷ s) = s

-- The constructor from a text.
unfoldable pub parse : Bytes → Result LsnType
unfolding parse_error
parse lsn = do
  let (upper_part, end) = strtoull 16 lsn
  throws_if (not (peek end == b'-') && not (peek end == b'/')) (parse_error lsn)
  let (lower_part, end') = strtoull 16 (behind end)
  throws_if (not (peek end' == 0)) (parse_error lsn)
  ok (record { m_lsn = (upper_part * 2 ^ 32 + lower_part) % u64_mod })

unfoldable pub str : LsnType → Bytes
str lsn = snprintf 20 (to_hex (upper lsn) ++ (b'/' ∷ to_hex (lower lsn)))
