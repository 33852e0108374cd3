-- ===== src/Pgoutput/Reader.antt =====
-- `row_low_level_parser` (src/pgoutput.hpp, src/pgoutput.cpp): reading from a message at an offset.
-- A read that reaches beyond the message is a fault. A signed integer is its bit pattern, an
-- unsigned number, until its sign matters.
pub mod Yields
use osmdbt_pgoutput.Base.{
  ℕ, zero, suc, ◌+◌, ◌*◌, ◌%◌, ◌^◌, Bool, true, false, Option, none, some, List, [], ◌∷◌, ◌++◌, ltb,
  leb, ◌==◌, if◌then◌else◌, Bytes, length, take, drop,
}
use osmdbt_pgoutput.Base.Result
use osmdbt_pgoutput.Base.Result.{Result, ok, throws, fault}

-- `m_offset` is a `uint32_t`.
pub record RowLowLevelParser : Type 0 where
  pub m_row : Bytes
  pub m_offset : ℕ

abbrev pub of_row : Bytes → RowLowLevelParser
of_row row = record { m_row = row; m_offset = 0 }

-- A method that reads from the message.
abbrev pub Reading : Type 0 → Type 0
Reading A = RowLowLevelParser → Result (A × RowLowLevelParser)

infixl 5 ◌>>=◌ ◌>>◌
abbrev pub ◌>>=◌ : {A B : Type 0} → Reading A → (A → Reading B) → Reading B
◌>>=◌ m f p = elim (m p) [ ok (a, p') ↦ f a p' | throws e ↦ throws e | fault ↦ fault ]

abbrev pub ◌>>◌ : {A B : Type 0} → Reading A → Reading B → Reading B
m >> k = m >>= λ _. k

abbrev pub pure : {A : Type 0} → A → Reading A
pure a p = ok (a, p)

abbrev pub lift : {A : Type 0} → Result A → Reading A
lift r p = elim r [ ok a ↦ ok (a, p) | throws e ↦ throws e | fault ↦ fault ]

abbrev pub unread : RowLowLevelParser → Bytes
unread p = drop p.m_offset p.m_row

abbrev pub advance : RowLowLevelParser → ℕ → RowLowLevelParser
advance p n = record p { m_offset = (p.m_offset + n) % 2 ^ 32 }

-- `read_network_byte_order`, at a type of `k` bytes; there may be fewer.
unfoldable pub big_endian : ℕ → Bytes → Option ℕ
big_endian zero s = some 0
big_endian (suc k) [] = none
big_endian (suc k) (c ∷ s) = elim (big_endian k s) [ none ↦ none | some v ↦ some (c * 256 ^ k + v) ]

-- `read<T>` at a type of `k` bytes.
unfoldable pub read : ℕ → Reading ℕ
read k p = elim (big_endian k (unread p)) [ none ↦ fault | some v ↦ ok (v, advance p k) ]

-- The text up to the next byte 0, if there is one.
unfoldable pub c_string : Bytes → Option Bytes
c_string [] = none
c_string (c ∷ s) =
    let rest = c_string s in
    if c == 0 then some [] else elim rest [ none ↦ none | some t ↦ some (c ∷ t) ]

-- `read_string()`.
unfoldable pub read_string : Reading Bytes
read_string p = elim (c_string (unread p)) [
  | none ↦ fault
  | some t ↦ ok (t, advance p (length t + 1))
]

-- `read_string(len)`.
unfoldable pub read_bytes : ℕ → Reading Bytes
read_bytes len p =
    if leb len (length (unread p)) then ok (take len (unread p), advance p len) else fault

-- One round of the loop of `read_tuple_data`: all columns but those of text are left empty.
unfoldable pub read_column : Reading (Option Bytes)
read_column = do
  col_data_category ← read 1
  if col_data_category == b't'
      then (do col_length ← read 4; text ← read_bytes col_length; pure (some text))
      else pure none

unfoldable pub read_columns : ℕ → Reading (List (Option Bytes))
read_columns zero = pure []
read_columns (suc n) = do column ← read_column; rest ← read_columns n; pure (column ∷ rest)

-- The number of columns is an `int16_t`: below 0 there is no round.
unfoldable pub read_tuple_data : Reading (List (Option Bytes))
read_tuple_data = do
  n_columns ← read 2
  read_columns (if ltb n_columns (2 ^ 15) then n_columns else 0)
