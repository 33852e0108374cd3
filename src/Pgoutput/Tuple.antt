-- ===== src/Pgoutput/Tuple.antt =====
-- Reading the tuples that the protocol sends.
use osmdbt_pgoutput.Base.{◌^◌, ◌≡◌, none, some, List, [], ◌∷◌, map, arith, All, length, ltb, true}
use osmdbt_pgoutput.Pgoutput.Reader.{read_column, read_columns, read_tuple_data}
use osmdbt_pgoutput.Pgoutput.Reader.Yields.{
  Yields, Yields-pure, Yields-bind, Yields-last, Yields-read, Yields-read_bytes,
}
use osmdbt_pgoutput.Pgoutput.Protocol.{
  Column, null, unchanged, text, value, column_bytes, columns_bytes, tuple_bytes, IsColumn, IsTuple,
}

Yields-read_column : (c : Column) → IsColumn c → Yields read_column (column_bytes c) (value c)
unfolding read_column
Yields-read_column null h = Yields-bind _ (Yields-read 1 b'n' (omega arith)) (Yields-pure none)
Yields-read_column unchanged h = Yields-bind _ (Yields-read 1 b'u' (omega arith)) (Yields-pure none)
Yields-read_column (text t) h = Yields-bind _ (Yields-read 1 b't' (omega arith)) (
    Yields-bind _ (Yields-read 4 (length t) (omega arith)) (Yields-last some (Yields-read_bytes t)))

Yields-read_columns :
    (cs : List Column)
    → All IsColumn cs
    → Yields (read_columns (length cs)) (columns_bytes cs) (map value cs)
unfolding read_columns
Yields-read_columns [] h = Yields-pure []
Yields-read_columns (c ∷ cs) h =
    Yields-bind _ (Yields-read_column c h.0)
      (Yields-last (λ rest. value c ∷ rest) (Yields-read_columns cs h.1))

pub Yields-read_tuple_data :
    (cs : List Column) → IsTuple cs → Yields read_tuple_data (tuple_bytes cs) (map value cs)
unfolding read_tuple_data
Yields-read_tuple_data cs (fits, h) =
    Yields-bind _ (Yields-read 2 (length cs) (omega arith))
      (let e : ltb (length cs) (2 ^ 15) ≡ true = ground arith in rw e (Yields-read_columns cs h))
