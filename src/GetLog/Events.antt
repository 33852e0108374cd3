-- ===== src/GetLog/Events.antt =====
-- The rows as a list of events, and the log as a function of it.
use osmdbt_pgoutput.Base.{
  ℕ, Bool, true, false, ◌||◌, ◌≡◌, ◌∙◌, refl, ap, List, [], ◌∷◌, ◌++◌, append_assoc, append-nil,
  arith, ◌==◌, if◌then◌else◌, Bytes, codes, Bool-cases, inl, inr,
}
use osmdbt_pgoutput.Base.Result.{Result, ok, throws, fault, ◌>>=◌}
use osmdbt_pgoutput.Cstd.{peek}
use osmdbt_pgoutput.Pgoutput.{
  Parser, set_row, parse_op, parse_op_relation, parse_op_insert, parse_op_update,
}
use osmdbt_pgoutput.Pgoutput.Messages.{peek-parse_op_insert, peek-parse_op_update}
use osmdbt_pgoutput.GetLog.Hex.{hex2bytes}
use osmdbt_pgoutput.GetLog.{Row, Log, line, finish_row, process_op, process_row, process_rows}

-- What a row tells the log: the bounds of a transaction, an inserted or an updated version of an
-- object with its entry, or nothing.
pub data Event : Type 0 where
  begins commits skipped : Event
  inserts updates : Bytes → Event

abbrev pub noted_as : Event → Parser → Result (Event × Parser)
noted_as e p = ok (e, p)

-- The event of a message, by its operation.
abbrev pub event_of : ℕ → Parser → Result (Event × Parser)
event_of op p =
    if op == b'B'
    then ok (begins, p)
    else if op == b'C'
    then ok (commits, p)
    else if op == b'R'
    then (parse_op_relation p >>= λ p'. noted_as skipped p')
    else if op == b'I'
    then (parse_op_insert p >>= λ r. noted_as (inserts r.0) r.1)
    else if op == b'U'
    then (parse_op_update p >>= λ r. noted_as (updates r.0) r.1)
    else ok (skipped, p)

abbrev pub decode_row : Row → Parser → Result (Event × Parser)
decode_row row p = hex2bytes row.data' >>= λ s. parse_op (set_row s p) >>= λ r. event_of r.0 r.1

abbrev pub decode_rows : List Row → Parser → Result (List (Row × Event) × Parser)
decode_rows [] p = ok ([], p)
decode_rows (row ∷ rows) p =
    decode_row row p >>= λ r. decode_rows rows r.1 >>= λ s. ok ((row, r.0) ∷ s.0, s.1)

-- The log as the events make it: a line for each version of an object, and one for the end of
-- each transaction that has such a line.
abbrev pub log_text : Bool → List (Row × Event) → Bytes
log_text open' [] = []
log_text open' ((row, begins) ∷ es) = log_text false es
log_text open' ((row, commits) ∷ es) =
    (if open' then line row (codes "C") else []) ++ log_text false es
log_text open' ((row, skipped) ∷ es) = log_text open' es
log_text open' ((row, inserts m) ∷ es) = line row m ++ log_text true es
log_text open' ((row, updates m) ∷ es) = line row m ++ log_text true es

abbrev pub is_open : Bool → List (Row × Event) → Bool
is_open open' [] = open'
is_open open' ((row, begins) ∷ es) = is_open false es
is_open open' ((row, commits) ∷ es) = is_open false es
is_open open' ((row, skipped) ∷ es) = is_open open' es
is_open open' ((row, inserts m) ∷ es) = is_open true es
is_open open' ((row, updates m) ∷ es) = is_open true es

-- The LSN of the last transaction that ends.
abbrev pub last_lsn : Bytes → List (Row × Event) → Bytes
last_lsn lsn [] = lsn
last_lsn lsn ((row, commits) ∷ es) = last_lsn row.lsn es
last_lsn lsn ((row, _) ∷ es) = last_lsn lsn es

abbrev pub has_insert : List (Row × Event) → Bool
has_insert [] = false
has_insert ((row, inserts m) ∷ es) = true
has_insert ((row, _) ∷ es) = has_insert es

abbrev pub log_of : Log → List (Row × Event) → Parser → Log
log_of log es p = record {
  lsn = last_lsn log.lsn es;
  text = log.text ++ log_text log.data_in_current_transaction es;
  data_in_current_transaction = is_open log.data_in_current_transaction es;
  has_actual_data = log.has_actual_data || has_insert es;
  parser = p;
}

-- The log after one row.
abbrev apply_event : Row → Event → Parser → Log → Log
apply_event row e p log = log_of log ((row, e) ∷ []) p

finish_commits :
    (row : Row) (log : Log)
    → finish_row row (codes "C") log ≡ apply_event row commits log.parser log
unfolding finish_row
finish_commits row log = ground (arith, append-nil (line row (codes "C")), append-nil log.text)

finish_inserts :
    (row : Row) (m : Bytes) (p : Parser) (log : Log)
    → peek m ≡ b'N'
    → finish_row row m (record log { parser = p; data_in_current_transaction = true })
      ≡ apply_event row (inserts m) p log
unfolding finish_row
finish_inserts row m p log e = ground (arith, append-nil (line row m))

finish_updates :
    (row : Row) (m : Bytes) (p : Parser) (log : Log)
    → peek m ≡ b'R'
    → finish_row row m (record log { parser = p; data_in_current_transaction = true })
      ≡ apply_event row (updates m) p log
unfolding finish_row
finish_updates row m p log e = ground (arith, append-nil (line row m))

abbrev noting : Row → Log → Event × Parser → Result Log
noting row log r = ok (apply_event row r.0 r.1 log)

-- One branch of the switch: what is read, and then noted, is noted as its event.
branch :
    {A : Type 0} (m : Result A) (event : A → Event) (parser : A → Parser) (noted : A → Log)
    (row : Row) (log : Log)
    → ((a : A) → m ≡ ok a → noted a ≡ apply_event row (event a) (parser a) log)
    → (m >>= λ a. ok (noted a)) ≡ ((m >>= λ a. noted_as (event a) (parser a)) >>= noting row log)
branch (ok a) event parser noted row log h = ap ok (h a refl)
branch (throws e) event parser noted row log h = refl
branch fault event parser noted row log h = refl

apply_skipped :
    (row : Row) (log : Log) (p : Parser) → record log { parser = p } ≡ apply_event row skipped p log
apply_skipped row log p = ground (arith, append-nil log.text)

process_op_lem :
    (op : ℕ) (row : Row) (log : Log)
    → process_op op row log ≡ (event_of op log.parser >>= noting row log)
unfolding process_op
process_op_lem op row log = elim (Bool-cases (op == b'B')) [
  | inl e ↦ rw e (ground (arith, append-nil log.text))
  | inr e1 ↦ elim (Bool-cases (op == b'C')) [
    | inl e ↦ rw (e1, e) (ap ok (finish_commits row log))
    | inr e2 ↦ elim (Bool-cases (op == b'R')) [
      | inl e ↦
          rw (e1, e2, e)
            (branch (parse_op_relation log.parser) (λ _. skipped) (λ p. p) _ row log
              (λ p _. apply_skipped row log p))
      | inr e3 ↦ elim (Bool-cases (op == b'I')) [
        | inl e ↦
            rw (e1, e2, e3, e)
              (branch (parse_op_insert log.parser) (λ r. inserts r.0) (λ r. r.1) _ row log
                (λ r h. finish_inserts row r.0 r.1 log (peek-parse_op_insert log.parser h)))
        | inr e4 ↦ elim (Bool-cases (op == b'U')) [
          | inl e ↦
              rw (e1, e2, e3, e4, e)
                (branch (parse_op_update log.parser) (λ r. updates r.0) (λ r. r.1) _ row log
                  (λ r h. finish_updates row r.0 r.1 log (peek-parse_op_update log.parser h)))
          | inr e5 ↦ rw (e1, e2, e3, e4, e5) (ap ok (apply_skipped row log log.parser))
        ]
      ]
    ]
  ]
]

abbrev processing : Row → Log → ℕ × Parser → Result Log
processing row log r = process_op r.0 row (record log { parser = r.1 })

process_parsed :
    (row : Row) (log : Log) (q : Result (ℕ × Parser))
    → (q >>= processing row log) ≡ ((q >>= λ r. event_of r.0 r.1) >>= noting row log)
process_parsed row log (ok r) = process_op_lem r.0 row (record log { parser = r.1 })
process_parsed row log (throws e) = refl
process_parsed row log fault = refl

process_binary :
    (row : Row) (log : Log) (b : Result Bytes)
    → (b >>= λ s. parse_op (set_row s log.parser) >>= processing row log)
      ≡ ((b >>= λ s. parse_op (set_row s log.parser) >>= λ r. event_of r.0 r.1) >>= noting row log)
process_binary row log (ok s) = process_parsed row log (parse_op (set_row s log.parser))
process_binary row log (throws e) = refl
process_binary row log fault = refl

process_row_lem :
    (row : Row) (log : Log) → process_row row log ≡ (decode_row row log.parser >>= noting row log)
unfolding process_row
process_row_lem row log = process_binary row log (hex2bytes row.data')

-- The log after the first event, and then after the others.
log_of-cons :
    (log : Log) (row : Row) (e : Event) (es : List (Row × Event)) (p p' : Parser)
    → log_of (apply_event row e p log) es p' ≡ log_of log ((row, e) ∷ es) p'
log_of-cons log row begins es p p' = ground (arith, append-nil log.text)
log_of-cons log row commits es p p' = ground (
  arith,
  append-nil log.text,
  append-nil (line row (codes "C")),
  append_assoc log.text (line row (codes "C")) (log_text false es),
)
log_of-cons log row skipped es p p' = ground (arith, append-nil log.text)
log_of-cons log row (inserts m) es p p' =
    ground (arith, append-nil (line row m), append_assoc log.text (line row m) (log_text true es))
log_of-cons log row (updates m) es p p' =
    ground (arith, append-nil (line row m), append_assoc log.text (line row m) (log_text true es))

abbrev logging : Log → List (Row × Event) × Parser → Result Log
logging log r = ok (log_of log r.0 r.1)

abbrev consing : Row → Event → List (Row × Event) × Parser → Result (List (Row × Event) × Parser)
consing row e s = ok ((row, e) ∷ s.0, s.1)

logging-cons :
    (row : Row) (e : Event) (p : Parser) (log : Log) (q : Result (List (Row × Event) × Parser))
    → (q >>= logging (apply_event row e p log)) ≡ ((q >>= consing row e) >>= logging log)
logging-cons row e p log (ok s) = ap ok (log_of-cons log row e s.0 p s.1)
logging-cons row e p log (throws _) = refl
logging-cons row e p log fault = refl

process_decoded :
    (row : Row) (rows : List Row) (log : Log) (d : Result (Event × Parser))
    → ((log' : Log) → process_rows rows log' ≡ (decode_rows rows log'.parser >>= logging log'))
    → ((d >>= noting row log) >>= process_rows rows)
      ≡ ((d >>= λ r. decode_rows rows r.1 >>= consing row r.0) >>= logging log)
process_decoded row rows log (ok (e, p)) ih =
    ih (apply_event row e p log) ∙ logging-cons row e p log (decode_rows rows p)
process_decoded row rows log (throws _) ih = refl
process_decoded row rows log fault ih = refl

-- The loop is a function of the events: for whatever rows, it fails where the decoding of a row
-- fails, and else its variables end as `log_of` says.
pub process_rows_lem :
    (rows : List Row) (log : Log)
    → process_rows rows log ≡ (decode_rows rows log.parser >>= λ r. ok (log_of log r.0 r.1))
unfolding process_rows
process_rows_lem [] log = ground (arith, append-nil log.text)
process_rows_lem (row ∷ rows) log =
    rw (process_row_lem row log)
      (process_decoded row rows log (decode_row row log.parser) (process_rows_lem rows))
