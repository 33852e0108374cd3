-- ===== src/Catchup/Greatest.antt =====
-- The greatest of the LSNs in the names of the log files (src/osmdbt-catchup.cpp).
use osmdbt_pgoutput.Base.{
  ◌≡◌, ◌⊎◌, inl, inr, refl, sym, ap, ◌∙◌, true, false, Option, none, some, List, [], ◌∷◌, arith,
  Bytes, All, Bool-cases, if◌then◌else◌,
}
use osmdbt_pgoutput.Base.Result.{ok, >>=-eq-ok, ok-injective}
use osmdbt_pgoutput.Lsn.{LsnType, no_lsn, less, parse}
use osmdbt_pgoutput.LogNames.{is_log, match_lsn}
use osmdbt_pgoutput.Catchup.{visit_log, visit_files, get_lsn}

-- The file is no log file, or its name has an LSN, which is not greater.
abbrev pub NotAbove : LsnType → Bytes → Type 0
NotAbove lsn fn =
    (is_log fn ≡ false)
    ⊎ ((text : Bytes) × (k : LsnType) × (match_lsn fn ≡ some text)
        × (parse text ≡ ok k)
        × (less lsn k ≡ false))

greater_keeps : (l k j : LsnType) → less l j ≡ false → less (if less l k then k else l) j ≡ false
unfolding less
greater_keeps l k j h = ground arith

greater_new : (l k : LsnType) → less (if less l k then k else l) k ≡ false
unfolding less
greater_new l k = ground arith

-- The name of the log file has this LSN.
abbrev pub HasLsn : LsnType → Bytes → Type 0
HasLsn lsn fn =
    (is_log fn ≡ true) × ((text : Bytes) × (match_lsn fn ≡ some text) × (parse text ≡ ok lsn))

-- One of the names has this LSN.
abbrev pub Named : LsnType → List Bytes → Type 0
Named lsn [] = ⊥
Named lsn (fn ∷ fns) = HasLsn lsn fn ⊎ Named lsn fns

visit_log-some :
    (fn : Bytes) (o : Option Bytes) (l l' : LsnType)
    → visit_log fn o l ≡ ok l'
    → (text : Bytes) × (k : LsnType) × (o ≡ some text)
      × (parse text ≡ ok k)
      × (l' ≡ (if less l k then k else l))
unfolding visit_log
visit_log-some fn none l l' h = cc
visit_log-some fn (some text) l l' h =
    let (k, e, rest) = >>=-eq-ok (parse text) _ h in (text, k, refl, e, sym (ok-injective rest))

-- One round of the loop.
Round : Bytes → LsnType → LsnType → Type 0
Round fn l l' =
    NotAbove l' fn
    × ((j : LsnType) → less l j ≡ false → less l' j ≡ false)
    × ((l' ≡ l) ⊎ HasLsn l' fn)

round_other : (fn : Bytes) (l l' : LsnType) → is_log fn ≡ false → ok l ≡ ok l' → Round fn l l'
unfolding Round
round_other fn l l' other h =
    let same : l' ≡ l = sym (ok-injective h) in (inl other, λ j e. rw same e, inl same)

round_log :
    (fn : Bytes) (l l' : LsnType)
    → is_log fn ≡ true
    → visit_log fn (match_lsn fn) l ≡ ok l'
    → Round fn l l'
unfolding Round
round_log fn l l' log h =
    let (text, k, m, e, new) = visit_log-some fn (match_lsn fn) l l' h in
    (
      inr (text, k, m, e, rw new (greater_new l k)),
      λ j hj. rw new (greater_keeps l k j hj),
      elim (Bool-cases (less l k)) [
        | inl up ↦ inr (log, (text, m, e ∙ ap ok (rw (new, up) refl)))
        | inr down ↦ inl (rw (new, down) refl)
      ],
    )

round_lem :
    (fn : Bytes) (l l' : LsnType)
    → (if is_log fn then visit_log fn (match_lsn fn) l else ok l) ≡ ok l'
    → Round fn l l'
round_lem fn l l' h = elim (Bool-cases (is_log fn)) [
  | inl log ↦ round_log fn l l' log (rw log at h)
  | inr other ↦ round_other fn l l' other (rw other at h)
]

NotAbove-keeps :
    (fn : Bytes) (l l' : LsnType)
    → ((j : LsnType) → less l j ≡ false → less l' j ≡ false)
    → NotAbove l fn
    → NotAbove l' fn
NotAbove-keeps fn l l' keeps (inl other) = inl other
NotAbove-keeps fn l l' keeps (inr (text, k, m, e, h)) = inr (text, k, m, e, keeps k h)

visit_files_lem :
    (fns : List Bytes) (l l' : LsnType)
    → visit_files fns l ≡ ok l'
    → All (NotAbove l') fns
      × ((j : LsnType) → less l j ≡ false → less l' j ≡ false)
      × ((l' ≡ l) ⊎ Named l' fns)
unfolding visit_files Round
visit_files_lem [] l l' h =
    let same : l' ≡ l = sym (ok-injective h) in (tt, λ j e. rw same e, inl same)
visit_files_lem (fn ∷ fns) l l' h =
    let (l1, first, rest) =
      >>=-eq-ok (if is_log fn then visit_log fn (match_lsn fn) l else ok l) (visit_files fns) h in
    let (above, keeps, from) = round_lem fn l l1 first in
    let (all_above, keeps', from') = visit_files_lem fns l1 l' rest in
    (
      (NotAbove-keeps fn l1 l' keeps' above, all_above),
      (λ j e. keeps' j (keeps j e)),
      elim from' [
        | inr later ↦ inr (inr later)
        | inl same ↦ elim from [
          | inl first_same ↦ inl (same ∙ first_same)
          | inr here ↦ inr (inl (rw same here))
        ]
      ],
    )

-- If `get_lsn` succeeds, every log file of the directory has an LSN in its name, none of them is
-- greater than the result, and the result is the LSN of one of the log files or 0.
pub get_lsn_lem :
    (files : List Bytes) (l : LsnType)
    → get_lsn files ≡ ok l
    → All (NotAbove l) files × ((l ≡ no_lsn) ⊎ Named l files)
unfolding get_lsn
get_lsn_lem files l h =
    let (all_above, _, from) = visit_files_lem files no_lsn l h in (all_above, from)
