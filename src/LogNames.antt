-- ===== src/LogNames.antt =====
-- The names of log files: the extension of a name, the expression that `osmdbt-catchup` matches a
-- name with (src/osmdbt-catchup.cpp), and the loop over the log directory (src/osmdbt-create-diff.cpp).
pub mod Patterns
pub mod Entries
use osmdbt_pgoutput.Base.{
  ℕ, Bool, true, false, ◌&&◌, ◌||◌, Option, none, some, List, [], ◌∷◌, ◌++◌, leb, ◌==◌,
  if◌then◌else◌, Bytes, codes, equal,
}

-- The part from the last dot on, and what is before it in its first element.
unfoldable pub last_dot : Bytes → Option Bytes
last_dot [] = none
last_dot (c ∷ s) = elim (last_dot s) [
  | some ext ↦ some ext
  | none ↦ if c == b'.' then some (c ∷ s) else none
]

-- `path::extension` of a path that is one name: a dot in front starts no extension.
unfoldable pub extension : Bytes → Bytes
unfolding last_dot
extension [] = []
extension (c ∷ s) =
    if equal (c ∷ s) (codes "..") then [] else elim (last_dot s) [ none ↦ [] | some ext ↦ ext ]

unfoldable pub is_log : Bytes → Bool
unfolding extension
is_log fn = equal (extension fn) (codes ".log")

-- The loop over the files of the log directory.
unfoldable pub logs_in_dir : List Bytes → List Bytes
unfolding is_log
logs_in_dir [] = []
logs_in_dir (file ∷ files) =
    let rest = logs_in_dir files in if is_log file then file ∷ rest else rest

abbrev pub is_some : Bytes → Bool
is_some [] = false
is_some (_ ∷ _) = true

abbrev pub is_decimal : ℕ → Bool
is_decimal c = leb b'0' c && leb c b'9'

-- `[0-9A-F]`.
abbrev pub is_hex : ℕ → Bool
is_hex c = is_decimal c || (leb b'A' c && leb c b'F')

-- An element of the expression's front: `\d`, written as 0 here, or a letter.
abbrev pub fits : ℕ → ℕ → Bool
fits p c = if p == b'0' then is_decimal c else p == c

-- What follows the front of the expression in a text.
unfoldable pub match_front : Bytes → Bytes → Option Bytes
match_front [] s = some s
match_front (p ∷ ps) [] = none
match_front (p ∷ ps) (c ∷ s) = let rest = match_front ps s in if fits p c then rest else none

-- The digits of `[0-9A-F]+`, which is greedy, and what follows them; none of the letters that may
-- follow it is one of its digits, so nothing is tried again.
unfoldable pub span_hex : Bytes → Bytes × Bytes
span_hex [] = ([], [])
span_hex (c ∷ s) =
    let (digits, rest) = span_hex s in if is_hex c then (c ∷ digits, rest) else ([], c ∷ s)

abbrev pub front : Bytes
front = codes "osm-repl-0000-00-00T00:00:00Z-lsn-"

-- Behind the first digits.
unfoldable pub match_dash : Bytes → Bytes → Option Bytes
unfolding span_hex
match_dash upper (c ∷ s) =
    let (lower, rest) = span_hex s in
    if c == b'-' && is_some lower && equal rest (codes ".log")
    then some (upper ++ (b'-' ∷ lower))
    else none
match_dash upper [] = none

-- `regex_match` with the whole expression: the text of its group, `m.str(1)`.
unfoldable pub match_lsn : Bytes → Option Bytes
unfolding match_front span_hex match_dash
match_lsn fn = elim (match_front front fn) [
  | none ↦ none
  | some s ↦ let (upper, rest) = span_hex s in if is_some upper then match_dash upper rest else none
]
