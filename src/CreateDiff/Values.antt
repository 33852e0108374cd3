-- ===== src/CreateDiff/Values.antt =====
-- The values in the text of `wanted`.
use osmdbt_pgoutput.Base.{
  ◌≡◌, refl, sym, ap, ◌∙◌, List, [], ◌∷◌, ◌++◌, append_assoc, append-nil, map, Bytes, codes, ℕ,
}
use osmdbt_pgoutput.Base.Result.{ok, ◌>>=◌}
use osmdbt_pgoutput.Cstd.{to_string, to_string_ℤ}
use osmdbt_pgoutput.Osmium.{join}
use osmdbt_pgoutput.Osmobj.{Osmobj}
use osmdbt_pgoutput.CreateDiff.Queries.{set_back, add_wanted, wanted}

-- `(id,version)`.
abbrev pub value : Osmobj → Bytes
value obj = b'(' ∷ (to_string_ℤ obj.m_id ++ (b',' ∷ (to_string obj.m_version ++ codes ")")))

set_back-snoc : (c b : ℕ) (s : Bytes) → set_back c (s ++ b ∷ []) ≡ ok (s ++ c ∷ [])
set_back-snoc c b [] = refl
set_back-snoc c b (x ∷ []) = refl
set_back-snoc c b (x ∷ y ∷ s) = rw (set_back-snoc c b (y ∷ s)) refl

-- What the loop appends for one object.
abbrev piece : Osmobj → Bytes
piece obj = b'(' ∷ (to_string_ℤ obj.m_id ++ (b',' ∷ (to_string obj.m_version ++ codes "),")))

piece-value : (obj : Osmobj) (s : Bytes) → piece obj ++ s ≡ value obj ++ (b',' ∷ s)
piece-value obj s =
    let version = to_string obj.m_version in
    let id = to_string_ℤ obj.m_id in
    ap (◌∷◌ b'(') (
      append_assoc id (b',' ∷ (version ++ codes "),")) s
      ∙ ap (λ t. id ++ (b',' ∷ t))
          (append_assoc version (codes "),") s ∙ sym (append_assoc version (codes ")") (b',' ∷ s)))
      ∙ sym (append_assoc id (b',' ∷ (version ++ codes ")")) (b',' ∷ s)))

add_wanted-join :
    (sql : Bytes) (obj : Osmobj) (objs : List Osmobj)
    → add_wanted sql (obj ∷ objs) ≡ (sql ++ join b',' (value obj) (map value objs)) ++ b',' ∷ []
add_wanted-join sql obj [] =
    ap (λ t. sql ++ t) (sym (append-nil (piece obj)) ∙ piece-value obj [])
    ∙ sym (append_assoc sql (value obj) (b',' ∷ []))
add_wanted-join sql obj (obj' ∷ objs) =
    add_wanted-join (sql ++ piece obj) obj' objs
    ∙ ap (λ t. t ++ b',' ∷ [])
        (append_assoc sql (piece obj) (join b',' (value obj') (map value objs))
          ∙ ap (λ t. sql ++ t) (piece-value obj (join b',' (value obj') (map value objs))))

-- For at least one object the text of `wanted` has the pairs `(id,version)` of all objects in their
-- order, with commas between them, inside of the parentheses of the `WITH` clause.
pub wanted_lem :
    (obj : Osmobj) (objs : List Osmobj)
    → wanted (obj ∷ objs)
      ≡ ok (
          (codes "WITH wanted(id, version) AS (VALUES " ++ join b',' (value obj) (map value objs))
          ++ codes ") ")
unfolding wanted
wanted_lem obj objs =
    let head =
      codes "WITH wanted(id, version) AS (VALUES " ++ join b',' (value obj) (map value objs) in
    ap (λ s. set_back b')' s >>= λ sql. ok (sql ++ b' ' ∷ []))
      (add_wanted-join (codes "WITH wanted(id, version) AS (VALUES ") obj objs)
    ∙ ap (λ r. r >>= λ sql. ok (sql ++ b' ' ∷ [])) (set_back-snoc b')' b',' head)
    ∙ ap ok (append_assoc head (b')' ∷ []) (b' ' ∷ []))
