-- ===== src/CreateDiff/Selection.antt =====
-- The log files that one run of `osmdbt-create-diff` reads (src/osmdbt-create-diff.cpp). The names
-- are sorted by `std::sort`, and `logs` gives the content of each, or `none`.
use mathlib.Core.Path.{transport}
use mathlib.Core.Logic.{◌↔◌}
use osmdbt_pgoutput.Base.{
  ℕ, ◌<◌, ◌≤◌, ◌≡◌, ◌≢◌, refl, sym, ap, true, false, All, map, ltb, Option, List, [], ◌∷◌, ◌++◌,
  if◌then◌else◌, Bytes, Bool-cases, inl, inr, ◌⊎◌, arith,
}
use osmdbt_pgoutput.Base.Result.{Result, ok, ◌>>=◌, >>=-eq-ok, ok-injective}
use osmdbt_pgoutput.Osmium.{Objects}
use osmdbt_pgoutput.Osmobj.{Todo, size, read_log}

over_limit : (a b : ℕ) → ltb a b ≡ true → a < b
over_limit a b e = ground arith

within_limit : (a b : ℕ) → ltb a b ≡ false → b ≤ a
within_limit a b e = ground arith

∷-injective : {f g : Bytes} {files read : List Bytes} → f ∷ files ≡ g ∷ read → files ≡ read
∷-injective e = cc

same_first : {f g : Bytes} {files read : List Bytes} → f ∷ files ≡ g ∷ read → g ≡ f
same_first e = cc

-- The initial parts of a list, but not the empty one and not the whole.
abbrev pub initials : List Bytes → List (List Bytes)
initials [] = []
initials (f ∷ []) = []
initials (f ∷ g ∷ files) = (f ∷ []) ∷ map (◌∷◌ f) (initials (g ∷ files))

module _ (osm : Objects) (log_dir : Bytes) (logs : Bytes → Option Bytes) (max_changes : ℕ) where
  -- The objects, and the names of the files that were read.
  unfoldable pub read_log_files : List Bytes → Todo → Result (Todo × List Bytes)
  unfolding read_log size
  read_log_files [] todo = ok (todo, [])
  read_log_files (log_file ∷ log_files) todo = do
    todo' ← read_log osm log_dir log_file (logs log_file) todo
    (todo'', files) ←
        if ltb max_changes (size todo'.0) then ok (todo', []) else read_log_files log_files todo'
    ok (todo'', log_file ∷ files)

  -- All of the files, one after the other.
  abbrev pub read_all : List Bytes → Todo → Result Todo
  read_all [] todo = ok todo
  read_all (log_file ∷ log_files) todo = do
    todo' ← read_log osm log_dir log_file (logs log_file) todo
    read_all log_files todo'

  -- The objects of these files are within the limit.
  abbrev pub IsWithin : Todo → List Bytes → Type 0
  IsWithin todo files =
      (todo' : Todo) × (read_all files todo ≡ ok todo') × (size todo'.0 ≤ max_changes)

  -- A result: the files that were read are the first ones, and the objects are those of these files;
  -- before the last of them the limit was kept, and if any file is left, it is passed.
  abbrev pub IsSelected : List Bytes → Todo → Todo × List Bytes → Type 0
  IsSelected files todo (todo', read) =
      (left : List Bytes) × (files ≡ read ++ left)
      × (read_all read todo ≡ ok todo')
      × All (IsWithin todo) (initials read)
      × ((left ≡ []) ⊎ ((read ≢ []) × (max_changes < size todo'.0)))

  All-IsWithin :
      (f : Bytes) (todo todo1 : Todo) (parts : List (List Bytes))
      → read_log osm log_dir f (logs f) todo ≡ ok todo1
      → All (IsWithin todo1) parts
      → All (IsWithin todo) (map (◌∷◌ f) parts)
  All-IsWithin f todo todo1 [] e h = tt
  All-IsWithin f todo todo1 (part ∷ parts) e ((todo', all, small), h) =
      ((todo', rw e all, small), All-IsWithin f todo todo1 parts e h)

  IsSelected-cons :
      (f : Bytes) (files read : List Bytes) (todo todo1 todo' : Todo)
      → read_log osm log_dir f (logs f) todo ≡ ok todo1
      → size todo1.0 ≤ max_changes
      → IsSelected files todo1 (todo', read)
      → IsSelected (f ∷ files) todo (todo', f ∷ read)
  IsSelected-cons f files [] todo todo1 todo' e small (left, same, all, within, inl none_left) =
      (left, ap (◌∷◌ f) same, rw e all, tt, inl none_left)
  IsSelected-cons f files [] todo todo1 todo' e small
        (left, same, all, within, inr (some_read, _)) =
      absurd (some_read refl)
  IsSelected-cons f files (g ∷ read) todo todo1 todo' e small (left, same, all, within, over) = (
    left,
    ap (◌∷◌ f) same,
    rw e all,
    ((todo1, rw e refl, small), All-IsWithin f todo todo1 (initials (g ∷ read)) e within),
    passed left (g ∷ read) over,
  )
    where
      passed :
          (left tail : List Bytes)
          → (left ≡ []) ⊎ ((tail ≢ []) × (max_changes < size todo'.0))
          → (left ≡ []) ⊎ ((f ∷ tail ≢ []) × (max_changes < size todo'.0))
      passed left tail (inl none_left) = inl none_left
      passed left tail (inr (_, over)) = inr ((λ same. absurd (cc same)), over)

  returned-IsSelected :
      (files : List Bytes) (todo : Todo) (result : Todo × List Bytes)
      → read_log_files files todo ≡ ok result
      → IsSelected files todo result
  unfolding read_log_files
  returned-IsSelected [] todo result e =
      transport (λ i. IsSelected [] todo (ok-injective e i)) ([], refl, refl, tt, inl refl)
  returned-IsSelected (f ∷ files) todo result e =
      let (todo1, e1, rest) = >>=-eq-ok (read_log osm log_dir f (logs f) todo) _ e in
      let (chosen, e2, last) =
        >>=-eq-ok
          (if ltb max_changes (size todo1.0) then ok (todo1, []) else read_log_files files todo1) _
          rest in
      transport (λ i. IsSelected (f ∷ files) todo (ok-injective last i))
        (elim (Bool-cases (ltb max_changes (size todo1.0))) [
          | inl over ↦
              transport
                (λ i.
                  IsSelected (f ∷ files) todo
                    ((ok-injective (rw over at e2) i).0, f ∷ (ok-injective (rw over at e2) i).1))
                (
                  files,
                  refl,
                  rw e1 refl,
                  tt,
                  inr ((λ same. absurd (cc same)), over_limit max_changes (size todo1.0) over),
                )
          | inr under ↦
              IsSelected-cons f files chosen.1 todo todo1 chosen.0 e1
                (within_limit max_changes (size todo1.0) under)
                (returned-IsSelected files todo1 chosen (rw under at e2))
        ])

  behind-IsWithin :
      (f : Bytes) (todo todo1 : Todo) (parts : List (List Bytes))
      → read_log osm log_dir f (logs f) todo ≡ ok todo1
      → All (IsWithin todo) (map (◌∷◌ f) parts)
      → All (IsWithin todo1) parts
  behind-IsWithin f todo todo1 [] e h = tt
  behind-IsWithin f todo todo1 (part ∷ parts) e ((todo', all, small), h) =
      ((todo', rw e at all, small), behind-IsWithin f todo todo1 parts e h)

  -- The files behind the first one, if that is within the limit.
  IsSelected-behind :
      (f : Bytes) (files read : List Bytes) (todo todo1 todo' : Todo)
      → read_log osm log_dir f (logs f) todo ≡ ok todo1
      → size todo1.0 ≤ max_changes
      → IsSelected (f ∷ files) todo (todo', f ∷ read)
      → IsSelected files todo1 (todo', read)
  IsSelected-behind f files [] todo todo1 todo' e small (left, same, all, within, inl none_left) =
      (left, ∷-injective same, rw e at all, tt, inl none_left)
  IsSelected-behind f files [] todo todo1 todo' e small (left, same, all, within, inr (_, over)) =
      absurd (omega (arith, small, rw (sym (ok-injective (rw e at all))) at over))
  IsSelected-behind f files (g ∷ read) todo todo1 todo' e small (left, same, all, within, over) = (
    left,
    ∷-injective same,
    rw e at all,
    behind-IsWithin f todo todo1 (initials (g ∷ read)) e within.1,
    some_read over,
  )
    where
      some_read :
          (left ≡ []) ⊎ ((f ∷ g ∷ read ≢ []) × (max_changes < size todo'.0))
          → (left ≡ []) ⊎ ((g ∷ read ≢ []) × (max_changes < size todo'.0))
      some_read (inl none_left) = inl none_left
      some_read (inr (_, over)) = inr ((λ same. absurd (cc same)), over)

  -- If the first file is over the limit, it is the last that is read.
  IsSelected-one :
      (f : Bytes) (files read : List Bytes) (todo todo1 todo' : Todo)
      → read_log osm log_dir f (logs f) todo ≡ ok todo1
      → max_changes < size todo1.0
      → IsSelected (f ∷ files) todo (todo', f ∷ read)
      → (todo1 ≡ todo') × (read ≡ [])
  IsSelected-one f files [] todo todo1 todo' e over (left, same, all, within, _) =
      (ok-injective (rw e at all), refl)
  IsSelected-one f files (g ∷ read) todo todo1 todo' e over (left, same, all, within, _) =
      let (todo2, one, small) = within.0 in
      let found : todo1 ≡ todo2 = ok-injective (rw e at one) in
      absurd (omega (arith, over, rw (sym found) at small))

  IsSelected-returned :
      (files read : List Bytes) (todo todo' : Todo)
      → IsSelected files todo (todo', read)
      → read_log_files files todo ≡ ok (todo', read)
  unfolding read_log_files
  IsSelected-returned [] [] todo todo' (left, same, all, within, over) =
      ap (λ t. ok (t, [])) (ok-injective all)
  IsSelected-returned [] (g ∷ read) todo todo' (left, same, all, within, over) = absurd (cc same)
  IsSelected-returned (f ∷ files) [] todo todo' (left, same, all, within, inl none_left) =
      absurd (cc (same, none_left))
  IsSelected-returned (f ∷ files) [] todo todo' (left, same, all, within, inr (some_read, _)) =
      absurd (some_read refl)
  IsSelected-returned (f ∷ files) (g ∷ read) todo todo' h =
      let first : g ≡ f = same_first h.1 in
      let h' : IsSelected (f ∷ files) todo (todo', f ∷ read) =
        transport (λ i. IsSelected (f ∷ files) todo (todo', first i ∷ read)) h in
      let (todo1, e, _) = >>=-eq-ok (read_log osm log_dir f (logs f) todo) _ h'.2 in
      rw (first, e)
        (elim (Bool-cases (ltb max_changes (size todo1.0))) [
          | inl over ↦
              let (found, none) =
                IsSelected-one f files read todo todo1 todo' e
                  (over_limit max_changes (size todo1.0) over) h' in
              rw (over, found, none) refl
          | inr under ↦
              let rest =
                IsSelected-behind f files read todo todo1 todo' e
                  (within_limit max_changes (size todo1.0) under) h' in
              rw (under, IsSelected-returned files read todo1 todo' rest) refl
        ])

  -- Reading the log files returns exactly this, and nothing else: the files that it reads are the
  -- first ones of the list, at least one if there is any, and its objects are those of these files;
  -- before each file but the first, what has been read is within the limit, and if files are left,
  -- what has been read is over the limit.
  pub read_log_files_lem :
      (files : List Bytes) (todo : Todo) (result : Todo × List Bytes)
      → (read_log_files files todo ≡ ok result) ↔ IsSelected files todo result
  read_log_files_lem files todo (todo', read) =
      (returned-IsSelected files todo (todo', read), IsSelected-returned files read todo todo')
