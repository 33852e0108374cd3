-- ===== src/CreateDiff/Join.antt =====
-- Which entries the objects get: the walk of one iterator over the rows.
use osmdbt_pgoutput.Base.{
  Bool, true, false, ◌≡◌, ◌≢◌, refl, sym, ◌∙◌, List, [], ◌∷◌, ◌++◌, ◌==◌, ==_refl, ==_iff, All,
  Bool-cases, inl, inr,
}
use osmdbt_pgoutput.Base.Int.{eq_ℤ, eq_ℤ_iff}
use osmdbt_pgoutput.CreateDiff.{Key, same_key, take_entries}

module _ {T : Type 0} (key_of : T → Key) where
  -- The entries for each row that is not redacted, as the iterator gives them.
  abbrev pub walk : List (Key × Bool) → List T → List (Key × List T)
  walk [] it = []
  walk ((k, true) ∷ rows) it = walk rows it
  walk ((k, false) ∷ rows) it =
      (k, (take_entries key_of k it).0) ∷ walk rows (take_entries key_of k it).1

-- A row with the entries of its object: what the join of the query gives for it.
abbrev pub Group : Type 0 → Type 0
Group T = Key × Bool × List T

module _ {T : Type 0} where
  abbrev pub rows_of : List (Group T) → List (Key × Bool)
  rows_of [] = []
  rows_of ((k, redacted, ts) ∷ gs) = (k, redacted) ∷ rows_of gs

  abbrev pub entries_of : List (Group T) → List T
  entries_of [] = []
  entries_of ((k, redacted, ts) ∷ gs) = ts ++ entries_of gs

  -- The key of no later row.
  abbrev pub Fresh : Key → List (Group T) → Type 0
  Fresh k [] = Unit
  Fresh k ((k', redacted, ts) ∷ gs) = (k ≢ k') × Fresh k gs

  -- The entries of the rows that are not redacted.
  abbrev pub visible_entries : List (Group T) → List (Key × List T)
  visible_entries [] = []
  visible_entries ((k, true, ts) ∷ gs) = visible_entries gs
  visible_entries ((k, false, ts) ∷ gs) = (k, ts) ∷ visible_entries gs

  -- No entries for each of these rows.
  abbrev pub no_entries : List (Group T) → List (Key × List T)
  no_entries [] = []
  no_entries ((k, true, ts) ∷ gs) = no_entries gs
  no_entries ((k, false, ts) ∷ gs) = (k, []) ∷ no_entries gs

  -- No redacted row has entries.
  abbrev pub RedactedEmpty : List (Group T) → Type 0
  RedactedEmpty [] = Unit
  RedactedEmpty ((k, true, ts) ∷ gs) = (ts ≡ []) × RedactedEmpty gs
  RedactedEmpty ((k, false, ts) ∷ gs) = RedactedEmpty gs

  -- Each entry is its row's, and no two rows are of one version of an object.
  abbrev pub IsJoin : (T → Key) → List (Group T) → Type 0
  IsJoin key_of [] = Unit
  IsJoin key_of ((k, redacted, ts) ∷ gs) =
      All (λ t. key_of t ≡ k) ts × Fresh k gs × IsJoin key_of gs

same_key_refl : (k : Key) → same_key k k ≡ true
same_key_refl (id, version) = rw ((eq_ℤ_iff id id).1 refl) (==_refl version)

same_key_no : (k k' : Key) → k ≢ k' → same_key k k' ≡ false
same_key_no (id, version) (id', version') h = elim (Bool-cases (eq_ℤ id id')) [
  | inl e ↦ elim (Bool-cases (version == version')) [
    | inl e' ↦
        let same_id = (eq_ℤ_iff id id').0 e in
        let same_version = (==_iff version version').0 e' in
        absurd (h (rw (same_id, same_version) refl))
    | inr e' ↦ rw (e, e') refl
  ]
  | inr e ↦ rw e refl
]

module _ {T : Type 0} (key_of : T → Key) where
  take_entries-append :
      (k : Key) (ts rest : List T)
      → All (λ t. key_of t ≡ k) ts
      → take_entries key_of k rest ≡ ([], rest)
      → take_entries key_of k (ts ++ rest) ≡ (ts, rest)
  unfolding take_entries
  take_entries-append k [] rest h e = e
  take_entries-append k (t ∷ ts) rest (ht, hs) e =
      let same : same_key (key_of t) k ≡ true = rw ht (same_key_refl k) in
      rw (same, take_entries-append k ts rest hs e) refl

  take_entries_other :
      (k : Key) (t : T) (ts : List T) → key_of t ≢ k → take_entries key_of k (t ∷ ts) ≡ ([], t ∷ ts)
  unfolding take_entries
  take_entries_other k t ts h = rw (same_key_no (key_of t) k h) refl

  -- No later group has entries of that key.
  take_entries-Fresh :
      (k : Key) (gs : List (Group T))
      → Fresh k gs
      → IsJoin key_of gs
      → take_entries key_of k (entries_of gs) ≡ ([], entries_of gs)
  take_entries-Fresh k [] f j = unfold take_entries in refl
  take_entries-Fresh k ((k', redacted, []) ∷ gs) f j = take_entries-Fresh k gs f.1 j.2
  take_entries-Fresh k ((k', redacted, t ∷ ts) ∷ gs) f j =
      take_entries_other k t (ts ++ entries_of gs) (λ e. f.0 (sym e ∙ j.0.0))

  -- Where no redacted row has entries, each row that is built gets its own.
  pub walk-join :
      (gs : List (Group T))
      → IsJoin key_of gs
      → RedactedEmpty gs
      → walk key_of (rows_of gs) (entries_of gs) ≡ visible_entries gs
  walk-join [] j r = refl
  walk-join ((k, true, ts) ∷ gs) j r = rw (r.0) (walk-join gs j.2 r.1)
  walk-join ((k, false, ts) ∷ gs) j r =
      rw
        (
          take_entries-append k ts (entries_of gs) j.0 (take_entries-Fresh k gs j.1 j.2),
          walk-join gs j.2 r,
        )
        refl

  -- Before an entry of another key the iterator stands still.
  walk_stuck :
      (t : T) (ts : List T) (gs : List (Group T))
      → Fresh (key_of t) gs
      → walk key_of (rows_of gs) (t ∷ ts) ≡ no_entries gs
  walk_stuck t ts [] f = refl
  walk_stuck t ts ((k, true, us) ∷ gs) f = walk_stuck t ts gs f.1
  walk_stuck t ts ((k, false, us) ∷ gs) f =
      rw (take_entries_other k t ts f.0, walk_stuck t ts gs f.1) refl

  -- From a redacted row with entries on, no row gets any.
  pub walk_redacted :
      (before : List (Group T)) (k : Key) (t : T) (ts : List T) (after : List (Group T))
      → IsJoin key_of (before ++ ((k, true, t ∷ ts) ∷ after))
      → RedactedEmpty before
      → walk key_of
          (rows_of (before ++ ((k, true, t ∷ ts) ∷ after)))
          (entries_of (before ++ ((k, true, t ∷ ts) ∷ after)))
        ≡ visible_entries before ++ no_entries after
  walk_redacted [] k t ts after j r = walk_stuck t (ts ++ entries_of after) after (rw (j.0.0) j.1)
  walk_redacted ((k', true, us) ∷ before) k t ts after j r =
      rw (r.0) (walk_redacted before k t ts after j.2 r.1)
  walk_redacted ((k', false, us) ∷ before) k t ts after j r =
      rw
        (
          take_entries-append k' us (entries_of (before ++ ((k, true, t ∷ ts) ∷ after))) j.0
              (take_entries-Fresh k' (before ++ ((k, true, t ∷ ts) ∷ after)) j.1 j.2),
          walk_redacted before k t ts after j.2 r,
        )
        refl
