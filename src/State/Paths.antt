-- ===== src/State/Paths.antt =====
-- The paths of the files of a state.
use osmdbt_pgoutput.Base.{
  ℕ, suc, ◌+◌, ◌-◌, ◌^◌, ◌<◌, ◌≤◌, ◌≡◌, refl, sym, ap, ◌∙◌, [], ◌∷◌, ◌++◌, arith, Bytes, codes,
  length, length-append, length-replicate, take, replicate, ltb, Bool-cases, inl, inr,
}
use osmdbt_pgoutput.Base.Result.{ok, ok-injective}
use osmdbt_pgoutput.Cstd.{to_string, to_padded, snprintf, digits}
use osmdbt_pgoutput.Cstd.Digits.{length-digits-le}
use osmdbt_pgoutput.Osmium.{Timestamps}
use osmdbt_pgoutput.State.{
  State, next, with_slashes, path, state_path, osc_path, dir1_path, dir2_path,
}

length-to_padded : (n : ℕ) → n < 10 ^ 9 → length (to_padded 9 n) ≡ 9
unfolding to_padded to_string
length-to_padded n h =
    let short : length (digits 10 (suc n) n) ≤ 9 =
      length-digits-le 10 8 (suc n) n (omega arith) h in
    length-append (replicate (9 - length (digits 10 (suc n) n)) b'0') (digits 10 (suc n) n)
    ∙ omega (arith, short, length-replicate {A = ℕ} (9 - length (digits 10 (suc n) n)) b'0')

-- Nine digits in three groups.
nine :
    (s : Bytes)
    → length s ≡ 9
    → (a b c : Bytes) × (length a ≡ 3) × (length b ≡ 3) × (length c ≡ 3) × (s ≡ a ++ (b ++ c))
nine (p ∷ q ∷ r ∷ t ∷ u ∷ v ∷ x ∷ y ∷ z ∷ []) h =
    (p ∷ q ∷ r ∷ [], t ∷ u ∷ v ∷ [], x ∷ y ∷ z ∷ [], refl, refl, refl, refl)
nine _ h = absurd (omega arith)

with_slashes_lem :
    (a b c : Bytes)
    → length a ≡ 3
    → length b ≡ 3
    → with_slashes (a ++ (b ++ c)) ≡ a ++ (b'/' ∷ (b ++ (b'/' ∷ c)))
with_slashes_lem (p ∷ q ∷ r ∷ []) (t ∷ u ∷ v ∷ []) c h k = refl
with_slashes_lem _ _ c h k = absurd (omega arith)

take_three : (a s : Bytes) → length a ≡ 3 → take 3 (a ++ s) ≡ a
take_three (p ∷ q ∷ r ∷ []) s h = refl
take_three _ s h = absurd (omega arith)

take_seven :
    (a b s : Bytes)
    → length a ≡ 3
    → length b ≡ 3
    → take 7 (a ++ (b'/' ∷ (b ++ s))) ≡ a ++ (b'/' ∷ b)
take_seven (p ∷ q ∷ r ∷ []) (t ∷ u ∷ v ∷ []) s h k = refl
take_seven _ _ s h k = absurd (omega arith)

length-path :
    (a b c : Bytes)
    → length a ≡ 3
    → length b ≡ 3
    → length c ≡ 3
    → length (a ++ (b'/' ∷ (b ++ (b'/' ∷ c)))) ≡ 11
length-path a b c h k l =
    length-append a (b'/' ∷ (b ++ (b'/' ∷ c))) ∙ omega (arith, h, k, l, length-append b (b'/' ∷ c))

path_groups :
    (n : ℕ) (a b c : Bytes)
    → length a ≡ 3
    → length b ≡ 3
    → length c ≡ 3
    → to_padded 9 n ≡ a ++ (b ++ c)
    → path n ≡ ok (a ++ (b'/' ∷ (b ++ (b'/' ∷ c))))
unfolding path snprintf
path_groups n a b c h k l e =
    let nine_long : length (a ++ (b ++ c)) ≡ 9 =
      length-append a (b ++ c) ∙ omega (arith, h, k, l, length-append b c) in
    rw (e, nine_long, with_slashes_lem a b c h k) refl

-- For a sequence number below 10^9 no assertion fails: its nine digits in three groups of three,
-- with slashes between them, are the path of both files, and the first group and the first two
-- groups are the paths of the two directories.
pub path_lem :
    (n : ℕ)
    → n < 10 ^ 9
    → (a b c : Bytes) × (length a ≡ 3)
      × (length b ≡ 3)
      × (length c ≡ 3)
      × (to_padded 9 n ≡ a ++ (b ++ c))
      × (state_path n ≡ ok ((a ++ (b'/' ∷ (b ++ (b'/' ∷ c)))) ++ codes ".state.txt"))
      × (osc_path n ≡ ok ((a ++ (b'/' ∷ (b ++ (b'/' ∷ c)))) ++ codes ".osc"))
      × (dir1_path n ≡ ok a)
      × (dir2_path n ≡ ok (a ++ (b'/' ∷ b)))
unfolding state_path osc_path dir1_path dir2_path
path_lem n h =
    let (a, b, c, ha, hb, hc, e) = nine (to_padded 9 n) (length-to_padded n h) in
    let p = path_groups n a b c ha hb hc e in
    let eleven = length-path a b c ha hb hc in
    (
      a,
      b,
      c,
      ha,
      hb,
      hc,
      e,
      rw p refl,
      rw p refl,
      rw (p, eleven, take_three a (b'/' ∷ (b ++ (b'/' ∷ c))) ha) refl,
      rw (p, eleven, take_seven a b (b'/' ∷ c) ha hb) refl,
    )

-- If `next` succeeds, the new state has the sequence number that follows and the given timestamp,
-- and its number is one that has a path.
pub next_lem :
    (ts : Timestamps) (st st' : State ts) (timestamp : ts.Timestamp)
    → next ts st timestamp ≡ ok st'
    → (st'.m_sequence_number ≡ st.m_sequence_number + 1)
      × (st'.m_sequence_number < 10 ^ 9)
      × (st'.m_timestamp ≡ timestamp)
unfolding next
next_lem ts st st' timestamp e = elim (Bool-cases (ltb st.m_sequence_number 999999999)) [
  | inl small ↦
      let same : record { m_sequence_number = st.m_sequence_number + 1; m_timestamp = timestamp }
          ≡ st' =
        ok-injective (rw small at e) in
      (
        sym (ap (λ (s : State ts). s.m_sequence_number) same),
        rw (← same) (ground arith),
        sym (ap (λ (s : State ts). s.m_timestamp) same),
      )
  | inr large ↦ absurd (cc (rw large at e))
]
