-- ===== src/Osmobj/Order.antt =====
-- The order of the objects, by which they are sorted.
use osmdbt_pgoutput.Base.{ℕ, true, false, ◌≡◌, refl, inl, inr, arith, Bool-cases}
use osmdbt_pgoutput.Base.Int.{ℤ, pos, negsuc, ltb_ℤ, eq_ℤ_iff}
use osmdbt_pgoutput.Osmium.{Objects}
use osmdbt_pgoutput.Osmobj.{Osmobj, less_tuple, tuple_of, less, less_equal}

ltb_ℤ_trans : (a b c : ℤ) → ltb_ℤ a b ≡ true → ltb_ℤ b c ≡ true → ltb_ℤ a c ≡ true
ltb_ℤ_trans (pos a) (pos b) (pos c) h k = ground arith
ltb_ℤ_trans (pos a) (pos b) (negsuc c) h k = ground arith
ltb_ℤ_trans (pos a) (negsuc b) c h k = ground arith
ltb_ℤ_trans (negsuc a) (pos b) (pos c) h k = refl
ltb_ℤ_trans (negsuc a) (pos b) (negsuc c) h k = ground arith
ltb_ℤ_trans (negsuc a) (negsuc b) (pos c) h k = refl
ltb_ℤ_trans (negsuc a) (negsuc b) (negsuc c) h k = ground arith

ltb_ℤ_irrefl : (a : ℤ) → ltb_ℤ a a ≡ false
ltb_ℤ_irrefl (pos a) = ground arith
ltb_ℤ_irrefl (negsuc a) = ground arith

ltb_ℤ_total : (a b : ℤ) → ltb_ℤ a b ≡ false → ltb_ℤ b a ≡ false → a ≡ b
ltb_ℤ_total (pos a) (pos b) h k = ground arith
ltb_ℤ_total (pos a) (negsuc b) h k = ground arith
ltb_ℤ_total (negsuc a) (pos b) h k = ground arith
ltb_ℤ_total (negsuc a) (negsuc b) h k = ground arith

pub less_tuple_irrefl : (t : ℕ × ℤ × ℕ) → less_tuple t t ≡ false
less_tuple_irrefl (a, b, c) = ground (arith, ltb_ℤ_irrefl b)

less_tuple_trans :
    (s t u : ℕ × ℤ × ℕ) → less_tuple s t ≡ true → less_tuple t u ≡ true → less_tuple s u ≡ true
less_tuple_trans (a, b, c) (a', b', c') (a'', b'', c'') h k =
    ground (arith, ltb_ℤ_trans b b' b'', eq_ℤ_iff b b', eq_ℤ_iff b' b'', eq_ℤ_iff b b'')

less_tuple_asym : (s t : ℕ × ℤ × ℕ) → less_tuple s t ≡ true → less_tuple t s ≡ false
less_tuple_asym s t h = elim (Bool-cases (less_tuple t s)) [
  | inl e ↦ absurd (cc (less_tuple_trans s t s h e, less_tuple_irrefl s))
  | inr e ↦ e
]

pub less_tuple_total : (s t : ℕ × ℤ × ℕ) → less_tuple s t ≡ false → less_tuple t s ≡ false → s ≡ t
less_tuple_total (a, b, c) (a', b', c') h k =
    ground (arith, ltb_ℤ_total b b', eq_ℤ_iff b b', eq_ℤ_iff b' b)

module _ (osm : Objects) where
  -- If the first object is before the second and the second before the third by `operator<`, then
  -- the first is before the third, and the third is not before the first.
  pub less_trans :
      (a b c : Osmobj)
      → less osm a b ≡ true
      → less osm b c ≡ true
      → (less osm a c ≡ true) × (less osm c a ≡ false)
  unfolding less
  less_trans a b c h k =
      let first = less_tuple_trans (tuple_of osm a) (tuple_of osm b) (tuple_of osm c) h k in
      (first, less_tuple_asym (tuple_of osm a) (tuple_of osm c) first)

  -- If of two objects neither is before the other by `operator<`, then they agree in the index of
  -- the type, the id and the version, and each is `<=` the other.
  pub less_total :
      (a b : Osmobj)
      → less osm a b ≡ false
      → less osm b a ≡ false
      → (tuple_of osm a ≡ tuple_of osm b)
        × (less_equal osm a b ≡ true)
        × (less_equal osm b a ≡ true)
  unfolding less less_equal
  less_total a b h k =
      (less_tuple_total (tuple_of osm a) (tuple_of osm b) h k, rw k refl, rw h refl)
