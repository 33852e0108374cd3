-- ===== src/Pgoutput/Reader/Yields.antt =====
-- The reader against the bytes of a message: rules for what a method reads, and what it returns.
use native.Mathlib.Nat.{pow-suc}
use osmdbt_pgoutput.Base.{
  ℕ, zero, suc, ◌+◌, ◌/◌, ◌%◌, ◌^◌, ◌<◌, ◌≡◌, refl, ap, some, [], ◌∷◌, ◌++◌, append_assoc, arith,
  Bytes, Lacks, length, drop, length-append, take_append, drop_append,
}
use osmdbt_pgoutput.Cstd.Digits.{split_number}
use osmdbt_pgoutput.Base.Result.{Exception, ok, throws}
use osmdbt_pgoutput.Pgoutput.Reader.{
  RowLowLevelParser, Reading, ◌>>=◌, pure, unread, advance, big_endian, read, c_string, read_string,
  read_bytes,
}

-- The bytes are what is left to read, and end below 4 GB.
pub record At (p : RowLowLevelParser) (s : Bytes) : Type 0 where
  pub is_unread : unread p ≡ s
  pub in_range : p.m_offset + length s < 2 ^ 32

drop-drop : (n m : ℕ) (s : Bytes) → drop n (drop m s) ≡ drop (m + n) s
drop-drop n zero s = let e : 0 + n ≡ n = omega arith in rw e
drop-drop zero (suc m) [] = let e : suc m + 0 ≡ suc m = omega arith in rw e
drop-drop (suc n) (suc m) [] = let e : suc m + suc n ≡ suc (m + suc n) = omega arith in rw e
drop-drop n (suc m) (c ∷ s) =
    let e : suc m + n ≡ suc (m + n) = omega arith in rw e (drop-drop n m s)

At-advance :
    {p : RowLowLevelParser} (s rest : Bytes) → At p (s ++ rest) → At (advance p (length s)) rest
At-advance {p} s rest h =
    let e : (p.m_offset + length s) % 2 ^ 32 ≡ p.m_offset + length s =
      omega (arith, h.in_range, length-append s rest) in
    record {
      is_unread =
          rw (e, ← drop-drop (length s) p.m_offset p.m_row, h.is_unread) (drop_append s rest);
      in_range = omega (arith, h.in_range, length-append s rest, e);
    }

-- Wherever the message goes on with `input`, the method reads that and returns `a`.
pub record Yields {A : Type 0} (m : Reading A) (input : Bytes) (a : A) : Type 0 where
  pub runs :
      (p : RowLowLevelParser) (rest : Bytes)
      → At p (input ++ rest)
      → (p' : RowLowLevelParser) × (m p ≡ ok (a, p')) × At p' rest

pub Yields-pure : {A : Type 0} (a : A) → Yields (pure a) [] a
Yields-pure a = record { runs = λ p rest h. (p, refl, h) }

pub Yields-bind :
    {A B : Type 0} {m : Reading A} (f : A → Reading B) {i j : Bytes} {a : A} {b : B}
    → Yields m i a
    → Yields (f a) j b
    → Yields (m >>= f) (i ++ j) b
Yields-bind {m} f {i} {j} h k = record {
  runs = λ p rest t.
      let (p', e, t') = h.runs p (j ++ rest) (rw (append_assoc i j rest) at t) in
      let (p'', e', t'') = k.runs p' rest t' in (p'', rw (e, ◌>>=◌) e', t'');
}

-- The last action of a block.
pub Yields-last :
    {A B : Type 0} {m : Reading A} (f : A → B) {i : Bytes} {a : A}
    → Yields m i a
    → Yields (m >>= λ x. pure (f x)) i (f a)
Yields-last {m} f {i} h = record {
  runs = λ p rest t. let (p', e, t') = h.runs p rest t in (p', rw (e, ◌>>=◌) refl, t');
}

-- The bytes of a number of `k` bytes in network byte order.
abbrev pub big : ℕ → ℕ → Bytes
big zero v = []
big (suc k) v = v / 256 ^ k ∷ big k (v % 256 ^ k)

length-big : (k v : ℕ) → length (big k v) ≡ k
length-big zero v = refl
length-big (suc k) v = ap suc (length-big k (v % 256 ^ k))

pow_pos : (k : ℕ) → 0 < 256 ^ k
pow_pos zero = omega arith
pow_pos (suc k) = let e = pow-suc 256 k in omega (arith, pow_pos k)

big_endian-big : (k v : ℕ) (rest : Bytes) → v < 256 ^ k → big_endian k (big k v ++ rest) ≡ some v
unfolding big_endian
big_endian-big zero v rest h = let e : 0 ≡ v = omega arith in ap some e
big_endian-big (suc k) v rest h =
    rw (big_endian-big k (v % 256 ^ k) rest (omega (arith, pow_pos k)))
      (ap some (split_number (256 ^ k) v))

pub Yields-read : (k v : ℕ) → v < 256 ^ k → Yields (read k) (big k v) v
unfolding read
Yields-read k v h = record {
  runs = λ p rest t. (
    advance p k,
    rw (t.is_unread, big_endian-big k v rest h, read) refl,
    rw (length-big k v) at (At-advance (big k v) rest t),
  );
}

c_string_lem : (s rest : Bytes) → Lacks 0 s → c_string (s ++ (0 ∷ rest)) ≡ some s
unfolding c_string
c_string_lem [] rest h = refl
c_string_lem (c ∷ s) rest (ne, h) = ground (arith, c_string_lem s rest h)

pub Yields-read_string : (s : Bytes) → Lacks 0 s → Yields read_string (s ++ (0 ∷ [])) s
unfolding read_string
Yields-read_string s h = record {
  runs = λ p rest t. (
    advance p (length s + 1),
    rw (t.is_unread, append_assoc s (0 ∷ []) rest, c_string_lem s rest h, read_string) refl,
    rw (length-append s (0 ∷ [])) at (At-advance (s ++ (0 ∷ [])) rest t),
  );
}

pub Yields-read_bytes : (s : Bytes) → Yields (read_bytes (length s)) s s
unfolding read_bytes
Yields-read_bytes s = record {
  runs = λ p rest t. (
    advance p (length s),
    rw (t.is_unread, take_append s rest) (ground (arith, length-append s rest)),
    At-advance s rest t,
  );
}

-- Wherever the message goes on with `input`, the method throws.
pub record Raises {A : Type 0} (m : Reading A) (input : Bytes) (e : Exception) : Type 0 where
  pub raises : (p : RowLowLevelParser) (rest : Bytes) → At p (input ++ rest) → m p ≡ throws e

pub Raises-bind :
    {A B : Type 0} {m : Reading A} (f : A → Reading B) {i j : Bytes} {a : A} {e : Exception}
    → Yields m i a
    → Raises (f a) j e
    → Raises (m >>= f) (i ++ j) e
Raises-bind {m} f {i} {j} h k = record {
  raises = λ p rest t.
      let (p', e, t') = h.runs p (j ++ rest) (rw (append_assoc i j rest) at t) in
      rw (e, ◌>>=◌) (k.raises p' rest t');
}

pub Raises-first :
    {A B : Type 0} {m : Reading A} (f : A → Reading B) {i : Bytes} {e : Exception}
    → Raises m i e
    → Raises (m >>= f) i e
Raises-first {m} f h = record { raises = λ p rest t. rw (h.raises p rest t, ◌>>=◌) refl }
