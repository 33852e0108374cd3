-- ===== src/Posix/Put.antt =====
-- Changes of the contents of files.
use osmdbt_pgoutput.Base.{
  ◌≡◌, ◌≢◌, refl, Option, none, some, sym, ◌∙◌, Bytes, inl, inr, Bool-cases, equal, equal_iff,
  equal_refl,
}
use osmdbt_pgoutput.Posix.{Disk, put}

pub put_same : (name : Bytes) (c : Option Bytes) (d : Disk) → put name c d name ≡ c
put_same name c d = rw (equal_refl name) refl

pub put_other :
    (name other : Bytes) (c : Option Bytes) (d : Disk) → other ≢ name → put name c d other ≡ d other
put_other name other c d h = elim (Bool-cases (equal other name)) [
  | inl e ↦ absurd (h ((equal_iff other name).0 e))
  | inr e ↦ rw e refl
]

put-put_at :
    (name : Bytes) (b c : Option Bytes) (d : Disk) (other : Bytes)
    → put name c (put name b d) other ≡ put name c d other
put-put_at name b c d other = elim (Bool-cases (equal other name)) [
  | inl e ↦ rw e refl
  | inr e ↦ rw e refl
]

pub put-put :
    (name : Bytes) (b c : Option Bytes) (d : Disk) → put name c (put name b d) ≡ put name c d
put-put name b c d = λ i other. put-put_at name b c d other i

-- A file under another name.
abbrev pub moved : Bytes → Bytes → Bytes → Disk → Disk
moved old new content d = put old none (put new (some content) d)

pub moved_old : (old new content : Bytes) (d : Disk) → moved old new content d old ≡ none
moved_old old new content d = put_same old none (put new (some content) d)

pub moved_new :
    (old new content : Bytes) (d : Disk) → old ≢ new → moved old new content d new ≡ some content
moved_new old new content d ne =
    put_other old new none (put new (some content) d) (λ e. ne (sym e))
    ∙ put_same new (some content) d

pub moved_other :
    (old new content other : Bytes) (d : Disk)
    → other ≢ old
    → other ≢ new
    → moved old new content d other ≡ d other
moved_other old new content other d ne ne' =
    put_other old other none (put new (some content) d) ne
    ∙ put_other new other (some content) d ne'
