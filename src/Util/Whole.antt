-- ===== src/Util/Whole.antt =====
-- What other programs can see of a file that is written under another name and then renamed.
use osmdbt_pgoutput.Base.{
  ◌≡◌, ◌≢◌, refl, sym, ap, ◌∙◌, Option, none, some, Bytes, codes, inl, inr, ◌⊎◌, length,
  length-append, arith,
}
use osmdbt_pgoutput.Posix.{Disk, put}
use osmdbt_pgoutput.Posix.Put.{put_same, put_other}
use osmdbt_pgoutput.Util.{tmp_name}

pub tmp_name-ne : (name : Bytes) → tmp_name name ≢ name
tmp_name-ne name e =
    let longer = ap length e in omega (arith, longer, length-append name (codes ".new"))

-- Each file but the two is as before, and the final one is as before or complete.
pub record IsAtomic (name text : Bytes) (before after : Disk) : Type 0 where
  pub others : (other : Bytes) → other ≢ name → other ≢ tmp_name name → after other ≡ before other
  pub whole : (after name ≡ before name) ⊎ (after name ≡ some text)

-- The file is complete, and no other remains.
pub record IsWritten (name text : Bytes) (before after : Disk) : Type 0 where
  pub others : (other : Bytes) → other ≢ name → other ≢ tmp_name name → after other ≡ before other
  pub complete : after name ≡ some text
  pub removed : after (tmp_name name) ≡ none

module _ (name text : Bytes) (before : Disk) where
  pub unchanged-IsAtomic : (d : Disk) → d ≡ before → IsAtomic name text before d
  unchanged-IsAtomic d e = record { others = λ other _ _. rw e refl; whole = inl (rw e refl) }

  -- Only the file under the other name has changed.
  pub Scratch : Disk → Type 0
  Scratch d = (other : Bytes) → other ≢ tmp_name name → d other ≡ before other

  pub Scratch-IsAtomic : (d : Disk) → Scratch d → IsAtomic name text before d
  unfolding Scratch
  Scratch-IsAtomic d h = record {
    others = λ other _ k. h other k;
    whole = inl (h name (λ e. tmp_name-ne name (sym e)));
  }

  pub Scratch-put : (d : Disk) (c : Option Bytes) → Scratch d → Scratch (put (tmp_name name) c d)
  unfolding Scratch
  Scratch-put d c h other ne = put_other (tmp_name name) other c d ne ∙ h other ne

  -- That, with a content of the file under the other name.
  abbrev pub Filled : Bytes → Disk → Type 0
  Filled content d = (d (tmp_name name) ≡ some content) × Scratch d

  pub Filled-IsAtomic :
      (content : Bytes) (d : Disk) → Filled content d → IsAtomic name text before d
  Filled-IsAtomic content d h = Scratch-IsAtomic d h.1

  pub Filled-put :
      (content : Bytes) (d : Disk)
      → Scratch d
      → Filled content (put (tmp_name name) (some content) d)
  Filled-put content d h =
      (put_same (tmp_name name) (some content) d, Scratch-put d (some content) h)

  pub same-Scratch : (d : Disk) → d ≡ before → Scratch d
  unfolding Scratch
  same-Scratch d e other ne = rw e refl

  pub IsWritten-IsAtomic : (d : Disk) → IsWritten name text before d → IsAtomic name text before d
  IsWritten-IsAtomic d h = record { others = h.others; whole = inr h.complete }

  -- The step at which the new content is seen.
  pub renamed-IsWritten :
      (d : Disk) (content : Bytes)
      → Filled text d
      → d (tmp_name name) ≡ some content
      → IsWritten name text before (put (tmp_name name) none (put name (some content) d))
  unfolding Scratch
  renamed-IsWritten d content (full, h) there = record {
    others = λ other ne k.
        put_other (tmp_name name) other none (put name (some content) d) k
        ∙ put_other name other (some content) d ne
        ∙ h other k;
    complete =
        put_other (tmp_name name) name none (put name (some content) d)
          (λ e. tmp_name-ne name (sym e))
        ∙ put_same name (some content) d
        ∙ sym there
        ∙ full;
    removed = put_same (tmp_name name) none (put name (some content) d);
  }
