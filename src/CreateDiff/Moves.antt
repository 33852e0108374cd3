-- ===== src/CreateDiff/Moves.antt =====
-- The renaming of the log files at the end of `publish`.
use osmdbt_pgoutput.Base.{
  ◌≡◌, ◌≢◌, sym, ap, ◌∙◌, ◌⊎◌, inl, inr, none, some, List, [], ◌∷◌, ◌++◌, Bytes, codes, All, length,
  length-append, arith,
}
use osmdbt_pgoutput.Posix.{Disk, System, IsPosix, IsAble}
use osmdbt_pgoutput.Posix.Put.{moved, moved_old, moved_new, moved_other}
use osmdbt_pgoutput.Posix.Meets.{Meets, Meets-pure, Meets-bind, Meets-strengthen}
use osmdbt_pgoutput.Io.Rules.{Has, Meets-rename_file}
use osmdbt_pgoutput.Config.{Config}
use osmdbt_pgoutput.CreateDiff.Publish.{log_name, done_name, rename_log_files}

log_name-ne : (config : Config) (f : Bytes) → log_name config f ≢ done_name config f
log_name-ne config f e =
    let longer = ap length e in
    omega (
      arith,
      longer,
      length-append config.m_log_dir f,
      length-append config.m_log_dir (f ++ codes ".done"),
      length-append f (codes ".done"),
    )

-- Two log files whose names, before and after the renaming, are four.
pub record IsOther (config : Config) (f g : Bytes) : Type 0 where
  pub log_log : log_name config g ≢ log_name config f
  pub log_done : log_name config g ≢ done_name config f
  pub done_log : done_name config g ≢ log_name config f
  pub done_done : done_name config g ≢ done_name config f

abbrev pub AreApart : Config → List Bytes → Type 0
AreApart config [] = Unit
AreApart config (f ∷ rest) = All (IsOther config f) rest × AreApart config rest

module _ (config : Config) (before : Disk) where
  abbrev pub IsKept : Disk → Bytes → Type 0
  IsKept d f = d (log_name config f) ≡ before (log_name config f)

  -- The file has its new name and the old content.
  abbrev pub IsDone : Disk → Bytes → Type 0
  IsDone d f =
      (d (log_name config f) ≡ none) × (d (done_name config f) ≡ before (log_name config f))

  -- What holds whichever other file is renamed.
  abbrev pub IsStable : (Disk → Type 0) → Bytes → Type 0
  IsStable P f =
      (d : Disk) (content : Bytes)
      → P d
      → P (moved (log_name config f) (done_name config f) content d)

  IsKept-rest :
      (f content : Bytes) (rest : List Bytes) (d : Disk)
      → All (IsOther config f) rest
      → All (IsKept d) rest
      → All (IsKept (moved (log_name config f) (done_name config f) content d)) rest
  IsKept-rest f content [] d o k = tt
  IsKept-rest f content (g ∷ rest) d (o, os) (k, ks) = (
    moved_other (log_name config f) (done_name config f) content (log_name config g) d o.log_log
          o.log_done
        ∙ k,
    IsKept-rest f content rest d os ks,
  )

  IsStable-rest :
      (P : Disk → Type 0) (f : Bytes) (rest : List Bytes)
      → All (IsOther config f) rest
      → All (IsStable P) rest
      → All (IsStable (λ d. P d × IsDone d f)) rest
  IsStable-rest P f [] o s = tt
  IsStable-rest P f (g ∷ rest) (o, os) (s, ss) = (
    λ d content (p, (gone, there)). (
      s d content p,
      (
        moved_other (log_name config g) (done_name config g) content (log_name config f) d
              (λ e. o.log_log (sym e)) (λ e. o.done_log (sym e))
            ∙ gone,
        moved_other (log_name config g) (done_name config g) content (done_name config f) d
              (λ e. o.log_done (sym e)) (λ e. o.done_done (sym e))
            ∙ there,
      ),
    ),
    IsStable-rest P f rest os ss,
  )

  module _ (Fail : Type 0) (sys : System) (posix : IsPosix sys) (able : IsAble Fail sys)
      (I : Disk → Type 0) where
    -- The rule for the loop.
    pub Meets-rename_log_files :
        (files : List Bytes) (P : Disk → Type 0)
        → ((d : Disk) → P d → I d)
        → All (IsStable P) files
        → AreApart config files
        → All (λ f. ((content : Bytes) × (before (log_name config f) ≡ some content)) ⊎ Fail) files
        → Meets Fail
            (Has sys I)
            (Has sys (λ d. P d × All (IsKept d) files))
            (rename_log_files sys config files)
            (λ _. Has sys (λ d. P d × All (IsDone d) files))
    unfolding rename_log_files
    Meets-rename_log_files [] P safe stable apart there = Meets-pure tt (λ w h. h)
    Meets-rename_log_files (f ∷ files) P safe (s, stable) (o, apart) (t, there) =
        Meets-bind (λ _. Has sys (λ d. (P d × IsDone d f) × All (IsKept d) files))
          (Meets-rename_file Fail sys posix able I (λ d. P d × All (IsKept d) (f ∷ files))
            (λ d h. safe d h.0) (λ d. (P d × IsDone d f) × All (IsKept d) files) (log_name config f)
            (done_name config f) (log_name-ne config f)
            (λ d h. elim t [ inl (c, e) ↦ inl (c, h.1.0 ∙ e) | inr fails ↦ inr fails ])
            (λ d content h e. (
              safe _ (s d content h.0),
              (
                (
                  s d content h.0,
                  (
                    moved_old (log_name config f) (done_name config f) content d,
                    moved_new (log_name config f) (done_name config f) content d
                          (log_name-ne config f)
                        ∙ sym e
                        ∙ h.1.0,
                  ),
                ),
                IsKept-rest f content files d o h.1.1,
              ),
            )))
          (λ _.
            Meets-strengthen (λ _ w h. (h.0.0, (h.0.1, h.1)))
              (Meets-rename_log_files files (λ d. P d × IsDone d f) (λ d h. safe d h.0)
                (IsStable-rest P f files o stable) apart there))
