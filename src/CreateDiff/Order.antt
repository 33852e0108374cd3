-- ===== src/CreateDiff/Order.antt =====
-- The order in which `publish` changes files, and what is there if it is cut short.
pub mod Stages
pub mod Steps
pub mod Safe
use osmdbt_pgoutput.Base.{
  ℕ, ◌≡◌, ◌≢◌, ◌⊎◌, Option, none, some, List, [], ◌∷◌, ◌++◌, Bytes, codes, All,
}
use osmdbt_pgoutput.Base.Result.{ok}
use osmdbt_pgoutput.Posix.{Disk}
use osmdbt_pgoutput.Config.{Config}
use osmdbt_pgoutput.State.{dir1_path, dir2_path, osc_path, state_path}
use osmdbt_pgoutput.CreateDiff.Publish.{lock_file_path, lock_text, log_name, done_name}
use osmdbt_pgoutput.CreateDiff.Moves.{AreApart, IsKept, IsDone}

-- The paths of a sequence number.
pub record Places (sequence_number : ℕ) : Type 0 where
  pub dir1 : Bytes
  pub dir2 : Bytes
  pub osc : Bytes
  pub state : Bytes
  pub dir1_eq : dir1_path sequence_number ≡ ok dir1
  pub dir2_eq : dir2_path sequence_number ≡ ok dir2
  pub osc_eq : osc_path sequence_number ≡ ok osc
  pub state_eq : state_path sequence_number ≡ ok state

module _ (config : Config) where
  abbrev pub new_change : Bytes
  new_change = config.m_tmp_dir ++ codes "new-change.osc.gz"

  abbrev pub new_state : Bytes
  new_state = config.m_tmp_dir ++ codes "new-state.txt"

  abbrev pub new_copy : Bytes
  new_copy = config.m_tmp_dir ++ codes "new-state.txt.copy"

  abbrev pub current_state : Bytes
  current_state = config.m_changes_dir ++ codes "state.txt"

  module _ {n : ℕ} (places : Places n) where
    abbrev pub public_change : Bytes
    public_change = config.m_changes_dir ++ (places.osc ++ codes ".gz")

    abbrev pub public_state : Bytes
    public_state = config.m_changes_dir ++ places.state

  -- No log file has or gets this name.
  abbrev pub IsClear : List Bytes → Bytes → Type 0
  IsClear files name = All (λ f. (name ≢ log_name config f) × (name ≢ done_name config f)) files

  -- The names of all the files are different ones.
  pub record AreDistinct {n : ℕ} (places : Places n) (files : List Bytes) : Type 0 where
    pub lock :
        All
          (λ x. x ≢ lock_file_path config)
          (new_change
            ∷ new_state
            ∷ new_copy
            ∷ public_change places
            ∷ public_state places
            ∷ current_state
            ∷ [])
    pub change :
        All
          (λ x. x ≢ new_change)
          (new_state ∷ new_copy ∷ public_change places ∷ public_state places ∷ current_state ∷ [])
    pub state :
        All
          (λ x. x ≢ new_state)
          (new_copy ∷ public_change places ∷ public_state places ∷ current_state ∷ [])
    pub copy :
        All (λ x. x ≢ new_copy) (public_change places ∷ public_state places ∷ current_state ∷ [])
    pub published : All (λ x. x ≢ public_change places) (public_state places ∷ current_state ∷ [])
    pub current : current_state ≢ public_state places
    pub logs : All (IsClear files) (
        lock_file_path config
        ∷ new_change
        ∷ new_state
        ∷ new_copy
        ∷ public_change places
        ∷ public_state places
        ∷ current_state
        ∷ [])
    pub apart : AreApart config files

  module _ (pid : ℕ) {n : ℕ} (places : Places n) (files : List Bytes) (before : Disk) where
    abbrev pub IsLocked : Disk → Type 0
    IsLocked d = d (lock_file_path config) ≡ some (lock_text pid n files)

    -- The diff and its state are in place, and so is the present state.
    abbrev pub IsPublished : Disk → Type 0
    IsPublished d =
        (d (public_change places) ≡ before new_change)
        × (d (public_state places) ≡ before new_state)
        × (d current_state ≡ before new_copy)

    -- What is there at any time: only the lock file is new; or it is complete and no log file is
    -- renamed; or the diff and both states are in place, and the lock file is there or every log
    -- file is renamed.
    abbrev pub IsGuarded : Disk → Type 0
    IsGuarded d =
        ((other : Bytes) → other ≢ lock_file_path config → d other ≡ before other)
        ⊎ ((IsLocked d × All (IsKept config before d) files)
            ⊎ (IsPublished d × (IsLocked d ⊎ All (IsDone config before d) files)))
