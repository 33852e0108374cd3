-- ===== src/Tests/States.antt =====
-- The states of the replication diffs, with their files and paths.
use osmdbt_pgoutput.Base.{
  ℕ, zero, suc, ◌≡◌, ◌≢◌, refl, ap, none, some, ◌∷◌, ◌++◌, arith, Bytes, codes, Lacks, length,
  length-replicate, replicate,
}
use osmdbt_pgoutput.Base.Result.{ok}
use osmdbt_pgoutput.Cstd.{to_padded, snprintf}
use osmdbt_pgoutput.Osmium.{IsIso}
use osmdbt_pgoutput.State.{
  State, state_text, read_state, state_path, osc_path, dir1_path, dir2_path,
}
use osmdbt_pgoutput.State.RoundTrip.{read_state-state_text}
use osmdbt_pgoutput.State.Paths.{path_lem}
use osmdbt_pgoutput.State.Write.{write}
use osmdbt_pgoutput.State.Written.{read_state-write}
use osmdbt_pgoutput.Tests.Memory.{memory, memory-IsPosix, memory-IsAble}
use osmdbt_pgoutput.Tests.Files.{osm, osm-IsOsm}
use osmdbt_pgoutput.Tests.Diff.{ts}

zeros-Lacks : (c n : ℕ) → b'0' ≢ c → Lacks c (replicate n b'0')
zeros-Lacks c zero h = tt
zeros-Lacks c (suc n) h = (h, zeros-Lacks c n h)

pub ts_IsIso : IsIso ts
ts_IsIso = record {
  reads_iso = λ t. ap some (length-replicate {A = ℕ} t b'0');
  no_newline = λ t. zeros-Lacks b'\n' t (omega arith);
  no_backslash = λ t. zeros-Lacks b'\\' t (omega arith);
  no_equals = λ t. zeros-Lacks b'=' t (omega arith);
}

abbrev state : State ts
state = record { m_sequence_number = 4999; m_timestamp = 20 }

read_state-state_text_example :
    read_state ts osm (codes "state.txt") (some (state_text ts state (some (codes "Thu Nov 26"))))
    ≡ ok state
read_state-state_text_example =
    read_state-state_text ts ts_IsIso osm osm-IsOsm (codes "state.txt") state
      (some (codes "Thu Nov 26")) (ground arith) (omega arith) (omega arith) refl

path_lem_example :
    (a b c : Bytes) × (length a ≡ 3)
    × (length b ≡ 3)
    × (length c ≡ 3)
    × (to_padded 9 4999 ≡ a ++ (b ++ c))
    × (state_path 4999 ≡ ok ((a ++ (b'/' ∷ (b ++ (b'/' ∷ c)))) ++ codes ".state.txt"))
    × (osc_path 4999 ≡ ok ((a ++ (b'/' ∷ (b ++ (b'/' ∷ c)))) ++ codes ".osc"))
    × (dir1_path 4999 ≡ ok a)
    × (dir2_path 4999 ≡ ok (a ++ (b'/' ∷ b)))
path_lem_example = path_lem 4999 (omega arith)

path_test : dir2_path 4999 ≡ ok (codes "000/004")
unfolding dir2_path to_padded snprintf
path_test = refl

read_state-write_example :
    ((write memory ts state (codes "state.txt") none (λ name. none)).result ≡ ok tt)
    × (read_state ts osm (codes "state.txt") (
          (write memory ts state (codes "state.txt") none (λ name. none)).world (codes "state.txt"))
        ≡ ok state)
read_state-write_example =
    read_state-write memory memory-IsPosix memory-IsAble ts ts_IsIso osm osm-IsOsm state
      (codes "state.txt") none (λ name. none) refl tt (omega arith) (omega arith) refl
