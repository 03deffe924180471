-- ===== src/Raft.antt =====
-- etcd_raft_checker/etcd_raft_checker.go: the check that the members of etcd keep up. The output of
-- etcdctl comes parsed, as the raft indices; they are 64-bit words.
pub mod Spread
use nodelet.Shared.{
  ℕ, ◌+◌, ◌-◌, ◌%◌, ◌^◌, Bool, true, false, List, [], ◌∷◌, Option, none, some, ltb, if◌then◌else◌,
}

-- One round of the loop of `maxDiffInRaftIndices`, and the loop: the least and the greatest index.
unfoldable pub scan : List ℕ → ℕ × ℕ → ℕ × ℕ
scan [] m = m
scan (i ∷ indices) (low, high) =
    scan indices (if ltb i low then i else low, if ltb high i then i else high)

-- `max - min` on `uint64`.
unfoldable pub sub_u64 : ℕ → ℕ → ℕ
sub_u64 a b = (a + 2 ^ 64 - b) % 2 ^ 64

-- `maxDiffInRaftIndices`; `none` is the panic of the index 0 of an empty list.
unfoldable pub max_diff_in_raft_indices : List ℕ → Option ℕ
max_diff_in_raft_indices [] = none
max_diff_in_raft_indices (i ∷ indices) =
    let (low, high) = scan (i ∷ indices) (i, i) in some (sub_u64 high low)

-- `checkEndpointStatus`, on the result of the command and of the parse, `none` for their errors:
-- whether it returns an error.
too_far : Option ℕ → Bool
too_far none = true
too_far (some d) = ltb 1 d

unfoldable pub check_endpoint_status : Option (List ℕ) → Bool
unfolding too_far max_diff_in_raft_indices
check_endpoint_status none = true
check_endpoint_status (some []) = true
check_endpoint_status (some (i ∷ indices)) = too_far (max_diff_in_raft_indices (i ∷ indices))
