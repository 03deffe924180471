-- ===== src/Raft/Spread.antt =====
-- What etcd_raft_checker/etcd_raft_checker.go accepts.
use nodelet.Shared.{
  ℕ, ◌+◌, ◌-◌, ◌≤◌, ◌≡◌, refl, ◌↔◌, ◌⊎◌, inl, inr, false, List, [], ◌∷◌, some, ltb, arith,
  if◌then◌else◌,
}
use nodelet.Raft.{scan, sub_u64, max_diff_in_raft_indices, too_far, check_endpoint_status}

-- All indices lie between two bounds.
abbrev pub AllWithin : ℕ → ℕ → List ℕ → Type 0
AllWithin low high [] = Unit
AllWithin low high (i ∷ indices) = (low ≤ i) × (i ≤ high) × AllWithin low high indices

-- Each index differs from a given one by at most 1, and so do all pairs.
abbrev pub AllNear : ℕ → List ℕ → Type 0
AllNear i [] = Unit
AllNear i (j ∷ indices) = (i ≤ j + 1) × (j ≤ i + 1) × AllNear i indices

abbrev pub IsClose : List ℕ → Type 0
IsClose [] = Unit
IsClose (i ∷ indices) = AllNear i indices × IsClose indices

abbrev IsMember : ℕ → List ℕ → Type 0
IsMember i [] = ⊥
IsMember i (j ∷ indices) = (i ≡ j) ⊎ IsMember i indices

AllWithin-widen : (a b c d : ℕ) (l : List ℕ) → a ≤ c → d ≤ b → AllWithin c d l → AllWithin a b l
AllWithin-widen a b c d [] p q h = tt
AllWithin-widen a b c d (i ∷ l) p q h =
    (omega arith, omega arith, AllWithin-widen a b c d l p q h.2)

-- The loop finds bounds of the list and of where it began.
scan-AllWithin :
    (l : List ℕ) (low high : ℕ)
    → let m = scan l (low, high) in (m.0 ≤ low) × (high ≤ m.1) × AllWithin m.0 m.1 l
unfolding scan
scan-AllWithin [] low high = (omega arith, omega arith, tt)
scan-AllWithin (i ∷ l) low high =
    let rest = scan-AllWithin l (if ltb i low then i else low) (if ltb high i then i else high) in
    (ground arith, ground arith, (ground arith, ground arith, rest.2))

-- The bounds are indices of the list, or where it began.
scan-IsMember :
    (l : List ℕ) (low high : ℕ)
    → let m = scan l (low, high) in ((m.0 ≡ low) ⊎ IsMember m.0 l) × ((m.1 ≡ high) ⊎ IsMember m.1 l)
unfolding scan
scan-IsMember [] low high = (inl refl, inl refl)
scan-IsMember (i ∷ l) low high =
    let rest = scan-IsMember l (if ltb i low then i else low) (if ltb high i then i else high) in
    ground (arith, rest)

AllNear-IsMember : (i j : ℕ) (l : List ℕ) → AllNear i l → IsMember j l → (i ≤ j + 1) × (j ≤ i + 1)
AllNear-IsMember i j [] near m = absurd m
AllNear-IsMember i j (k ∷ l) near (inl same) = (omega arith, omega arith)
AllNear-IsMember i j (k ∷ l) near (inr m) = AllNear-IsMember i j l near.2 m

IsClose-IsMember : (i j : ℕ) (l : List ℕ) → IsClose l → IsMember i l → IsMember j l → i ≤ j + 1
IsClose-IsMember i j [] close m n = absurd m
IsClose-IsMember i j (k ∷ l) close (inl a) (inl b) = omega arith
IsClose-IsMember i j (k ∷ l) close (inl a) (inr n) =
    let near = AllNear-IsMember k j l close.0 n in omega arith
IsClose-IsMember i j (k ∷ l) close (inr m) (inl b) =
    let near = AllNear-IsMember k i l close.0 m in omega arith
IsClose-IsMember i j (k ∷ l) close (inr m) (inr n) = IsClose-IsMember i j l close.1 m n

AllWithin-AllNear :
    (low high i : ℕ) (l : List ℕ)
    → high ≤ low + 1
    → low ≤ i
    → i ≤ high
    → AllWithin low high l
    → AllNear i l
AllWithin-AllNear low high i [] h a b w = tt
AllWithin-AllNear low high i (j ∷ l) h a b w =
    (omega arith, omega arith, AllWithin-AllNear low high i l h a b w.2)

AllWithin-IsClose : (low high : ℕ) (l : List ℕ) → high ≤ low + 1 → AllWithin low high l → IsClose l
AllWithin-IsClose low high [] h w = tt
AllWithin-IsClose low high (i ∷ l) h w =
    (AllWithin-AllNear low high i l h w.0 w.1 w.2, AllWithin-IsClose low high l h w.2)

AllWithin-IsMember :
    (low high i : ℕ) (l : List ℕ) → AllWithin low high l → IsMember i l → (low ≤ i) × (i ≤ high)
AllWithin-IsMember low high i [] w m = absurd m
AllWithin-IsMember low high i (j ∷ l) w (inl e) = (omega arith, omega arith)
AllWithin-IsMember low high i (j ∷ l) w (inr m) = AllWithin-IsMember low high i l w.2 m

-- The greatest 64-bit word.
abbrev pub max_u64 : ℕ
max_u64 = 18446744073709551615

sub_u64_lem : (a b : ℕ) → b ≤ a → a ≤ max_u64 → sub_u64 a b ≡ a - b
unfolding sub_u64
sub_u64_lem a b h k = omega arith

to_member : (i : ℕ) (j : ℕ) (l : List ℕ) → (i ≡ j) ⊎ IsMember i (j ∷ l) → IsMember i (j ∷ l)
to_member i j l (inl e) = inl e
to_member i j l (inr m) = m

-- For raft indices that are 64-bit words, at least one, `checkEndpointStatus` accepts exactly when
-- any two of them differ by at most 1.
pub check_endpoint_status_iff :
    (i : ℕ) (indices : List ℕ)
    → AllWithin 0 max_u64 (i ∷ indices)
    → (check_endpoint_status (some (i ∷ indices)) ≡ false) ↔ IsClose (i ∷ indices)
unfolding check_endpoint_status too_far max_diff_in_raft_indices
check_endpoint_status_iff i indices words =
    let l : List ℕ = i ∷ indices in
    let m = scan l (i, i) in
    let (below, above, within) = scan-AllWithin l i i in
    let found = scan-IsMember l i i in
    let low : IsMember m.0 l = to_member m.0 i indices found.0 in
    let high : IsMember m.1 l = to_member m.1 i indices found.1 in
    let bound = AllWithin-IsMember 0 max_u64 m.1 l words high in
    let diff = sub_u64_lem m.1 m.0 (omega arith) bound.1 in
    (
      λ e. AllWithin-IsClose m.0 m.1 l (ground (arith, diff, e)) within,
      λ close. let near = IsClose-IsMember m.1 m.0 l close high low in ground (arith, diff, near),
    )
