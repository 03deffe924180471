-- ===== src/Deployer/Client.antt =====
-- How nodeletctl/pkg/nodeletctl/deployer.go comes to the client of a node: the local one, or one by
-- SSH. The package net, the SSH library and the machine's own names are parameters.
use Prim.Native.String.{◌++◌}
use mathlib.Core.Path.{subst}
use nodelet.Shared.{
  ℕ, zero, suc, ◌+◌, ◌<◌, ◌≤◌, ◌≡◌, ◌⊎◌, inl, inr, refl, sym, ap, ◌∙◌, String, Bool, true, false,
  List, [], ◌∷◌, Option, none, some, ◌==◌, ltb, if◌then◌else◌, Bool-cases, arith,
}
use nodelet.Nodeletctl.State.{NodeletConfig}

pub data Call : Type 0 where
  connect : String → Call
  -- seconds
  sleep : ℕ → Call

pub record Net : Type 0 where
  -- whether `ssh.NewClient` fails, after the calls so far
  pub refuses : List Call → String → Bool
  -- `net.ParseIP(host)` is an address with no form of four bytes
  pub is_ip_v6_addr : String → Bool
  -- `os.Hostname`
  pub hostname : Option String
  -- `net.Interfaces`, each with what `Addrs` answers: the texts of the addresses that have an IP
  pub interfaces : Option (List (Option (List (Option String))))

-- The loop over the addresses of an interface: whether the node's name is among them.
has_addr : String → List (Option String) → Bool
has_addr node [] = false
has_addr node (none ∷ addrs) = has_addr node addrs
has_addr node (some ip ∷ addrs) =
    let rest = has_addr node addrs in if node == ip then true else rest

-- The loop over the interfaces; `none` is an error.
has_interface : String → List (Option (List (Option String))) → Option Bool
unfolding has_addr
has_interface node [] = some false
has_interface node (none ∷ ifaces) = none
has_interface node (some addrs ∷ ifaces) =
    let rest = has_interface node ifaces in if has_addr node addrs then some true else rest

-- `IsLocal`.
unfoldable pub is_local : Net → String → Option Bool
unfolding has_interface
is_local n node = elim n.hostname [
  | none ↦ none
  | some name ↦
      if name == node
      then some true
      else elim n.interfaces [ none ↦ none | some ifaces ↦ has_interface node ifaces ]
]

-- `EncloseIpV6`.
unfoldable pub enclose_ip_v6 : String → String
enclose_ip_v6 ip = "[" ++ ip ++ "]"

-- The host that `CreateSSHClientRaw` connects to.
unfoldable pub ssh_host : Net → String → String
ssh_host n host = if n.is_ip_v6_addr host then enclose_ip_v6 host else host

-- `CreateSSHClientRaw`: whether there is an error, and the calls.
unfoldable pub create_ssh_client_raw : Net → String → List Call → Bool × List Call
create_ssh_client_raw n host l = (n.refuses l (ssh_host n host), connect (ssh_host n host) ∷ l)

-- The loop of `CreateSSHClient`, by the retries left and the last error.
unfoldable pub retry_loop : Net → String → ℕ → Bool × List Call → Bool × List Call
retry_loop n host zero (failed, l) = (failed, l)
retry_loop n host (suc count) (true, l) =
    retry_loop n host count (create_ssh_client_raw n host (sleep 60 ∷ l))
retry_loop n host (suc count) (false, l) = (false, l)

-- `CreateSSHClient`.
unfoldable pub create_ssh_client : Net → String → List Call → Bool × List Call
create_ssh_client n host l = retry_loop n host 5 (create_ssh_client_raw n host l)

-- The client of a node.
pub data Client : Type 0 where
  local : Client
  remote : String → Client

-- `GetNodeletDeployer`, up to the client; `key` says whether the private key can be read. `none` is
-- an error.
client_for : Net → Bool → String → Option Bool → List Call → Option Client × List Call
client_for n key host none l = (none, l)
client_for n key host (some true) l = (some local, l)
client_for n false host (some false) l = (none, l)
client_for n true host (some false) l =
    let (failed, l') = create_ssh_client n host l in
    (if failed then none else some (remote (ssh_host n host)), l')

unfoldable pub get_client : Net → Bool → NodeletConfig → List Call → Option Client × List Call
unfolding client_for
get_client n key cfg l = client_for n key cfg.host_ip (is_local n cfg.host_ip) l

-- The calls behind which attempt `k`, from 0 on, is made, and those behind it.
abbrev pub before : Net → String → List Call → ℕ → List Call
before n host l zero = l
before n host l (suc k) = sleep 60 ∷ connect (ssh_host n host) ∷ before n host l k

abbrev pub refused : Net → String → List Call → ℕ → Bool
refused n host l k = n.refuses (before n host l k) (ssh_host n host)

-- Attempts up to `last`, the first ones refused.
abbrev pub Attempted : Net → String → List Call → ℕ → Bool × List Call → Type 0
Attempted n host l last res =
    ((k : ℕ) → k < last → refused n host l k ≡ true)
    × (res ≡ (refused n host l last, connect (ssh_host n host) ∷ before n host l last))

-- The attempts end at one that is not refused, or after so many.
abbrev pub Ends : Net → String → List Call → ℕ → Bool × List Call → Type 0
Ends n host l most res =
    (last : ℕ) × (last ≤ most)
    × Attempted n host l last res
    × ((refused n host l last ≡ false) ⊎ (last ≡ most))

retry_loop-Ends :
    (n : Net) (host : String) (l : List Call) (count j : ℕ)
    → ((k : ℕ) → k < j → refused n host l k ≡ true)
    → Ends n host l (j + count) (
        retry_loop n host count (refused n host l j, connect (ssh_host n host) ∷ before n host l j))
unfolding retry_loop create_ssh_client_raw
retry_loop-Ends n host l zero j h = (j, omega arith, (h, refl), inr (omega arith))
retry_loop-Ends n host l (suc count) j h = elim (Bool-cases (refused n host l j)) [
  | inl bad ↦ rw bad (further (retry_loop-Ends n host l count (suc j) (also bad)))
  | inr good ↦ (j, omega arith, (h, ends good), inl good)
]
  where
    also : refused n host l j ≡ true → (k : ℕ) → k < suc j → refused n host l k ≡ true
    also bad k lt = elim (Bool-cases (ltb k j)) [
      | inl below ↦ h k (ground arith)
      | inr not_below ↦ subst (λ i. refused n host l i ≡ true) (ground arith) bad
    ]

    ends :
        refused n host l j ≡ false
        → retry_loop n host
            (suc count)
            (refused n host l j, connect (ssh_host n host) ∷ before n host l j)
          ≡ (refused n host l j, connect (ssh_host n host) ∷ before n host l j)
    ends good =
        ap (λ b. retry_loop n host (suc count) (b, connect (ssh_host n host) ∷ before n host l j))
          good
        ∙ ap (λ b. (b, connect (ssh_host n host) ∷ before n host l j)) (sym good)

    shift :
        {last : ℕ}
        → (refused n host l last ≡ false) ⊎ (last ≡ suc j + count)
        → (refused n host l last ≡ false) ⊎ (last ≡ j + suc count)
    shift (inl good) = inl good
    shift (inr e) = inr (omega arith)

    further :
        Ends n host l (suc j + count) (
          retry_loop n host count
            (refused n host l (suc j), connect (ssh_host n host) ∷ before n host l (suc j)))
        → Ends n host l (j + suc count) (
            retry_loop n host count (
              create_ssh_client_raw n host
                (sleep 60 ∷ connect (ssh_host n host) ∷ before n host l j)))
    further (last, le, attempted, why) = (last, omega arith, attempted, shift why)

-- `CreateSSHClient` ends after at most six attempts, with a minute of sleep between two; all
-- attempts before the last were refused, it returns what the last one does, and if that one is
-- refused too it is the sixth.
pub create_ssh_client-Ends :
    (n : Net) (host : String) (l : List Call) → Ends n host l 5 (create_ssh_client n host l)
unfolding create_ssh_client create_ssh_client_raw
create_ssh_client-Ends n host l = retry_loop-Ends n host l 5 0 (λ k lt. absurd (omega arith))
