-- ===== src/Nodeletctl/Nodes/Partition.antt =====
-- What `getDiffNodes` of nodeletctl/pkg/nodeletctl/nodeletctl.go makes of the desired and the active
-- nodes.
use nodelet.Shared.{
  ◌≡◌, refl, String, Bool, true, false, not, ◌&&◌, ◌||◌, List, [], ◌∷◌, ◌==◌, if◌then◌else◌, arith,
  eq_iff, lookup, insert, lookup-insert, lookup-nil,
}
use nodelet.Nodeletctl.State.{HostConfig}
use nodelet.Nodeletctl.Nodes.{
  Present, present, has, active_nodes, desired_nodes, old_nodes, nodes_by, get_diff_nodes,
}

-- Whether a host of the list has the name.
abbrev pub is_named : String → List HostConfig → Bool
is_named name [] = false
is_named name (h ∷ hosts) = h.node_name == name || is_named name hosts

abbrev pub is_among : String → List String → Bool
is_among name [] = false
is_among name (other ∷ names) = other == name || is_among name names

has-insert {ℓ} :
    {A : Type ℓ} (key name : String) (value : A) (m : List (String × A))
    → has name (insert key value m) ≡ (key == name || has name m)
has-insert key name value m = ground (arith, lookup-insert key name value m)

has-active_nodes :
    (name : String) (names : List String) (m : List (String × Present))
    → has name (active_nodes names m) ≡ (is_among name names || has name m)
unfolding active_nodes
has-active_nodes name [] m = refl
has-active_nodes name (other ∷ names) m =
    ground
      (arith, has-active_nodes name names (insert other present m), has-insert other name present m)

has-desired_nodes :
    (name : String) (hosts : List HostConfig) (m : List (String × HostConfig))
    → has name (desired_nodes hosts m) ≡ (is_named name hosts || has name m)
unfolding desired_nodes
has-desired_nodes name [] m = refl
has-desired_nodes name (h ∷ hosts) m =
    ground (
      arith,
      has-desired_nodes name hosts (insert h.node_name h m),
      has-insert h.node_name name h m,
    )

-- Each host stands under its name.
abbrev IsKeyed : List (String × HostConfig) → Type 0
IsKeyed [] = Unit
IsKeyed ((key, h) ∷ m) = (h.node_name ≡ key) × IsKeyed m

insert-IsKeyed :
    (h : HostConfig) (m : List (String × HostConfig)) → IsKeyed m → IsKeyed (insert h.node_name h m)
unfolding insert
insert-IsKeyed h [] k = (refl, tt)
insert-IsKeyed h ((key, g) ∷ m) k = ground (arith, insert-IsKeyed h m k.1)

desired_nodes-IsKeyed :
    (hosts : List HostConfig) (m : List (String × HostConfig))
    → IsKeyed m
    → IsKeyed (desired_nodes hosts m)
unfolding desired_nodes
desired_nodes-IsKeyed [] m k = k
desired_nodes-IsKeyed (h ∷ hosts) m k =
    desired_nodes-IsKeyed hosts (insert h.node_name h m) (insert-IsKeyed h m k)

named-old_nodes :
    (name : String) (active : List (String × Present)) (desired : List (String × HostConfig))
    → is_named name (old_nodes active desired) ≡ (has name active && not (has name desired))
unfolding old_nodes lookup
named-old_nodes name [] desired = refl
named-old_nodes name ((key, x) ∷ active) desired =
    ground (arith, eq_iff key name, named-old_nodes name active desired)

named-nodes_by :
    (wanted : Bool) (name : String) (desired : List (String × HostConfig))
    (active : List (String × Present))
    → IsKeyed desired
    → is_named name (nodes_by wanted desired active)
      ≡ (has name desired && (if has name active then wanted else not wanted))
unfolding nodes_by lookup
named-nodes_by wanted name [] active k = refl
named-nodes_by wanted name ((key, h) ∷ desired) active k =
    ground (arith, eq_iff key name, k.0, named-nodes_by wanted name desired active k.1)

-- By names, the new nodes of `getDiffNodes` are the desired ones that are not active, the old nodes
-- the active ones that are not desired, and the current nodes those that are both.
pub get_diff_nodes-partition :
    (desired : List HostConfig) (active : List String) (name : String)
    → let diff = get_diff_nodes desired active in
      (is_named name diff.new_nodes ≡ (is_named name desired && not (is_among name active)))
      × (is_named name diff.old_nodes ≡ (is_among name active && not (is_named name desired)))
      × (is_named name diff.curr_nodes ≡ (is_named name desired && is_among name active))
unfolding get_diff_nodes
get_diff_nodes-partition desired active name =
    let a = active_nodes active [] in
    let d = desired_nodes desired [] in
    let k = desired_nodes-IsKeyed desired [] tt in
    ground (
      arith,
      named-nodes_by false name d a k,
      named-nodes_by true name d a k,
      named-old_nodes name a d,
      has-active_nodes name active [],
      has-desired_nodes name desired [],
      lookup-nil {A = Present} name,
      lookup-nil {A = HostConfig} name,
    )
