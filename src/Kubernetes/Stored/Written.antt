-- ===== src/Kubernetes/Stored/Written.antt =====
-- What an operation of nodelet/pkg/utils/kubeutils/kube_utils.go has done where it has no error.
use mathlib.Core.Path.{subst}
use nodelet.Shared.{
  ◌≡◌, refl, sym, ap, ◌∙◌, String, false, List, [], ◌∷◌, Option, none, some, ◌⊎◌, inl, inr, delete,
  arith,
}
use nodelet.Kubernetes.{
  Node, Server, wrap, delete_all, read_node, get_node, removed_annotations,
  remove_annotations_from_node, uncordon_node,
}
use nodelet.Kubernetes.Stored.{Stores, get_node-same, get_node-reads}

wrap-none : (err : Option String) (message : String) → wrap err message ≡ none → err ≡ none
unfolding wrap
wrap-none none message e = refl
wrap-none (some err) message e = ground (e, arith)

-- An annotation deleted, of a map that may be nil.
abbrev pub without : String → Option (List (String × String)) → Option (List (String × String))
without key none = none
without key (some entries) = some (delete key entries)

-- A node that takes workloads again.
abbrev pub schedulable : Node → Node
schedulable n = record n { unschedulable = false }

module _ {S : Type 0} (sv : Server S) (stored : S → Node) (h : Stores sv stored) where
  read_node-well :
      (P : S → Type 0) (r : S × (String ⊎ Node)) (message : String)
      (next : Node → S → S × Option String)
      → ((n : Node) → r.1 ≡ inr n → (next n r.0).1 ≡ none → P (next n r.0).0)
      → (read_node r message next).1 ≡ none
      → P (read_node r message next).0
  unfolding wrap
  read_node-well P (s, inl err) message next k e = absurd (none_lem _ e)
    where
      none_lem : (t : String) → some t ≡ none → ⊥
      none_lem t f = ground (f, arith)
  read_node-well P (s, inr n) message next k e = k n refl e

  with_node-well :
      (P : S → Type 0) (name message : String) (next : Node → S → S × Option String) (s : S)
      → ((s' : S) → stored s' ≡ stored s → (next (stored s) s').1 ≡ none → P (next (stored s) s').0)
      → (read_node (get_node sv name s) message next).1 ≡ none
      → P (read_node (get_node sv name s) message next).0
  with_node-well P name message next s k =
      read_node-well P (get_node sv name s) message next (λ n e.
        subst (λ m. (next m (get_node sv name s).0).1 ≡ none → P (next m (get_node sv name s).0).0)
          (sym (get_node-reads sv stored h (λ m. Unit) name s n e))
          (k (get_node sv name s).0 (get_node-same sv stored h (λ m. Unit) name s)))

  -- The annotations once one of them is removed.
  pub remove_annotations-well :
      (key name : String) (s : S)
      → (remove_annotations_from_node sv name (key ∷ []) s).1 ≡ none
      → (stored (remove_annotations_from_node sv name (key ∷ []) s).0).annotations
        ≡ without key (stored s).annotations
  unfolding remove_annotations_from_node removed_annotations delete_all
  remove_annotations-well key name s =
      with_node-well (λ t. (stored t).annotations ≡ without key (stored s).annotations) name _ _ s
        (λ s' e. split s' e (stored s).annotations refl)
    where
      split :
          (s' : S)
          → stored s' ≡ stored s
          → (found : Option (List (String × String))) → (stored s).annotations ≡ found
          → (removed_annotations sv (key ∷ []) (stored s) s').1 ≡ none
          → (stored (removed_annotations sv (key ∷ []) (stored s) s').0).annotations
            ≡ without key (stored s).annotations
      split s' e none f = rw f (λ g. ap (λ n. n.annotations) e ∙ f)
      split s' e (some entries) f =
          rw f (λ g. ap (λ n. n.annotations) (h.updates_well _ s' (wrap-none _ _ g)))

  -- An uncordon.
  pub uncordon_node-well :
      (name : String) (s : S)
      → (uncordon_node sv name s).1 ≡ none
      → stored (uncordon_node sv name s).0 ≡ schedulable (stored s)
  unfolding uncordon_node
  uncordon_node-well name s =
      with_node-well (λ t. stored t ≡ schedulable (stored s)) name _ _ s
        (λ s' e f. h.cordons_well (stored s) false s' (wrap-none _ _ f) ∙ ap schedulable e)
