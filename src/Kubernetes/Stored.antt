-- ===== src/Kubernetes/Stored.antt =====
-- What the API server documents of the node that it stores, and what the operations of
-- nodelet/pkg/utils/kubeutils/kube_utils.go then make of that node.
pub mod Written
use mathlib.Core.Path.{subst}
use nodelet.Shared.{
  ◌≡◌, refl, sym, ◌∙◌, String, Bool, true, false, List, [], ◌∷◌, Option, none, some, ◌⊎◌, inl, inr,
  if◌then◌else◌, arith,
}
use nodelet.Kubernetes.{
  Node, Taint, Server, made, insert_all, delete_all, checked, read_node, new_client, got, get_node,
  removed_annotations, add_or_update_taint, taint_loop, add_labels_to_node, add_annotations_to_node,
  remove_annotations_from_node, add_taints_to_node, drain_node, uncordon_node, reattached,
  prevent_auto_reattach,
}

-- The node of the host, which only the calls of this code change: a read finds it, an update or a
-- cordon writes it or leaves it, and writes it where it has no error.
pub record Stores {S : Type 0} (sv : Server S) (stored : S → Node) : Type 0 where
  pub builds : (s : S) → stored (sv.build_config s).0 ≡ stored s
  pub makes : (s : S) → stored (sv.new_for_config s).0 ≡ stored s
  pub gets : (name : String) (s : S) → stored (sv.get name s).0 ≡ stored s
  pub reads : (name : String) (s : S) (n : Node) → (sv.get name s).1 ≡ inr n → n ≡ stored s
  pub updates :
      (n : Node) (s : S) → (stored (sv.update n s).0 ≡ n) ⊎ (stored (sv.update n s).0 ≡ stored s)
  pub cordons :
      (n : Node) (b : Bool) (s : S)
      → (stored (sv.run_cordon_or_uncordon n b s).0 ≡ record (stored s) { unschedulable = b })
        ⊎ (stored (sv.run_cordon_or_uncordon n b s).0 ≡ stored s)
  pub updates_well : (n : Node) (s : S) → (sv.update n s).1 ≡ none → stored (sv.update n s).0 ≡ n
  pub cordons_well :
      (n : Node) (b : Bool) (s : S)
      → (sv.run_cordon_or_uncordon n b s).1 ≡ none
      → stored (sv.run_cordon_or_uncordon n b s).0 ≡ record (stored s) { unschedulable = b }
  pub drains : (name : String) (s : S) → stored (sv.run_node_drain name s).0 ≡ stored s
  pub probes : (s : S) → stored (sv.k8s_api_available s).0 ≡ stored s
  pub identifies : (s : S) → stored (sv.node_identifier s).0 ≡ stored s
  pub removes : (file : String) (s : S) → stored (sv.remove file s).0 ≡ stored s

module _ {S : Type 0} (sv : Server S) (stored : S → Node) (h : Stores sv stored)
    (P : Node → Type 0) where
  checked-Keeps :
      (r : S × Option String) (message : String) (next : S → S × Option String)
      → P (stored r.0)
      → ((s : S) → P (stored s) → P (stored (next s).0))
      → P (stored (checked r message next).0)
  checked-Keeps (s, none) message next p k = k s p
  checked-Keeps (s, some err) message next p k = p

  read_node-Keeps :
      (r : S × (String ⊎ Node)) (message : String) (next : Node → S → S × Option String)
      → P (stored r.0)
      → ((n : Node) → r.1 ≡ inr n → P (stored (next n r.0).0))
      → P (stored (read_node r message next).0)
  read_node-Keeps (s, inl err) message next p k = p
  read_node-Keeps (s, inr n) message next p k = k n refl

  got-same : (r : S × (String ⊎ Node)) → stored (got sv r).0 ≡ stored r.0
  unfolding got
  got-same (s, inl err) = refl
  got-same (s, inr n) = refl

  got-read : (r : S × (String ⊎ Node)) (n : Node) → (got sv r).1 ≡ inr n → r.1 ≡ inr n
  unfolding got
  got-read (s, inl err) n e = ground (e, arith)
  got-read (s, inr m) n e = e

  pub get_node-same : (name : String) (s : S) → stored (get_node sv name s).0 ≡ stored s
  unfolding get_node
  get_node-same name s = got-same (sv.get name s) ∙ h.gets name s

  pub get_node-reads :
      (name : String) (s : S) (n : Node) → (get_node sv name s).1 ≡ inr n → n ≡ stored s
  unfolding get_node
  get_node-reads name s n e = h.reads name s n (got-read (sv.get name s) n e)

  -- What holds of the node keeps holding where it is left as it is, or written so.
  same : {m n : Node} → m ≡ n → P n → P m
  same e p = subst P (sym e) p

  written : {m n k : Node} → (m ≡ n) ⊎ (m ≡ k) → P n → P k → P m
  written (inl e) p q = same e p
  written (inr e) p q = same e q

  pub with_node-Keeps :
      (name message : String) (next : Node → S → S × Option String) (s : S)
      → P (stored s)
      → ((s' : S) → stored s' ≡ stored s → P (stored (next (stored s) s').0))
      → P (stored (read_node (get_node sv name s) message next).0)
  with_node-Keeps name message next s p k =
      read_node-Keeps (get_node sv name s) message next (same (get_node-same name s) p) (λ n e.
        subst (λ m. P (stored (next m (get_node sv name s).0).0)) (sym (get_node-reads name s n e))
          (k (get_node sv name s).0 (get_node-same name s)))

  pub new_client-Keeps : (s : S) → P (stored s) → P (stored (new_client sv s).0)
  unfolding new_client
  new_client-Keeps s p =
      checked-Keeps (sv.build_config s) _ _ (same (h.builds s) p) (λ s' q. same (h.makes s') q)

  pub add_annotations-Keeps :
      (name : String) (annots : List (String × String)) (s : S)
      → P (stored s)
      → P (record (stored s) {
        annotations = some (insert_all annots (made (stored s).annotations));
      })
      → P (stored (add_annotations_to_node sv name annots s).0)
  unfolding add_annotations_to_node
  add_annotations-Keeps name annots s p q =
      with_node-Keeps name _ _ s p (λ s' e. written (h.updates _ s') q (same e p))

  pub add_labels-Keeps :
      (name : String) (labels : List (String × String)) (s : S)
      → P (stored s)
      → P (record (stored s) { labels = some (insert_all labels (made (stored s).labels)) })
      → P (stored (add_labels_to_node sv name labels s).0)
  unfolding add_labels_to_node
  add_labels-Keeps name labels s p q =
      with_node-Keeps name _ _ s p (λ s' e. written (h.updates _ s') q (same e p))

  pub remove_annotations-Keeps :
      (name : String) (annots : List String) (s : S)
      → P (stored s)
      → ((entries : List (String × String))
          → (stored s).annotations ≡ some entries
          → P (record (stored s) { annotations = some (delete_all annots entries) }))
      → P (stored (remove_annotations_from_node sv name annots s).0)
  unfolding remove_annotations_from_node removed_annotations
  remove_annotations-Keeps name annots s p q =
      with_node-Keeps name _ _ s p (λ s' e. split s' e (stored s).annotations refl)
    where
      split :
          (s' : S)
          → stored s' ≡ stored s
          → (found : Option (List (String × String))) → (stored s).annotations ≡ found
          → P (stored (removed_annotations sv annots (stored s) s').0)
      split s' e none f = rw f (same e p)
      split s' e (some entries) f = rw f (written (h.updates _ s') (q entries f) (same e p))

  pub drain_node-Keeps :
      (name : String) (s : S)
      → P (stored s)
      → P (record (stored s) { unschedulable = true })
      → P (stored (drain_node sv name s).0)
  unfolding drain_node
  drain_node-Keeps name s p q = with_node-Keeps name _ _ s p (λ s' e.
      checked-Keeps (sv.run_cordon_or_uncordon (stored s) true s') _ _
        (written (h.cordons (stored s) true s')
          (subst (λ n. P (record n { unschedulable = true })) (sym e) q) (same e p))
        (λ s'' r. same (h.drains _ s'') r))

  taint_loop-Keeps :
      (message : String) (taints : List Taint) (n : Node) (s : S)
      → P (stored s)
      → ((taint : Taint) → P (add_or_update_taint sv n taint).0)
      → P (stored (taint_loop sv message taints n s).0)
  unfolding taint_loop nodelet.Kubernetes.wrap
  taint_loop-Keeps message [] n s p k = p
  taint_loop-Keeps message (taint ∷ taints) n s p k =
      split (λ s' r. taint_loop-Keeps message taints n s' r k) (add_or_update_taint sv n taint).1
    where
      split :
          ((s' : S) → P (stored s') → P (stored (taint_loop sv message taints n s').0))
          → (b : Bool)
          → P (
              stored
                (if b
                  then checked
                      (sv.update (add_or_update_taint sv n taint).0 s)
                      "failed to update node with newly added taints"
                      (taint_loop sv message taints n)
                  else (s, none)).0)
      split ih true =
          checked-Keeps (sv.update (add_or_update_taint sv n taint).0 s) _ _
            (written (h.updates _ s) (k taint) p) ih
      split ih false = p

  pub add_taints-Keeps :
      (name : String) (taints : List Taint) (s : S)
      → P (stored s)
      → ((taint : Taint) → P (add_or_update_taint sv (stored s) taint).0)
      → P (stored (add_taints_to_node sv name taints s).0)
  unfolding add_taints_to_node
  add_taints-Keeps name taints s p k =
      with_node-Keeps name _ _ s p (λ s' e. taint_loop-Keeps _ taints (stored s) s' (same e p) k)

  pub prevent_auto_reattach-same : (s : S) → stored (prevent_auto_reattach sv s).0 ≡ stored s
  unfolding prevent_auto_reattach reattached
  prevent_auto_reattach-same s =
      split (sv.remove "/opt/pf9/hostagent/extensions/fetch_qbert_metadata" s) ∙ h.removes _ s
    where
      split : (r : S × Option (Bool × String)) → stored (reattached sv r).0 ≡ stored r.0
      split (s', none) = refl
      split (s', some (true, err)) = refl
      split (s', some (false, err)) = refl
