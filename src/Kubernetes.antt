-- ===== src/Kubernetes.antt =====
-- The operations on a node of nodelet/pkg/utils/kubeutils/kube_utils.go. Kubernetes' client and
-- `kubectl drain` are parameters, and so are the files of the host.
pub mod Stored
use Prim.Native.String.{◌++◌}
use nodelet.Shared.{
  ℕ, String, Bool, true, false, ◌&&◌, ◌||◌, List, [], ◌∷◌, Option, none, some, ◌⊎◌, inl, inr, ◌==◌,
  eqb, if◌then◌else◌, insert, delete, ◌++◌ as ◌++l◌,
}

pub record Taint : Type 0 where
  pub key : String
  pub value : String
  pub effect : String
  pub time_added : Option ℕ

-- `v1.Node`, at the fields that the code reads or sets; `none` is a nil map.
pub record Node : Type 0 where
  pub name : String
  pub labels : Option (List (String × String))
  pub annotations : Option (List (String × String))
  pub unschedulable : Bool
  pub taints : List Taint

-- Calls that leave the code, over the states of what is around it. An error is its text.
pub record Server (S : Type 0) : Type 0 where
  -- `clientcmd.BuildConfigFromFlags` and `kubernetes.NewForConfig`
  pub build_config : S → S × Option String
  pub new_for_config : S → S × Option String
  -- `Nodes().Get` and `Nodes().Update`
  pub get : String → S → S × (String ⊎ Node)
  pub update : Node → S → S × Option String
  -- `drain.RunCordonOrUncordon` and `drain.RunNodeDrain`
  pub run_cordon_or_uncordon : Node → Bool → S → S × Option String
  pub run_node_drain : String → S → S × Option String
  -- `K8sApiAvailable` and `GetNodeIdentifier`
  pub k8s_api_available : S → S × Option String
  pub node_identifier : S → S × (String ⊎ String)
  -- `WriteCloudProviderConfig`
  pub write_cloud_provider_config : S → S × Option String
  -- `os.Stat` of a file: whether it has no error
  pub exists : String → S → Bool
  -- `os.Remove`, with `os.IsNotExist` of its error
  pub remove : String → S → S × Option (Bool × String)
  -- `taint.MatchTaint`, and the text of a list of pointers to taints
  pub match_taint : Taint → Taint → Bool
  pub show_taints : List Taint → String

-- `errors.Wrap` and `errors.Wrapf`, whose error of nil is nil.
unfoldable pub wrap : Option String → String → Option String
wrap none message = none
wrap (some err) message = some (message ++ ": " ++ err)

-- The entries of a map or the items of a slice, as `%v` writes them.
show_entries : List (String × String) → String
show_entries [] = ""
show_entries ((key, value) ∷ []) = key ++ ":" ++ value
show_entries ((key, value) ∷ e ∷ entries) = key ++ ":" ++ value ++ " " ++ show_entries (e ∷ entries)

show_items : List String → String
show_items [] = ""
show_items (item ∷ []) = item
show_items (item ∷ i ∷ items) = item ++ " " ++ show_items (i ∷ items)

-- A map of a node once the code has made sure that it is not nil.
abbrev pub made : Option (List (String × String)) → List (String × String)
made none = []
made (some entries) = entries

-- `for k, v := range additions { m[k] = v }`
unfoldable pub insert_all : List (String × String) → List (String × String) → List (String × String)
insert_all [] entries = entries
insert_all ((key, value) ∷ more) entries = insert_all more (insert key value entries)

-- `for _, v := range keys { delete(m, v) }`
unfoldable pub delete_all : List String → List (String × String) → List (String × String)
delete_all [] entries = entries
delete_all (key ∷ keys) entries = delete_all keys (delete key entries)

-- The loop of `AddOrUpdateTaint` over the taints of a node: the new ones, and whether one of them was
-- changed; `none` is its early return.
unfoldable pub newer_taints :
    {S : Type 0} → Server S → Taint → List Taint → Option (List Taint × Bool)
newer_taints sv taint [] = some ([], false)
newer_taints sv taint (old ∷ olds) =
    let rest = newer_taints sv taint olds in
    if sv.match_taint taint old
    then (if is_taint taint old then none else changed taint true rest)
    else changed old false rest
  where
    same_time : Option ℕ → Option ℕ → Bool
    same_time none none = true
    same_time none (some u) = false
    same_time (some t) none = false
    same_time (some t) (some u) = eqb t u

    is_taint : Taint → Taint → Bool
    is_taint t u =
        (t.key == u.key)
        && (t.value == u.value)
        && (t.effect == u.effect)
        && same_time t.time_added u.time_added

    changed : Taint → Bool → Option (List Taint × Bool) → Option (List Taint × Bool)
    changed t now none = none
    changed t now (some (taints, updated)) = some (t ∷ taints, now || updated)

unfoldable pub with_newer : Node → Taint → Option (List Taint × Bool) → Node × Bool
with_newer node taint none = (node, false)
with_newer node taint (some (taints, true)) = (record node { taints = taints }, true)
with_newer node taint (some (taints, false)) =
    (record node { taints = taints ++l taint ∷ [] }, true)

-- `AddOrUpdateTaint`, which never has an error: the copy of the node, and whether it was updated.
unfoldable pub add_or_update_taint : {S : Type 0} → Server S → Node → Taint → Node × Bool
add_or_update_taint sv node taint = with_newer node taint (newer_taints sv taint node.taints)

-- What follows a call, unless it has an error, which is returned with a message.
module _ {S : Type 0} where
  abbrev checked : S × Option String → String → (S → S × Option String) → S × Option String
  checked (s, none) message next = next s
  checked (s, some err) message next = (s, wrap (some err) message)

  abbrev read_node :
      S × (String ⊎ Node) → String → (Node → S → S × Option String) → S × Option String
  read_node (s, inl err) message next = (s, wrap (some err) message)
  read_node (s, inr node) message next = next node s

module _ {S : Type 0} (sv : Server S) where
  -- `GetClientset` and `NewClient`: the error.
  unfoldable pub new_client : S → S × Option String
  new_client s =
      checked (sv.build_config s) "failed to build config from kubeconfig" (λ s'.
        let (s'', err) = sv.new_for_config s' in (s'', wrap err "failed to create clientset"))

  -- `GetNodeFromK8sApi`.
  unfoldable pub got : S × (String ⊎ Node) → S × (String ⊎ Node)
  got (s, inl err) = (s, inl ("failed to get node" ++ ": " ++ err))
  got (s, inr node) = (s, inr node)

  unfoldable pub get_node : String → S → S × (String ⊎ Node)
  unfolding got
  get_node name s = got (sv.get name s)

  -- The operations on a node begin with its read.
  abbrev pub with_node : String → String → (Node → S → S × Option String) → S → S × Option String
  with_node name message next s = read_node (get_node name s) message next

  abbrev updated : Node → String → S → S × Option String
  updated node message s = let (s', err) = sv.update node s in (s', wrap err message)

  -- `AddLabelsToNode`.
  unfoldable pub add_labels_to_node : String → List (String × String) → S → S × Option String
  unfolding show_entries
  add_labels_to_node name labels =
      with_node name ("failed to add labels: map[" ++ show_entries labels ++ "] to node: " ++ name)
        (λ node.
          updated (record node { labels = some (insert_all labels (made node.labels)) })
            "failed to update node with newly added labels")

  -- `AddAnnotationsToNode`.
  unfoldable pub add_annotations_to_node : String → List (String × String) → S → S × Option String
  unfolding show_entries
  add_annotations_to_node name annots =
      with_node name
        ("failed to add annotations: map[" ++ show_entries annots ++ "] to node: " ++ name)
        (λ node.
          updated (record node { annotations = some (insert_all annots (made node.annotations)) })
            "failed to update node with newly added annotations")

  -- `RemoveAnnotationsFromNode`.
  unfoldable pub removed_annotations : List String → Node → S → S × Option String
  removed_annotations annots node s = elim node.annotations [
    | none ↦ (s, none)
    | some entries ↦
        updated (record node { annotations = some (delete_all annots entries) })
          "failed to update node with removed annotations" s
  ]

  unfoldable pub remove_annotations_from_node : String → List String → S → S × Option String
  unfolding removed_annotations show_items
  remove_annotations_from_node name annots =
      with_node name
        ("failed to remove annotations: [" ++ show_items annots ++ "] from node: " ++ name)
        (removed_annotations annots)

  -- The loop of `AddTaintsToNode`, each time from the node that was read. The error that it wraps
  -- where a taint is there already is nil.
  unfoldable pub taint_loop : String → List Taint → Node → S → S × Option String
  taint_loop message [] node s = (s, none)
  taint_loop message (taint ∷ taints) node s =
      let (tainted, updated) = add_or_update_taint sv node taint in
      let following =
        checked (sv.update tainted s) "failed to update node with newly added taints"
          (taint_loop message taints node) in
      if updated then following else (s, wrap none message)

  -- `AddTaintsToNode`.
  unfoldable pub add_taints_to_node : String → List Taint → S → S × Option String
  add_taints_to_node name taints =
      let message = "failed to add taints: " ++ sv.show_taints taints ++ " to node: " ++ name in
      with_node name message (taint_loop message taints)

  -- `DrainNodeFromApiServer`.
  unfoldable pub drain_node : String → S → S × Option String
  drain_node name = with_node name "failed to drain node" (λ node s.
      checked (sv.run_cordon_or_uncordon node true s) "failed to cordon node" (λ s'.
        let (s'', err) = sv.run_node_drain node.name s' in (s'', wrap err "failed to drain node")))

  -- `UncordonNode`. Its last branch wraps an error that is nil, so that it is no error.
  unfoldable pub uncordon_node : String → S → S × Option String
  uncordon_node name = with_node name "failed to uncordon node" (λ node s.
      let (s', err) = sv.run_cordon_or_uncordon node false s in
      (s', wrap err "failed to uncordon node"))

  -- `PreventAutoReattach`.
  unfoldable pub reattached : S × Option (Bool × String) → S × Option String
  reattached (s, none) = (s, none)
  reattached (s, some (true, err)) = (s, none)
  reattached (s, some (false, err)) = (s, wrap (some err) "failed to remove qbert metadata file")

  unfoldable pub prevent_auto_reattach : S → S × Option String
  unfolding reattached
  prevent_auto_reattach s =
      reattached (sv.remove "/opt/pf9/hostagent/extensions/fetch_qbert_metadata" s)
