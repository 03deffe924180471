-- ===== src/NodePhases.antt =====
-- The phases that change the node at Kubernetes: nodelet/pkg/phases/cleanup/drain_nodes.go,
-- misc/uncordon_node.go and misc/label_and_taint_node.go; and misc/misc_phase.go, which reads it.
pub mod Runs
pub mod Cordon
use Prim.Native.String.{◌++◌}
use nodelet.Shared.{
  String, Bool, true, false, not, ◌&&◌, List, [], ◌∷◌, Option, none, some, ◌⊎◌, inl, inr, ◌==◌,
  if◌then◌else◌, lookup,
}
use nodelet.Config.{running_state, failed_state, stopped_state, role_master}
use nodelet.Kubernetes.{
  Node, Taint, Server, new_client, get_node, add_labels_to_node, add_annotations_to_node,
  remove_annotations_from_node, add_taints_to_node, drain_node, uncordon_node,
  prevent_auto_reattach,
}

abbrev true_string : String
true_string = "true"

abbrev loop_back_ip_string : String
loop_back_ip_string = "127.0.0.1"

abbrev kube_stack_start_file_marker : String
kube_stack_start_file_marker = "var/opt/pf9/is_node_booting_up"

-- The field `kubeUtils`: nil, an interface that holds a nil pointer, or a client.
pub data KubeUtils : Type 0 where
  unset nil_pointer client : KubeUtils

-- A phase with what is around it: the status and the message of its `HostPhase`, its client.
pub record At (S : Type 0) : Type 0 where
  pub status : String
  pub message : String
  pub kube_utils : KubeUtils
  pub server : S

-- How an operation ends: with the error that it returns, or with a panic.
pub data Outcome (S : Type 0) : Type 0 where
  returned : At S → Option String → Outcome S
  panicked : At S → Outcome S

module _ {S : Type 0} where
  -- `SetHostStatus`.
  unfoldable pub set_host_status : String → String → At S → At S
  set_host_status status message a = record a { status = status; message = message }

  -- The end of an operation on an error.
  abbrev pub fail_as : String → String → At S → Outcome S
  fail_as state err a = returned (set_host_status state err a) (some err)

  abbrev pub succeed_as : String → At S → Outcome S
  succeed_as state a = returned (set_host_status state "" a) none

  -- A call, whose error ends the operation with a state.
  unfoldable pub attempt : String → At S → S × Option String → (At S → Outcome S) → Outcome S
  attempt bad a (s, none) next = next (record a { server = s })
  attempt bad a (s, some err) next = fail_as bad err (record a { server = s })

  unfoldable pub fetch :
      {A : Type 0} → String → At S → S × (String ⊎ A) → (A → At S → Outcome S) → Outcome S
  fetch bad a (s, inr found) next = next found (record a { server = s })
  fetch bad a (s, inl err) next = fail_as bad err (record a { server = s })

  -- What `NewClient` gave: on an error a pointer that is nil, which the field then holds.
  unfoldable pub created :
      (String → At S → Outcome S) → At S → S × Option String → (At S → Outcome S) → Outcome S
  created on_error a (s, none) next = next (record a { server = s; kube_utils = client })
  created on_error a (s, some err) next =
      on_error err (record a { server = s; kube_utils = nil_pointer })

-- `metadata.Annotations[key] == constants.TrueString`, under its guard.
abbrev pub is_true_string : Option String → Bool
is_true_string none = false
is_true_string (some value) = value == true_string

abbrev pub is_annotated_in : String → Option (List (String × String)) → Bool
is_annotated_in key none = false
is_annotated_in key (some entries) = is_true_string (lookup key entries)

unfoldable pub is_annotated : String → Node → Bool
is_annotated key node = is_annotated_in key node.annotations

module _ {S : Type 0} (sv : Server S) where
  -- The client, made where the field is nil or holds a nil pointer.
  unfoldable pub with_field :
      (String → At S → Outcome S) → At S → (At S → Outcome S) → KubeUtils → Outcome S
  with_field on_error a next client = next a
  with_field on_error a next unset = created on_error a (new_client sv a.server) next
  with_field on_error a next nil_pointer = created on_error a (new_client sv a.server) next

  abbrev pub with_client : (String → At S → Outcome S) → At S → (At S → Outcome S) → Outcome S
  with_client on_error a next = with_field on_error a next a.kube_utils

  -- The first call that a client makes follows its pointer.
  unfoldable pub through_pointer : At S → (At S → Outcome S) → KubeUtils → Outcome S
  through_pointer a next client = next a
  through_pointer a next unset = panicked a
  through_pointer a next nil_pointer = panicked a

  -- `DrainNodePhase`: `Status`, `Start` and `Stop`.
  unfoldable pub drain_status : At S → Outcome S
  drain_status a = succeed_as running_state a

  marker_removed : At S → S × Option (Bool × String) → Outcome S
  marker_removed a (s, none) = succeed_as running_state (record a { server = s })
  marker_removed a (s, some (true, err)) = succeed_as running_state (record a { server = s })
  marker_removed a (s, some (false, err)) = fail_as failed_state err (record a { server = s })

  unfoldable pub drain_start : At S → Outcome S
  unfolding marker_removed
  drain_start a = marker_removed a (sv.remove kube_stack_start_file_marker a.server)

  -- `Stop` past the client: its errors, too, leave the phase stopped.
  drain_stop_with : At S → Outcome S
  drain_stop_with a = attempt stopped_state a (sv.k8s_api_available a.server) (λ b.
      fetch stopped_state b (sv.node_identifier b.server) (λ name c.
        attempt stopped_state c (drain_node sv name c.server) (λ d.
          attempt stopped_state d
            (add_annotations_to_node sv name (("KubeStackShutDown", "true") ∷ []) d.server)
            (succeed_as stopped_state))))

  unfoldable pub drain_stop : At S → Outcome S
  unfolding drain_stop_with
  drain_stop a =
      with_client (λ err b. returned (set_host_status stopped_state "" b) (some err)) a
        drain_stop_with

  -- `UncordonNodePhase`: `Status`, which notes a cordon that is the user's.
  noted : String → Node → At S → Outcome S
  noted name node a =
      if is_annotated "KubeStackShutDown" node
      then succeed_as running_state a
      else if node.unschedulable
      then attempt failed_state a
          (add_annotations_to_node sv name (("UserNodeCordon", "true") ∷ []) a.server)
          (succeed_as running_state)
      else attempt failed_state a
          (remove_annotations_from_node sv name ("UserNodeCordon" ∷ []) a.server)
          (succeed_as running_state)

  uncordon_status_with : At S → Outcome S
  unfolding noted
  uncordon_status_with a = fetch failed_state a (sv.node_identifier a.server) (λ name b.
      if sv.exists kube_stack_start_file_marker b.server
      then succeed_as running_state b
      else fetch failed_state b (get_node sv name b.server) (λ node c. noted name node c))

  unfoldable pub uncordon_status : At S → Outcome S
  unfolding uncordon_status_with
  uncordon_status a = with_client (fail_as failed_state) a uncordon_status_with

  -- `Start`, which undoes the cordon that is not the user's.
  unfoldable pub uncordoned : String → At S → Outcome S
  uncordoned name a =
      attempt failed_state a (uncordon_node sv name a.server)
        (λ b. attempt failed_state b (prevent_auto_reattach sv b.server) (succeed_as running_state))

  unfoldable pub spared : String → Node → At S → Outcome S
  unfolding uncordoned
  spared name node a =
      if is_annotated "UserNodeCordon" node then succeed_as running_state a else uncordoned name a

  unfoldable pub cleared : String → At S → Outcome S
  unfolding spared
  cleared name a =
      attempt failed_state a
        (remove_annotations_from_node sv name ("KubeStackShutDown" ∷ []) a.server)
        (λ b. fetch failed_state b (get_node sv name b.server) (spared name))

  abbrev lost_ip : String
  lost_ip =
      "Fetched node endpoint as 127.0.0.1. Node interface might have lost IP address. Failing."

  -- What `Start` of this phase and of the next one do with the node's name.
  unfoldable pub named : (String → At S → Outcome S) → At S → Outcome S
  named next a = fetch failed_state a (sv.node_identifier a.server) (λ name b.
      if name == loop_back_ip_string
      then returned (set_host_status failed_state lost_ip b)
          (some "node interface might have lost IP address. Failing")
      else next name b)

  unfoldable pub uncordon_start_with : At S → Outcome S
  unfolding cleared
  uncordon_start_with = named (λ name a. through_pointer a (cleared name) a.kube_utils)

  -- Its test of the client is whether the field is nil, and not what it holds.
  unfoldable pub start_field : At S → KubeUtils → Outcome S
  unfolding uncordon_start_with
  start_field a unset =
      created (fail_as failed_state) a (new_client sv a.server) uncordon_start_with
  start_field a nil_pointer = uncordon_start_with a
  start_field a client = uncordon_start_with a

  unfoldable pub uncordon_start : At S → Outcome S
  unfolding start_field
  uncordon_start a = start_field a a.kube_utils

  unfoldable pub uncordon_stop : At S → Outcome S
  uncordon_stop a = succeed_as stopped_state a

  -- `LabelTaintNodePhase`: `Status`, `Start`, under the role and `MasterSchedulable`, and `Stop`.
  unfoldable pub label_status : At S → Outcome S
  label_status a = succeed_as running_state a

  tainted : String → At S → Outcome S
  tainted name a =
      attempt failed_state a
        (add_taints_to_node sv name
          ((record {
            key = "node-role.kubernetes.io/master";
            value = "true";
            effect = "NoSchedule";
            time_added = none;
          })
            ∷ [])
          a.server)
        (succeed_as running_state)

  labelled : String → Bool → String → At S → Outcome S
  unfolding tainted
  labelled role master_schedulable name a =
      attempt failed_state a
        (add_labels_to_node sv name (("node-role.kubernetes.io/" ++ role, "") ∷ []) a.server)
        (λ b.
          if not master_schedulable && (role == role_master)
          then tainted name b
          else succeed_as running_state b)

  unfoldable pub label_start : String → Bool → At S → Outcome S
  unfolding labelled
  label_start role master_schedulable a =
      with_client (fail_as failed_state) a (named (labelled role master_schedulable))

  unfoldable pub label_stop : At S → Outcome S
  label_stop a = succeed_as stopped_state a

  -- `MiscPhase`: `Status`, `Start` and `Stop`. An error of the node's read, or of the provider's
  -- configuration, is returned without a new status.
  abbrev read_well : At S → S × (String ⊎ Node) → Outcome S
  read_well a (s, inl err) = returned (record a { server = s }) (some err)
  read_well a (s, inr node) = succeed_as running_state (record a { server = s })

  abbrev wrote_well : At S → S × Option String → Outcome S
  wrote_well a (s, some err) = returned (record a { server = s }) (some err)
  wrote_well a (s, none) = succeed_as running_state (record a { server = s })

  unfoldable pub misc_status : At S → Outcome S
  misc_status = named (λ name a. with_client (fail_as failed_state) a (λ b.
      attempt failed_state b (sv.k8s_api_available b.server)
        (λ c. read_well c (get_node sv name c.server))))

  unfoldable pub misc_start : At S → Outcome S
  misc_start a =
      with_client (fail_as failed_state) a
        (λ b. wrote_well b (sv.write_cloud_provider_config b.server))

  unfoldable pub misc_stop : At S → Outcome S
  misc_stop a = succeed_as stopped_state a
