-- ===== src/NodePhases/Cordon.antt =====
-- The predicate on a node with a user's cordon, and how a phase's operation is followed with it.
pub mod Kept
pub mod Opened
use mathlib.Core.Path.{subst}
use nodelet.Shared.{
  ◌≡◌, refl, sym, ap, ◌∙◌, String, Bool, true, false, not, ◌&&◌, List, [], ◌∷◌, Option, none, some,
  ◌⊎◌, inl, inr, ◌==◌, if◌then◌else◌, lookup, insert, lookup-insert, delete, lookup-delete,
  Bool-cases, arith,
}
use nodelet.Config.{failed_state}
use nodelet.Kubernetes.{
  Node, Taint, Server, with_newer, newer_taints, made, insert_all, delete_all, new_client, get_node,
  add_or_update_taint,
}
use nodelet.Kubernetes.Stored.{
  Stores, get_node-same, get_node-reads, new_client-Keeps, add_annotations-Keeps, add_labels-Keeps,
  remove_annotations-Keeps, drain_node-Keeps, add_taints-Keeps, prevent_auto_reattach-same,
}
use nodelet.NodePhases.Runs.{
  Phases, Op, left, at, kept, with_drain, with_uncordon, with_label, restarted, run_op, Reaches,
  at_first, by_op, by_restart,
}
use nodelet.NodePhases.{
  KubeUtils, unset, nil_pointer, client, At, Outcome, returned, panicked, set_host_status, fail_as,
  succeed_as, attempt, fetch, created, is_annotated, is_annotated_in, is_true_string, with_field,
  through_pointer, marker_removed, named, drain_status, drain_start, drain_stop_with, drain_stop,
  noted, uncordon_status_with, uncordon_status, uncordoned, spared, cleared, uncordon_start_with,
  uncordon_start, uncordon_stop, label_status, tainted, labelled, label_start, label_stop,
}

-- A node with a user's cordon: it takes no workloads, and the phases have noted whose wish that is.
pub record IsUserCordoned (n : Node) : Type 0 where
  pub cordoned : n.unschedulable ≡ true
  pub entries : List (String × String)
  pub annotated : n.annotations ≡ some entries
  pub noted_in : lookup "UserNodeCordon" entries ≡ some "true"

some_true :
    (b : Bool) (o : Option String) → o ≡ some "true" → (if b then some "true" else o) ≡ some "true"
some_true true o e = refl
some_true false o e = e

pub IsUserCordoned-insert :
    (key : String) (n : Node)
    → IsUserCordoned n
    → IsUserCordoned
        (record n { annotations = some (insert_all ((key, "true") ∷ []) (made n.annotations)) })
unfolding insert_all
IsUserCordoned-insert key n l = record {
  cordoned = l.cordoned;
  entries = insert key "true" l.entries;
  annotated = ap (λ o. some (insert key "true" (made o))) l.annotated;
  noted_in =
      lookup-insert key "UserNodeCordon" "true" l.entries
      ∙ some_true (key == "UserNodeCordon") (lookup "UserNodeCordon" l.entries) l.noted_in;
}

pub IsUserCordoned-is_annotated :
    (n : Node) → IsUserCordoned n → is_annotated "UserNodeCordon" n ≡ true
unfolding is_annotated
IsUserCordoned-is_annotated n l =
    ap (is_annotated_in "UserNodeCordon") l.annotated ∙ ap is_true_string l.noted_in

pub IsUserCordoned-shut_down :
    (n : Node) (entries : List (String × String))
    → IsUserCordoned n
    → n.annotations ≡ some entries
    → IsUserCordoned
        (record n { annotations = some (delete_all ("KubeStackShutDown" ∷ []) entries) })
unfolding delete_all
IsUserCordoned-shut_down n entries l e = record {
  cordoned = l.cordoned;
  entries = delete "KubeStackShutDown" entries;
  annotated = refl;
  noted_in =
      let f = lookup-delete "KubeStackShutDown" "UserNodeCordon" entries in
      f ∙ subst (λ o. from o ≡ some "true") (sym l.annotated ∙ e) l.noted_in;
}
  where
    from : Option (List (String × String)) → Option String
    from none = none
    from (some es) = lookup "UserNodeCordon" es

IsUserCordoned-with_newer :
    (n : Node) (taint : Taint) (newer : Option (List Taint × Bool))
    → IsUserCordoned n
    → IsUserCordoned (with_newer n taint newer).0
unfolding with_newer
IsUserCordoned-with_newer n taint none l = l
IsUserCordoned-with_newer n taint (some (taints, true)) l = record {
  cordoned = l.cordoned;
  entries = l.entries;
  annotated = l.annotated;
  noted_in = l.noted_in;
}
IsUserCordoned-with_newer n taint (some (taints, false)) l = record {
  cordoned = l.cordoned;
  entries = l.entries;
  annotated = l.annotated;
  noted_in = l.noted_in;
}

pub IsUserCordoned-taint :
    {S : Type 0} (sv : Server S) (n : Node) (taint : Taint)
    → IsUserCordoned n
    → IsUserCordoned (add_or_update_taint sv n taint).0
unfolding add_or_update_taint
IsUserCordoned-taint sv n taint l =
    IsUserCordoned-with_newer n taint (newer_taints sv taint n.taints) l

module _ {S : Type 0} (sv : Server S) (stored : S → Node) (h : Stores sv stored) where
  -- That the node has a user's cordon in a state, and where an operation ends.
  abbrev pub Held : At S → Type 0
  Held a = IsUserCordoned (stored a.server)

  pub record Keeps (o : Outcome S) : Type 0 where
    pub holds : Held (left o)

  pub attempt-Keeps :
      (bad : String) (a : At S) (r : S × Option String) (next : At S → Outcome S)
      → IsUserCordoned (stored r.0)
      → ((b : At S) → Held b → Keeps (next b))
      → Keeps (attempt bad a r next)
  unfolding set_host_status attempt
  attempt-Keeps bad a (s, none) next l k = k (record a { server = s }) l
  attempt-Keeps bad a (s, some err) next l k = record { holds = l }

  pub fetch-Keeps :
      {A : Type 0} (bad : String) (a : At S) (r : S × (String ⊎ A)) (next : A → At S → Outcome S)
      → IsUserCordoned (stored r.0)
      → ((found : A) (b : At S) → r.1 ≡ inr found → Held b → Keeps (next found b))
      → Keeps (fetch bad a r next)
  unfolding set_host_status fetch
  fetch-Keeps bad a (s, inl err) next l k = record { holds = l }
  fetch-Keeps bad a (s, inr found) next l k = k found (record a { server = s }) refl l

  pub created-Keeps :
      (on_error : String → At S → Outcome S) (a : At S) (r : S × Option String)
      (next : At S → Outcome S)
      → IsUserCordoned (stored r.0)
      → ((err : String) (b : At S) → Held b → Keeps (on_error err b))
      → ((b : At S) → Held b → Keeps (next b))
      → Keeps (created on_error a r next)
  unfolding created
  created-Keeps on_error a (s, none) next l f k = k (record a { server = s; kube_utils = client }) l
  created-Keeps on_error a (s, some err) next l f k =
      f err (record a { server = s; kube_utils = nil_pointer }) l

  pub if-Keeps : (b : Bool) (o p : Outcome S) → Keeps o → Keeps p → Keeps (if b then o else p)
  if-Keeps true o p l m = l
  if-Keeps false o p l m = m

  -- What does not change the node.
  pub quiet :
      (s s' : S) → stored s' ≡ stored s → IsUserCordoned (stored s) → IsUserCordoned (stored s')
  quiet s s' e l = subst IsUserCordoned (sym e) l

  pub with_field-Keeps :
      (on_error : String → At S → Outcome S) (a : At S) (next : At S → Outcome S)
      (field : KubeUtils)
      → Held a
      → ((err : String) (b : At S) → Held b → Keeps (on_error err b))
      → ((b : At S) → Held b → Keeps (next b))
      → Keeps (with_field sv on_error a next field)
  unfolding with_field
  with_field-Keeps on_error a next client l f k = k a l
  with_field-Keeps on_error a next unset l f k =
      created-Keeps on_error a (new_client sv a.server) next
        (new_client-Keeps sv stored h IsUserCordoned a.server l) f k
  with_field-Keeps on_error a next nil_pointer l f k =
      created-Keeps on_error a (new_client sv a.server) next
        (new_client-Keeps sv stored h IsUserCordoned a.server l) f k

  pub through_pointer-Keeps :
      (a : At S) (next : At S → Outcome S) (field : KubeUtils)
      → Held a
      → ((b : At S) → Held b → Keeps (next b))
      → Keeps (through_pointer sv a next field)
  unfolding through_pointer
  through_pointer-Keeps a next client l k = k a l
  through_pointer-Keeps a next unset l k = record { holds = l }
  through_pointer-Keeps a next nil_pointer l k = record { holds = l }
