-- ===== src/NodePhases/Cordon/Kept.antt =====
-- What becomes of a user's cordon while the phases that change the node at Kubernetes run.
use mathlib.Core.Path.{subst}
use nodelet.Shared.{
  ◌≡◌, refl, sym, String, Bool, true, false, not, ◌&&◌, [], ◌∷◌, Option, none, some, ◌==◌,
}
use nodelet.Config.{running_state, stopped_state, failed_state, role_master}
use nodelet.Kubernetes.{
  Node, Server, new_client, get_node, add_annotations_to_node, remove_annotations_from_node,
}
use nodelet.Kubernetes.Stored.{
  Stores, get_node-same, get_node-reads, new_client-Keeps, add_annotations-Keeps, add_labels-Keeps,
  remove_annotations-Keeps, drain_node-Keeps, add_taints-Keeps,
}
use nodelet.NodePhases.{
  At, Outcome, returned, fetch, KubeUtils, unset, nil_pointer, client, set_host_status, fail_as,
  succeed_as, is_annotated, marker_removed, named, drain_status, drain_start, drain_stop_with,
  drain_stop, noted, uncordon_status_with, uncordon_status, spared, cleared, uncordon_start_with,
  start_field, uncordon_start, uncordon_stop, label_status, tainted, labelled, label_start,
  label_stop,
}
use nodelet.NodePhases.Runs.{
  Phases, Op, drain_status_op, drain_start_op, drain_stop_op, uncordon_status_op, uncordon_start_op,
  uncordon_stop_op, label_status_op, label_stop_op, label_start_op, at, run_op, Reaches, at_first,
  by_op, by_restart,
}
use nodelet.NodePhases.Cordon.{
  IsUserCordoned, IsUserCordoned-insert, IsUserCordoned-is_annotated, IsUserCordoned-shut_down,
  IsUserCordoned-taint, Held, Keeps, attempt-Keeps, fetch-Keeps, created-Keeps, if-Keeps, quiet,
  with_field-Keeps, through_pointer-Keeps,
}

module _ {S : Type 0} (sv : Server S) (stored : S → Node) (h : Stores sv stored) where
  abbrev Stays : (At S → Outcome S) → Type 0
  Stays f = (a : At S) → Held sv stored h a → Keeps sv stored h (f a)

  -- The end of an operation.
  ends-Stays : (state : String) → Stays (succeed_as state)
  unfolding set_host_status
  ends-Stays state a l = record { holds = l }

  fail_as-Stays : (state err : String) → Stays (fail_as state err)
  unfolding set_host_status
  fail_as-Stays state err a l = record { holds = l }

  annotated-Held :
      (key : String) (name : String) (a : At S)
      → Held sv stored h a
      → IsUserCordoned (stored (add_annotations_to_node sv name ((key, "true") ∷ []) a.server).0)
  annotated-Held key name a l =
      add_annotations-Keeps sv stored h IsUserCordoned name _ a.server l
        (IsUserCordoned-insert key (stored a.server) l)

  drain_start-Stays : Stays (drain_start sv)
  unfolding drain_start marker_removed set_host_status
  drain_start-Stays a l =
      split (sv.remove "var/opt/pf9/is_node_booting_up" a.server)
        (quiet sv stored h _ _ (h.removes _ a.server) l)
    where
      split :
          (r : S × Option (Bool × String))
          → IsUserCordoned (stored r.0)
          → Keeps sv stored h (marker_removed sv a r)
      split (s, none) k = record { holds = k }
      split (s, some (true, err)) k = record { holds = k }
      split (s, some (false, err)) k = record { holds = k }

  drain_stop_with-Stays : Stays (drain_stop_with sv)
  unfolding drain_stop_with
  drain_stop_with-Stays a l =
      attempt-Keeps sv stored h _ a _ _ (quiet sv stored h _ _ (h.probes a.server) l) (λ b m.
        fetch-Keeps sv stored h _ b _ _ (quiet sv stored h _ _ (h.identifies b.server) m)
          (λ name c e n.
            attempt-Keeps sv stored h _ c _ _
              (drain_node-Keeps sv stored h IsUserCordoned name c.server n (record {
                cordoned = refl;
                entries = n.entries;
                annotated = n.annotated;
                noted_in = n.noted_in;
              }))
              (λ d q.
                attempt-Keeps sv stored h _ d _ _ (annotated-Held "KubeStackShutDown" name d q)
                  (ends-Stays stopped_state))))

  drain_stop-Stays : Stays (drain_stop sv)
  unfolding drain_stop set_host_status
  drain_stop-Stays a l =
      with_field-Keeps sv stored h
        (λ err b. returned (set_host_status stopped_state "" b) (some err)) a (drain_stop_with sv)
        a.kube_utils l (λ err b m. record { holds = m }) drain_stop_with-Stays

  noted-Stays : (name : String) (node : Node) → IsUserCordoned node → Stays (noted sv name node)
  unfolding noted
  noted-Stays name node c a l =
      if-Keeps sv stored h (is_annotated "KubeStackShutDown" node) _ _
        (ends-Stays running_state a l)
        (rw c.cordoned (
          attempt-Keeps sv stored h _ a _ _ (annotated-Held "UserNodeCordon" name a l)
            (ends-Stays running_state)))

  -- A node that is read.
  read-Keeps :
      (name : String) (a : At S) (next : Node → At S → Outcome S)
      → Held sv stored h a
      → ((node : Node) → IsUserCordoned node → Stays (next node))
      → Keeps sv stored h (fetch failed_state a (get_node sv name a.server) next)
  read-Keeps name a next l k =
      fetch-Keeps sv stored h _ a _ _ (quiet sv stored h _ _ (reads_same a) l) (λ node b e m.
        k node
          (subst IsUserCordoned
            (sym (get_node-reads sv stored h IsUserCordoned name a.server node e)) l)
          b m)
    where
      reads_same : (a : At S) → stored (get_node sv name a.server).0 ≡ stored a.server
      reads_same a = get_node-same sv stored h IsUserCordoned name a.server

  remove-Held :
      (name : String) (a : At S)
      → Held sv stored h a
      → IsUserCordoned
          (stored (remove_annotations_from_node sv name ("KubeStackShutDown" ∷ []) a.server).0)
  remove-Held name a l =
      remove_annotations-Keeps sv stored h IsUserCordoned name _ a.server l
        (λ entries e. IsUserCordoned-shut_down (stored a.server) entries l e)

  uncordon_status_with-Stays : Stays (uncordon_status_with sv)
  unfolding uncordon_status_with
  uncordon_status_with-Stays a l =
      fetch-Keeps sv stored h _ a _ _ (quiet sv stored h _ _ (h.identifies a.server) l)
        (λ name b e m.
          if-Keeps sv stored h (sv.exists "var/opt/pf9/is_node_booting_up" b.server) _ _
            (ends-Stays running_state b m) (read-Keeps name b (noted sv name) m (noted-Stays name)))

  uncordon_status-Stays : Stays (uncordon_status sv)
  unfolding uncordon_status
  uncordon_status-Stays a l =
      with_field-Keeps sv stored h (fail_as failed_state) a (uncordon_status_with sv) a.kube_utils l
        (λ err. fail_as-Stays failed_state err) uncordon_status_with-Stays

  spared-Stays : (name : String) (node : Node) → IsUserCordoned node → Stays (spared sv name node)
  unfolding spared
  spared-Stays name node c a l =
      rw (IsUserCordoned-is_annotated node c) (ends-Stays running_state a l)

  cleared-Stays : (name : String) → Stays (cleared sv name)
  unfolding cleared
  cleared-Stays name a l =
      attempt-Keeps sv stored h _ a _ _ (remove-Held name a l)
        (λ b m. read-Keeps name b (spared sv name) m (spared-Stays name))

  named-Stays :
      (next : String → At S → Outcome S)
      → ((name : String) → Stays (next name))
      → Stays (named sv next)
  unfolding named set_host_status
  named-Stays next k a l =
      fetch-Keeps sv stored h _ a _ _ (quiet sv stored h _ _ (h.identifies a.server) l)
        (λ name b e m.
          if-Keeps sv stored h (name == "127.0.0.1") _ _ (record { holds = m }) (k name b m))

  uncordon_start_with-Stays : Stays (uncordon_start_with sv)
  unfolding uncordon_start_with
  uncordon_start_with-Stays =
      named-Stays _
        (λ name a l. through_pointer-Keeps sv stored h a _ a.kube_utils l (cleared-Stays name))

  start_field-Stays :
      (a : At S) (field : KubeUtils)
      → Held sv stored h a
      → Keeps sv stored h (start_field sv a field)
  unfolding start_field
  start_field-Stays a unset l =
      created-Keeps sv stored h (fail_as failed_state) a (new_client sv a.server)
        (uncordon_start_with sv) (new_client-Keeps sv stored h IsUserCordoned a.server l)
        (λ err. fail_as-Stays failed_state err) uncordon_start_with-Stays
  start_field-Stays a nil_pointer l = uncordon_start_with-Stays a l
  start_field-Stays a client l = uncordon_start_with-Stays a l

  tainted-Stays : (name : String) → Stays (tainted sv name)
  unfolding tainted
  tainted-Stays name a l =
      attempt-Keeps sv stored h _ a _ _
        (add_taints-Keeps sv stored h IsUserCordoned name _ a.server l
          (λ taint. IsUserCordoned-taint sv (stored a.server) taint l))
        (ends-Stays running_state)

  labelled-Stays :
      (role : String) (schedulable : Bool) (name : String)
      → Stays (labelled sv role schedulable name)
  unfolding labelled
  labelled-Stays role schedulable name a l =
      attempt-Keeps sv stored h _ a _ _
        (add_labels-Keeps sv stored h IsUserCordoned name _ a.server l (record {
          cordoned = l.cordoned;
          entries = l.entries;
          annotated = l.annotated;
          noted_in = l.noted_in;
        }))
        (λ b m.
          if-Keeps sv stored h (not schedulable && (role == role_master)) _ _
            (tainted-Stays name b m) (ends-Stays running_state b m))

  label_start-Stays : (role : String) (schedulable : Bool) → Stays (label_start sv role schedulable)
  unfolding label_start
  label_start-Stays role schedulable a l =
      with_field-Keeps sv stored h (fail_as failed_state) a _ a.kube_utils l
        (λ err. fail_as-Stays failed_state err) (named-Stays _ (labelled-Stays role schedulable))

  Pinned : Phases S → Type 0
  Pinned ps = IsUserCordoned (stored ps.server)

  run_op-Pinned : (op : Op) (ps : Phases S) → Pinned ps → Pinned (run_op sv op ps)
  unfolding Pinned run_op drain_status uncordon_start uncordon_stop label_status label_stop
  run_op-Pinned drain_status_op ps l = (ends-Stays running_state (at ps.drain ps.server) l).holds
  run_op-Pinned drain_start_op ps l = (drain_start-Stays (at ps.drain ps.server) l).holds
  run_op-Pinned drain_stop_op ps l = (drain_stop-Stays (at ps.drain ps.server) l).holds
  run_op-Pinned uncordon_status_op ps l = (uncordon_status-Stays (at ps.uncordon ps.server) l).holds
  run_op-Pinned uncordon_start_op ps l =
      (start_field-Stays (at ps.uncordon ps.server) ps.uncordon.2 l).holds
  run_op-Pinned uncordon_stop_op ps l =
      (ends-Stays stopped_state (at ps.uncordon ps.server) l).holds
  run_op-Pinned label_status_op ps l = (ends-Stays running_state (at ps.label ps.server) l).holds
  run_op-Pinned label_stop_op ps l = (ends-Stays stopped_state (at ps.label ps.server) l).holds
  run_op-Pinned (label_start_op role schedulable) ps l =
      (label_start-Stays role schedulable (at ps.label ps.server) l).holds

-- A cordon that is noted as the user's is kept: whatever operations of the three phases run, in any
-- order and in any number of processes, and whether they succeed, fail or panic, the node stays
-- cordoned and the note stays on it, when the calls of this code alone change the node as the API
-- documents.
pub Reaches-IsUserCordoned :
    {S : Type 0} (sv : Server S) (stored : S → Node)
    → Stores sv stored
    → (first ps : Phases S) → IsUserCordoned (stored first.server)
    → Reaches sv first ps
    → IsUserCordoned (stored ps.server)
unfolding Pinned
Reaches-IsUserCordoned sv stored h first _ l at_first = l
Reaches-IsUserCordoned sv stored h first _ l (by_op op {ps} r) =
    run_op-Pinned sv stored h op ps (Reaches-IsUserCordoned sv stored h first ps l r)
Reaches-IsUserCordoned sv stored h first _ l (by_restart {ps} r) =
    Reaches-IsUserCordoned sv stored h first ps l r
