-- ===== src/NodePhases/Runs.antt =====
-- Any operations of the phases that change the node at Kubernetes, one after another.
use nodelet.Shared.{String, Bool}
use nodelet.Kubernetes.{Server}
use nodelet.NodePhases.{
  KubeUtils, unset, At, Outcome, returned, panicked, drain_status, drain_start, drain_stop,
  uncordon_status, uncordon_start, uncordon_stop, label_status, label_start, label_stop,
}

-- The objects of the three phases with what is around them.
pub record Phases (S : Type 0) : Type 0 where
  pub drain : String × String × KubeUtils
  pub uncordon : String × String × KubeUtils
  pub label : String × String × KubeUtils
  pub server : S

pub data Op : Type 0 where
  drain_status_op drain_start_op drain_stop_op : Op
  uncordon_status_op uncordon_start_op uncordon_stop_op : Op
  label_status_op label_stop_op : Op
  -- under the role of the host and whether its masters take workloads
  label_start_op : String → Bool → Op

module _ {S : Type 0} where
  -- What an operation leaves, whether it returns or panics.
  abbrev pub left : Outcome S → At S
  left (returned a err) = a
  left (panicked a) = a

  abbrev pub at : String × String × KubeUtils → S → At S
  at (status, message, kube_utils) s = record {
    status = status;
    message = message;
    kube_utils = kube_utils;
    server = s;
  }

  abbrev pub kept : At S → String × String × KubeUtils
  kept a = (a.status, a.message, a.kube_utils)

  abbrev pub with_drain : (At S → Outcome S) → Phases S → Phases S
  with_drain f ps =
      let a = left (f (at ps.drain ps.server)) in record ps { drain = kept a; server = a.server }

  abbrev pub with_uncordon : (At S → Outcome S) → Phases S → Phases S
  with_uncordon f ps =
      let a = left (f (at ps.uncordon ps.server)) in
      record ps { uncordon = kept a; server = a.server }

  abbrev pub with_label : (At S → Outcome S) → Phases S → Phases S
  with_label f ps =
      let a = left (f (at ps.label ps.server)) in record ps { label = kept a; server = a.server }

  -- The objects of a new process.
  abbrev pub restarted : Phases S → Phases S
  restarted ps = record ps {
    drain = ("", "", unset);
    uncordon = ("", "", unset);
    label = ("", "", unset);
  }

module _ {S : Type 0} (sv : Server S) where
  unfoldable pub run_op : Op → Phases S → Phases S
  run_op drain_status_op = with_drain (drain_status sv)
  run_op drain_start_op = with_drain (drain_start sv)
  run_op drain_stop_op = with_drain (drain_stop sv)
  run_op uncordon_status_op = with_uncordon (uncordon_status sv)
  run_op uncordon_start_op = with_uncordon (uncordon_start sv)
  run_op uncordon_stop_op = with_uncordon (uncordon_stop sv)
  run_op label_status_op = with_label (label_status sv)
  run_op label_stop_op = with_label (label_stop sv)
  run_op (label_start_op role schedulable) = with_label (label_start sv role schedulable)

  -- The states that the phases come to from a first one: by any operations in any order, and by new
  -- processes.
  pub data Reaches (first : Phases S) : Phases S → Type 0 where
    at_first : Reaches first first
    by_op : (op : Op) {ps : Phases S} → Reaches first ps → Reaches first (run_op op ps)
    by_restart : {ps : Phases S} → Reaches first ps → Reaches first (restarted ps)
