-- ===== src/Tests/Kubelets.antt =====
-- The phases that change the node at Kubernetes, at concrete inputs: a server that answers at once.
use nodelet.Shared.{
  ◌≡◌, refl, String, true, false, [], ◌∷◌, none, some, inl, inr, ◌⊎◌, sym, ap, lookup, delete,
}
use nodelet.Kubernetes.{
  Node, Server, new_client, get_node, got, removed_annotations, reattached,
  remove_annotations_from_node, uncordon_node, prevent_auto_reattach, delete_all, wrap,
}
use nodelet.Kubernetes.Stored.{Stores}
use nodelet.NodePhases.{
  unset, nil_pointer, client, At, panicked, uncordon_start, start_field, uncordon_start_with, named,
  fetch, through_pointer, created, cleared, spared, uncordoned, attempt, is_annotated,
  set_host_status,
}
use nodelet.NodePhases.Runs.{
  Phases, drain_stop_op, uncordon_start_op, label_start_op, restarted, run_op, at_first, by_op,
  by_restart,
}
use nodelet.NodePhases.Cordon.{IsUserCordoned}
use nodelet.NodePhases.Cordon.Kept.{Reaches-IsUserCordoned}
use nodelet.NodePhases.Cordon.Opened.{IsOpen, uncordon_start-IsOpen}

abbrev server : Server Node
server = record {
  build_config = λ n. (n, none);
  new_for_config = λ n. (n, none);
  get = λ name n. (n, inr n);
  update = λ m n. (m, none);
  run_cordon_or_uncordon = λ m b n. (record n { unschedulable = b }, none);
  run_node_drain = λ name n. (n, none);
  k8s_api_available = λ n. (n, none);
  node_identifier = λ n. (n, inr "10.0.0.2");
  write_cloud_provider_config = λ n. (n, none);
  exists = λ file n. false;
  remove = λ file n. (n, some (true, "no such file"));
  match_taint = λ t u. false;
  show_taints = λ ts. "[0xc000010000]";
}

abbrev stored : Node → Node
stored n = n

found : Node → String ⊎ Node → Node
found other (inl err) = other
found other (inr n) = n

server-Stores : Stores server stored
unfolding found
server-Stores = record {
  builds = λ n. refl;
  makes = λ n. refl;
  gets = λ name n. refl;
  reads = λ name n m e. sym (ap (found n) e);
  updates = λ m n. inl refl;
  cordons = λ m b n. inl refl;
  updates_well = λ m n e. refl;
  cordons_well = λ m b n e. refl;
  drains = λ name n. refl;
  probes = λ n. refl;
  identifies = λ n. refl;
  removes = λ file n. refl;
}

-- A user has cordoned this node, and `Status` has noted it.
abbrev node : Node
node = record {
  name = "10.0.0.2";
  labels = none;
  annotations = some (("UserNodeCordon", "true") ∷ []);
  unschedulable = true;
  taints = [];
}

abbrev phases : Phases Node
phases = record {
  drain = ("", "", unset);
  uncordon = ("", "", unset);
  label = ("", "", unset);
  server = node;
}

node-IsUserCordoned : IsUserCordoned node
unfolding lookup
node-IsUserCordoned = record {
  cordoned = refl;
  entries = ("UserNodeCordon", "true") ∷ [];
  annotated = refl;
  noted_in = refl;
}

-- The stack is stopped and the agent restarted; then it starts on the node.
Reaches-IsUserCordoned_example :
    IsUserCordoned
      (run_op server
        (label_start_op "worker" false)
        (run_op server uncordon_start_op (restarted (run_op server drain_stop_op phases)))).server
Reaches-IsUserCordoned_example =
    Reaches-IsUserCordoned server stored server-Stores phases
      (run_op server (label_start_op "worker" false)
        (run_op server uncordon_start_op (restarted (run_op server drain_stop_op phases))))
      node-IsUserCordoned
      (by_op (label_start_op "worker" false)
        (by_op uncordon_start_op (by_restart (by_op drain_stop_op at_first))))

-- A field that holds a nil pointer, as `Status` leaves it without a client, is not nil to `Start`.
start_of_nil_pointer :
    uncordon_start server
      (record { status = "failed"; message = ""; kube_utils = nil_pointer; server = node })
    ≡ panicked (record { status = "failed"; message = ""; kube_utils = nil_pointer; server = node })
unfolding uncordon_start start_field uncordon_start_with named fetch through_pointer
start_of_nil_pointer = refl

-- The stack was stopped on this node, which no user has cordoned.
abbrev stopped_node : Node
stopped_node = record node { annotations = some (("KubeStackShutDown", "true") ∷ []) }

abbrev opened : At Node
opened = record {
  status = "running";
  message = "";
  kube_utils = client;
  server = record stopped_node { annotations = some []; unschedulable = false };
}

uncordon_start-IsOpen_example : IsOpen opened.server
unfolding uncordon_start start_field uncordon_start_with named fetch through_pointer created cleared
    spared uncordoned attempt is_annotated set_host_status new_client get_node got
    removed_annotations reattached remove_annotations_from_node uncordon_node prevent_auto_reattach
    delete_all wrap delete lookup
uncordon_start-IsOpen_example =
    uncordon_start-IsOpen server stored server-Stores
      (record { status = ""; message = ""; kube_utils = unset; server = stopped_node }) opened refl
