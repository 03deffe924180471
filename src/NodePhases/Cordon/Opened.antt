-- ===== src/NodePhases/Cordon/Opened.antt =====
-- What `Start` of nodelet/pkg/phases/misc/uncordon_node.go has done where it returns no error.
use mathlib.Core.Path.{subst}
use nodelet.Shared.{
  ◌≡◌, refl, sym, ap, ◌∙◌, String, Bool, true, false, List, [], ◌∷◌, Option, none, some, ◌⊎◌, inl,
  inr, ◌==◌, if◌then◌else◌, lookup, lookup-delete, Bool-cases,
}
use nodelet.Config.{failed_state}
use nodelet.Kubernetes.{
  Node, Server, new_client, get_node, remove_annotations_from_node, uncordon_node,
  prevent_auto_reattach,
}
use nodelet.Kubernetes.Stored.{Stores, get_node-same, get_node-reads, prevent_auto_reattach-same}
use nodelet.Kubernetes.Stored.Written.{without, remove_annotations-well, uncordon_node-well}
use nodelet.NodePhases.{
  KubeUtils, unset, nil_pointer, client, At, Outcome, returned, panicked, set_host_status, fail_as,
  attempt, fetch, created, is_annotated, is_annotated_in, is_true_string, through_pointer, named,
  uncordoned, spared, cleared, uncordon_start_with, start_field, uncordon_start,
}

-- The stack's own note is gone, and the node takes workloads unless a user's note is on it.
abbrev pub IsOpen : Node → Type 0
IsOpen n =
    (is_annotated "KubeStackShutDown" n ≡ false)
    × ((is_annotated "UserNodeCordon" n ≡ true) ⊎ (n.unschedulable ≡ false))

is_annotated_in-without :
    (key : String) (found : Option (List (String × String)))
    → (key == key) ≡ true
    → is_annotated_in key (without key found) ≡ false
is_annotated_in-without key none e = refl
is_annotated_in-without key (some entries) e =
    ap is_true_string
      (lookup-delete key key entries ∙ ap (λ b. if b then none else lookup key entries) e)

module _ {S : Type 0} (Q : At S → Type 0) where
  -- What holds where an operation returns no error.
  abbrev pub IsWell : Outcome S → Type 0
  IsWell (returned a none) = Q a
  IsWell (returned a (some err)) = Unit
  IsWell (panicked a) = Unit

  pub record Well (o : Outcome S) : Type 0 where
    pub of : IsWell o

  attempt-Well :
      (bad : String) (a : At S) (r : S × Option String) (next : At S → Outcome S)
      → (r.1 ≡ none → Well (next (record a { server = r.0 })))
      → Well (attempt bad a r next)
  unfolding attempt
  attempt-Well bad a (s, none) next k = k refl
  attempt-Well bad a (s, some err) next k = record { of = tt }

  fetch-Well :
      {A : Type 0} (bad : String) (a : At S) (r : S × (String ⊎ A)) (next : A → At S → Outcome S)
      → ((found : A) → r.1 ≡ inr found → Well (next found (record a { server = r.0 })))
      → Well (fetch bad a r next)
  unfolding fetch
  fetch-Well bad a (s, inl err) next k = record { of = tt }
  fetch-Well bad a (s, inr found) next k = k found refl

  named-Well :
      (sv : Server S) (next : String → At S → Outcome S) (a : At S)
      → ((name : String) (b : At S) → Well (next name b))
      → Well (named sv next a)
  unfolding named
  named-Well sv next a k = fetch-Well _ a (sv.node_identifier a.server) _ (λ name e.
      split name (record a { server = (sv.node_identifier a.server).0 }) (name == "127.0.0.1"))
    where
      lost : String
      lost =
          "Fetched node endpoint as 127.0.0.1. Node interface might have lost IP address. Failing."

      split :
          (name : String) (b : At S) (same : Bool)
          → Well (
              if same
              then returned
                  (set_host_status failed_state lost b)
                  (some "node interface might have lost IP address. Failing")
              else next name b)
      split name b true = record { of = tt }
      split name b false = k name b

module _ {S : Type 0} (sv : Server S) (stored : S → Node) (h : Stores sv stored) where
  abbrev Opens : At S → Type 0
  Opens a = IsOpen (stored a.server)

  uncordoned-Well :
      (name : String) (a : At S)
      → is_annotated "KubeStackShutDown" (stored a.server) ≡ false
      → Well Opens (uncordoned sv name a)
  unfolding uncordoned set_host_status is_annotated
  uncordoned-Well name a e = attempt-Well Opens _ a (uncordon_node sv name a.server) _ (λ f.
      attempt-Well Opens _ _ (prevent_auto_reattach sv (uncordon_node sv name a.server).0) _ (λ g.
        record {
          of =
              subst IsOpen
                (sym (
                  prevent_auto_reattach-same sv stored h (λ n. Unit)
                    (uncordon_node sv name a.server).0
                  ∙ uncordon_node-well sv stored h name a.server f))
                (e, inr refl);
        }))

  spared-Well :
      (name : String) (n : Node) (a : At S)
      → n ≡ stored a.server
      → is_annotated "KubeStackShutDown" n ≡ false
      → Well Opens (spared sv name n a)
  unfolding spared set_host_status
  spared-Well name n a e f = elim (Bool-cases (is_annotated "UserNodeCordon" n)) [
    | inl g ↦ rw g (record { of = subst IsOpen e (f, inl g) })
    | inr g ↦
        rw g (uncordoned-Well name a (subst (λ m. is_annotated "KubeStackShutDown" m ≡ false) e f))
  ]

  cleared-Well : (name : String) (a : At S) → Well Opens (cleared sv name a)
  unfolding cleared is_annotated
  cleared-Well name a =
      attempt-Well Opens _ a
        (remove_annotations_from_node sv name ("KubeStackShutDown" ∷ []) a.server) _
        (λ f.
          let s = (remove_annotations_from_node sv name ("KubeStackShutDown" ∷ []) a.server).0 in
          let gone =
            ap (is_annotated_in "KubeStackShutDown")
              (remove_annotations-well sv stored h "KubeStackShutDown" name a.server f)
            ∙ is_annotated_in-without "KubeStackShutDown" (stored a.server).annotations refl in
          fetch-Well Opens _ (record a { server = s }) (get_node sv name s) _
            (λ n e.
              let read = get_node-reads sv stored h (λ m. Unit) name s n e in
              spared-Well name n (record a { server = (get_node sv name s).0 })
                (read ∙ sym (get_node-same sv stored h (λ m. Unit) name s))
                (ap (λ m. is_annotated_in "KubeStackShutDown" m.annotations) read ∙ gone)))

  through_pointer-Well :
      (a : At S) (next : At S → Outcome S) (field : KubeUtils)
      → Well Opens (next a)
      → Well Opens (through_pointer sv a next field)
  unfolding through_pointer
  through_pointer-Well a next client k = k
  through_pointer-Well a next unset k = record { of = tt }
  through_pointer-Well a next nil_pointer k = record { of = tt }

  uncordon_start_with-Well : (a : At S) → Well Opens (uncordon_start_with sv a)
  unfolding uncordon_start_with
  uncordon_start_with-Well a =
      named-Well Opens sv _ a
        (λ name b. through_pointer-Well b (cleared sv name) b.kube_utils (cleared-Well name b))

  created-Well :
      (a : At S) (r : S × Option String)
      → Well Opens (created (fail_as failed_state) a r (uncordon_start_with sv))
  unfolding created
  created-Well a (s, none) = uncordon_start_with-Well (record a { server = s; kube_utils = client })
  created-Well a (s, some err) = record { of = tt }

  start_field-Well : (a : At S) (field : KubeUtils) → Well Opens (start_field sv a field)
  unfolding start_field
  start_field-Well a unset = created-Well a (new_client sv a.server)
  start_field-Well a nil_pointer = uncordon_start_with-Well a
  start_field-Well a client = uncordon_start_with-Well a

-- Where `Start` of the phase that uncordons the node returns no error, the note of the stack's own
-- stop is off the node, and the node takes workloads or has a user's note, when the calls of this
-- code alone change the node as the API documents.
pub uncordon_start-IsOpen :
    {S : Type 0} (sv : Server S) (stored : S → Node)
    → Stores sv stored
    → (a b : At S) → uncordon_start sv a ≡ returned b none
    → IsOpen (stored b.server)
unfolding uncordon_start
uncordon_start-IsOpen sv stored h a b e =
    subst (IsWell (Opens sv stored h)) e (start_field-Well sv stored h a a.kube_utils).of
