-- ===== src/Deployer/Blamed.antt =====
-- Where the operations of nodeletctl/pkg/nodeletctl/deployer.go stop when they fail.
use nodelet.Shared.{
  ◌≡◌, ◌⊎◌, inl, inr, refl, String, Bool, true, false, List, [], ◌∷◌, ◌==◌, some, Bool-cases,
}
use nodelet.Shared.Texts.{contains}
use nodelet.Deployer.State.{
  Action, run, Log, Remote, failed, unsupported_os, package_not_found, Result, ok, err, M, continue,
  act, attempt, run_all, Plans,
}
use nodelet.Deployer.Files.{
  NodeletDeployer, os_type_centos, os_type_ubuntu, create_pf9_user, refresh_nodelet_status,
}
use nodelet.Deployer.Plans.{
  certs_plan, images_plan, hosts_plan, config_plan, ownership_plan, start_plan, upload_certs-Plans,
  upload_user_images-Plans, upload_core_dns_hosts_file-Plans, copy_nodelet_config-Plans,
  set_pf9_ownerships-Plans, start_nodelet-Plans,
}
use nodelet.Deployer.Packages.{
  found, determine_nodelet_pkg_name, by_os, install_package, install_nodelet,
}
use nodelet.Deployer.Delivered.{Deployed, deploy_nodelet-Deployed}
use nodelet.Deployer.Nodes.{report, refreshed, deploy_nodelet, spawn_node}

-- The error is the newest action of the log, if it is one of an action.
abbrev pub Blames : {A : Type 0} → Result A → Type 0
Blames (ok a l) = Unit
Blames (err (failed a) l) = (m : Log) × (l ≡ (a, false) ∷ m)
Blames (err unsupported_os l) = Unit
Blames (err package_not_found l) = Unit

Blames-continue :
    {A B : Type 0} (res : Result A) (f : A → M B)
    → Blames res
    → ((a : A) (l : Log) → Blames (f a l))
    → Blames (continue res f)
Blames-continue (ok a l) f b h = h a l
Blames-continue (err (failed a) l) f b h = b
Blames-continue (err unsupported_os l) f b h = tt
Blames-continue (err package_not_found l) f b h = tt

module _ (r : Remote) where
  act-Blames : (a : Action) (l : Log) → Blames (act r a l)
  act-Blames a l = elim (Bool-cases (r.fails l a)) [
    | inl bad ↦ rw bad (l, refl)
    | inr good ↦ rw good tt
  ]

  run_all-Blames : (plan : List Action) (l : Log) → Blames (run_all r plan l)
  unfolding run_all
  run_all-Blames [] l = tt
  run_all-Blames (a ∷ plan) l =
      Blames-continue (act r a l) (λ _. run_all r plan) (act-Blames a l) (λ _. run_all-Blames plan)

  -- Operations with a plan.
  Plans-Blames : {m : M (Unit {0})} (plan : List Action) → Plans r plan m → (l : Log) → Blames (m l)
  Plans-Blames plan h l = rw (h l) (run_all-Blames plan l)

  -- An action whose error the code looks at.
  attempt-Blames :
      {B : Type 0} (a : Action) (f : Bool → M B) (l : Log)
      → Blames (f true ((a, true) ∷ l))
      → Blames (f false ((a, false) ∷ l))
      → Blames (continue (attempt r a l) f)
  attempt-Blames a f l h g = elim (Bool-cases (r.fails l a)) [
    | inl bad ↦ rw bad g
    | inr good ↦ rw good h
  ]

  create_pf9_user-Blames : (l : Log) → Blames (create_pf9_user r l)
  unfolding create_pf9_user
  create_pf9_user-Blames l = attempt-Blames (run "id -u pf9") _ l tt (
      Blames-continue _ _ (act-Blames (run "mkdir -p /opt/pf9/home") _) λ _ l1.
        Blames-continue _ _ (act-Blames (run "groupadd -f pf9group") l1)
          λ _ l2. attempt-Blames (run "id -u pf9") _ l2 tt (act-Blames _ _))

  found-Blames : (name : String) (l : Log) → Blames (found name l)
  unfolding found
  found-Blames name l = elim (Bool-cases (name == "")) [ inl e ↦ rw e tt | inr e ↦ rw e tt ]

  determine_nodelet_pkg_name-Blames :
      (d : NodeletDeployer) (dir : String) (l : Log) → Blames (determine_nodelet_pkg_name r d dir l)
  unfolding determine_nodelet_pkg_name
  determine_nodelet_pkg_name-Blames d dir l =
      Blames-continue _ _ (act-Blames _ l) (λ _ l1. found-Blames _ l1)

  by_os-Blames :
      (d : NodeletDeployer) (centos ubuntu : String) (l : Log) → Blames (by_os d centos ubuntu l)
  by_os-Blames d centos ubuntu l = elim (Bool-cases (d.os_type == os_type_centos)) [
    | inl e ↦ rw e tt
    | inr e ↦ elim (Bool-cases (d.os_type == os_type_ubuntu)) [
      | inl e' ↦ rw (e, e') tt
      | inr e' ↦ rw (e, e') tt
    ]
  ]

  install_package-Blames : (command : String) (l : Log) → Blames (install_package r command l)
  unfolding install_package
  install_package-Blames command l =
      attempt-Blames (run command) _ l tt
        (elim (Bool-cases (contains (r.output l command) "does not update installed package")) [
          | inl e ↦ rw e tt
          | inr e ↦ rw e (l, refl)
        ])

  install_nodelet-Blames : (d : NodeletDeployer) (l : Log) → Blames (install_nodelet r d l)
  unfolding install_nodelet
  install_nodelet-Blames d l = Blames-continue _ _ (act-Blames _ l) λ _ l1.
      Blames-continue _ _ (act-Blames _ l1) λ _ l2. Blames-continue _ _ (act-Blames _ l2) λ _ l3.
        Blames-continue _ _ (act-Blames _ l3) λ _ l4.
          Blames-continue _ _ (determine_nodelet_pkg_name-Blames d _ l4)
            λ name l5. Blames-continue _ _ (by_os-Blames d _ _ l5) install_package-Blames

  deploy_nodelet-Blames : (d : NodeletDeployer) (l : Log) → Blames (deploy_nodelet r d l)
  unfolding deploy_nodelet
  deploy_nodelet-Blames d l = Blames-continue _ _ (create_pf9_user-Blames l) λ _ l1.
      Blames-continue _ _ (Plans-Blames (certs_plan r d) (upload_certs-Plans r d) l1) λ _ l2.
        Blames-continue _ _
          (Plans-Blames (images_plan r d.nodelet_cfg.user_images) (upload_user_images-Plans r d) l2)
          λ _ l3.
            Blames-continue _ _
              (Plans-Blames (hosts_plan r d.nodelet_cfg.core_dns_hosts_file)
                (upload_core_dns_hosts_file-Plans r d) l3)
              λ _ l4.
                Blames-continue _ _
                  (Plans-Blames (config_plan r d) (copy_nodelet_config-Plans r d) l4)
                  λ _ l5. Blames-continue _ _ (install_nodelet-Blames d l5) λ _ l6.
                    Blames-continue _ _
                      (Plans-Blames (ownership_plan r) (set_pf9_ownerships-Plans r) l6)
                      λ _ l7. Plans-Blames (start_plan r) (start_nodelet-Plans r) l7

  refresh_nodelet_status-Blames :
      (d : NodeletDeployer) (l : Log) → Blames (refresh_nodelet_status r d l)
  unfolding refresh_nodelet_status
  refresh_nodelet_status-Blames d l = Blames-continue _ _ (act-Blames _ l) λ _ l1.
      Blames-continue _ _ (act-Blames _ l1) λ _ l2.
        Blames-continue _ _ (act-Blames _ l2)
          λ _ l3. Blames-continue _ _ (act-Blames _ l3) λ _ l4. tt

-- What a report with an error says: the deployment failed, or it succeeded and the status could not
-- be fetched; and the action that is blamed is the last one.
abbrev pub Reported : Remote → NodeletDeployer → Log → String → Action → Log → Type 0
Reported r d l health a l' =
    ((health ≡ "failed") ⊎ ((health ≡ "") × ((l1 : Log) × Deployed r d l l1)))
    × ((m : Log) × (l' ≡ (a, false) ∷ m))

report-failed :
    (other : String) (res : Result String) {health : String} {a : Action} {l' : Log}
    → Blames res
    → report other res ≡ ((health, some (failed a)), l')
    → (health ≡ other) × ((m : Log) × (l' ≡ (a, false) ∷ m))
report-failed other (ok s l) b h = absurd (cc h)
report-failed other (err (failed a) l) (m, e) h = (cc h, (m, cc (e, h)))
report-failed other (err unsupported_os l) b h = absurd (cc h)
report-failed other (err package_not_found l) b h = absurd (cc h)

refreshed-failed :
    (r : Remote) (d : NodeletDeployer) (l : Log) (res : Result (Unit {0})) {health : String}
    {a : Action} {l' : Log}
    → deploy_nodelet r d l ≡ res
    → Blames res
    → refreshed r d res ≡ ((health, some (failed a)), l')
    → Reported r d l health a l'
unfolding refreshed
refreshed-failed r d l (ok u l1) g b h =
    let (same, newest) =
      report-failed "" (refresh_nodelet_status r d l1) (refresh_nodelet_status-Blames r d l1) h in
    (inr (same, (l1, deploy_nodelet-Deployed r d l g)), newest)
refreshed-failed r d l (err (failed a) l1) g (m, e) h = (inl (cc h), (m, cc (e, h)))
refreshed-failed r d l (err unsupported_os l1) g b h = absurd (cc h)
refreshed-failed r d l (err package_not_found l1) g b h = absurd (cc h)

-- When the report of `SpawnMaster` or `SpawnWorker` has the error of an action, that action failed
-- and was the last one on the node; the health is "failed", or it is "" and the deployment itself
-- succeeded.
pub spawn_node-Reported :
    (r : Remote) (d : NodeletDeployer) (l : Log) {health : String} {a : Action} {l' : Log}
    → spawn_node r d l ≡ ((health, some (failed a)), l')
    → Reported r d l health a l'
unfolding spawn_node
spawn_node-Reported r d l h =
    refreshed-failed r d l (deploy_nodelet r d l) refl (deploy_nodelet-Blames r d l) h
