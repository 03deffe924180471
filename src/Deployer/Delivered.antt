-- ===== src/Deployer/Delivered.antt =====
-- What `DeployNodelet` and the operations on it have done when they succeed
-- (nodeletctl/pkg/nodeletctl/deployer.go).
use Prim.Native.String.{◌++◌ as ◌++s◌}
use mathlib.Core.Path.{subst}
use nodelet.Shared.{
  ◌≡◌, ◌⊎◌, refl, ap, ◌∙◌, String, Bool, true, false, List, [], ◌∷◌, ◌++◌, ◌==◌, if◌then◌else◌,
  none, arith,
}
use nodelet.Deployer.State.{
  Action, run, download, read_file, decode, Log, Remote, Result, ok, err, continue, act, done,
  act-Plans, continue-ok, act-ok, Plans-step, Plans-ok, done-append,
}
use nodelet.Deployer.Files.{
  NodeletDeployer, cluster_state_dir, os_type_centos, kube_status_file, create_pf9_user,
  refresh_nodelet_status, set_pf9_ownerships, start_nodelet, restart_nodelet,
}
use nodelet.Deployer.Plans.{
  certs_plan, images_plan, hosts_plan, config_plan, ownership_plan, start_plan, restart_plan,
  upload_certs-Plans, upload_user_images-Plans, upload_core_dns_hosts_file-Plans,
  copy_nodelet_config-Plans, set_pf9_ownerships-Plans, start_nodelet-Plans, restart_nodelet-Plans,
}
use nodelet.Deployer.Packages.{by_os, install_nodelet, uninstall_nodelet}
use nodelet.Deployer.Installed.{Installed, by_os-ok, install_nodelet-ok}
use nodelet.Deployer.Nodes.{report, refreshed, deploy_nodelet, upgrade_master, spawn_node}

abbrev id_entry : Bool → Action × Bool
id_entry good = (run "id -u pf9", good)

abbrev user_plan : List Action
user_plan = run "mkdir -p /opt/pf9/home" ∷ run "groupadd -f pf9group" ∷ []

-- The user is there, or its home and group are made and then it is there, or it is added.
abbrev pub HasUser : Log → Log → Type 0
HasUser l l' =
    (l' ≡ id_entry true ∷ l)
    ⊎ (l' ≡ id_entry true ∷ done user_plan (id_entry false ∷ l))
    ⊎ (l'
        ≡ (run "useradd -d /opt/pf9/home -G pf9group pf9", true)
          ∷ id_entry false
          ∷ done user_plan (id_entry false ∷ l))

create_pf9_user-ok :
    (r : Remote) (l : Log) {l' : Log} → create_pf9_user r l ≡ ok tt l' → HasUser l l'
unfolding create_pf9_user
create_pf9_user-ok r l h = ground arith

-- The files of a node: certificates, images, hosts file and configuration.
abbrev pub files_plan : Remote → NodeletDeployer → List Action
files_plan r d =
    certs_plan r d
    ++ (images_plan r d.nodelet_cfg.user_images
        ++ (hosts_plan r d.nodelet_cfg.core_dns_hosts_file ++ config_plan r d))

-- The log of a deployment from a log: the user, the files, the package, the owners, and the start.
abbrev pub Deployed : Remote → NodeletDeployer → Log → Log → Type 0
Deployed r d l l' =
    (l1 : Log) × HasUser l l1
    × ((l2 : Log) × Installed r d (done (files_plan r d) l1) l2
        × (l' ≡ done (ownership_plan r ++ start_plan r) l2))

-- The log of the files, one plan after the other.
files_plan-done :
    (r : Remote) (d : NodeletDeployer) (l : Log)
    → done (files_plan r d) l
      ≡ done (config_plan r d) (
          done
            (hosts_plan r d.nodelet_cfg.core_dns_hosts_file)
            (done (images_plan r d.nodelet_cfg.user_images) (done (certs_plan r d) l)))
files_plan-done r d l =
    let images = images_plan r d.nodelet_cfg.user_images in
    let hosts = hosts_plan r d.nodelet_cfg.core_dns_hosts_file in
    done-append (certs_plan r d) (images ++ (hosts ++ config_plan r d)) l
    ∙ done-append images (hosts ++ config_plan r d) (done (certs_plan r d) l)
    ∙ done-append hosts (config_plan r d) (done images (done (certs_plan r d) l))

-- The part of `DeployNodelet` behind the files.
start_part :
    (r : Remote) (d : NodeletDeployer) (l : Log) {l' : Log}
    → continue
        (install_nodelet r d l)
        (λ _. λ l. continue (set_pf9_ownerships r l) (λ _. start_nodelet r))
      ≡ ok tt l'
    → (l2 : Log) × Installed r d l l2 × (l' ≡ done (ownership_plan r ++ start_plan r) l2)
start_part r d l h =
    let (_, l2, got, h1) = continue-ok (install_nodelet r d l) _ h in
    let h2 =
      Plans-step r (ownership_plan r) (set_pf9_ownerships r) (start_nodelet r)
        (set_pf9_ownerships-Plans r) l2 h1 in
    (
      l2,
      install_nodelet-ok r d l got,
      Plans-ok r (start_plan r) (start_nodelet r) (start_nodelet-Plans r)
          (done (ownership_plan r) l2) h2,
    )

-- `DeployNodelet`: when it succeeds, the node has its user, then its files, then the package, which
-- is one for its system, then its owners, and only then the agent was started.
pub deploy_nodelet-Deployed :
    (r : Remote) (d : NodeletDeployer) (l : Log) {l' : Log}
    → deploy_nodelet r d l ≡ ok tt l'
    → Deployed r d l l'
unfolding deploy_nodelet
deploy_nodelet-Deployed r d l {l'} h =
    let (_, l1, user, h1) = continue-ok (create_pf9_user r l) _ h in
    let (l2, installed, e) = start_part r d (done (files_plan r d) l1) (
      ap
        (λ m.
          continue (install_nodelet r d m)
            (λ _. λ l. continue (set_pf9_ownerships r l) (λ _. start_nodelet r)))
        (files_plan-done r d l1)
      ∙ Plans-step r (config_plan r d) _ _ (copy_nodelet_config-Plans r d) _ (
          Plans-step r (hosts_plan r d.nodelet_cfg.core_dns_hosts_file) _ _
            (upload_core_dns_hosts_file-Plans r d) _
            (Plans-step r (images_plan r d.nodelet_cfg.user_images) _ _
              (upload_user_images-Plans r d) _
              (Plans-step r (certs_plan r d) _ _ (upload_certs-Plans r d) l1 h1)))) in
    (l1, create_pf9_user-ok r l user, (l2, installed, e))

abbrev pub uninstall_cmd : NodeletDeployer → String
uninstall_cmd d =
    if d.os_type == os_type_centos
    then "yum erase -y " ++s "nodelet"
    else "apt-get uninstall -y " ++s "nodelet"

-- The log of an upgrade from a log: the old package is gone before the new configuration comes and
-- the new package is installed, and then the agent was restarted.
abbrev pub Upgraded : Remote → NodeletDeployer → Log → Log → Type 0
Upgraded r d l l' =
    (l2 : Log) × Installed r d (done (config_plan r d) ((run (uninstall_cmd d), true) ∷ l)) l2
    × (l' ≡ done (restart_plan r) l2)

uninstall_nodelet-ok :
    (r : Remote) (d : NodeletDeployer) (l : Log) {l' : Log}
    → uninstall_nodelet r d "nodelet" l ≡ ok tt l'
    → l' ≡ (run (uninstall_cmd d), true) ∷ l
unfolding uninstall_nodelet
uninstall_nodelet-ok r d l h =
    let (command, l1, got, h1) = continue-ok (by_os d _ _ l) (λ c. act r (run c)) h in
    let (same, le) = by_os-ok d _ _ l got in
    act-ok r (run command) l1 h1
    ∙ ap (λ c. (run c, true) ∷ l1) same
    ∙ ap (λ m. (run (uninstall_cmd d), true) ∷ m) le

-- When `UpgradeMaster` succeeds, the old package was removed, then the configuration was brought,
-- then the package of the system was installed from the archive, and last the agent was restarted.
pub upgrade_master-Upgraded :
    (r : Remote) (d : NodeletDeployer) (l : Log) {l' : Log}
    → upgrade_master r d l ≡ ok tt l'
    → Upgraded r d l l'
unfolding upgrade_master
upgrade_master-Upgraded r d l h =
    let (_, l1, gone, h1) = continue-ok (uninstall_nodelet r d "nodelet" l) _ h in
    let (_, l2, got, h2) =
      continue-ok (install_nodelet r d (done (config_plan r d) l1)) (λ _. restart_nodelet r)
        (Plans-step r (config_plan r d) _ _ (copy_nodelet_config-Plans r d) l1 h1) in
    (
      l2,
      subst (λ m. Installed r d (done (config_plan r d) m) l2) (uninstall_nodelet-ok r d l gone)
          (install_nodelet-ok r d (done (config_plan r d) l1) got),
      Plans-ok r (restart_plan r) (restart_nodelet r) (restart_nodelet-Plans r) l2 h2,
    )

abbrev pub status_path : Remote → NodeletDeployer → String
status_path r d =
    r.join (r.join (r.join cluster_state_dir d.nodelet_cfg.cluster_id) d.nodelet_cfg.host_id)
      "kube_status.json"

abbrev pub status_plan : Remote → NodeletDeployer → List Action
status_plan r d =
    run ("cp " ++s kube_status_file ++s " /tmp/")
    ∷ download "/var/opt/pf9/kube_status" (status_path r d)
    ∷ read_file (status_path r d)
    ∷ decode (status_path r d)
    ∷ []

refresh_nodelet_status-ok :
    (r : Remote) (d : NodeletDeployer) (l : Log) {health : String} {l' : Log}
    → refresh_nodelet_status r d l ≡ ok health l'
    → (l' ≡ done (status_plan r d) l) × (health ≡ r.node_state l' (status_path r d))
unfolding refresh_nodelet_status
refresh_nodelet_status-ok r d l {health} {l'} h =
    let read : ok (r.node_state (done (status_plan r d) l) (status_path r d))
          (done (status_plan r d) l)
        ≡ ok health l' =
      Plans-step r (decode (status_path r d) ∷ []) _ _ (act-Plans r _) _ (
        Plans-step r (read_file (status_path r d) ∷ []) _ _ (act-Plans r _) _ (
          Plans-step r (download "/var/opt/pf9/kube_status" (status_path r d) ∷ []) _ _
            (act-Plans r _) _
            (Plans-step r (run ("cp " ++s kube_status_file ++s " /tmp/") ∷ []) _ _ (act-Plans r _) l
              h))) in
    (cc read, cc read)

-- A report without an error is the value of an operation that succeeded.
report-none :
    (other : String) (res : Result String) {health : String} {l' : Log}
    → report other res ≡ ((health, none), l')
    → res ≡ ok health l'
report-none other (ok s l) h = ground arith
report-none other (err e l) h = cc

refreshed-none :
    (r : Remote) (d : NodeletDeployer) (res : Result (Unit {0})) {health : String} {l' : Log}
    → refreshed r d res ≡ ((health, none), l')
    → (l1 : Log) × (res ≡ ok tt l1) × (refresh_nodelet_status r d l1 ≡ ok health l')
unfolding refreshed
refreshed-none r d (ok u l1) h = (l1, refl, report-none "" (refresh_nodelet_status r d l1) h)
refreshed-none r d (err e l1) h = cc

-- When the report of `SpawnMaster` or `SpawnWorker` has no error, the log of the node is that of
-- the plan of a deployment: its user, then certificates, images, hosts file and configuration, then
-- the package, which is the first one listed for its system, then the owners of the directories,
-- and only then the start of the agent; behind it the status was fetched, and the health reported
-- is the one that it states.
pub spawn_node-reports :
    (r : Remote) (d : NodeletDeployer) (l : Log) {health : String} {l' : Log}
    → spawn_node r d l ≡ ((health, none), l')
    → (l1 : Log) × Deployed r d l l1
      × (l' ≡ done (status_plan r d) l1)
      × (health ≡ r.node_state l' (status_path r d))
unfolding spawn_node
spawn_node-reports r d l h =
    let (l1, deployed, known) = refreshed-none r d (deploy_nodelet r d l) h in
    let (e, same) = refresh_nodelet_status-ok r d l1 known in
    (l1, deploy_nodelet-Deployed r d l deployed, e, same)
