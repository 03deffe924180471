-- ===== src/Deployer/Plans.antt =====
-- The plans of nodeletctl/pkg/nodeletctl/deployer.go: the lists of actions that its operations come
-- to.
use nodelet.Shared.{inl, inr, String, List, [], ◌∷◌, ◌++◌, ◌==◌, if◌then◌else◌, Bool-cases}
use nodelet.Deployer.State.{
  Action, run, upload, stat, Log, Remote, Follows, Plans, act-Plans, ret-Plans, >>-Plans,
  Plans-Follows,
}
use nodelet.Deployer.Files.{
  NodeletDeployer, mkdir_cmd, chown_cmd, mv_cmd, chown_group_cmd, root_ca_crt, root_ca_key,
  remote_certs_dir, nodelet_config_file, nodelet_config_dir, user_images_dir, upload_file_wrapper,
  cert_path, upload_certs, copy_nodelet_config, upload_images, upload_user_images,
  upload_core_dns_hosts_file, set_pf9_ownerships, start_nodelet, restart_nodelet,
  nodelet_stack_restart, delete_old_certs, delete_cni_dir,
}
use nodelet.Deployer.Nodes.{upload_certs_and_restart_stack, reconfigure_nodelet}

module _ (r : Remote) where
  open r use {join, base}

  -- A file on its way: the directory and its owner, the upload to /tmp, and the move.
  abbrev pub upload_plan : String → String → String → List Action
  upload_plan src name dir =
      run (mkdir_cmd dir)
      ∷ run (chown_cmd dir)
      ∷ upload src (join "/tmp/" name)
      ∷ run (mv_cmd (join "/tmp/" name) (join dir name))
      ∷ []

  abbrev pub certs_plan : NodeletDeployer → List Action
  certs_plan d =
      upload_plan (cert_path r d root_ca_crt) root_ca_crt remote_certs_dir
      ++ upload_plan (cert_path r d root_ca_key) root_ca_key remote_certs_dir

  abbrev pub config_plan : NodeletDeployer → List Action
  config_plan d = upload_plan d.nodelet_src_file nodelet_config_file nodelet_config_dir

  abbrev pub images_plan : List String → List Action
  images_plan [] = []
  images_plan (img ∷ images) =
      stat img ∷ (upload_plan img (base img) user_images_dir ++ images_plan images)

  abbrev pub hosts_plan : String → List Action
  hosts_plan file = if file == "" then [] else upload_plan file "hosts" "/etc/pf9/"

  abbrev pub ownership_plan : List Action
  ownership_plan =
      run (chown_group_cmd "/var/log/pf9")
      ∷ run (chown_group_cmd "/var/opt/pf9")
      ∷ run (chown_group_cmd "/etc/pf9")
      ∷ run (chown_group_cmd "/opt/pf9")
      ∷ []

  abbrev pub start_plan : List Action
  start_plan = run "systemctl start pf9-nodeletd" ∷ []

  abbrev pub restart_plan : List Action
  restart_plan = run "systemctl restart pf9-nodeletd" ∷ []

  abbrev pub stack_restart_plan : List Action
  stack_restart_plan =
      run "systemctl stop pf9-nodeletd"
      ∷ run "/opt/pf9/nodelet/nodeletd phases stop --force |& tee /tmp/nodeletStop.log"
      ∷ restart_plan

  -- The new certificates, the removal of what was made from the old ones, and the restart.
  abbrev pub renewal_plan : NodeletDeployer → List Action
  renewal_plan d =
      certs_plan d
      ++ run "rm -rf /etc/pf9/kube.d/certs" ∷ run "rm -rf /etc/cni/net.d/" ∷ stack_restart_plan

  pub upload_file_wrapper-Plans :
      (src name dir : String)
      → Plans r (upload_plan src name dir) (upload_file_wrapper r src name dir)
  unfolding upload_file_wrapper
  upload_file_wrapper-Plans src name dir = >>-Plans r (run (mkdir_cmd dir) ∷ []) _ (act-Plans r _) (
      >>-Plans r (run (chown_cmd dir) ∷ []) _ (act-Plans r _)
        (>>-Plans r (upload src (join "/tmp/" name) ∷ []) _ (act-Plans r _) (act-Plans r _)))

  pub upload_certs-Plans : (d : NodeletDeployer) → Plans r (certs_plan d) (upload_certs r d)
  unfolding upload_certs
  upload_certs-Plans d =
      >>-Plans r (upload_plan (cert_path r d root_ca_crt) root_ca_crt remote_certs_dir) _
        (upload_file_wrapper-Plans _ _ _) (upload_file_wrapper-Plans _ _ _)

  pub copy_nodelet_config-Plans :
      (d : NodeletDeployer) → Plans r (config_plan d) (copy_nodelet_config r d)
  unfolding copy_nodelet_config
  copy_nodelet_config-Plans d = upload_file_wrapper-Plans _ _ _

  upload_images-Plans :
      (images : List String) → Plans r (images_plan images) (upload_images r images)
  unfolding upload_images
  upload_images-Plans [] = ret-Plans r
  upload_images-Plans (img ∷ images) = >>-Plans r (stat img ∷ []) _ (act-Plans r _) (
      >>-Plans r (upload_plan img (base img) user_images_dir) (images_plan images)
        (upload_file_wrapper-Plans _ _ _) (upload_images-Plans images))

  pub upload_user_images-Plans :
      (d : NodeletDeployer)
      → Plans r (images_plan d.nodelet_cfg.user_images) (upload_user_images r d)
  unfolding upload_user_images
  upload_user_images-Plans d = upload_images-Plans d.nodelet_cfg.user_images

  pub upload_core_dns_hosts_file-Plans :
      (d : NodeletDeployer)
      → Plans r (hosts_plan d.nodelet_cfg.core_dns_hosts_file) (upload_core_dns_hosts_file r d)
  unfolding upload_core_dns_hosts_file
  upload_core_dns_hosts_file-Plans d = elim (Bool-cases (d.nodelet_cfg.core_dns_hosts_file == "")) [
    | inl e ↦ rw e (ret-Plans r)
    | inr e ↦ rw e (upload_file_wrapper-Plans _ _ _)
  ]

  pub set_pf9_ownerships-Plans : Plans r ownership_plan (set_pf9_ownerships r)
  unfolding set_pf9_ownerships
  set_pf9_ownerships-Plans =
      >>-Plans r (run (chown_group_cmd "/var/log/pf9") ∷ []) _ (act-Plans r _) (
        >>-Plans r (run (chown_group_cmd "/var/opt/pf9") ∷ []) _ (act-Plans r _)
          (>>-Plans r (run (chown_group_cmd "/etc/pf9") ∷ []) _ (act-Plans r _) (act-Plans r _)))

  pub start_nodelet-Plans : Plans r start_plan (start_nodelet r)
  unfolding start_nodelet
  start_nodelet-Plans = act-Plans r _

  pub restart_nodelet-Plans : Plans r restart_plan (restart_nodelet r)
  unfolding restart_nodelet
  restart_nodelet-Plans = act-Plans r _

  nodelet_stack_restart-Plans : Plans r stack_restart_plan (nodelet_stack_restart r)
  unfolding nodelet_stack_restart
  nodelet_stack_restart-Plans =
      >>-Plans r (run "systemctl stop pf9-nodeletd" ∷ []) _ (act-Plans r _) (
        >>-Plans r
          (run "/opt/pf9/nodelet/nodeletd phases stop --force |& tee /tmp/nodeletStop.log" ∷ []) _
          (act-Plans r _) restart_nodelet-Plans)

  upload_certs_and_restart_stack-Plans :
      (d : NodeletDeployer) → Plans r (renewal_plan d) (upload_certs_and_restart_stack r d)
  unfolding upload_certs_and_restart_stack delete_old_certs delete_cni_dir
  upload_certs_and_restart_stack-Plans d = >>-Plans r (certs_plan d) _ (upload_certs-Plans d) (
      >>-Plans r (run "rm -rf /etc/pf9/kube.d/certs" ∷ []) _ (act-Plans r _) (
        >>-Plans r (run "rm -rf /etc/cni/net.d/" ∷ []) stack_restart_plan (act-Plans r _)
          nodelet_stack_restart-Plans))

  -- `UploadCertsAndRestartStack` comes to a list of actions, of which all succeed in order, or one
  -- fails behind those that did, is the error, and nothing follows: first the certificate and the
  -- key of the new authority are in place, then the certificates made from the old one and the CNI
  -- directory are removed, then the agent and its phases are stopped, and last the agent is
  -- restarted.
  pub upload_certs_and_restart_stack-Follows :
      (d : NodeletDeployer) (l : Log)
      → Follows (renewal_plan d) l (upload_certs_and_restart_stack r d l)
  upload_certs_and_restart_stack-Follows d l =
      Plans-Follows r (renewal_plan d) (upload_certs_and_restart_stack-Plans d) l

  pub reconfigure_nodelet-Follows :
      (d : NodeletDeployer) (l : Log)
      → Follows (config_plan d ++ restart_plan) l (reconfigure_nodelet r d l)
  unfolding reconfigure_nodelet
  reconfigure_nodelet-Follows d l =
      Plans-Follows r (config_plan d ++ restart_plan)
        (>>-Plans r (config_plan d) restart_plan (copy_nodelet_config-Plans d)
          restart_nodelet-Plans)
        l
