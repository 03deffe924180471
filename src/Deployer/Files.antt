-- ===== src/Deployer/Files.antt =====
-- The files that nodeletctl/pkg/nodeletctl/deployer.go brings to a node, and the commands that it
-- runs there. The constants are those of consts.go.
use Prim.Native.String.{◌++◌}
use nodelet.Shared.{String, Bool, true, false, List, [], ◌∷◌, ◌==◌, if◌then◌else◌}
use nodelet.Nodeletctl.State.{NodeletConfig}
use nodelet.Deployer.State.{
  run, upload, download, stat, read_file, decode, Remote, M, ret, ◌>>=◌, ◌>>◌, act, attempt,
}

abbrev pub cluster_state_dir : String
cluster_state_dir = "/etc/nodelet/"

abbrev pub nodelet_config_dir : String
nodelet_config_dir = "/etc/pf9/nodelet"

abbrev pub nodelet_config_file : String
nodelet_config_file = "config_sunpike.yaml"

abbrev pub nodelet_user : String
nodelet_user = "pf9"

abbrev pub root_ca_crt : String
root_ca_crt = "rootCA.crt"

abbrev pub root_ca_key : String
root_ca_key = "rootCA.key"

abbrev pub remote_certs_dir : String
remote_certs_dir = "/etc/pf9/kube.d/"

abbrev pub kube_status_file : String
kube_status_file = "/var/opt/pf9/kube_status"

abbrev pub user_images_dir : String
user_images_dir = "/var/opt/pf9/images"

abbrev pub os_type_centos : String
os_type_centos = "centos"

abbrev pub os_type_ubuntu : String
os_type_ubuntu = "ubuntu"

-- `NodeletDeployer`, without the client and the status of the cluster.
pub record NodeletDeployer : Type 0 where
  pub os_type : String
  pub nodelet_src_file : String
  pub nodelet_cfg : NodeletConfig
  pub pf9_kube_tar_src : String

-- The commands of `UploadFileWrapper`.
abbrev pub mkdir_cmd : String → String
mkdir_cmd dir = "mkdir -p " ++ dir

abbrev pub chown_cmd : String → String
chown_cmd dir = "chown " ++ nodelet_user ++ " " ++ dir ++ " "

abbrev pub mv_cmd : String → String → String
mv_cmd src dst = "mv " ++ src ++ " " ++ dst

-- The command of `SetPf9Ownerships`.
abbrev pub chown_group_cmd : String → String
chown_group_cmd dir = "chown " ++ nodelet_user ++ ":pf9group " ++ dir ++ " "

module _ (r : Remote) where
  open r use {join, base}

  -- `UploadFileWrapper`.
  unfoldable pub upload_file_wrapper : String → String → String → M (Unit {0})
  upload_file_wrapper src_file_path file_name dst_dir = do
    act r (run (mkdir_cmd dst_dir))
    act r (run (chown_cmd dst_dir))
    let tmp_dst = join "/tmp/" file_name
    act r (upload src_file_path tmp_dst)
    act r (run (mv_cmd tmp_dst (join dst_dir file_name)))

  -- The path of a file of the cluster's certificates.
  abbrev pub cert_path : NodeletDeployer → String → String
  cert_path d name = join (join (join cluster_state_dir d.nodelet_cfg.cluster_id) "certs") name

  -- `UploadCerts`.
  unfoldable pub upload_certs : NodeletDeployer → M (Unit {0})
  upload_certs d = do
    upload_file_wrapper (cert_path d root_ca_crt) root_ca_crt remote_certs_dir
    upload_file_wrapper (cert_path d root_ca_key) root_ca_key remote_certs_dir

  -- `CopyNodeletConfig`.
  unfoldable pub copy_nodelet_config : NodeletDeployer → M (Unit {0})
  copy_nodelet_config d =
      upload_file_wrapper d.nodelet_src_file nodelet_config_file nodelet_config_dir

  -- `UploadUserImages`.
  unfoldable pub upload_images : List String → M (Unit {0})
  upload_images [] = ret tt
  upload_images (img ∷ images) = do
    act r (stat img)
    upload_file_wrapper img (base img) user_images_dir
    upload_images images

  unfoldable pub upload_user_images : NodeletDeployer → M (Unit {0})
  upload_user_images d = upload_images d.nodelet_cfg.user_images

  -- `UploadCoreDNSHostsFile`.
  unfoldable pub upload_core_dns_hosts_file : NodeletDeployer → M (Unit {0})
  upload_core_dns_hosts_file d =
      if d.nodelet_cfg.core_dns_hosts_file == ""
      then ret tt
      else upload_file_wrapper d.nodelet_cfg.core_dns_hosts_file "hosts" "/etc/pf9/"

  -- `CreatePf9User`, behind the first look for the user.
  add_user : Bool → M (Unit {0})
  add_user true = ret tt
  add_user false = act r (run "useradd -d /opt/pf9/home -G pf9group pf9")

  make_user : Bool → M (Unit {0})
  unfolding add_user
  make_user true = ret tt
  make_user false = do
    act r (run "mkdir -p /opt/pf9/home")
    act r (run "groupadd -f pf9group")
    there ← attempt r (run "id -u pf9")
    add_user there

  -- `CreatePf9User`.
  unfoldable pub create_pf9_user : M (Unit {0})
  unfolding make_user
  create_pf9_user = do there ← attempt r (run "id -u pf9"); make_user there

  -- `SetPf9Ownerships`.
  unfoldable pub set_pf9_ownerships : M (Unit {0})
  set_pf9_ownerships = do
    act r (run (chown_group_cmd "/var/log/pf9"))
    act r (run (chown_group_cmd "/var/opt/pf9"))
    act r (run (chown_group_cmd "/etc/pf9"))
    act r (run (chown_group_cmd "/opt/pf9"))

  -- `StartNodelet`.
  unfoldable pub start_nodelet : M (Unit {0})
  start_nodelet = act r (run "systemctl start pf9-nodeletd")

  -- `RestartNodelet`.
  unfoldable pub restart_nodelet : M (Unit {0})
  restart_nodelet = act r (run "systemctl restart pf9-nodeletd")

  -- `NodeletStackRestart`.
  unfoldable pub nodelet_stack_restart : M (Unit {0})
  nodelet_stack_restart = do
    act r (run "systemctl stop pf9-nodeletd")
    act r (run "/opt/pf9/nodelet/nodeletd phases stop --force |& tee /tmp/nodeletStop.log")
    restart_nodelet

  -- `DeleteOldCerts`.
  unfoldable pub delete_old_certs : M (Unit {0})
  delete_old_certs = act r (run "rm -rf /etc/pf9/kube.d/certs")

  -- `DeleteCniDir`.
  unfoldable pub delete_cni_dir : M (Unit {0})
  delete_cni_dir = act r (run "rm -rf /etc/cni/net.d/")

  -- `RefreshNodeletStatus`: the state of the node by its status file.
  unfoldable pub refresh_nodelet_status : NodeletDeployer → M String
  refresh_nodelet_status d = do
    act r (run ("cp " ++ kube_status_file ++ " /tmp/"))
    let dir = join (join cluster_state_dir d.nodelet_cfg.cluster_id) d.nodelet_cfg.host_id
    let file = join dir "kube_status.json"
    act r (download "/var/opt/pf9/kube_status" file)
    act r (read_file file)
    act r (decode file)
    λ l. ret (r.node_state l file) l
