-- ===== src/Tests/Deployers.antt =====
-- The deployment of a node (nodeletctl/pkg/nodeletctl/deployer.go) at concrete inputs.
use nodelet.Shared.{◌≡◌, ◌↔◌, refl, String, Bool, true, false, [], ◌∷◌, ◌==◌, if◌then◌else◌, none}
use nodelet.Nodeletctl.Nodes.{set_nodelet_cluster_cfg}
use nodelet.Shared.Texts.{contains, has_suffix, split_lines, trim_space}
use nodelet.Deployer.State.{Action, run, Log, Remote, Result, ok, err, done, Follows}
use nodelet.Deployer.Files.{
  NodeletDeployer, upload_file_wrapper, upload_certs, copy_nodelet_config, upload_images,
  upload_user_images, upload_core_dns_hosts_file, create_pf9_user, set_pf9_ownerships,
  start_nodelet, refresh_nodelet_status,
}
use nodelet.Deployer.Packages.{
  is_for, first_package, found, determine_nodelet_pkg_name, install_package, install_nodelet,
}
use nodelet.Deployer.Packed.{Chosen, determine_nodelet_pkg_name_iff}
use nodelet.Deployer.Client.{Net, Ends, create_ssh_client, create_ssh_client-Ends}
use nodelet.Deployer.Nodes.{upload_certs_and_restart_stack, deploy_nodelet, refreshed, spawn_node}
use nodelet.Deployer.Plans.{renewal_plan, upload_certs_and_restart_stack-Follows}
use nodelet.Deployer.Delivered.{Deployed, status_plan, status_path, spawn_node-reports}
use nodelet.Deployer.Blamed.{Reported, spawn_node-Reported}
use nodelet.Tests.Clusters.{config}

-- Two packages for Debian and one for CentOS.
abbrev listing : String
listing = "nodelet.deb\n nodelet.rpm \nold.rpm\n"

abbrev good_remote : Remote
good_remote = record {
  fails = λ l a. false;
  output = λ l c. if c == "ls /tmp/nodelet-pkgs/" then listing else "";
  node_state = λ l file. "ok";
  to_lower = λ s. s;
  join = λ a b. a;
  base = λ a. a;
}

abbrev is_tar : Action → Bool
is_tar (run c) = c == "tar -C /tmp/nodelet-pkgs/ -xzvf /tmp/nodelet.tar.gz"
is_tar a = false

-- The package cannot be unpacked.
abbrev bad_remote : Remote
bad_remote = record good_remote { fails = λ l a. is_tar a }

abbrev deployer : NodeletDeployer
deployer = record {
  os_type = "centos";
  nodelet_src_file = "config.yaml";
  nodelet_cfg = (set_nodelet_cluster_cfg config).1;
  pf9_kube_tar_src = "nodelet.tar.gz";
}

all_files_are_read : split_lines listing ≡ "nodelet.deb" ∷ " nodelet.rpm " ∷ "old.rpm" ∷ "" ∷ []
unfolding split_lines
all_files_are_read = refl

first_rpm_is_chosen : first_package "centos" (split_lines listing) ≡ "nodelet.rpm"
unfolding first_package split_lines is_for has_suffix trim_space
first_rpm_is_chosen = refl

determine_nodelet_pkg_name_iff_example :
    (determine_nodelet_pkg_name good_remote deployer "/tmp/nodelet-pkgs/" []
      ≡ ok "nodelet.rpm" ((run "ls /tmp/nodelet-pkgs/", true) ∷ []))
    ↔ Chosen "centos" (split_lines listing) "nodelet.rpm"
determine_nodelet_pkg_name_iff_example =
    determine_nodelet_pkg_name_iff good_remote deployer "/tmp/nodelet-pkgs/" [] refl "nodelet.rpm"

upload_certs_and_restart_stack-Follows_example :
    Follows
      (renewal_plan bad_remote deployer)
      []
      (upload_certs_and_restart_stack bad_remote deployer [])
upload_certs_and_restart_stack-Follows_example =
    upload_certs_and_restart_stack-Follows bad_remote deployer []

-- The first attempt is refused, and the second is accepted.
abbrev net : Net
net = record {
  refuses = λ l host. elim l [ [] ↦ true | _ ∷ r ↦ false ];
  is_ip_v6_addr = λ s. true;
  hostname = none;
  interfaces = none;
}

create_ssh_client-Ends_example : Ends net "fd00::1" [] 5 (create_ssh_client net "fd00::1" [])
create_ssh_client-Ends_example = create_ssh_client-Ends net "fd00::1" []

-- The log of a result.
abbrev log_of : {A : Type 0} → Result A → Log
log_of (ok a l) = l
log_of (err e l) = l

abbrev spawned : Log
spawned = (spawn_node good_remote deployer []).1

spawn_node-reports_example :
    (l1 : Log) × Deployed good_remote deployer [] l1
    × (spawned ≡ done (status_plan good_remote deployer) l1)
    × ("ok" ≡ good_remote.node_state spawned (status_path good_remote deployer))
unfolding spawn_node deploy_nodelet create_pf9_user upload_certs upload_file_wrapper
    upload_user_images upload_images upload_core_dns_hosts_file copy_nodelet_config install_nodelet
    determine_nodelet_pkg_name install_package found first_package split_lines is_for has_suffix
    trim_space contains set_pf9_ownerships start_nodelet refreshed refresh_nodelet_status
    set_nodelet_cluster_cfg
spawn_node-reports_example = spawn_node-reports good_remote deployer [] refl

abbrev failed_spawn : Log
failed_spawn = (spawn_node bad_remote deployer []).1

spawn_node-Reported_example :
    Reported bad_remote deployer [] "failed"
      (run "tar -C /tmp/nodelet-pkgs/ -xzvf /tmp/nodelet.tar.gz")
      failed_spawn
unfolding create_pf9_user upload_certs upload_file_wrapper upload_user_images upload_images
    upload_core_dns_hosts_file copy_nodelet_config install_nodelet determine_nodelet_pkg_name
    install_package found first_package split_lines is_for has_suffix trim_space contains
    set_pf9_ownerships start_nodelet set_nodelet_cluster_cfg refreshed spawn_node deploy_nodelet
spawn_node-Reported_example = spawn_node-Reported bad_remote deployer [] refl
