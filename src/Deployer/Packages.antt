-- ===== src/Deployer/Packages.antt =====
-- The package of the agent on a node, in nodeletctl/pkg/nodeletctl/deployer.go: the kind of system,
-- the choice of the package, and its installation and removal.
use Prim.Native.String.{◌++◌}
use nodelet.Shared.{String, Bool, true, false, ◌&&◌, ◌||◌, List, [], ◌∷◌, ◌==◌, if◌then◌else◌}
use nodelet.Shared.Texts.{contains, has_suffix, split_lines, trim_space}
use nodelet.Deployer.State.{
  run, upload, Remote, Error, unsupported_os, package_not_found, M, ret, raise, ◌>>=◌, ◌>>◌, act,
  attempt, output_of,
}
use nodelet.Deployer.Files.{NodeletDeployer, os_type_centos, os_type_ubuntu}

abbrev pub nodelet_tar_dst : String
nodelet_tar_dst = "/tmp/nodelet.tar.gz"

abbrev pub nodelet_pkgs_tmp_dir : String
nodelet_pkgs_tmp_dir = "/tmp/nodelet-pkgs/"

-- The test of the loop: whether a package is one for the system.
unfoldable pub is_for : String → String → Bool
is_for os_type pkg_name =
    (os_type == os_type_centos && has_suffix pkg_name ".rpm")
    || (os_type == os_type_ubuntu && has_suffix pkg_name ".deb")

-- The loop of `DetermineNodeletPkgName`: the first package for the system, or "".
unfoldable pub first_package : String → List String → String
first_package os_type [] = ""
first_package os_type (line ∷ lines) =
    let rest = first_package os_type lines in
    if is_for os_type (trim_space line) then trim_space line else rest

-- The end of `DetermineNodeletPkgName`.
unfoldable pub found : String → M String
found name l = if name == "" then raise package_not_found l else ret name l

-- One of two commands, by the system.
abbrev pub by_os : NodeletDeployer → String → String → M String
by_os d centos ubuntu =
    if d.os_type == os_type_centos
    then ret centos
    else if d.os_type == os_type_ubuntu
    then ret ubuntu
    else raise unsupported_os

abbrev cleanup_cmd : String
cleanup_cmd =
    "rm -rf /etc/pf9 && rm -rf /var/opt/pf9 && rm -rf /var/log/pf9 && rm -rf /var/spool/mail/pf9 && rm -rf /opt/cni/bin/* && rm -rf /etc/cni"

module _ (r : Remote) where
  -- `SetOsType`.
  unfoldable pub set_os_type : NodeletDeployer → M NodeletDeployer
  set_os_type d = do
    stdout ← output_of r "cat /etc/os-release"
    read ← attempt r (run "cat /etc/os-release")
    let ubuntu = read && contains (r.to_lower stdout) "ubuntu"
    ret (record d { os_type = if ubuntu then os_type_ubuntu else os_type_centos })

  -- `DetermineNodeletPkgName`.
  unfoldable pub determine_nodelet_pkg_name : NodeletDeployer → String → M String
  determine_nodelet_pkg_name d dir = do
    stdout ← output_of r ("ls " ++ dir)
    act r (run ("ls " ++ dir))
    found (first_package d.os_type (split_lines stdout))

  -- `UninstallNodelet`.
  unfoldable pub uninstall_nodelet : NodeletDeployer → String → M (Unit {0})
  uninstall_nodelet d pkg = do
    command ← by_os d ("yum erase -y " ++ pkg) ("apt-get uninstall -y " ++ pkg)
    act r (run command)

  -- The end of `InstallNodelet`, once the command has run: a package that is there is used again.
  installed : String → String → Bool → M (Unit {0})
  installed command stdout true = ret tt
  installed command stdout false =
      if contains stdout "does not update installed package"
      then ret tt
      else raise (Error.failed (run command))

  unfoldable pub install_package : String → M (Unit {0})
  unfolding installed
  install_package command = do
    stdout ← output_of r command
    good ← attempt r (run command)
    installed command stdout good

  -- `InstallNodelet`.
  unfoldable pub install_nodelet : NodeletDeployer → M (Unit {0})
  install_nodelet d = do
    act r (upload d.pf9_kube_tar_src nodelet_tar_dst)
    act r (run ("rm -Rf " ++ nodelet_pkgs_tmp_dir))
    act r (run ("mkdir -p " ++ nodelet_pkgs_tmp_dir))
    act r (run ("tar -C " ++ nodelet_pkgs_tmp_dir ++ " -xzvf " ++ nodelet_tar_dst))
    name ← determine_nodelet_pkg_name d nodelet_pkgs_tmp_dir
    let path = nodelet_pkgs_tmp_dir ++ name
    command ← by_os d ("yum install -y " ++ path) ("apt-get install -y " ++ path)
    install_package command

  -- `DeleteNodelet`.
  unfoldable pub delete_nodelet : NodeletDeployer → M (Unit {0})
  delete_nodelet d = do
    command ← by_os d "yum erase -y nodelet" "apt remove -y nodelet"
    act r (run command)
    act r (run cleanup_cmd)
