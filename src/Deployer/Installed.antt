-- ===== src/Deployer/Installed.antt =====
-- What `InstallNodelet` of nodeletctl/pkg/nodeletctl/deployer.go has done when it succeeds.
use Prim.Native.String.{◌++◌}
use nodelet.Shared.{
  ◌≡◌, ◌⊎◌, inl, inr, refl, sym, ap, ◌∙◌, String, Bool, true, false, List, [], ◌∷◌, ◌==◌,
  if◌then◌else◌, Bool-cases, arith,
}
use nodelet.Shared.Texts.{contains, split_lines}
use nodelet.Deployer.State.{
  Action, run, upload, Log, Remote, ok, continue, done, act-Plans, continue-ok, Plans-step,
}
use nodelet.Deployer.Files.{NodeletDeployer, os_type_centos}
use nodelet.Deployer.Packages.{
  nodelet_tar_dst, nodelet_pkgs_tmp_dir, determine_nodelet_pkg_name, by_os, install_package,
  install_nodelet,
}
use nodelet.Deployer.Packed.{Chosen, determine_nodelet_pkg_name-ok}

abbrev pub unpack_plan : NodeletDeployer → List Action
unpack_plan d =
    upload d.pf9_kube_tar_src nodelet_tar_dst
    ∷ run ("rm -Rf " ++ nodelet_pkgs_tmp_dir)
    ∷ run ("mkdir -p " ++ nodelet_pkgs_tmp_dir)
    ∷ run ("tar -C " ++ nodelet_pkgs_tmp_dir ++ " -xzvf " ++ nodelet_tar_dst)
    ∷ []

abbrev pub list_cmd : String
list_cmd = "ls " ++ nodelet_pkgs_tmp_dir

-- The command that installs a package.
abbrev pub install_cmd : NodeletDeployer → String → String
install_cmd d name =
    if d.os_type == os_type_centos
    then "yum install -y " ++ nodelet_pkgs_tmp_dir ++ name
    else "apt-get install -y " ++ nodelet_pkgs_tmp_dir ++ name

-- The log of an installation from a log: the package is unpacked, it is the first one for the system,
-- and its installation succeeded or said that the package is there.
abbrev pub Installed : Remote → NodeletDeployer → Log → Log → Type 0
Installed r d l l' =
    let unpacked = done (unpack_plan d) l in
    let listed = (run list_cmd, true) ∷ unpacked in
    (name : String) × (good : Bool) × Chosen d.os_type (split_lines (r.output unpacked list_cmd))
      name
    × (l' ≡ (run (install_cmd d name), good) ∷ listed)
    × ((good ≡ true)
        ⊎ (contains (r.output listed (install_cmd d name)) "does not update installed package"
            ≡ true))

pub by_os-ok :
    (d : NodeletDeployer) (centos ubuntu : String) (l : Log) {command : String} {l' : Log}
    → by_os d centos ubuntu l ≡ ok command l'
    → (command ≡ (if d.os_type == os_type_centos then centos else ubuntu)) × (l' ≡ l)
by_os-ok d centos ubuntu l h = ground arith

install_package-ok :
    (r : Remote) (command : String) (l : Log) {l' : Log}
    → install_package r command l ≡ ok tt l'
    → (good : Bool) × (l' ≡ (run command, good) ∷ l)
      × ((good ≡ true) ⊎ (contains (r.output l command) "does not update installed package" ≡ true))
unfolding install_package
install_package-ok r command l h = elim (Bool-cases (r.fails l (run command))) [
  | inl bad ↦ (false, ground arith, inr (ground arith))
  | inr good ↦ (true, ground arith, inl refl)
]

-- The end of the installation, behind the choice of the package.
package-ok :
    (r : Remote) (d : NodeletDeployer) (name : String) (l l2 : Log) {l' : Log}
    → l2 ≡ (run list_cmd, true) ∷ done (unpack_plan d) l
    → Chosen d.os_type (split_lines (r.output (done (unpack_plan d) l) list_cmd)) name
    → continue
        (by_os d
          ("yum install -y " ++ nodelet_pkgs_tmp_dir ++ name)
          ("apt-get install -y " ++ nodelet_pkgs_tmp_dir ++ name)
          l2)
        (install_package r)
      ≡ ok tt l'
    → Installed r d l l'
package-ok r d name l l2 e chosen h =
    let (command, l3, got, h2) =
      continue-ok
        (by_os d ("yum install -y " ++ nodelet_pkgs_tmp_dir ++ name)
          ("apt-get install -y " ++ nodelet_pkgs_tmp_dir ++ name) l2)
        (install_package r) h in
    let (same, le) = by_os-ok d _ _ l2 got in
    let (good, e', why) =
      install_package-ok r (install_cmd d name) ((run list_cmd, true) ∷ done (unpack_plan d) l) (
        ap (λ c. install_package r c ((run list_cmd, true) ∷ done (unpack_plan d) l)) (sym same)
        ∙ ap (install_package r command) (sym (le ∙ e))
        ∙ h2) in
    (name, good, chosen, e', why)

pub install_nodelet-ok :
    (r : Remote) (d : NodeletDeployer) (l : Log) {l' : Log}
    → install_nodelet r d l ≡ ok tt l'
    → Installed r d l l'
unfolding install_nodelet
install_nodelet-ok r d l h =
    let (name, l2, named, h1) =
      continue-ok (determine_nodelet_pkg_name r d nodelet_pkgs_tmp_dir (done (unpack_plan d) l)) _ (
        Plans-step r (run ("tar -C " ++ nodelet_pkgs_tmp_dir ++ " -xzvf " ++ nodelet_tar_dst) ∷ [])
          _ _ (act-Plans r _) _
          (Plans-step r (run ("mkdir -p " ++ nodelet_pkgs_tmp_dir) ∷ []) _ _ (act-Plans r _) _ (
            Plans-step r (run ("rm -Rf " ++ nodelet_pkgs_tmp_dir) ∷ []) _ _ (act-Plans r _) _ (
              Plans-step r (upload d.pf9_kube_tar_src nodelet_tar_dst ∷ []) _ _ (act-Plans r _) l
                h)))) in
    let (e, chosen) =
      determine_nodelet_pkg_name-ok r d nodelet_pkgs_tmp_dir (done (unpack_plan d) l) named in
    package-ok r d name l l2 e chosen h1
