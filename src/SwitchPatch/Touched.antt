-- ===== src/SwitchPatch/Touched.antt =====
-- What the script leaves alone, as a whole and in each of its stages.
use switch_ldn_zt.Base.{false, List, [], ◌∷◌, ◌≡◌, All}
use switch_ldn_zt.Text.{eqb}
use switch_ldn_zt.Disk.{FilePath, find_file}
use switch_ldn_zt.Script.{Machine}
use switch_ldn_zt.Script.Frame.{Leaves, Leaves-bind, leaves_rules}
use switch_ldn_zt.Script.Edits.{Edited, edited, refused}
use switch_ldn_zt.Script.Edits.Laws.{Leaves-save, Leaves-edit_file, Leaves-edit_unless}
use switch_ldn_zt.SwitchPatch.{
  constants_hpp, patch_constants, utils_hpp, patch_stok, binder_hpp, save_binder, patch_binder,
  phy_hpp, patch_phy, utils_cpp, patch_utils, cmake_lists, patch_cmake, port_cc, patch_port_cc,
  wrapper_dir, wrapper, write_wrapper, family, registry, patch_headers, switch_patch,
}

module _ {q : FilePath} where
  pub Leaves-save_binder : (r : Edited) → eqb q binder_hpp ≡ false → Leaves q (save_binder r)
  unfolding save_binder
  Leaves-save_binder (refused msg) away = search (Leaves-save, leaves_rules)
  Leaves-save_binder (edited s) away = search (Leaves-save, leaves_rules)

  pub Leaves-patch_headers :
      (ps : List FilePath) → All (λ p. eqb q p ≡ false) ps → Leaves q (patch_headers ps)
  unfolding patch_headers
  Leaves-patch_headers [] away = search leaves_rules
  Leaves-patch_headers (p ∷ ps) (here, away) =
      Leaves-bind _ _ (Leaves-edit_unless p _ _ here) (λ _. Leaves-patch_headers ps away)

  pub Leaves-patch_constants : eqb q constants_hpp ≡ false → Leaves q patch_constants
  unfolding patch_constants
  Leaves-patch_constants away =
      search (Leaves-edit_file, Leaves-edit_unless, Leaves-save_binder, leaves_rules)

  pub Leaves-patch_stok : eqb q utils_hpp ≡ false → Leaves q patch_stok
  unfolding patch_stok
  Leaves-patch_stok away =
      search (Leaves-edit_file, Leaves-edit_unless, Leaves-save_binder, leaves_rules)

  pub Leaves-patch_binder : eqb q binder_hpp ≡ false → Leaves q patch_binder
  unfolding patch_binder
  Leaves-patch_binder away =
      search (Leaves-edit_file, Leaves-edit_unless, Leaves-save_binder, leaves_rules)

  pub Leaves-patch_phy : eqb q phy_hpp ≡ false → Leaves q patch_phy
  unfolding patch_phy
  Leaves-patch_phy away =
      search (Leaves-edit_file, Leaves-edit_unless, Leaves-save_binder, leaves_rules)

  pub Leaves-patch_utils : eqb q utils_cpp ≡ false → Leaves q patch_utils
  unfolding patch_utils
  Leaves-patch_utils away =
      search (Leaves-edit_file, Leaves-edit_unless, Leaves-save_binder, leaves_rules)

  pub Leaves-patch_cmake : eqb q cmake_lists ≡ false → Leaves q patch_cmake
  unfolding patch_cmake
  Leaves-patch_cmake away =
      search (Leaves-edit_file, Leaves-edit_unless, Leaves-save_binder, leaves_rules)

  pub Leaves-patch_port_cc : eqb q port_cc ≡ false → Leaves q patch_port_cc
  unfolding patch_port_cc
  Leaves-patch_port_cc away =
      search (Leaves-edit_file, Leaves-edit_unless, Leaves-save_binder, leaves_rules)

  pub Leaves-write_wrapper :
      eqb q wrapper_dir ≡ false → eqb q wrapper ≡ false → Leaves q write_wrapper
  unfolding write_wrapper
  Leaves-write_wrapper no_dir no_wrapper = search leaves_rules

pub ruleset stage_rules = (
  Leaves-patch_constants, Leaves-patch_stok, Leaves-patch_binder, Leaves-patch_phy,
  Leaves-patch_utils, Leaves-patch_cmake, Leaves-patch_port_cc, Leaves-write_wrapper,
  Leaves-patch_headers, leaves_rules,
)

-- The paths that the script writes to.
abbrev pub targets : List FilePath
targets =
    constants_hpp ∷ utils_hpp ∷ binder_hpp ∷ phy_hpp ∷ utils_cpp ∷ cmake_lists ∷ port_cc
    ∷ wrapper_dir ∷ wrapper ∷ family ∷ registry ∷ []

pub Leaves-switch_patch :
    {q : FilePath} → All (λ p. eqb q p ≡ false) targets → Leaves q switch_patch
unfolding switch_patch
Leaves-switch_patch (a, (b, (c, (d, (e, (f, (g, (h, (i, rest))))))))) =
    search (stage_rules) depth 14

-- However the script ends, it has changed nothing but its nine sources, the wrapper header and the
-- entry of the wrapper's directory.
pub switch_patch_frame :
    (m : Machine) (q : FilePath)
    → All (λ p. eqb q p ≡ false) targets
    → find_file q (switch_patch m).1.files ≡ find_file q m.files
switch_patch_frame m q away = (Leaves-switch_patch away).same m
