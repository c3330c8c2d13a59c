-- ===== src/SwitchPatch/Reaches.antt =====
-- What the script has made of each file when it returns.
use switch_ldn_zt.Base.{[], ◌∷◌, ◌≡◌, refl, All}
use switch_ldn_zt.Text.{codes, eqb}
use switch_ldn_zt.Script.{ok, Machine, try_read}
use switch_ldn_zt.Script.Ensures.{
  Reads, Reads-keeps, Ensures, Ensures-last, Ensures-first, Ensures-create_text,
}
use switch_ldn_zt.Script.Revises.{Revised, Revises, Revises-last, Revises-first}
use switch_ldn_zt.SwitchPatch.{
  constants_hpp, utils_hpp, binder_hpp, phy_hpp, utils_cpp, cmake_lists, port_cc, wrapper,
  write_wrapper, family, registry, patch_headers, switch_patch,
}
use switch_ldn_zt.SwitchPatch.Texts.{
  switch_block, stok_new, enum_override, port_done, ssize_mark, cc_wrapper, stdexcept_include,
}
use switch_ldn_zt.SwitchPatch.Touched.{targets, stage_rules, Leaves-patch_headers}
use switch_ldn_zt.SwitchPatch.Clean.{cc_wrapper-NoCr}
use switch_ldn_zt.SwitchPatch.Stages.{
  Has, constants-Ensures, stok-Ensures, binder-Ensures, IsGuarded, phy-Ensures, HasZero,
  utils-Ensures, cmake-Ensures, port_cc-Revises, GetsSsize, GetsSsize-mark, header-Ensures,
}

-- What the script promises of each file.
pub record IsPatched (m : Machine) : Type 0 where
  pub constants : Reads constants_hpp (Has switch_block) m
  pub stok : Reads utils_hpp (Has stok_new) m
  pub binder : Reads binder_hpp (Has enum_override) m
  pub phy : Reads phy_hpp IsGuarded m
  pub hwcaps : Reads utils_cpp HasZero m
  pub cmake : Reads cmake_lists (Has port_done) m
  pub ssize : Reads port_cc (Has ssize_mark) m
  pub forwards : Reads wrapper (λ s. s ≡ cc_wrapper) m
  pub includes : Reads family (Has stdexcept_include) m × Reads registry (Has stdexcept_include) m

wrapper-Ensures : Ensures wrapper (λ s. s ≡ cc_wrapper) write_wrapper
unfolding write_wrapper
wrapper-Ensures = Ensures-last _ _ λ _. Ensures-create_text wrapper cc_wrapper cc_wrapper-NoCr

family-Ensures : Ensures family (Has stdexcept_include) (patch_headers (family ∷ registry ∷ []))
unfolding patch_headers
family-Ensures =
    Ensures-first _ _ (header-Ensures family)
      λ _. Leaves-patch_headers (registry ∷ []) (unfold eqb codes in refl, tt)

registry-Ensures : Ensures registry (Has stdexcept_include) (patch_headers (family ∷ registry ∷ []))
unfolding patch_headers
registry-Ensures =
    Ensures-last _ _
      λ _. Ensures-first _ _ (header-Ensures registry) λ _. Leaves-patch_headers [] tt

-- The ways into the script, stage by stage, to the one that makes the file.

constants_ends : Ensures constants_hpp (Has switch_block) switch_patch
unfolding switch_patch eqb codes
constants_ends = Ensures-first _ _ constants-Ensures λ _. search (stage_rules) depth 14

stok_ends : Ensures utils_hpp (Has stok_new) switch_patch
unfolding switch_patch eqb codes
stok_ends = Ensures-last _ _ λ _. Ensures-first _ _ stok-Ensures λ _. search (stage_rules) depth 14

binder_ends : Ensures binder_hpp (Has enum_override) switch_patch
unfolding switch_patch eqb codes
binder_ends =
    Ensures-last _ _
      λ _. Ensures-last _ _ λ _. Ensures-first _ _ binder-Ensures λ _. search (stage_rules) depth 14

phy_ends : Ensures phy_hpp (IsGuarded) switch_patch
unfolding switch_patch eqb codes
phy_ends = Ensures-last _ _ λ _.
    Ensures-last _ _
      λ _. Ensures-last _ _ λ _. Ensures-first _ _ phy-Ensures λ _. search (stage_rules) depth 14

hwcaps_ends : Ensures utils_cpp HasZero switch_patch
unfolding switch_patch eqb codes
hwcaps_ends = Ensures-last _ _ λ _. Ensures-last _ _ λ _.
    Ensures-last _ _
      λ _. Ensures-last _ _ λ _. Ensures-first _ _ utils-Ensures λ _. search (stage_rules) depth 14

cmake_ends : Ensures cmake_lists (Has port_done) switch_patch
unfolding switch_patch eqb codes
cmake_ends = Ensures-last _ _ λ _. Ensures-last _ _ λ _. Ensures-last _ _ λ _.
    Ensures-last _ _
      λ _. Ensures-last _ _ λ _. Ensures-first _ _ cmake-Ensures λ _. search (stage_rules) depth 14

ssize_ends : Revises port_cc GetsSsize switch_patch
unfolding switch_patch eqb codes
ssize_ends = Revises-last _ _ (search (stage_rules)) λ _.
    Revises-last _ _ (search (stage_rules)) λ _. Revises-last _ _ (search (stage_rules)) λ _.
      Revises-last _ _ (search (stage_rules)) λ _. Revises-last _ _ (search (stage_rules)) λ _.
        Revises-last _ _ (search (stage_rules))
          λ _. Revises-first _ _ port_cc-Revises λ _. search (stage_rules) depth 14

forwards_ends : Ensures wrapper (λ s. s ≡ cc_wrapper) switch_patch
unfolding switch_patch eqb codes
forwards_ends = Ensures-last _ _ λ _. Ensures-last _ _ λ _. Ensures-last _ _ λ _.
    Ensures-last _ _ λ _. Ensures-last _ _ λ _. Ensures-last _ _ λ _.
      Ensures-last _ _ λ _. Ensures-first _ _ wrapper-Ensures λ _. search (stage_rules) depth 14

family_ends : Ensures family (Has stdexcept_include) switch_patch
unfolding switch_patch eqb codes
family_ends = Ensures-last _ _ λ _. Ensures-last _ _ λ _. Ensures-last _ _ λ _.
    Ensures-last _ _ λ _. Ensures-last _ _ λ _. Ensures-last _ _ λ _.
      Ensures-last _ _ λ _.
        Ensures-last _ _ λ _. Ensures-first _ _ family-Ensures λ _. search (stage_rules) depth 14

registry_ends : Ensures registry (Has stdexcept_include) switch_patch
unfolding switch_patch eqb codes
registry_ends = Ensures-last _ _ λ _. Ensures-last _ _ λ _. Ensures-last _ _ λ _.
    Ensures-last _ _ λ _. Ensures-last _ _ λ _. Ensures-last _ _ λ _. Ensures-last _ _ λ _.
      Ensures-last _ _ λ _. Ensures-first _ _ registry-Ensures λ _. search (stage_rules) depth 14

-- It stays so while the files read the same.
pub IsPatched-keeps :
    {m : Machine} (m' : Machine)
    → All (λ p. try_read p m' ≡ try_read p m) targets
    → IsPatched m
    → IsPatched m'
IsPatched-keeps m' (a, (b, (c, (d, (e, (f, (g, (_, (w, (x, (y, _))))))))))) done = record {
  constants = Reads-keeps a done.constants;
  stok = Reads-keeps b done.stok;
  binder = Reads-keeps c done.binder;
  phy = Reads-keeps d done.phy;
  hwcaps = Reads-keeps e done.hwcaps;
  cmake = Reads-keeps f done.cmake;
  ssize = Reads-keeps g done.ssize;
  forwards = Reads-keeps w done.forwards;
  includes = (Reads-keeps x done.includes.0, Reads-keeps y done.includes.1);
}

pub switch_patch-IsPatched :
    (m : Machine) {m' : Machine}
    → switch_patch m ≡ (ok tt, m')
    → IsPatched m' × Revised port_cc GetsSsize m m'
switch_patch-IsPatched m h =
    let ssize = ssize_ends.after m h in
    (
      record {
        constants = constants_ends.after m h;
        stok = stok_ends.after m h;
        binder = binder_ends.after m h;
        phy = phy_ends.after m h;
        hwcaps = hwcaps_ends.after m h;
        cmake = cmake_ends.after m h;
        ssize = record {
          content = ssize.after;
          reads = ssize.reads;
          good = GetsSsize-mark ssize.before ssize.after ssize.good;
        };
        forwards = forwards_ends.after m h;
        includes = (family_ends.after m h, registry_ends.after m h);
      },
      ssize,
    )
