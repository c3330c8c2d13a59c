-- ===== src/SwitchPatch.antt =====
-- scripts/patch-libzt-switch.py: what keeps libzt from being compiled for the Switch.
pub mod Texts
pub mod Touched
pub mod Clean
pub mod Stages
pub mod Reaches
pub mod Again
use switch_ldn_zt.Base.{
  ℕ, ◌-◌, String, Bool, true, false, not, ◌&&◌, List, [], ◌∷◌, ◌++◌, length, take, drop, ◌==◌,
  if◌then◌else◌,
}
use switch_ldn_zt.Text.{Text, codes, contains, replace_first, starts_with}
use switch_ldn_zt.Disk.{FilePath}
use switch_ldn_zt.Script.{
  Message, Script, file, shown, num, system_exit, pure, ◌>>=◌, ◌>>◌, require, print, read_text,
  write_text, exists, make_dirs, create_text,
}
use switch_ldn_zt.Script.Edits.{
  Edited, edited, refused, then_edit, save, edit_file, edit_unless, plain, subn_or, replace_at,
  unless, never,
}
use switch_ldn_zt.Regex.{Regex, subn}
use switch_ldn_zt.SwitchPatch.Texts.{
  switch_block, apple_marker, stok_pat, stok_new, ifaddrs_pat, ifaddrs_new, guard_pat, guard_new,
  enum_override, enum_marker, un_pat, un_new, cleanup_pat, cleanup_new, listen_test, uio_pat,
  uio_new, hwcaps_mark, hwcaps_probe, hwcaps_pat, port_mapper, pic_objects, miniupnpc_flag,
  miniupnpc_new, glob_marker, glob_new, glob_done, port_needle, port_new, port_done, ssize_mark,
  ssize_compat, time_include, cc_wrapper, stdexcept_include, pragma_once,
}

abbrev pub constants_hpp : FilePath
constants_hpp = codes "libzt/ext/ZeroTierOne/node/Constants.hpp"

unfoldable pub patch_constants : Script Unit
patch_constants = edit_unless constants_hpp (contains switch_block) (
    replace_at apple_marker (switch_block ++ apple_marker) never
      "Constants.hpp insertion marker not found")

abbrev pub utils_hpp : FilePath
utils_hpp = codes "libzt/ext/ZeroTierOne/node/Utils.hpp"

unfoldable pub patch_stok : Script Unit
patch_stok =
    edit_file utils_hpp (subn_or stok_pat (λ _. stok_new) never "Utils.hpp stok function not found")

abbrev pub binder_hpp : FilePath
binder_hpp = codes "libzt/ext/ZeroTierOne/osdep/Binder.hpp"

unfoldable pub binder_guards : Text → Edited
binder_guards s =
    then_edit
      (unless (contains ifaddrs_new)
        (subn_or ifaddrs_pat (λ _. ifaddrs_new) never "Binder.hpp ifaddrs include not found") s)
      (subn_or guard_pat (λ _. guard_new) (contains guard_new)
        "Binder.hpp getifaddrs guard line not found")

-- the rest of the edits, with what they print, and the write
unfoldable pub save_binder : Edited → Script Unit
save_binder (refused msg) = save binder_hpp (refused msg)
save_binder (edited s) =
    if contains enum_override s
    then (do
      print "Binder.hpp: Switch enumeration override already present" []
      write_text binder_hpp s)
    else (do
      require (contains enum_marker s) "Binder.hpp interface enumeration marker not found" []
      print "Binder.hpp: forced interfacesEnumerated = false on Switch" []
      write_text binder_hpp
          (replace_first enum_marker (enum_marker ++ (codes "\n" ++ enum_override)) s))

unfoldable pub patch_binder : Script Unit
patch_binder = do s ← read_text binder_hpp; save_binder (binder_guards s)

abbrev pub phy_hpp : FilePath
phy_hpp = codes "libzt/ext/ZeroTierOne/osdep/Phy.hpp"

unfoldable pub phy_guards : Text → Edited
phy_guards s =
    then_edit
      (subn_or un_pat (λ _. un_new) (contains un_new) "Phy.hpp sys/un.h include not found" s)
      (subn_or cleanup_pat (λ _. cleanup_new) (λ t. not (contains listen_test t))
        "Phy.hpp Unix-socket cleanup block not found")

unfoldable pub patch_phy : Script Unit
patch_phy = edit_file phy_hpp phy_guards

abbrev pub utils_cpp : FilePath
utils_cpp = codes "libzt/ext/ZeroTierOne/node/Utils.cpp"

-- The replacement by the group `\1`, the spaces before the probe. They are what the match has before
-- its literal end.
unfoldable pub hwcaps_new : Text → Text
hwcaps_new word =
    let indent = take (length word - length hwcaps_probe) word in
    indent
    ++ (codes "#ifdef __SWITCH__\n"
        ++ (indent
            ++ (codes "const long hwcaps = 0;\n"
                ++ (indent
                    ++ (codes "#else\n"
                        ++ (indent
                            ++ (hwcaps_probe ++ (codes "\n" ++ (indent ++ codes "#endif")))))))))

unfoldable pub utils_guards : Text → Edited
utils_guards s =
    then_edit
      (subn_or uio_pat (λ _. uio_new) (contains uio_new) "Utils.cpp sys/uio.h include not found" s)
      (unless (contains hwcaps_mark)
        (subn_or hwcaps_pat hwcaps_new never "Utils.cpp getauxval probe not found"))

unfoldable pub patch_utils : Script Unit
patch_utils = edit_file utils_cpp utils_guards

abbrev pub cmake_lists : FilePath
cmake_lists = codes "libzt/CMakeLists.txt"

unfoldable pub drop_port_mapper : Text → Text
drop_port_mapper s =
    replace_first miniupnpc_flag miniupnpc_new
      (replace_first pic_objects [] (replace_first port_mapper [] s))

unfoldable pub cmake_edits : Text → Edited
cmake_edits s =
    then_edit
      (replace_at glob_marker glob_new (contains glob_done) "CMake ztcore source glob not found"
        (drop_port_mapper s))
      (replace_at port_needle port_new (contains port_done)
        "CMake lwIP port directory block not found")

unfoldable pub patch_cmake : Script Unit
patch_cmake = edit_file cmake_lists cmake_edits

abbrev pub port_cc : FilePath
port_cc = codes "libzt/ext/lwip-contrib/ports/unix/port/include/arch/cc.h"

unfoldable pub add_ssize : Text → Edited
add_ssize s = edited (
    if contains time_include s
    then replace_first time_include (ssize_compat ++ time_include) s
    else ssize_compat ++ s)

unfoldable pub patch_port_cc : Script Unit
patch_port_cc = do
  there ← exists port_cc
  require there "lwIP Unix port arch/cc.h not found" []
  edit_unless port_cc (contains ssize_mark) add_ssize

abbrev pub wrapper_dir : FilePath
wrapper_dir = codes "libzt/ext/lwip/src/include/arch"

abbrev pub wrapper : FilePath
wrapper = codes "libzt/ext/lwip/src/include/arch/cc.h"

unfoldable pub write_wrapper : Script Unit
write_wrapper = do make_dirs wrapper_dir; create_text wrapper cc_wrapper

abbrev pub family : FilePath
family = codes "libzt/ext/ZeroTierOne/ext/prometheus-cpp-lite-1.0/core/include/prometheus/family.h"

abbrev pub registry : FilePath
registry =
    codes "libzt/ext/ZeroTierOne/ext/prometheus-cpp-lite-1.0/core/include/prometheus/registry.h"

unfoldable pub add_stdexcept : Text → Edited
add_stdexcept s = edited (
    if starts_with pragma_once s
    then pragma_once ++ (stdexcept_include ++ (codes "\n" ++ drop (length pragma_once) s))
    else stdexcept_include ++ (codes "\n" ++ s))

unfoldable pub patch_headers : List FilePath → Script Unit
patch_headers [] = pure tt
patch_headers (p ∷ ps) = do
  edit_unless p (contains stdexcept_include) add_stdexcept
  patch_headers ps

unfoldable pub switch_patch : Script Unit
switch_patch = do
  patch_constants
  patch_stok
  patch_binder
  patch_phy
  patch_utils
  patch_cmake
  patch_port_cc
  write_wrapper
  patch_headers (family ∷ registry ∷ [])
  print "Switch libzt source patching completed successfully." []
