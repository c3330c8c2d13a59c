-- ===== src/Tests/SwitchRuns.antt =====
-- The libzt patch on a small tree, by itself and in the bootstrap.
use switch_ldn_zt.Base.{ℕ, Bool, leb, ◌||◌, ◌&&◌, false, [], ◌∷◌, ◌++◌, ◌≡◌, refl}
use switch_ldn_zt.Text.{Text, codes, rows, contains, eqb, replace_first, starts_with}
use switch_ldn_zt.Text.Newlines.{universal_newlines, to_linesep}
use switch_ldn_zt.Disk.{File, FilePath, find_file, put_file, has_dir, rglob, ends_with}
use switch_ldn_zt.Script.{
  Machine, ok, Message, pure, raise, ◌>>=◌, print, read_text, try_read, write_text, exists,
  is_blocked, make_dirs, create_text,
}
use switch_ldn_zt.Script.Edits.{refused, save, edit_file, edit_unless, subn_or, replace_at, unless}
use switch_ldn_zt.Regex.{accepts, match, search_from, find_match?, subn_by, subn}
use switch_ldn_zt.SwitchPatch.{
  constants_hpp, patch_constants, utils_hpp, patch_stok, binder_hpp, binder_guards, save_binder,
  patch_binder, phy_hpp, phy_guards, patch_phy, utils_cpp, hwcaps_new, utils_guards, patch_utils,
  cmake_lists, drop_port_mapper, cmake_edits, patch_cmake, port_cc, add_ssize, patch_port_cc,
  write_wrapper, family, registry, add_stdexcept, patch_headers, switch_patch,
}
use switch_ldn_zt.SwitchPatch.Texts.{
  apple_marker, enum_marker, hwcaps_probe, glob_done, glob_marker, port_needle, time_include,
  un_pat, un_new,
}
use switch_ldn_zt.SwitchPatch.Touched.{switch_patch_frame}
use switch_ldn_zt.SwitchPatch.Reaches.{IsPatched}
use switch_ldn_zt.Bootstrap.{instrument_threads, instrument, instrument_at}
use switch_ldn_zt.Bootstrap.Layout.{layout, take_port, bootstrap}
use switch_ldn_zt.Bootstrap.Whole.{bootstrap-IsPatched}
use switch_ldn_zt.Walk.Candidate.{find_candidate?}
use switch_ldn_zt.SwitchPatch.Again.{un_guard_again}

abbrev readme : FilePath
readme = codes "README.md"

abbrev stok_old : Text
stok_old =
    codes
      "static inline char *stok(char *a)\n{}\n static inline unsigned int strToUInt(const char *s)"

abbrev binder_old : Text
binder_old =
    codes "#include <ifaddrs.h>\n#if !defined(__ANDROID__) // getifaddrs() is missing\n"
    ++ enum_marker

abbrev start : Machine
start = record {
  files =
      (readme, File.text [])
      ∷ (constants_hpp, File.text apple_marker)
      ∷ (utils_hpp, File.text stok_old)
      ∷ (binder_hpp, File.text binder_old)
      ∷ (phy_hpp, File.text (codes "#include <sys/un.h>"))
      ∷ (utils_cpp, File.text (codes "#include <sys/uio.h>\n\t" ++ hwcaps_probe))
      ∷ (cmake_lists, File.text (glob_done ++ port_needle))
      ∷ (port_cc, File.text time_include)
      ∷ (family, File.text (codes "#pragma once\nx"))
      ∷ (registry, File.text [])
      ∷ [];
  windows = false;
  out = [];
}

switch_patch_frame_example :
    find_file readme (switch_patch start).1.files ≡ find_file readme start.files
switch_patch_frame_example = switch_patch_frame start readme (
    unfold codes eqb in
    (refl, (refl, (refl, (refl, (refl, (refl, (refl, (refl, (refl, (refl, (refl, tt))))))))))))

-- the same tree before the bootstrap, which rewrites the glob
abbrev fresh : Machine
fresh = record start {
  files =
      put_file cmake_lists (File.text (codes "file(GLOB ztcoreSrcGlob a)" ++ port_needle))
        start.files;
}

abbrev is_word : ℕ → Bool
is_word c = (leb b'a' c && leb c b'z') || (leb b'A' c && leb c b'Z')

fresh_returns : (bootstrap is_word fresh).0 ≡ ok tt
unfolding bootstrap layout take_port instrument_threads instrument instrument_at find_candidate?
    rglob ends_with switch_patch patch_constants patch_stok binder_guards save_binder patch_binder
    phy_guards patch_phy hwcaps_new utils_guards patch_utils drop_port_mapper cmake_edits
    patch_cmake add_ssize patch_port_cc write_wrapper add_stdexcept patch_headers save edit_file
    edit_unless subn_or replace_at unless subn subn_by find_match? search_from match accepts codes
    rows contains replace_first starts_with eqb universal_newlines to_linesep find_file put_file
    has_dir try_read read_text write_text print pure raise exists is_blocked make_dirs create_text
    ◌>>=◌
fresh_returns = refl

bootstrap-IsPatched_example : IsPatched (bootstrap is_word fresh).1
bootstrap-IsPatched_example =
    bootstrap-IsPatched is_word fresh (λ i. (fresh_returns i, (bootstrap is_word fresh).1))

abbrev un_line : Text
un_line = codes "#include <sys/un.h>"

un_line_hit : (subn un_pat un_new un_line).1 ≡ 1
unfolding subn subn_by find_match? search_from match accepts codes rows
un_line_hit = refl

un_guard_again_example : (subn un_pat un_new (subn un_pat un_new un_line).0).1 ≡ 1
un_guard_again_example = un_guard_again un_line un_line_hit

-- Without the bootstrap the glob's own `PortMapper.cpp` is what the first replacement takes, and the
-- glob is not found.
abbrev glob_missing : Message
glob_missing = record { format = "CMake ztcore source glob not found"; args = [] }

glob_alone : cmake_edits (glob_marker ++ port_needle) ≡ refused glob_missing
unfolding cmake_edits drop_port_mapper replace_at codes rows contains replace_first starts_with
glob_alone = refl
