-- ===== src/LdnPatch/Run.antt =====
-- `main`: the checks, the files that are copied in, the edits, the Makefile and the last checks.
pub mod Touched
pub mod Checks
pub mod Copied
pub mod Links
use switch_ldn_zt.Base.{
  Bool, true, false, not, Option, none, some, List, [], ◌∷◌, ◌++◌, if◌then◌else◌,
}
use switch_ldn_zt.Text.{Text, codes, eqb, contains, replace_every, strip}
use switch_ldn_zt.Disk.{FilePath}
use switch_ldn_zt.Script.{
  Script, Error, os_error, shown, pure, raise, ◌>>=◌, ◌>>◌, exit, require, print, read_text,
  write_text, is_file, exists, unlink, copy_file,
}
use switch_ldn_zt.LdnPatch.Edit.{apply_edits}
use switch_ldn_zt.LdnPatch.MainCpp.{main_cpp, main_cpp_edits}
use switch_ldn_zt.LdnPatch.LanProtocol.{lan_protocol, lan_protocol_edits}
use switch_ldn_zt.LdnPatch.LanDiscovery.{lan_discovery, lan_discovery_edits}
use switch_ldn_zt.LdnPatch.Communication.{communication, communication_edits}

-- What the script is told from outside: the output of `git -C dir rev-parse HEAD`, if the command
-- succeeds, and the resolved path of `third_party/libzt`.
pub record Host : Type 0 where
  pub git_head : FilePath → Option Text
  pub libzt_dir : Text

abbrev pub expected_ldn : Text
expected_ldn = codes "2fe07817eeea06b712009395f8bbcb2a02d30979"

abbrev pub expected_libzt : Text
expected_libzt = codes "76c138bb916bc3a20d356bd4ef8e2195212ddb1e"

-- `STUBS_ONLY`
abbrev pub stubs_only : Bool
stubs_only = false

abbrev pub zt_header : FilePath
zt_header = codes "third_party/libzt/include/ZeroTierSockets.h"

abbrev pub zt_library : FilePath
zt_library = codes "third_party/libzt/lib/libzt.a"

abbrev pub ldn_source : FilePath
ldn_source = codes "ldn_mitm/ldn_mitm/source"

abbrev pub zt_stubs : FilePath
zt_stubs = codes "ldn_mitm/ldn_mitm/source/zt_stubs.cpp"

abbrev pub makefile : FilePath
makefile = codes "ldn_mitm/ldn_mitm/Makefile"

abbrev pub or_failed : FilePath → Option Text → Script Text
or_failed dir none = raise (os_error dir)
or_failed dir (some head) = pure head

-- `subprocess.check_output(…).strip()` and the comparison
unfoldable pub check_commit : Host → FilePath → Text → Script Unit
check_commit host dir expected = do
  head ← or_failed dir (host.git_head dir)
  require (eqb (strip head) expected) "wrong {dir} commit: {actual} != {EXPECTED}"
      (shown dir ∷ shown (strip head) ∷ shown expected ∷ [])

unfoldable pub preflight : Host → Script Unit
preflight host = do
  require (not stubs_only) "STUBS_ONLY must be false for the real-libzt build" []
  check_commit host (codes "ldn_mitm") expected_ldn
  check_commit host (codes "libzt") expected_libzt
  header ← is_file zt_header
  require header "libzt headers missing" []
  library ← is_file zt_library
  require library "libzt.a missing" []

-- the bridge goes in, the stubs go out
unfoldable pub supply : Script Unit
supply = do
  copy_file (codes "scripts/zt_bridge.hpp") ldn_source (codes "zt_bridge.hpp")
  copy_file (codes "scripts/zt_bridge.cpp") ldn_source (codes "zt_bridge.cpp")
  copy_file (codes "scripts/errno_compat.c") ldn_source (codes "errno_compat.c")
  stubs ← exists zt_stubs
  if stubs then unlink zt_stubs else pure tt

unfoldable pub edit_sources : Script Unit
edit_sources = do
  apply_edits main_cpp main_cpp_edits
  apply_edits lan_protocol lan_protocol_edits
  apply_edits lan_discovery lan_discovery_edits
  apply_edits communication communication_edits

abbrev pub flags_line : Text
flags_line = codes "CXXFLAGS\t+= $(VERSION_DEFINES)\n"

abbrev pub flags_lines : Text → Text
flags_lines libzt_dir =
    flags_line ++ (codes "LIBDIRS += " ++ (libzt_dir ++ codes "\nLIBS += -lzt -lnx\n"))

unfoldable pub edit_makefile : Text → Script Unit
edit_makefile libzt_dir = do
  text ← read_text makefile
  write_text makefile (replace_every flags_line (flags_lines libzt_dir) text)

unfoldable pub check_result : Script Unit
check_result = do
  stubs ← exists zt_stubs
  require (not stubs) "zt_stubs.cpp must not be present in real-libzt mode" []
  text ← read_text makefile
  require (contains (codes "-lzt") text) "-lzt missing from LDN Makefile in real-libzt mode" []
  again ← read_text makefile
  require (contains (codes "third_party/libzt") again) "third_party/libzt missing from LDN Makefile"
      []

unfoldable pub main : Host → Script Unit
main host = do
  preflight host
  supply
  edit_sources
  edit_makefile host.libzt_dir
  check_result
  print "LDN real-libzt patch applied" []
  print "libzt Makefile directory: {libzt_dir}" (shown host.libzt_dir ∷ [])
  print "errno_compat.c supplied as pure C" []
