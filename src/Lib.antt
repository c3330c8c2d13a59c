-- ===== src/Lib.antt =====
-- The patch scripts of switch-ldn-zt.
--
-- The repository builds ldn_mitm and libzt for the Switch from upstream trees, and its Python
-- scripts under scripts/ edit those trees before the build: they look for anchors in the sources,
-- refuse when one is missing or not unique, and replace or insert text. The build calls them one
-- after the other; they share nothing but the working tree. What they must not do is patch a file
-- half, patch it twice, patch another file, or report success without the patch.
--
-- Shared parts:
--   Base, Text    lists with native numbers, and the methods of `str` that the scripts call:
--                 `in`, `find`, `count`, `replace`, `strip` and `startswith`, with universal
--                 newlines (Text.Newlines). A text is a list of code points. The files below Text
--                 give `find`, `count` and `replace` by splits of a text.
--   Regex         what the scripts use of Python's `re`: patterns as lists of parts, a matcher that
--                 tries the ways to match in Python's order, `search` and `subn` with count=1.
--                 Regex.Matching has the matcher against a relation, Regex.Searching the search
--                 and the substitution against the first match, Regex.Pieces what a match holds.
--   Disk          the tree: files by path from the repository's root, in the order in which
--                 `rglob` lists them. A file is text, bytes that are no UTF-8, or a directory.
--   Script        what a script does: it reads, writes, copies and removes files, makes
--                 directories, prints, and leaves by `SystemExit` or by another error. The machine
--                 comes back beside an error, so what was written before it is kept. `windows` says
--                 whether `os.linesep` is `\r\n`. Script.Edits has the edits of one file that are
--                 made in memory and then written, Script.Outcome such edits as results in a row.
--                 Script.Frame, Script.Ensures, Script.Revises, Script.Returns and Script.Gate are
--                 the rules by which the theorems go through a script.
--   Walk          the loop `for path in Path(root).rglob(name)` with its `try: … except: continue`
--                 and `break`, which several scripts share. A round is a function of the path and
--                 the text to one of five verdicts; `walk` runs the rounds. Walk.Candidate is the
--                 search for a file that holds all needles.
--
-- The scripts:
--   Keepalive     scripts/patch-zt-upstream-keepalive.py: `scale_body` and `consts_body` are the
--                 rounds of its two loops, `apply_subs` is the loop over CONST_SUBS.
--   LdnPatch      scripts/patch-ldn-zt.py: Edit has `replace`, `replace_all` and
--                 `replace_function`; MainCpp, LanProtocol, LanDiscovery and Communication hold
--                 the calls of them in `main`, in order; Run is `main`, cut into its stages.
--   Restore       scripts/restore-zt-udp-checksum.py
--   PeerInfo      scripts/patch-zt-peer-info-struct.py
--   Phy           scripts/patch-switch-phy.py: `node_body` and `header_body` are its two loops.
--   Hotpath       scripts/patch-runtime-hotpath.py: `patch_posix` and `patch_main`, one after the
--                 other.
--   SwitchPatch   scripts/patch-libzt-switch.py: one function for each of the files that it patches,
--                 in the order of the script; SwitchPatch.Texts has its patterns and texts.
--   Bootstrap     scripts/patch-libzt-switch-bootstrap.py: Bootstrap.Layout has the edits of
--                 CMakeLists.txt and the whole script, which runs SwitchPatch in its middle. Its two
--                 halves after that are one function; they differ in their texts.
--   IncomingAuth  scripts/patch-incoming-auth-trace.py
--   LwipThread    scripts/patch-lwip-switch-thread.py: SysArch, VirtualTap and Tcpip edit the lwIP
--                 sources, Clock has the rounds of the two loops at the end, Places the finds, slices
--                 and the bracket scan that they share.
--   AnchorCheck   scripts/anchor_check_defender.py
--
-- Choices. Every loop runs over a list or a text and is structural recursion; there is no fuel. A
-- repeated part of a pattern is one character class, as in all patterns of the scripts, so the
-- matcher recurs on the pattern and the text.
-- What a script is told from outside is a parameter: the output of `git` and the resolved path of
-- third_party/libzt (Host), and the characters that `\b` counts as part of a word. A message keeps
-- its format string and its arguments. A file that is read is text or not for good: permissions, a
-- full disk and concurrent writers are left out. A walk lists each path once, before its first
-- round; a name without wildcards matches a path that ends in it.
--
-- Not modelled: the C and C++ sources under source/, zt_sysmodule/, pc-diag/ and scripts/, which are
-- calls of libnx, libzt and libstratosphere, and the build files; `replace_once` of
-- patch-libzt-switch.py, which is never called, and whose replacement is a template.
pub mod Base
pub mod Text
pub mod Disk
pub mod Regex
pub mod Hotpath
pub mod SwitchPatch
pub mod IncomingAuth
pub mod LwipThread
pub mod Script
pub mod Walk
pub mod Keepalive
pub mod LdnPatch
pub mod Restore
pub mod PeerInfo
pub mod Phy
pub mod Bootstrap
pub mod AnchorCheck
mod Tests
