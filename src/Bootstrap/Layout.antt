-- ===== src/Bootstrap/Layout.antt =====
-- The first part of the script: the layout of libzt's `CMakeLists.txt`, and the whole script.
use switch_ldn_zt.Base.{ℕ, Bool, [], ◌∷◌, if◌then◌else◌}
use switch_ldn_zt.Text.{Text, codes, rows, contains, replace_first}
use switch_ldn_zt.Script.{Script, ◌>>◌}
use switch_ldn_zt.Script.Edits.{Edited, edited, then_edit, edit_file, subn_or}
use switch_ldn_zt.Regex.{Regex, any, lit, short_run, edge_of, sp, sps, pattern, subn}
use switch_ldn_zt.SwitchPatch.{cmake_lists, switch_patch}
use switch_ldn_zt.SwitchPatch.Texts.{glob_done, miniupnpc_flag, port_new}
use switch_ldn_zt.Bootstrap.{instrument_threads}

abbrev pub glob_pat : (ℕ → Bool) → Regex
glob_pat word = pattern (
    lit "file"
    ∷ sp
    ∷ lit "("
    ∷ sp
    ∷ lit "GLOB"
    ∷ sps
    ∷ lit "ztcoreSrcGlob"
    ∷ edge_of word
    ∷ short_run any
    ∷ lit ")"
    ∷ [])

abbrev pub glob_new : Text
glob_new = rows (
    "file(GLOB ztcoreSrcGlob" ∷ "    ${ZTO_SRC_DIR}/node/*.cpp"
    ∷ "    ${ZTO_SRC_DIR}/osdep/OSUtils.cpp" ∷ "    ${ZTO_SRC_DIR}/osdep/PortMapper.cpp)"
    ∷ "if(SWITCH OR CMAKE_SYSTEM_NAME STREQUAL \"Switch\")" ∷ "    list(REMOVE_ITEM ztcoreSrcGlob"
    ∷ "        ${ZTO_SRC_DIR}/node/VirtualTap.cpp" ∷ "        ${ZTO_SRC_DIR}/node/NodeService.cpp"
    ∷ "        ${ZTO_SRC_DIR}/osdep/PortMapper.cpp)" ∷ "endif()" ∷ [])

abbrev pub port_line : Text
port_line = codes "set(LWIP_PORT_DIR ${PROJ_DIR}/ext/lwip-contrib/ports/unix/port)"

abbrev pub port_pat : Regex
port_pat = pattern (
    lit "if"
    ∷ sp
    ∷ lit "("
    ∷ sp
    ∷ lit "UNIX"
    ∷ sp
    ∷ lit ")"
    ∷ sp
    ∷ lit "\n"
    ∷ sp
    ∷ lit "set(LWIP_PORT_DIR"
    ∷ sps
    ∷ lit "${PROJ_DIR}/ext/lwip-contrib/ports/unix/port)"
    ∷ sp
    ∷ lit "\n"
    ∷ sp
    ∷ lit "endif"
    ∷ sp
    ∷ lit "("
    ∷ sp
    ∷ lit ")"
    ∷ [])

abbrev pub miniupnpc_new : Text
miniupnpc_new = rows (
    "if(NOT SWITCH AND NOT CMAKE_SYSTEM_NAME STREQUAL \"Switch\")"
    ∷ "    set(ZT_FLAGS \"${ZT_FLAGS} -DZT_USE_MINIUPNPC=1\")" ∷ "endif()" ∷ [])

unfoldable pub take_port : Text → Text
take_port s = if contains port_line s then (subn port_pat port_new s).0 else s

-- `word` says which characters belong to a word, for the `\b` of the pattern.
unfoldable pub layout : (ℕ → Bool) → Text → Edited
layout word s =
    then_edit
      (subn_or (glob_pat word) (λ _. glob_new) (contains glob_done)
        "Could not locate upstream ztcore source glob" s)
      (λ t. edited (replace_first miniupnpc_flag miniupnpc_new (take_port t)))

-- the whole script
unfoldable pub bootstrap : (ℕ → Bool) → Script Unit
bootstrap word = do edit_file cmake_lists (layout word); switch_patch; instrument_threads
