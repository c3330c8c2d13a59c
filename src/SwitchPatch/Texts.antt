-- ===== src/SwitchPatch/Texts.antt =====
-- What the script looks for, and what it puts there.
use switch_ldn_zt.Base.{[], ◌∷◌}
use switch_ldn_zt.Text.{Text, codes, rows}
use switch_ldn_zt.Regex.{
  Regex, any, none_of, lit, run, short_run, start_of_line, end_of_line, sp, sps, pattern,
}

abbrev pub switch_block : Text
switch_block = rows (
    "#ifdef __SWITCH__" ∷ "#ifndef __UNIX_LIKE__" ∷ "#define __UNIX_LIKE__" ∷ "#endif" ∷ "#endif"
    ∷ "" ∷ "" ∷ [])

abbrev pub apple_marker : Text
apple_marker = rows ("#ifdef __APPLE__" ∷ "" ∷ [])

abbrev pub stok_pat : Regex
stok_pat = pattern (
    start_of_line
    ∷ sp
    ∷ lit "static"
    ∷ sps
    ∷ lit "inline"
    ∷ sps
    ∷ lit "char"
    ∷ sp
    ∷ lit "*"
    ∷ sp
    ∷ lit "stok"
    ∷ sp
    ∷ lit "("
    ∷ short_run any
    ∷ lit "\n"
    ∷ sp
    ∷ lit "static"
    ∷ sps
    ∷ lit "inline"
    ∷ sps
    ∷ lit "unsigned"
    ∷ sps
    ∷ lit "int"
    ∷ sps
    ∷ lit "strToUInt"
    ∷ sp
    ∷ lit "(const"
    ∷ sps
    ∷ lit "char"
    ∷ sp
    ∷ lit "*"
    ∷ sp
    ∷ lit "s)"
    ∷ [])

abbrev pub stok_new : Text
stok_new = rows (
    "" ∷ "\tstatic inline char* stok(char* str, const char* delim, char** saveptr)" ∷ "\t{"
    ∷ "#ifdef __WINDOWS__" ∷ "\t\treturn strtok_s(str, delim, saveptr);"
    ∷ "#elif defined(__SWITCH__)" ∷ "\t\t(void)saveptr;" ∷ "\t\treturn strtok(str, delim);"
    ∷ "#else" ∷ "\t\treturn strtok_r(str, delim, saveptr);" ∷ "#endif" ∷ "\t}" ∷ ""
    ∷ "\tstatic inline unsigned int strToUInt(const char* s)" ∷ [])

abbrev pub ifaddrs_pat : Regex
ifaddrs_pat = pattern (lit "#include" ∷ sp ∷ lit "<ifaddrs.h>" ∷ [])

abbrev pub ifaddrs_new : Text
ifaddrs_new = rows ("#ifndef __SWITCH__" ∷ "#include <ifaddrs.h>" ∷ "#endif" ∷ [])

abbrev pub guard_pat : Regex
guard_pat = pattern (
    start_of_line
    ∷ sp
    ∷ lit "#if"
    ∷ sp
    ∷ lit "!"
    ∷ sp
    ∷ lit "defined(__ANDROID__)"
    ∷ run (none_of (codes "\n"))
    ∷ lit "getifaddrs()"
    ∷ run (none_of (codes "\n"))
    ∷ end_of_line
    ∷ [])

abbrev pub guard_new : Text
guard_new =
    codes
      "#if ! defined(__ANDROID__) && ! defined(__SWITCH__)\t // getifaddrs unavailable on Switch"

abbrev pub enum_override : Text
enum_override = rows ("#ifdef __SWITCH__" ∷ "\t\tinterfacesEnumerated = false;" ∷ "#endif" ∷ [])

abbrev pub enum_marker : Text
enum_marker = codes "bool interfacesEnumerated = true;"

abbrev pub un_pat : Regex
un_pat = pattern (lit "#include" ∷ sp ∷ lit "<sys/un.h>" ∷ [])

abbrev pub un_new : Text
un_new = rows ("#ifndef __SWITCH__" ∷ "#include <sys/un.h>" ∷ "#endif" ∷ [])

abbrev pub cleanup_pat : Regex
cleanup_pat = pattern (
    start_of_line
    ∷ sp
    ∷ lit "#ifdef __UNIX_LIKE__"
    ∷ sp
    ∷ lit "\n"
    ∷ sp
    ∷ lit "if (sws.type == ZT_PHY_SOCKET_UNIX_LISTEN)"
    ∷ sp
    ∷ lit "\n"
    ∷ sp
    ∷ lit "::unlink(((struct sockaddr_un *)(&(sws.saddr)))->sun_path);"
    ∷ sp
    ∷ lit "\n"
    ∷ sp
    ∷ lit "#endif"
    ∷ sp
    ∷ lit "// __UNIX_LIKE__"
    ∷ [])

abbrev pub cleanup_new : Text
cleanup_new = rows (
    "" ∷ "#ifdef __UNIX_LIKE__" ∷ "#if !defined(__SWITCH__)"
    ∷ "\t\tif (sws.type == ZT_PHY_SOCKET_UNIX_LISTEN)"
    ∷ "\t\t\t::unlink(((struct sockaddr_un*)(&(sws.saddr)))->sun_path);" ∷ "#endif\t // !__SWITCH__"
    ∷ "#endif\t // __UNIX_LIKE__" ∷ [])

abbrev pub listen_test : Text
listen_test = codes "if (sws.type == ZT_PHY_SOCKET_UNIX_LISTEN)"

abbrev pub uio_pat : Regex
uio_pat = pattern (lit "#include" ∷ sp ∷ lit "<sys/uio.h>" ∷ [])

abbrev pub uio_new : Text
uio_new = rows ("#ifndef __SWITCH__" ∷ "#include <sys/uio.h>" ∷ "#endif" ∷ [])

abbrev pub hwcaps_mark : Text
hwcaps_mark = rows ("#ifdef __SWITCH__" ∷ "\tconst long hwcaps = 0;" ∷ [])

abbrev pub hwcaps_probe : Text
hwcaps_probe = codes "const long hwcaps = getauxval(AT_HWCAP);"

abbrev pub hwcaps_pat : Regex
hwcaps_pat = pattern (start_of_line ∷ sp ∷ lit "const long hwcaps = getauxval(AT_HWCAP);" ∷ [])

abbrev pub port_mapper : Text
port_mapper = codes "${ZTO_SRC_DIR}/osdep/PortMapper.cpp"

abbrev pub pic_objects : Text
pic_objects = codes "$<TARGET_OBJECTS:natpmp_pic> $<TARGET_OBJECTS:miniupnpc_pic>"

abbrev pub miniupnpc_flag : Text
miniupnpc_flag = codes "set(ZT_FLAGS \"${ZT_FLAGS} -DZT_USE_MINIUPNPC=1\")"

abbrev pub miniupnpc_new : Text
miniupnpc_new =
    rows
      ("if(NOT SWITCH)" ∷ "    set(ZT_FLAGS \"${ZT_FLAGS} -DZT_USE_MINIUPNPC=1\")" ∷ "endif()" ∷ [])

abbrev pub glob_marker : Text
glob_marker = rows (
    "file(GLOB ztcoreSrcGlob ${ZTO_SRC_DIR}/node/*.cpp"
    ∷ "         ${ZTO_SRC_DIR}/osdep/OSUtils.cpp ${ZTO_SRC_DIR}/osdep/PortMapper.cpp)" ∷ [])

abbrev pub glob_new : Text
glob_new = rows (
    "file(GLOB ztcoreSrcGlob ${ZTO_SRC_DIR}/node/*.cpp"
    ∷ "         ${ZTO_SRC_DIR}/osdep/OSUtils.cpp)"
    ∷ "if(SWITCH OR CMAKE_SYSTEM_NAME STREQUAL \"Switch\")" ∷ "    list(REMOVE_ITEM ztcoreSrcGlob"
    ∷ "        ${ZTO_SRC_DIR}/node/VirtualTap.cpp" ∷ "        ${ZTO_SRC_DIR}/node/NodeService.cpp)"
    ∷ "endif()" ∷ [])

abbrev pub glob_done : Text
glob_done = codes "list(REMOVE_ITEM ztcoreSrcGlob"

abbrev pub port_needle : Text
port_needle = rows (
    "if(UNIX)" ∷ "    set(LWIP_PORT_DIR ${PROJ_DIR}/ext/lwip-contrib/ports/unix/port)" ∷ "endif()"
    ∷ [])

abbrev pub port_new : Text
port_new = rows (
    "if(UNIX OR SWITCH OR CMAKE_SYSTEM_NAME STREQUAL \"Switch\")"
    ∷ "    set(LWIP_PORT_DIR ${PROJ_DIR}/ext/lwip-contrib/ports/unix/port)" ∷ "endif()" ∷ [])

abbrev pub port_done : Text
port_done = codes "if(UNIX OR SWITCH OR CMAKE_SYSTEM_NAME STREQUAL \"Switch\")"

abbrev pub ssize_mark : Text
ssize_mark = codes "#ifndef SSIZE_MAX"

abbrev pub ssize_compat : Text
ssize_compat = rows (
    "#include <limits.h>" ∷ "#ifndef SSIZE_MAX" ∷ "#define SSIZE_MAX LONG_MAX" ∷ "#endif" ∷ "" ∷ [])

abbrev pub time_include : Text
time_include = codes "#include <sys/time.h>"

abbrev pub cc_wrapper : Text
cc_wrapper = rows (
    "#pragma once" ∷ "#include \"../../../../lwip-contrib/ports/unix/port/include/arch/cc.h\"" ∷ ""
    ∷ [])

abbrev pub stdexcept_include : Text
stdexcept_include = codes "#include <stdexcept>"

abbrev pub pragma_once : Text
pragma_once = rows ("#pragma once" ∷ "" ∷ [])
