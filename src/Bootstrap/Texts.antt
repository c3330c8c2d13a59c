-- ===== src/Bootstrap/Texts.antt =====
-- What the script looks for in libzt's `VirtualTap.cpp` and `sys_arch.c`, and what it puts there.
use switch_ldn_zt.Base.{[], ◌∷◌}
use switch_ldn_zt.Text.{Text, rows}

abbrev pub virtual_marker : Text
virtual_marker = rows ("#include \"VirtualTap.hpp\"" ∷ "" ∷ [])

abbrev pub driver_old : Text
driver_old = rows ("void zts_lwip_driver_init()" ∷ "{" ∷ "    if (zts_lwip_is_up()) {" ∷ [])

abbrev pub driver_new : Text
driver_new = rows (
    "void zts_lwip_driver_init()" ∷ "{" ∷ "#ifdef __SWITCH__"
    ∷ "    printf(\"[SWITCH-DIAG] zts_lwip_driver_init entered\\n\");" ∷ "    consoleUpdate(NULL);"
    ∷ "#endif" ∷ "    if (zts_lwip_is_up()) {" ∷ [])

abbrev pub call_old : Text
call_old = rows (
    "    sys_thread_new(" ∷ "        ZTS_LWIP_THREAD_NAME," ∷ "        zts_main_lwip_driver_loop,"
    ∷ "        NULL," ∷ "        DEFAULT_THREAD_STACKSIZE," ∷ "        DEFAULT_THREAD_PRIO);" ∷ [])

abbrev pub call_new : Text
call_new = rows (
    "#ifdef __SWITCH__" ∷ "    printf(\"[SWITCH-DIAG] about to call sys_thread_new()\\n\");"
    ∷ "    consoleUpdate(NULL);" ∷ "#endif" ∷ "    sys_thread_t lwip_thread = sys_thread_new("
    ∷ "        ZTS_LWIP_THREAD_NAME," ∷ "        zts_main_lwip_driver_loop," ∷ "        NULL,"
    ∷ "        DEFAULT_THREAD_STACKSIZE," ∷ "        DEFAULT_THREAD_PRIO);" ∷ "#ifdef __SWITCH__"
    ∷ "    printf(\"[SWITCH-DIAG] sys_thread_new returned: %s\\n\", lwip_thread ? \"non-null\" : \"NULL\");"
    ∷ "    consoleUpdate(NULL);" ∷ "#endif" ∷ [])

abbrev pub errno_marker : Text
errno_marker = rows ("#include <errno.h>" ∷ "" ∷ [])

abbrev pub thread_old : Text
thread_old = rows (
    "sys_thread_t"
    ∷ "sys_thread_new(const char *name, lwip_thread_fn function, void *arg, int stacksize, int prio)"
    ∷ "{" ∷ "  int code;" ∷ [])

abbrev pub thread_new : Text
thread_new = rows (
    "sys_thread_t"
    ∷ "sys_thread_new(const char *name, lwip_thread_fn function, void *arg, int stacksize, int prio)"
    ∷ "{" ∷ "  int code;" ∷ "#ifdef __SWITCH__"
    ∷ "  printf(\"[SWITCH-DIAG] sys_thread_new: entering\\n\");" ∷ "  consoleUpdate(NULL);"
    ∷ "#endif" ∷ [])

abbrev pub create_old : Text
create_old = rows (
    "  code = pthread_create(&tmp," ∷ "                        NULL, "
    ∷ "                        thread_wrapper, " ∷ "                        thread_data);" ∷ "  "
    ∷ "  if (0 == code) {" ∷ [])

abbrev pub create_new : Text
create_new = rows (
    "#ifdef __SWITCH__" ∷ "  printf(\"[SWITCH-DIAG] sys_thread_new: calling pthread_create()\\n\");"
    ∷ "  consoleUpdate(NULL);" ∷ "#endif" ∷ "  code = pthread_create(&tmp,"
    ∷ "                        NULL," ∷ "                        thread_wrapper,"
    ∷ "                        thread_data);" ∷ "#ifdef __SWITCH__"
    ∷ "  printf(\"[SWITCH-DIAG] pthread_create returned code=%d\\n\", code);"
    ∷ "  consoleUpdate(NULL);" ∷ "#endif" ∷ "  " ∷ "  if (0 == code) {" ∷ [])

abbrev pub abort_old : Text
abort_old = rows (
    "  if (NULL == st) {"
    ∷ "    LWIP_DEBUGF(SYS_DEBUG, (\"sys_thread_new: pthread_create %d, st = 0x%lx\","
    ∷ "                       code, (unsigned long)st));" ∷ "    abort();" ∷ "  }" ∷ "  return st;"
    ∷ [])

abbrev pub abort_new : Text
abort_new = rows (
    "  if (NULL == st) {"
    ∷ "    LWIP_DEBUGF(SYS_DEBUG, (\"sys_thread_new: pthread_create %d, st = 0x%lx\","
    ∷ "                       code, (unsigned long)st));" ∷ "#ifdef __SWITCH__"
    ∷ "    printf(\"[SWITCH-DIAG] sys_thread_new failed: code=%d; returning NULL instead of abort()\\n\", code);"
    ∷ "    consoleUpdate(NULL);" ∷ "    return NULL;" ∷ "#else" ∷ "    abort();" ∷ "#endif" ∷ "  }"
    ∷ "#ifdef __SWITCH__"
    ∷ "  printf(\"[SWITCH-DIAG] sys_thread_new: thread registered successfully\\n\");"
    ∷ "  consoleUpdate(NULL);" ∷ "#endif" ∷ "  return st;" ∷ [])
