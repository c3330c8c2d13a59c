-- ===== src/LwipThread/Texts.antt =====
-- What the script looks for, and what it puts there.
use switch_ldn_zt.Base.{[], ◌∷◌}
use switch_ldn_zt.Text.{Text, codes, rows}
use switch_ldn_zt.Regex.{Regex, either, any, none_of, lit, run, short_run, sp, sps, onto, pattern}

abbrev pub slow_timing : Text
slow_timing = codes "5000000000ULL"

abbrev pub fast_timing : Text
fast_timing = codes "3000000000ULL"

abbrev pub intro_pat : Regex
intro_pat = pattern (
    lit "static"
    ∷ sps
    ∷ lit "struct"
    ∷ sps
    ∷ lit "sys_thread"
    ∷ sp
    ∷ lit "*"
    ∷ sp
    ∷ lit "introduce_thread"
    ∷ sp
    ∷ lit "("
    ∷ sp
    ∷ lit "pthread_t"
    ∷ sps
    ∷ lit "id"
    ∷ sp
    ∷ lit ")"
    ∷ sp
    ∷ lit "{"
    ∷ [])

abbrev pub intro_new : Text
intro_new = rows (
    "static struct sys_thread *" ∷ "introduce_thread(pthread_t id)" ∷ "{" ∷ "#ifdef __SWITCH__"
    ∷ "  static struct sys_thread switch_threads[32];"
    ∷ "  static volatile unsigned int switch_thread_count = 0;"
    ∷ "  unsigned int slot = __sync_fetch_and_add(&switch_thread_count, 1);"
    ∷ "  if (slot >= 32) return NULL;" ∷ "  switch_threads[slot].next = NULL;"
    ∷ "  switch_threads[slot].pthread = id;" ∷ "  return &switch_threads[slot];" ∷ "#else"
    ∷ "  struct sys_thread *thread;"
    ∷ "  thread = (struct sys_thread *)malloc(sizeof(struct sys_thread));"
    ∷ "  if (thread != NULL) {" ∷ "    pthread_mutex_lock(&threads_mutex);"
    ∷ "    thread->next = threads;" ∷ "    thread->pthread = id;" ∷ "    threads = thread;"
    ∷ "    pthread_mutex_unlock(&threads_mutex);" ∷ "  }" ∷ "  return thread;" ∷ "#endif" ∷ "}"
    ∷ [])

abbrev pub switch_include : Text
switch_include = codes "#include <switch.h>"

abbrev pub pthread_include : Text
pthread_include = codes "#include <pthread.h>"

abbrev pub switch_block : Text
switch_block =
    rows ("" ∷ "#ifdef __SWITCH__" ∷ "#include <stdio.h>" ∷ "#include <switch.h>" ∷ "#endif" ∷ [])

abbrev pub thread_new_pat : Regex
thread_new_pat = pattern (
    lit "sys_thread_t"
    ∷ sps
    ∷ lit "sys_thread_new"
    ∷ sp
    ∷ lit "("
    ∷ run (none_of (codes ";{}"))
    ∷ lit ")"
    ∷ sp
    ∷ lit "{"
    ∷ [])

abbrev pub enter_mark : Text
enter_mark = codes "[SWITCH-DIAG] STN: ENTER"

abbrev pub enter_trace : Text
enter_trace = rows (
    "" ∷ "#ifdef __SWITCH__" ∷ "  printf(\"[SWITCH-DIAG] STN: ENTER\\n\");"
    ∷ "  consoleUpdate(NULL);" ∷ "#endif" ∷ [])

abbrev pub create_pat : Regex
create_pat = pattern (lit "pthread_create" ∷ sp ∷ lit "(" ∷ sp ∷ lit "&tmp" ∷ sp ∷ lit "," ∷ [])

abbrev pub switch_attr : Text
switch_attr = codes "&switch_attr"

abbrev pub stack_head : Text
stack_head = rows (
    "#ifdef __SWITCH__" ∷ "  pthread_attr_t switch_attr;" ∷ "  pthread_attr_init(&switch_attr);"
    ∷ "  pthread_attr_setstacksize(&switch_attr, 256 * 1024);"
    ∷ "  code = pthread_create(&tmp, &switch_attr, thread_wrapper, thread_data);"
    ∷ "  pthread_attr_destroy(&switch_attr);" ∷ "#else" ∷ "" ∷ [])

abbrev pub stack_foot : Text
stack_foot = rows ("" ∷ "#endif" ∷ [])

abbrev pub created_mark : Text
created_mark = codes "[SWITCH-DIAG] STN: AFTER_PTHREAD_CREATE"

abbrev pub created_trace : Text
created_trace = rows (
    "" ∷ "#ifdef __SWITCH__" ∷ "  printf(\"[SWITCH-DIAG] STN: AFTER_PTHREAD_CREATE\\n\");"
    ∷ "  consoleUpdate(NULL);" ∷ "#endif" ∷ [])

abbrev pub introduce_mark : Text
introduce_mark = codes "[SWITCH-DIAG] STN: BEFORE_INTRODUCE"

abbrev pub before_introduce : Text
before_introduce = rows (
    "#ifdef __SWITCH__" ∷ "    printf(\"[SWITCH-DIAG] STN: BEFORE_INTRODUCE\\n\");"
    ∷ "    consoleUpdate(NULL);" ∷ "#endif" ∷ "    " ∷ [])

abbrev pub after_introduce : Text
after_introduce = rows (
    "" ∷ "#ifdef __SWITCH__" ∷ "    printf(\"[SWITCH-DIAG] STN: AFTER_INTRODUCE\\n\");"
    ∷ "    consoleUpdate(NULL);" ∷ "#endif" ∷ [])

abbrev pub intro_mark : Text
intro_mark = codes "[SWITCH-DIAG] INTRO: ENTER"

abbrev pub intro_marker : Text
intro_marker = rows ("introduce_thread(pthread_t id)" ∷ "{" ∷ [])

abbrev pub intro_trace : Text
intro_trace = rows (
    "" ∷ "#ifdef __SWITCH__" ∷ "  printf(\"[SWITCH-DIAG] INTRO: ENTER\\n\");"
    ∷ "  consoleUpdate(NULL);" ∷ "#endif" ∷ [])

abbrev pub slot_line : Text
slot_line = codes "switch_threads[slot].pthread = id;"

abbrev pub slot_trace : Text
slot_trace =
    rows ("" ∷ "  printf(\"[SWITCH-DIAG] INTRO: SLOT_OK\\n\");" ∷ "  consoleUpdate(NULL);" ∷ [])

abbrev pub driver_pat : Regex
driver_pat = pattern (
    lit "zts_main_lwip_driver_loop"
    ∷ sp
    ∷ lit "("
    ∷ run (none_of (codes ")"))
    ∷ lit ")"
    ∷ sp
    ∷ lit "{"
    ∷ [])

abbrev pub driver_mark : Text
driver_mark = codes "[SWITCH-DIAG] DRIVER: ENTER"

abbrev pub driver_trace : Text
driver_trace = rows (
    "" ∷ "#ifdef __SWITCH__" ∷ "    printf(\"[SWITCH-DIAG] DRIVER: ENTER\\n\");"
    ∷ "    consoleUpdate(NULL);" ∷ "#endif" ∷ [])

abbrev pub driver_loop : Text
driver_loop = codes "zts_main_lwip_driver_loop"

abbrev pub opt_include : Text
opt_include = codes "#include \"lwip/opt.h\""

abbrev pub tcpip_thread_pat : Regex
tcpip_thread_pat =
    let definition = pattern (
      lit "void"
      ∷ sps
      ∷ lit "tcpip_thread"
      ∷ sp
      ∷ lit "("
      ∷ run (none_of (codes ";{}"))
      ∷ lit ")"
      ∷ sp
      ∷ lit "{"
      ∷ []) in
    either (onto (lit "static" ∷ sps ∷ []) definition) definition

abbrev pub tcpip_init_pat : Regex
tcpip_init_pat =
    let definition = pattern (
      lit "void"
      ∷ sps
      ∷ lit "tcpip_init"
      ∷ sp
      ∷ lit "("
      ∷ run (none_of (codes ";{}"))
      ∷ lit ")"
      ∷ sp
      ∷ lit "{"
      ∷ []) in
    either (onto (lit "static" ∷ sps ∷ []) definition) definition

abbrev pub tcpip_thread_mark : Text
tcpip_thread_mark = codes "[SWITCH-DIAG] TCPIP: THREAD_ENTER"

abbrev pub tcpip_thread_trace : Text
tcpip_thread_trace = rows (
    "" ∷ "#ifdef __SWITCH__" ∷ "  printf(\"[SWITCH-DIAG] TCPIP: THREAD_ENTER\\n\");"
    ∷ "  consoleUpdate(NULL);" ∷ "#endif" ∷ [])

abbrev pub tcpip_init_mark : Text
tcpip_init_mark = codes "[SWITCH-DIAG] TCPIP: INIT_ENTER"

abbrev pub tcpip_init_trace : Text
tcpip_init_trace = rows (
    "" ∷ "#ifdef __SWITCH__" ∷ "  printf(\"[SWITCH-DIAG] TCPIP: INIT_ENTER\\n\");"
    ∷ "  consoleUpdate(NULL);" ∷ "#endif" ∷ [])

abbrev pub before_done_mark : Text
before_done_mark = codes "[SWITCH-DIAG] TCPIP: BEFORE_DONE"

abbrev pub before_done : Text
before_done = rows (
    "#ifdef __SWITCH__" ∷ "    printf(\"[SWITCH-DIAG] TCPIP: BEFORE_DONE\\n\");"
    ∷ "    consoleUpdate(NULL);" ∷ "#endif" ∷ "    " ∷ [])

abbrev pub after_done_mark : Text
after_done_mark = codes "[SWITCH-DIAG] TCPIP: AFTER_DONE"

abbrev pub after_done : Text
after_done = rows (
    "" ∷ "#ifdef __SWITCH__" ∷ "    printf(\"[SWITCH-DIAG] TCPIP: AFTER_DONE\\n\");"
    ∷ "    consoleUpdate(NULL);" ∷ "#endif" ∷ [])

abbrev pub alive_mark : Text
alive_mark = codes "[SWITCH-DIAG] thread_wrapper: child thread alive"

abbrev pub wrapper_pat : Regex
wrapper_pat = pattern (
    lit "thread_wrapper"
    ∷ sp
    ∷ lit "("
    ∷ sp
    ∷ lit "void"
    ∷ sp
    ∷ lit "*"
    ∷ sp
    ∷ lit "arg"
    ∷ sp
    ∷ lit ")"
    ∷ sp
    ∷ lit "{"
    ∷ [])

abbrev pub alive_trace : Text
alive_trace = rows (
    "" ∷ "#ifdef __SWITCH__" ∷ "  printf(\"[SWITCH-DIAG] thread_wrapper: child thread alive\\n\");"
    ∷ "  consoleUpdate(NULL);" ∷ "#endif" ∷ [])

abbrev pub monotonic_mark : Text
monotonic_mark = codes "switch_monotonic_now"

abbrev pub now_pat : Regex
now_pat = pattern (lit "static inline int64_t now()" ∷ sp ∷ lit "{" ∷ short_run any ∷ lit "};" ∷ [])

abbrev pub now_new : Text
now_new = rows (
    "static inline int64_t now()" ∷ "\t{" ∷ "#ifdef __SWITCH__"
    ∷ "\t\tstatic int64_t switch_wallclock_baseline_ms = 0;"
    ∷ "\t\tstatic u64 switch_tick_baseline = 0;" ∷ "\t\tif (switch_tick_baseline == 0) {"
    ∷ "\t\t\tstruct timeval tv0;" ∷ "\t\t\tgettimeofday(&tv0,(struct timezone *)0);"
    ∷ "\t\t\tswitch_wallclock_baseline_ms = (1000LL * (int64_t)tv0.tv_sec) + (int64_t)(tv0.tv_usec / 1000);"
    ∷ "\t\t\tswitch_tick_baseline = armGetSystemTick();" ∷ "\t\t}"
    ∷ "\t\tconst u64 switch_monotonic_now = armGetSystemTick();"
    ∷ "\t\tconst int64_t switch_elapsed_ms = (int64_t)(armTicksToNs(switch_monotonic_now - switch_tick_baseline) / 1000000ULL);"
    ∷ "\t\treturn switch_wallclock_baseline_ms + switch_elapsed_ms;" ∷ "#elif defined(__WINDOWS__)"
    ∷ "\t\tFILETIME ft;" ∷ "\t\tSYSTEMTIME st;" ∷ "\t\tULARGE_INTEGER tmp;"
    ∷ "\t\tGetSystemTime(&st);" ∷ "\t\tSystemTimeToFileTime(&st,&ft);"
    ∷ "\t\ttmp.LowPart = ft.dwLowDateTime;" ∷ "\t\ttmp.HighPart = ft.dwHighDateTime;"
    ∷ "\t\treturn (int64_t)( ((tmp.QuadPart - 116444736000000000LL) / 10000L) + st.wMilliseconds );"
    ∷ "#else" ∷ "\t\tstruct timeval tv;" ∷ "\t\tgettimeofday(&tv,(struct timezone *)0);"
    ∷ "\t\treturn ( (1000LL * (int64_t)tv.tv_sec) + (int64_t)(tv.tv_usec / 1000) );" ∷ "#endif"
    ∷ "\t};" ∷ [])

abbrev pub switch_guard : Text
switch_guard = rows ("#ifdef __SWITCH__" ∷ "#include <switch.h>" ∷ [])

abbrev pub guarded_include : Text
guarded_include = rows ("#ifdef __SWITCH__" ∷ "#include <switch.h>" ∷ "#endif" ∷ "" ∷ [])

abbrev pub byte_order_mark : Text
byte_order_mark = codes "__SWITCH__ byte order fix"

abbrev pub inline_name : Text
inline_name = codes "ZT_INLINE"

abbrev pub inline_anchor : Text
inline_anchor = rows ("#ifndef ZT_INLINE" ∷ "#define ZT_INLINE inline" ∷ "#endif" ∷ "" ∷ [])

abbrev pub byte_order : Text
byte_order = rows (
    "" ∷ "// __SWITCH__ byte order fix: none of the platform branches below match a"
    ∷ "// Switch build, and the generic <endian.h> fallback further down was"
    ∷ "// disabled by an earlier patch. Define it explicitly instead of letting it"
    ∷ "// silently stay undefined (which would evaluate as big-endian in #if checks)."
    ∷ "// aarch64 on Switch always runs little-endian." ∷ "#ifdef __SWITCH__"
    ∷ "#ifndef __BYTE_ORDER" ∷ "#define __BIG_ENDIAN 4321" ∷ "#define __LITTLE_ENDIAN 1234"
    ∷ "#define __BYTE_ORDER __LITTLE_ENDIAN" ∷ "#endif" ∷ "#endif" ∷ "" ∷ [])
