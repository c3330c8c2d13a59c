-- ===== src/Tests/LwipRuns.antt =====
-- The thread patch on small texts and on a small tree.
use switch_ldn_zt.Base.{suc, length, arith, true, false, some, [], ◌∷◌, ◌++◌, ◌≡◌, refl}
use switch_ldn_zt.Text.{
  Text, codes, rows, contains, eqb, replace_first, starts_with, find?, find_from?, replace_every,
  replace_from,
}
use switch_ldn_zt.Text.Newlines.{universal_newlines, to_linesep}
use switch_ldn_zt.Disk.{File, FilePath, find_file as find_entry, put_file, rglob, ends_with}
use switch_ldn_zt.Script.{
  Result, Message, said, Machine, ok, pure, raise, ◌>>=◌, print, read_text, try_read, write_text,
  exists,
}
use switch_ldn_zt.Script.Outcome.{attempt, ◌>>=◌ as ◌>>>=◌}
use switch_ldn_zt.Walk.{act, for_files, walk}
use switch_ldn_zt.Walk.Candidate.{find_candidate?}
use switch_ldn_zt.Regex.{accepts, match, search_from, find_match?}
use switch_ldn_zt.LwipThread.{libzt, clock_name, keep_timing, find_file, probe_wrapper, lwip_thread}
use switch_ldn_zt.LwipThread.Places.{
  insert_at, search_end?, find_after?, close_of, close_after?, close_from?, after_newline,
  line_start, indent_of, mark_at, include_after,
}
use switch_ldn_zt.LwipThread.SysArch.{
  rewrite_intro, mark_entry, find_create?, find_statement, fix_stack, mark_introduced, mark_intro,
  edit_sys_arch, mark_alive,
}
use switch_ldn_zt.LwipThread.VirtualTap.{call_token, wrap_call, wrap_first_call, edit_virtual_tap}
use switch_ldn_zt.LwipThread.Tcpip.{mark_before_done, mark_after_done, edit_tcpip}
use switch_ldn_zt.LwipThread.Clock.{include_switch_header, clock_body, byte_order_body}
use switch_ldn_zt.LwipThread.Texts.{inline_anchor}
use switch_ldn_zt.LwipThread.Extends.{Extends}
use switch_ldn_zt.LwipThread.Intro.{IsRewritten}
use switch_ldn_zt.LwipThread.Inserts.{
  edit_tcpip-Extends, edit_virtual_tap-Extends, edit_sys_arch-Extends,
}
use switch_ldn_zt.LwipThread.Wraps.{wrap_first_call_twice}
use switch_ldn_zt.LwipThread.Scans.{Nested, close_of_finds}
use switch_ldn_zt.LwipThread.Loops.{clock_twice}
use switch_ldn_zt.LwipThread.Runs.{lwip_thread_frame}

abbrev sys_arch_c : Text
sys_arch_c =
    codes
      "#include <pthread.h>\nstatic struct sys_thread * introduce_thread(pthread_t id) { if (x) { } }\nstatic void *thread_wrapper(void *arg) { }\nsys_thread_t sys_thread_new(const char *name) {\n  code = pthread_create(&tmp, NULL, thread_wrapper, data(1));\n  if (0 == code) {\n    st = introduce_thread(tmp);\n  }\n}\n"

abbrev virtual_tap_cpp : Text
virtual_tap_cpp =
    codes
      "void zts_main_lwip_driver_loop(void *a) {\n  sys_sem_new(&s, 0);\n  tcpip_init(f, &s);\n  sys_sem_wait(&s);\n}"

abbrev tcpip_c : Text
tcpip_c =
    codes
      "static void tcpip_thread(void *arg) { if (tcpip_init_done != NULL) { tcpip_init_done(arg); } }\nvoid tcpip_init(f g, void *arg) { sys_thread_new(); }"

abbrev start : Machine
start = record {
  files =
      (codes "source/main.cpp", File.text (codes "5000000000ULL"))
      ∷ (codes "libzt/a/sys_arch.c", File.text sys_arch_c)
      ∷ (codes "libzt/b/VirtualTap.cpp", File.text virtual_tap_cpp)
      ∷ (codes "libzt/a/tcpip.c", File.text tcpip_c)
      ∷ (
        codes "libzt/o/OSUtils.hpp",
        File.text (codes "#include <a>\nstatic inline int64_t now() { return 1; };"),
      )
      ∷ (codes "libzt/o/Constants.hpp", File.text inline_anchor)
      ∷ [];
  windows = false;
  out = [];
}

start_returns : (lwip_thread start).0 ≡ ok tt
unfolding lwip_thread keep_timing find_file probe_wrapper insert_at search_end? find_after? close_of
    close_after? close_from? after_newline line_start indent_of mark_at include_after rewrite_intro
    mark_entry find_create? find_statement fix_stack mark_introduced mark_intro edit_sys_arch
    mark_alive wrap_call wrap_first_call edit_virtual_tap mark_before_done mark_after_done
    edit_tcpip include_switch_header clock_body byte_order_body find_match? search_from match
    accepts attempt act for_files walk find_candidate? codes rows contains replace_first
    replace_every replace_from find? find_from? starts_with ends_with eqb universal_newlines
    to_linesep find_entry put_file rglob try_read read_text write_text print pure raise exists ◌>>=◌
    ◌>>>=◌
start_returns = refl

abbrev text_of : Result Text → Text
text_of (ok t) = t
text_of (Result.err e) = []

tcpip_made : edit_tcpip [] tcpip_c ≡ ok (text_of (edit_tcpip [] tcpip_c))
unfolding insert_at search_end? find_after? mark_at include_after mark_before_done mark_after_done
    edit_tcpip find_match? search_from match accepts codes rows contains replace_first find?
    find_from? starts_with ◌>>>=◌
tcpip_made = refl

edit_tcpip-Extends_example : Extends tcpip_c (text_of (edit_tcpip [] tcpip_c))
edit_tcpip-Extends_example = edit_tcpip-Extends [] tcpip_c tcpip_made

tap_made : edit_virtual_tap virtual_tap_cpp ≡ ok (text_of (edit_virtual_tap virtual_tap_cpp))
unfolding insert_at search_end? find_after? close_of close_after? close_from? after_newline
    line_start indent_of mark_at wrap_call wrap_first_call edit_virtual_tap find_match? search_from
    match accepts codes rows contains find? find_from? starts_with ◌>>>=◌
tap_made = refl

edit_virtual_tap-Extends_example :
    Extends virtual_tap_cpp (text_of (edit_virtual_tap virtual_tap_cpp))
edit_virtual_tap-Extends_example = edit_virtual_tap-Extends virtual_tap_cpp tap_made

arch_made : edit_sys_arch [] sys_arch_c ≡ ok (text_of (edit_sys_arch [] sys_arch_c))
unfolding insert_at search_end? find_after? close_of close_after? close_from? after_newline
    line_start mark_at include_after rewrite_intro mark_entry find_create? find_statement fix_stack
    mark_introduced mark_intro edit_sys_arch find_match? search_from match accepts codes rows
    contains replace_first find? find_from? starts_with eqb ◌>>>=◌
arch_made = refl

edit_sys_arch-Extends_example :
    (u : Text) × IsRewritten sys_arch_c u × Extends u (text_of (edit_sys_arch [] sys_arch_c))
edit_sys_arch-Extends_example = edit_sys_arch-Extends [] sys_arch_c arch_made

abbrev init_name : Text
init_name = codes "tcpip_init"

abbrev init_label : Text
init_label = codes "TCPIP_INIT"

abbrev wrapped : Text
wrapped = text_of (wrap_first_call init_name init_label virtual_tap_cpp)

wrap_made : wrap_first_call init_name init_label virtual_tap_cpp ≡ ok wrapped
unfolding find_after? close_of close_after? close_from? after_newline line_start indent_of wrap_call
    wrap_first_call codes contains find? find_from? starts_with ◌>>>=◌
wrap_made = refl

wrap_first_call_twice_example :
    (contains (call_token init_label) wrapped ≡ true)
    × (wrap_first_call init_name init_label wrapped ≡ ok wrapped)
wrap_first_call_twice_example = wrap_first_call_twice init_name init_label virtual_tap_cpp wrap_made

abbrev inner : Text
inner = codes "a{}"

inner-Nested : Nested b'{' b'}' inner
unfolding codes
inner-Nested =
    Nested.other (omega arith) (omega arith) (Nested.group {inner = []} Nested.nil Nested.nil)

close_of_finds_example :
    close_of b'{' b'}' 0 0 (b'{' ∷ (inner ++ b'}' ∷ codes ";")) ≡ some (suc (length inner))
close_of_finds_example = close_of_finds b'{' b'}' (omega arith) inner-Nested (codes ";")

clock_made :
    walk libzt clock_name clock_body start ≡ (ok true, (walk libzt clock_name clock_body start).1)
unfolding insert_at include_switch_header clock_body find_match? search_from match accepts act
    for_files walk codes rows contains find? starts_with ends_with eqb universal_newlines to_linesep
    find_entry put_file rglob try_read write_text print pure raise ◌>>=◌
clock_made = refl

clock_twice_example :
    (told : Message) × (walk libzt clock_name clock_body (walk libzt clock_name clock_body start).1
      ≡ (ok true, said told (walk libzt clock_name clock_body start).1))
clock_twice_example = clock_twice start clock_made

abbrev readme : FilePath
readme = codes "libzt/README.md"

lwip_thread_frame_example :
    find_entry readme (lwip_thread start).1.files ≡ find_entry readme start.files
lwip_thread_frame_example =
    lwip_thread_frame start readme (unfold codes eqb in refl)
      (unfold starts_with ends_with codes eqb in refl)
      (unfold starts_with ends_with codes eqb in refl)
      (unfold starts_with ends_with codes eqb in refl)
      (unfold starts_with ends_with codes eqb in refl)
      (unfold starts_with ends_with codes eqb in refl)
