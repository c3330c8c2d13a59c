-- ===== src/LwipThread/VirtualTap.antt =====
-- scripts/patch-lwip-switch-thread.py, the edits of libzt's `VirtualTap.cpp`.
use switch_ldn_zt.Base.{ℕ, ◌+◌, [], ◌∷◌, ◌++◌, take, drop, if◌then◌else◌}
use switch_ldn_zt.Text.{Text, codes, contains, find?, find_from?}
use switch_ldn_zt.Script.{Result, shown}
use switch_ldn_zt.Script.Outcome.{◌>>=◌, pure, expect}
use switch_ldn_zt.LwipThread.Places.{
  search_end?, find_after?, close_from?, line_start, indent_of, slice, mark_at,
}
use switch_ldn_zt.LwipThread.Texts.{driver_pat, driver_mark, driver_trace, driver_loop}

-- The line that is printed before a call, or after it.
abbrev pub trace_line : Text → Text → Text → Text
trace_line indent place label =
    indent ++ (codes "printf(\"[SWITCH-DIAG] DRIVER: " ++ (place ++ (label ++ codes "\\n\");\n")))

abbrev pub update_line : Text → Text
update_line indent = indent ++ codes "consoleUpdate(NULL);\n#endif"

abbrev pub before_call : Text → Text → Text
before_call indent label =
    codes "#ifdef __SWITCH__\n"
    ++ (trace_line indent (codes "BEFORE_") label ++ (update_line indent ++ codes "\n"))

abbrev pub after_call : Text → Text → Text
after_call indent label =
    codes "\n#ifdef __SWITCH__\n"
    ++ (trace_line indent (codes "AFTER_") label ++ update_line indent)

abbrev pub call_token : Text → Text
call_token label = codes "[SWITCH-DIAG] DRIVER: BEFORE_" ++ label

-- the call at `place` with the line that it stands on, up to its semicolon
unfoldable pub wrap_call : Text → ℕ → ℕ → Text → Text
wrap_call label place semi src =
    let line = line_start place src in
    let indent = indent_of (slice line place src) in
    take line src
    ++ (before_call indent label
        ++ (slice line (semi + 1) src ++ (after_call indent label ++ drop (semi + 1) src)))

unfoldable pub wrap_first_call : Text → Text → Text → Result Text
wrap_first_call name label src = if contains (call_token label) src then pure src else (do
  place ←
      expect "ERROR: {fn_name} not found in driver" (shown name ∷ [])
        (find_after? (find? driver_loop src) name src)
  close ←
      expect "ERROR: unmatched {fn_name}()" (shown name ∷ [])
        (close_from? b'(' b')' (find_from? place (codes "(") src) src)
  semi ←
      expect "ERROR: no terminator after {fn_name}()" (shown name ∷ [])
        (find_from? close (codes ";") src)
  pure (wrap_call label place semi src))

unfoldable pub edit_virtual_tap : Text → Result Text
edit_virtual_tap s = do
  start ←
      expect "ERROR: zts_main_lwip_driver_loop() definition not found" [] (search_end? driver_pat s)
  made ←
      wrap_first_call (codes "sys_sem_new") (codes "SEM_NEW")
        (mark_at driver_mark start driver_trace s)
  ready ← wrap_first_call (codes "tcpip_init") (codes "TCPIP_INIT") made
  wrap_first_call (codes "sys_sem_wait") (codes "SEM_WAIT") ready
