-- ===== src/LwipThread/SysArch.antt =====
-- scripts/patch-lwip-switch-thread.py, the edits of lwIP's `sys_arch.c`.
use switch_ldn_zt.Base.{ℕ, ◌+◌, Option, none, some, [], ◌∷◌, ◌++◌, take, drop, if◌then◌else◌}
use switch_ldn_zt.Text.{Text, codes, contains, find_from?, replace_first}
use switch_ldn_zt.Disk.{FilePath}
use switch_ldn_zt.Script.{Result, file}
use switch_ldn_zt.Script.Outcome.{◌>>=◌, ◌>>◌, pure, expect, attribute}
use switch_ldn_zt.Regex.{find_match?}
use switch_ldn_zt.LwipThread.Places.{
  insert_at, search_end?, find_after?, past, shifted, close_from?, line_start, slice, mark_at,
  include_after,
}
use switch_ldn_zt.LwipThread.Texts.{
  intro_pat, intro_new, switch_include, pthread_include, switch_block, thread_new_pat, enter_mark,
  enter_trace, create_pat, switch_attr, stack_head, stack_foot, created_mark, created_trace,
  introduce_mark, before_introduce, after_introduce, intro_mark, intro_marker, intro_trace,
  slot_line, slot_trace, wrapper_pat, alive_trace,
}

-- the whole helper, from its signature to its closing brace
unfoldable pub rewrite_intro : FilePath → Text → Result Text
rewrite_intro path s = do
  (start, size) ←
      expect "ERROR: introduce_thread() not found in {sys_arch}" (file path ∷ [])
        (find_match? intro_pat s)
  close ←
      expect "ERROR: could not parse introduce_thread()" []
        (close_from? b'{' b'}' (find_from? start (codes "{") s) s)
  pure (take start s ++ (intro_new ++ drop (close + 1) s))

-- the entry trace, and where the body of `sys_thread_new` starts
unfoldable pub mark_entry : Text → Result (Text × ℕ)
mark_entry s = do
  start ← expect "ERROR: sys_thread_new() definition not found" [] (search_end? thread_new_pat s)
  if contains enter_mark s then pure (s, start) else again (insert_at start enter_trace s)
  where
    again : Text → Result (Text × ℕ)
    again t = attribute (search_end? thread_new_pat t) >>= λ start. pure (t, start)

-- `pthread_create(&tmp,` behind `start`
unfoldable pub find_create? : ℕ → Text → Option ℕ
find_create? start s = shifted start (found (find_match? create_pat (drop start s)))
  where
    found : Option (ℕ × ℕ) → Option ℕ
    found none = none
    found (some (i, n)) = some i

-- the statement in which the thread is created: its call, and its semicolon
unfoldable pub find_statement : ℕ → Text → Result (ℕ × ℕ)
find_statement start s = do
  call ←
      expect "ERROR: pthread_create() not found inside sys_thread_new()" [] (find_create? start s)
  close ←
      expect "ERROR: unmatched pthread_create() in sys_thread_new()" []
        (close_from? b'(' b')' (find_from? call (codes "(") s) s)
  semi ← expect "ERROR: pthread_create() has no terminator" [] (find_from? close (codes ";") s)
  pure (call, semi)

-- the text, with the places of the call and of the semicolon in it
unfoldable pub fix_stack : ℕ → Text → Result (Text × Option ℕ × Option ℕ)
fix_stack start s = do
  (call, semi) ← find_statement start s
  if contains switch_attr (slice call (semi + 1) s)
      then pure (s, some call, some semi)
      else replaced call semi
  where
    again : Text → Result (Text × Option ℕ × Option ℕ)
    again t = attribute (search_end? thread_new_pat t) >>= λ start.
        let call = find_create? start t in
        let close = find_after? (find_after? call (codes "(") t) (codes ")") t in
        pure (t, call, find_after? close (codes ";") t)

    replaced : ℕ → ℕ → Result (Text × Option ℕ × Option ℕ)
    replaced call semi =
        let line = line_start call s in
        again (
          take line s
          ++ (stack_head ++ (slice line (semi + 1) s ++ (stack_foot ++ drop (semi + 1) s))))

unfoldable pub mark_introduced : Option ℕ → Text → Result Text
mark_introduced call s = if contains introduce_mark s then pure s else (do
  block ←
      expect "ERROR: expected if (0 == code) block not found" []
        (find_after? call (codes "if (0 == code)") s)
  intro ←
      expect "ERROR: introduce_thread() call not found" []
        (find_from? block (codes "st = introduce_thread(") s)
  let t = insert_at intro before_introduce s in behind block t)
  where
    behind : ℕ → Text → Result Text
    behind block t = do
      close ←
          expect "ERROR: introduce_thread() call terminator not found" []
            (find_after? (find_from? block (codes "st = introduce_thread(") t) (codes ");") t)
      pure (insert_at (close + 2) after_introduce t)

unfoldable pub mark_intro : Text → Result Text
mark_intro s = if contains intro_mark s then pure s else (do
  expect "ERROR: rewritten introduce_thread() marker not found" []
      (if contains intro_marker s then some tt else none)
  pure (
      replace_first slot_line (slot_line ++ slot_trace)
        (replace_first intro_marker (intro_marker ++ intro_trace) s)))

unfoldable pub edit_sys_arch : FilePath → Text → Result Text
edit_sys_arch path s = do
  t ← rewrite_intro path s
  (entered, start) ← mark_entry (include_after switch_include pthread_include switch_block t)
  (fixed, call, semi) ← fix_stack start entered
  marked ← mark_introduced call (mark_at created_mark (past semi) created_trace fixed)
  mark_intro marked

-- the probe of `thread_wrapper`
unfoldable pub mark_alive : Text → Result Text
mark_alive s = do
  start ←
      expect "ERROR: could not locate thread_wrapper() for child-thread probe" []
        (search_end? wrapper_pat s)
  pure (insert_at start alive_trace s)
