-- ===== src/LwipThread/Tcpip.antt =====
-- scripts/patch-lwip-switch-thread.py, the edits of lwIP's `tcpip.c`.
use switch_ldn_zt.Base.{[], ◌∷◌, ◌+◌, if◌then◌else◌}
use switch_ldn_zt.Text.{Text, codes, contains, find?, find_from?}
use switch_ldn_zt.Disk.{FilePath}
use switch_ldn_zt.Script.{Result, file}
use switch_ldn_zt.Script.Outcome.{◌>>=◌, pure, expect}
use switch_ldn_zt.LwipThread.Places.{insert_at, search_end?, find_after?, mark_at, include_after}
use switch_ldn_zt.LwipThread.Texts.{
  switch_include, switch_block, opt_include, tcpip_thread_pat, tcpip_init_pat, tcpip_thread_mark,
  tcpip_thread_trace, tcpip_init_mark, tcpip_init_trace, before_done_mark, before_done,
  after_done_mark, after_done,
}

unfoldable pub mark_before_done : Text → Result Text
mark_before_done s = if contains before_done_mark s then pure s else (do
  place ←
      expect "ERROR: tcpip_init_done block not found" []
        (find_after? (find? (codes "tcpip_thread(") s) (codes "if (tcpip_init_done != NULL)") s)
  pure (insert_at place before_done s))

unfoldable pub mark_after_done : Text → Result Text
mark_after_done s = if contains after_done_mark s then pure s else (do
  place ←
      expect "ERROR: tcpip_init_done call not found" []
        (find_after? (find? (codes "tcpip_thread(") s) (codes "tcpip_init_done(") s)
  semi ← expect "ERROR: tcpip_init_done call has no terminator" [] (find_from? place (codes ";") s)
  pure (insert_at (semi + 1) after_done s))

unfoldable pub edit_tcpip : FilePath → Text → Result Text
edit_tcpip path s = mark_thread (include_after switch_include opt_include switch_block s)
  where
    mark_init : Text → Result Text
    mark_init t = do
      start ←
          expect "ERROR: tcpip_init() definition not found in {tcpip}" (file path ∷ [])
            (search_end? tcpip_init_pat t)
      before ← mark_before_done (mark_at tcpip_init_mark start tcpip_init_trace t)
      mark_after_done before

    mark_thread : Text → Result Text
    mark_thread t = do
      start ←
          expect "ERROR: tcpip_thread() definition not found in {tcpip}" (file path ∷ [])
            (search_end? tcpip_thread_pat t)
      mark_init (mark_at tcpip_thread_mark start tcpip_thread_trace t)
