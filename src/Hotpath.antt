-- ===== src/Hotpath.antt =====
-- scripts/patch-runtime-hotpath.py: no writes to the log from `sendto` and `recvfrom`, and more BSD
-- sessions.
pub mod Patches
pub mod Runs
use switch_ldn_zt.Base.{
  ℕ, String, Bool, true, false, not, ◌&&◌, ◌||◌, List, [], ◌∷◌, ◌==◌, if◌then◌else◌,
}
use switch_ldn_zt.Text.{Text, codes, contains, replace_first}
use switch_ldn_zt.Disk.{FilePath}
use switch_ldn_zt.Script.{
  Script, num, ◌>>=◌, ◌>>◌, pure, exit, require, print, read_text, write_raw,
}
use switch_ldn_zt.Regex.{Regex, lit, short_run, any, sp, pattern, subn}

abbrev pub posix : FilePath
posix = codes "source/posix_compat.cpp"

abbrev pub main_cpp : FilePath
main_cpp = codes "source/main.cpp"

abbrev pub send_pat : Regex
send_pat = pattern (
    lit "\n"
    ∷ sp
    ∷ lit "const u32 seq = __sync_fetch_and_add(&g_tx_seq, 1);\n"
    ∷ sp
    ∷ lit "if ((seq < 12 || (seq % 40) == 0)"
    ∷ short_run any
    ∷ lit "\n"
    ∷ sp
    ∷ lit "}\n"
    ∷ sp
    ∷ lit "return rc;"
    ∷ [])

abbrev pub recv_pat : Regex
recv_pat = pattern (
    lit "\n"
    ∷ sp
    ∷ lit "const u32 seq = __sync_fetch_and_add(&g_rx_seq, 1);\n"
    ∷ sp
    ∷ lit "if ((seq < 12 || (seq % 10) == 0) && from && from->sa_family == AF_INET) {\n"
    ∷ short_run any
    ∷ lit "\n"
    ∷ sp
    ∷ lit "}\n"
    ∷ [])

abbrev pub send_repl : Text
send_repl = codes "\n    (void)__sync_fetch_and_add(&g_tx_seq, 1);\n    return rc;"

abbrev pub recv_repl : Text
recv_repl = codes "\n        (void)__sync_fetch_and_add(&g_rx_seq, 1);\n"

abbrev pub send_mark : Text
send_mark = codes "(void)__sync_fetch_and_add(&g_tx_seq, 1);"

abbrev pub recv_mark : Text
recv_mark = codes "(void)__sync_fetch_and_add(&g_rx_seq, 1);"

unfoldable pub already_applied : Text → Bool
already_applied s = contains send_mark s && contains recv_mark s

-- what follows the two substitutions of `s`
unfoldable pub write_posix : Text → Text × ℕ → Text × ℕ → Script Unit
unfolding already_applied
write_posix s (s2, n1) (s3, n2) = do
  require ((n1 == 1 && n2 == 1) || already_applied s)
      "Expected hot-path log blocks once each; send={n1}, recv={n2}" (num n1 ∷ num n2 ∷ [])
  if n1 == 1 || n2 == 1 then write_raw posix s3 else pure tt

unfoldable pub patch_posix : Script Unit
unfolding write_posix subn
patch_posix = do
  s ← read_text posix
  write_posix s (subn send_pat send_repl s) (subn recv_pat recv_repl (subn send_pat send_repl s).0)

abbrev pub old_sessions : Text
old_sessions = codes "        .num_bsd_sessions    = 3,"

abbrev pub new_sessions : Text
new_sessions = codes "        .num_bsd_sessions    = 16,"

unfoldable pub set_sessions : Text → Script Unit
set_sessions s =
    if contains old_sessions s
    then write_raw main_cpp (replace_first old_sessions new_sessions s)
    else if not (contains new_sessions s)
    then exit "num_bsd_sessions setting not found" []
    else pure tt

unfoldable pub patch_main : Script Unit
patch_main = do s ← read_text main_cpp; set_sessions s

unfoldable pub hotpath : Script Unit
hotpath = do
  patch_posix
  patch_main
  print "Applied runtime hot-path fix: no SD I/O from sendto/recvfrom and 16 BSD sessions." []
