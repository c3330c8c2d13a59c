-- ===== src/Tests/HotpathRuns.antt =====
-- The hot-path patch on a small tree.
use switch_ldn_zt.Base.{◌&&◌, false, some, [], ◌∷◌, ◌++◌, ◌≡◌, refl}
use switch_ldn_zt.Text.{Text, codes, contains, eqb, replace_first, starts_with}
use switch_ldn_zt.Text.Newlines.{universal_newlines}
use switch_ldn_zt.Disk.{File, FilePath, find_file, put_file}
use switch_ldn_zt.Script.{Machine, ok, pure, raise, ◌>>=◌, print, read_text, try_read, write_raw}
use switch_ldn_zt.Script.Gate.{if_read}
use switch_ldn_zt.Script.Returns.{returns}
use switch_ldn_zt.Regex.{accepts, match, search_from, find_match?, subn_by, subn}
use switch_ldn_zt.Hotpath.{
  posix, main_cpp, old_sessions, already_applied, write_posix, patch_posix, set_sessions,
  patch_main, hotpath,
}
use switch_ldn_zt.Hotpath.Patches.{IsHotPatch, hotpath-IsHotPatch}
use switch_ldn_zt.Hotpath.Runs.{is_patchable, has_setting, hotpath_decides}

abbrev sends : Text
sends =
    codes
      "\n const u32 seq = __sync_fetch_and_add(&g_tx_seq, 1);\nif ((seq < 12 || (seq % 40) == 0) {log\n}\nreturn rc;"

abbrev receives : Text
receives =
    codes
      "\nconst u32 seq = __sync_fetch_and_add(&g_rx_seq, 1);\nif ((seq < 12 || (seq % 10) == 0) && from && from->sa_family == AF_INET) {\nlog\n}\n"

abbrev readme : FilePath
readme = codes "README.md"

abbrev start : Machine
start = record {
  files =
      (readme, File.text [])
      ∷ (posix, File.text (sends ++ receives))
      ∷ (main_cpp, File.text old_sessions)
      ∷ [];
  windows = false;
  out = [];
}

start_returns : (hotpath start).0 ≡ ok tt
unfolding hotpath patch_posix write_posix subn subn_by find_match? search_from match accepts
    already_applied patch_main set_sessions codes contains replace_first starts_with eqb
    universal_newlines find_file put_file try_read read_text write_raw print pure raise ◌>>=◌
start_returns = refl

start_run : hotpath start ≡ (ok tt, (hotpath start).1)
start_run = λ i. (start_returns i, (hotpath start).1)

hotpath-IsHotPatch_example :
    (s : Text) × (t : Text) × (try_read posix start ≡ some s)
    × (try_read posix (hotpath start).1 ≡ some t)
    × IsHotPatch s t
hotpath-IsHotPatch_example = hotpath-IsHotPatch start start_run

hotpath_decides_example :
    returns hotpath start
    ≡ (if_read (try_read posix start) is_patchable && if_read (try_read main_cpp start) has_setting)
hotpath_decides_example = hotpath_decides start
