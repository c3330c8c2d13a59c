-- ===== src/LwipThread.antt =====
-- scripts/patch-lwip-switch-thread.py: lwIP's threads on the Switch, traces of their start, and the
-- clock and the byte order of ZeroTier.
pub mod Texts
pub mod Places
pub mod SysArch
pub mod VirtualTap
pub mod Tcpip
pub mod Clock
pub mod Extends
pub mod Inserts
pub mod Wraps
pub mod Scans
pub mod Closes
pub mod Intro
pub mod ClockTexts
pub mod Loops
pub mod Runs
use switch_ldn_zt.Base.{Bool, true, false, Option, none, some, List, [], ◌∷◌, if◌then◌else◌}
use switch_ldn_zt.Text.{Text, codes, contains, replace_every}
use switch_ldn_zt.Disk.{FilePath, rglob}
use switch_ldn_zt.Script.{
  Arg, Script, Result, ok, file, shown, pure, ◌>>=◌, ◌>>◌, exit, exists, print, read_text,
  write_text,
}
use switch_ldn_zt.Script.Outcome.{expect, lift, attempt}
use switch_ldn_zt.Walk.{walk}
use switch_ldn_zt.Walk.Candidate.{find_candidate?}
use switch_ldn_zt.LwipThread.SysArch.{edit_sys_arch, mark_alive}
use switch_ldn_zt.LwipThread.VirtualTap.{edit_virtual_tap}
use switch_ldn_zt.LwipThread.Tcpip.{edit_tcpip}
use switch_ldn_zt.LwipThread.Clock.{clock_body, byte_order_body}
use switch_ldn_zt.LwipThread.Texts.{slow_timing, fast_timing, alive_mark}

abbrev pub main_cpp : FilePath
main_cpp = codes "source/main.cpp"

abbrev pub set_timing : Bool → Script Unit
set_timing true = do
  s ← read_text main_cpp
  write_text main_cpp (replace_every slow_timing fast_timing s)
set_timing false = pure tt

unfoldable pub keep_timing : Script Unit
keep_timing = do there ← exists main_cpp; set_timing there

abbrev pub libzt : FilePath
libzt = codes "libzt"

abbrev pub shown_all : List Text → List Arg
shown_all [] = []
shown_all (t ∷ ts) = shown t ∷ shown_all ts

unfoldable pub find_file : Text → List Text → Script FilePath
find_file name required m =
    lift
      (expect "ERROR: could not find {name} containing {required}" (shown name ∷ shown_all required)
        (find_candidate? required m (rglob libzt name m.files)))
      m

unfoldable pub probe_wrapper : FilePath → Script Unit
probe_wrapper path = do
  s ← read_text path
  if contains alive_mark s then pure tt else (do
    attempt path mark_alive
    print "Re-added thread_wrapper child-thread-alive probe: {sys_arch}" (file path ∷ []))

abbrev pub sys_arch_name : Text
sys_arch_name = codes "sys_arch.c"

abbrev pub virtual_tap_name : Text
virtual_tap_name = codes "VirtualTap.cpp"

abbrev pub tcpip_name : Text
tcpip_name = codes "tcpip.c"

abbrev pub clock_name : Text
clock_name = codes "OSUtils.hpp"

abbrev pub constants_name : Text
constants_name = codes "Constants.hpp"

unfoldable pub lwip_thread : Script Unit
lwip_thread = do
  keep_timing
  sys_arch ← find_file sys_arch_name (codes "sys_thread_new" ∷ codes "pthread_create" ∷ [])
  attempt sys_arch (edit_sys_arch sys_arch)
  print "Instrumented exact Switch sys_thread_new handoff: {sys_arch}" (file sys_arch ∷ [])
  vtap ← find_file virtual_tap_name (codes "zts_main_lwip_driver_loop" ∷ [])
  attempt vtap edit_virtual_tap
  print "Instrumented driver startup boundaries: {vtap}" (file vtap ∷ [])
  tcpip ←
      find_file tcpip_name (codes "tcpip_thread" ∷ codes "tcpip_init" ∷ codes "sys_thread_new" ∷ [])
  attempt tcpip (edit_tcpip tcpip)
  print "Instrumented tcpip worker/init handshake: {tcpip}" (file tcpip ∷ [])
  probe_wrapper sys_arch
  walk libzt clock_name clock_body
  walk libzt constants_name byte_order_body
  pure tt
