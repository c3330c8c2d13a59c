-- ===== src/SwitchPatch/Clean.antt =====
-- The texts that the script puts into files hold no `\r`.
use switch_ldn_zt.Base.{arith}
use switch_ldn_zt.Text.{codes, rows}
use switch_ldn_zt.Text.Newlines.{NoCr}
use switch_ldn_zt.SwitchPatch.Texts.{
  switch_block, apple_marker, stok_new, ifaddrs_new, guard_new, enum_override, enum_marker, un_new,
  cleanup_new, uio_new, hwcaps_probe, miniupnpc_new, glob_new, port_new, ssize_compat, time_include,
  cc_wrapper, stdexcept_include, pragma_once,
}

pub switch_block-NoCr : NoCr switch_block
unfolding codes rows
switch_block-NoCr = omega arith

pub apple_marker-NoCr : NoCr apple_marker
unfolding codes rows
apple_marker-NoCr = omega arith

pub stok_new-NoCr : NoCr stok_new
unfolding codes rows
stok_new-NoCr = omega arith

pub ifaddrs_new-NoCr : NoCr ifaddrs_new
unfolding codes rows
ifaddrs_new-NoCr = omega arith

pub guard_new-NoCr : NoCr guard_new
unfolding codes rows
guard_new-NoCr = omega arith

pub enum_override-NoCr : NoCr enum_override
unfolding codes rows
enum_override-NoCr = omega arith

pub enum_marker-NoCr : NoCr enum_marker
unfolding codes rows
enum_marker-NoCr = omega arith

pub un_new-NoCr : NoCr un_new
unfolding codes rows
un_new-NoCr = omega arith

pub cleanup_new-NoCr : NoCr cleanup_new
unfolding codes rows
cleanup_new-NoCr = omega arith

pub uio_new-NoCr : NoCr uio_new
unfolding codes rows
uio_new-NoCr = omega arith

pub hwcaps_probe-NoCr : NoCr hwcaps_probe
unfolding codes rows
hwcaps_probe-NoCr = omega arith

pub miniupnpc_new-NoCr : NoCr miniupnpc_new
unfolding codes rows
miniupnpc_new-NoCr = omega arith

pub glob_new-NoCr : NoCr glob_new
unfolding codes rows
glob_new-NoCr = omega arith

pub port_new-NoCr : NoCr port_new
unfolding codes rows
port_new-NoCr = omega arith

pub ssize_compat-NoCr : NoCr ssize_compat
unfolding codes rows
ssize_compat-NoCr = omega arith

pub time_include-NoCr : NoCr time_include
unfolding codes rows
time_include-NoCr = omega arith

pub cc_wrapper-NoCr : NoCr cc_wrapper
unfolding codes rows
cc_wrapper-NoCr = omega arith

pub stdexcept_include-NoCr : NoCr stdexcept_include
unfolding codes rows
stdexcept_include-NoCr = omega arith

pub pragma_once-NoCr : NoCr pragma_once
unfolding codes rows
pragma_once-NoCr = omega arith
