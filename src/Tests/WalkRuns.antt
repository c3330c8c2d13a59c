-- ===== src/Tests/WalkRuns.antt =====
-- Runs of the scripts for libzt's `NodeService.cpp` and `Phy.hpp` on small trees.
use switch_ldn_zt.Base.{true, false, List, [], ◌∷◌, ◌++◌, ◌≡◌, refl}
use switch_ldn_zt.Text.{
  Text, codes, rows, contains, count, eqb, find?, find_from?, replace_first, starts_with, strip,
}
use switch_ldn_zt.Text.Newlines.{universal_newlines, to_linesep}
use switch_ldn_zt.Disk.{File, FilePath, find_file, put_file, rglob, ends_with, matches}
use switch_ldn_zt.Script.{Error, Machine, ok, err, ◌>>=◌, print, write_raw, write_text, try_read}
use switch_ldn_zt.Restore.RoundTrip.{restored_message, set_checked-restore_body}
use switch_ldn_zt.Phy.Twice.{phy_twice}
use switch_ldn_zt.Walk.{rewrite, act, for_files, walk}
use switch_ldn_zt.Walk.Twice.{Holds}
use switch_ldn_zt.Walk.Reaches.{any_reads}
use switch_ldn_zt.Restore.{libzt, node_service, checked, unchecked, restore_body, restore}
use switch_ldn_zt.Restore.Runs.{is_known, IsRestored, restore_decides, restore_reaches}
use switch_ldn_zt.PeerInfo.{peer_info_body, peer_info}
use switch_ldn_zt.PeerInfo.Blocks.{old_copy, new_copy}
use switch_ldn_zt.PeerInfo.Runs.{peer_info_twice, peer_info_reaches}
use switch_ldn_zt.Phy.{
  set_checked, include_stdio, insert_trace, trace_rx, node_body, include_stdio_here, trace_recv,
  trace_ready, is_phy, header_body, phy,
}
use switch_ldn_zt.Phy.Texts.{
  stdlib_include, datagram_marker, string_include, recv_target, udp_marker,
}
use switch_ldn_zt.Walk.Turns.{Turned}
use switch_ldn_zt.Phy.Traces.{GetsTrace, GetsTraces}
use switch_ldn_zt.Phy.Runs.{phy_hpp, phy_reaches, phy_refuses}

abbrev readme : FilePath
readme = codes "libzt/README.md"

abbrev with_node : Text → List (FilePath × File) → Machine
with_node text more = record {
  files = (readme, File.text []) ∷ (codes "libzt/src/NodeService.cpp", File.text text) ∷ more;
  windows = true;
  out = [];
}

abbrev bare : Machine
bare = record { files = (readme, File.text []) ∷ []; windows = false; out = [] }

no_node : matches libzt node_service readme ≡ false
no_node = unfold codes starts_with ends_with eqb in refl

abbrev to_restore : Machine
to_restore = with_node checked []

abbrev restored : Machine
restored = (restore to_restore).1

restore_returns : (restore to_restore).0 ≡ ok tt
unfolding restore walk for_files act restore_body rglob ends_with contains replace_first codes
    universal_newlines to_linesep put_file find_file try_read ◌>>=◌ print write_text write_raw eqb
restore_returns = refl

restore_decides_example :
    (any_reads is_known to_restore (rglob libzt node_service to_restore.files) ≡ true
      → (restore to_restore).0 ≡ ok tt)
    × (any_reads is_known to_restore (rglob libzt node_service to_restore.files) ≡ false
        → (e : Error) × (restore to_restore ≡ (err e, to_restore)))
restore_decides_example = restore_decides to_restore

restore_reaches_example : Turned libzt node_service IsRestored to_restore restored
restore_reaches_example = restore_reaches to_restore (λ i. (restore_returns i, restored))

abbrev to_copy : Machine
to_copy = with_node old_copy []

abbrev copied : Machine
copied = (peer_info to_copy).1

peer_info_returns : (peer_info to_copy).0 ≡ ok tt
unfolding peer_info walk for_files act peer_info_body rglob ends_with contains replace_first codes
    rows strip count universal_newlines to_linesep put_file find_file try_read ◌>>=◌ print
    write_text write_raw eqb
peer_info_returns = refl

peer_info_twice_example :
    ((peer_info copied).0 ≡ ok tt) × ((peer_info copied).1.files ≡ copied.files)
peer_info_twice_example = peer_info_twice to_copy (λ i. (peer_info_returns i, copied))

peer_info_reaches_example :
    Holds libzt node_service (λ s. contains (strip new_copy) s ≡ true) copied
peer_info_reaches_example = peer_info_reaches to_copy (λ i. (peer_info_returns i, copied))

abbrev node_text : Text
node_text =
    codes "_phy(this, false, true)\n"
    ++ (stdlib_include ++ (datagram_marker ++ codes "  x)\n{\n}\n"))

abbrev header_text : Text
header_text = codes "udpBind( phyOnDatagram\n" ++ (string_include ++ (udp_marker ++ recv_target))

abbrev to_trace : Machine
to_trace = with_node node_text ((codes "libzt/osdep/Phy.hpp", File.text header_text) ∷ [])

abbrev traced : Machine
traced = (phy to_trace).1

phy_returns : (phy to_trace).0 ≡ ok tt
unfolding phy walk for_files act node_body set_checked trace_rx include_stdio insert_trace
    header_body is_phy include_stdio_here trace_recv trace_ready rglob ends_with contains find?
    find_from? replace_first codes rows count universal_newlines to_linesep put_file find_file
    try_read ◌>>=◌ print write_text write_raw eqb
phy_returns = refl

phy_reaches_example :
    Turned libzt node_service GetsTrace to_trace traced
    × Turned libzt phy_hpp GetsTraces to_trace traced
phy_reaches_example = phy_reaches to_trace (λ i. (phy_returns i, traced))

phy_refuses_example : (e : Error) × (phy bare ≡ (err e, bare))
phy_refuses_example =
    phy_refuses bare (unfold any_reads rglob starts_with codes ends_with eqb in refl)

phy_twice_example :
    (again : Machine) × (phy traced ≡ (ok tt, again))
    × ((q : FilePath) → try_read q again ≡ try_read q traced)
phy_twice_example = phy_twice to_trace (λ i. (phy_returns i, traced))

abbrev service : FilePath
service = codes "libzt/src/NodeService.cpp"

set_checked-restore_body_example :
    restore_body service checked ≡ rewrite unchecked (restored_message service)
set_checked-restore_body_example =
    set_checked-restore_body service unchecked (unfold contains codes in refl)
      (unfold contains codes in refl)
      (unfold set_checked contains count codes replace_first in refl)
