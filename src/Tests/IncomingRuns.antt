-- ===== src/Tests/IncomingRuns.antt =====
-- The auth trace on a small tree.
use switch_ldn_zt.Base.{false, [], ◌∷◌, ◌++◌, ◌≡◌}
use switch_ldn_zt.Text.{Text, codes}
use switch_ldn_zt.Disk.{File, FilePath}
use switch_ldn_zt.Script.{Machine}
use switch_ldn_zt.Script.Returns.{returns}
use switch_ldn_zt.IncomingAuth.{incoming_auth}
use switch_ldn_zt.IncomingAuth.Texts.{trace_hpp, metrics_hpp, receive_anchor}
use switch_ldn_zt.IncomingAuth.Runs.{
  taken, incoming_name, peer_name, can_trace, incoming_auth_decides,
}

abbrev block : Text
block =
    codes
      "if (!dearmor(peer->key(), peer->aesKeys())) {RR->t->incomingPacketMessageAuthenticationFailure(tPtr,_path,packetId(),sourceAddress,hops(),\"invalid MAC\");peer->recordIncomingInvalidPacket(_path); return true;}"

abbrev readme : FilePath
readme = codes "libzt/README.md"

abbrev start : Machine
start = record {
  files =
      (readme, File.text [])
      ∷ (codes "libzt/node/IncomingPacket.cpp", File.text (trace_hpp ++ block))
      ∷ (codes "libzt/node/Peer.cpp", File.text (metrics_hpp ++ receive_anchor))
      ∷ [];
  windows = false;
  out = [];
}

incoming_auth_decides_example :
    returns incoming_auth start
    ≡ can_trace (taken incoming_name start) (taken peer_name start) start
incoming_auth_decides_example = incoming_auth_decides start
