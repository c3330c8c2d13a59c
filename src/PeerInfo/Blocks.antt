-- ===== src/PeerInfo/Blocks.antt =====
-- The block of `NodeService.cpp` that copies a peer, before and after the patch.
use switch_ldn_zt.Base.{[], ◌∷◌}
use switch_ldn_zt.Text.{Text, rows}

abbrev pub old_copy : Text
old_copy = rows (
    "            pr = new zts_peer_info_t();" ∷ "            ZT_Peer* peer = (ZT_Peer*)obj;"
    ∷ "            memcpy(pr, peer, sizeof(zts_peer_info_t));"
    ∷ "            for (unsigned int j = 0; j < peer->pathCount; j++) {"
    ∷ "                native_ss_to_zts_ss(&(pr->paths[j].address), &(peer->paths[j].address));"
    ∷ "            }" ∷ "            objptr = (void*)pr;" ∷ [])

abbrev pub new_copy : Text
new_copy = rows (
    "            pr = new zts_peer_info_t();" ∷ "            ZT_Peer* peer = (ZT_Peer*)obj;"
    ∷ "            // See scripts/patch-zt-peer-info-struct.py for why this cannot be"
    ∷ "            // a memcpy: ZT_Peer and zts_peer_info_t do not share a layout"
    ∷ "            // past latency, and a raw memcpy(pr, peer, sizeof(zts_peer_info_t))"
    ∷ "            // reads past the end of the real ZT_Peer object."
    ∷ "            pr->peer_id = peer->address;" ∷ "            pr->ver_major = peer->versionMajor;"
    ∷ "            pr->ver_minor = peer->versionMinor;"
    ∷ "            pr->ver_rev = peer->versionRev;" ∷ "            pr->latency = peer->latency;"
    ∷ "            pr->role = (zts_peer_role_t)peer->role;"
    ∷ "            pr->path_count = peer->pathCount;" ∷ "            pr->unused_0 = 0;"
    ∷ "            const unsigned int path_limit = (peer->pathCount < ZTS_MAX_PEER_NETWORK_PATHS)"
    ∷ "                ? peer->pathCount : ZTS_MAX_PEER_NETWORK_PATHS;"
    ∷ "            for (unsigned int j = 0; j < path_limit; j++) {"
    ∷ "                native_ss_to_zts_ss(&(pr->paths[j].address), &(peer->paths[j].address));"
    ∷ "                pr->paths[j].last_tx = peer->paths[j].lastSend;"
    ∷ "                pr->paths[j].last_rx = peer->paths[j].lastReceive;"
    ∷ "                pr->paths[j].trusted_path_id = peer->paths[j].trustedPathId;"
    ∷ "                pr->paths[j].latency = peer->paths[j].latencyMean;"
    ∷ "                pr->paths[j].expired = peer->paths[j].expired;"
    ∷ "                pr->paths[j].preferred = peer->paths[j].preferred;" ∷ "            }"
    ∷ "            objptr = (void*)pr;" ∷ [])
