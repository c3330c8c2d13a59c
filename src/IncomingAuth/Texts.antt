-- ===== src/IncomingAuth/Texts.antt =====
-- What the script looks for in libzt's `IncomingPacket.cpp` and `Peer.cpp`, and what it puts there.
use switch_ldn_zt.Base.{[], ◌∷◌}
use switch_ldn_zt.Text.{Text, codes, rows}
use switch_ldn_zt.Regex.{Regex, any, lit, short_run, sp, pattern}

abbrev pub stdio_line : Text
stdio_line = codes "#include <stdio.h>"

abbrev pub trace_hpp : Text
trace_hpp = rows ("#include \"Trace.hpp\"" ∷ "" ∷ [])

abbrev pub metrics_hpp : Text
metrics_hpp = rows ("#include \"Metrics.hpp\"" ∷ "" ∷ [])

abbrev pub reject_mark : Text
reject_mark = codes "[SWITCH-AUTH] REJECT invalid-MAC"

abbrev pub dearmor_pat : Regex
dearmor_pat = pattern (
    lit "if"
    ∷ sp
    ∷ lit "("
    ∷ sp
    ∷ lit "!"
    ∷ sp
    ∷ lit "dearmor(peer->key(),"
    ∷ sp
    ∷ lit "peer->aesKeys())"
    ∷ sp
    ∷ lit ")"
    ∷ sp
    ∷ lit "{"
    ∷ short_run any
    ∷ lit
        "RR->t->incomingPacketMessageAuthenticationFailure(tPtr,_path,packetId(),sourceAddress,hops(),\"invalid MAC\");"
    ∷ short_run any
    ∷ lit "peer->recordIncomingInvalidPacket(_path);"
    ∷ short_run any
    ∷ lit "return true;"
    ∷ sp
    ∷ lit "}"
    ∷ [])

abbrev pub failure_call : Text
failure_call = codes "RR->t->incomingPacketMessageAuthenticationFailure"

abbrev pub reject_trace : Text
reject_trace = rows (
    "#ifdef __SWITCH__" ∷ "\t\t\t\t\tstatic unsigned int switch_auth_bad = 0;"
    ∷ "\t\t\t\t\tconst unsigned int bad_n = __sync_fetch_and_add(&switch_auth_bad, 1);"
    ∷ "\t\t\t\t\tif (bad_n < 100) {"
    ∷ "\t\t\t\t\t\tfprintf(stderr, \"[SWITCH-AUTH] REJECT invalid-MAC src=%llx verb=%u packet=%llx\\n\","
    ∷ "\t\t\t\t\t\t        (unsigned long long)sourceAddress.toInt(),"
    ∷ "\t\t\t\t\t\t        (unsigned int)verb(),"
    ∷ "\t\t\t\t\t\t        (unsigned long long)packetId());" ∷ "\t\t\t\t\t}" ∷ "#endif"
    ∷ "\t\t\t\t\t" ∷ [])

abbrev pub received_mark : Text
received_mark = codes "[SWITCH-AUTH] PEER-RECEIVED"

abbrev pub receive_anchor : Text
receive_anchor = rows ("const int64_t now = RR->node->now();" ∷ "" ∷ "\t_lastReceive = now;" ∷ [])

abbrev pub receive_trace : Text
receive_trace = rows (
    "const int64_t now = RR->node->now();" ∷ "" ∷ "#ifdef __SWITCH__"
    ∷ "\tstatic unsigned int switch_peer_received = 0;"
    ∷ "\tconst unsigned int rx_n = __sync_fetch_and_add(&switch_peer_received, 1);"
    ∷ "\tif (rx_n < 150) {"
    ∷ "\t\tfprintf(stderr, \"[SWITCH-AUTH] PEER-RECEIVED peer=%llx verb=%u packet=%llx upstream=%d hops=%u now=%lld\\n\","
    ∷ "\t\t        (unsigned long long)_id.address().toInt()," ∷ "\t\t        (unsigned int)verb,"
    ∷ "\t\t        (unsigned long long)packetId,"
    ∷ "\t\t        RR->topology->isUpstream(_id.identity()) ? 1 : 0," ∷ "\t\t        hops,"
    ∷ "\t\t        (long long)now);" ∷ "\t}" ∷ "#endif" ∷ "" ∷ "\t_lastReceive = now;" ∷ [])
