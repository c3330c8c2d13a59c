-- ===== src/Phy/Texts.antt =====
-- What the script looks for in libzt's `NodeService.cpp` and `Phy.hpp`, and what it puts there.
use switch_ldn_zt.Base.{[], ◌∷◌}
use switch_ldn_zt.Text.{Text, codes, rows}

abbrev pub unchecked : Text
unchecked = codes "_phy(this, false, true)"

abbrev pub checked : Text
checked = codes "_phy(this, false, false)"

abbrev pub rx_mark : Text
rx_mark = codes "[SWITCH-PHY] NodeService RX"

abbrev pub stdlib_include : Text
stdlib_include = rows ("#include <stdlib.h>" ∷ "" ∷ [])

abbrev pub stdio_block : Text
stdio_block = rows ("#ifdef __SWITCH__" ∷ "#include <stdio.h>" ∷ "#endif" ∷ [])

abbrev pub datagram_marker : Text
datagram_marker = rows ("void NodeService::phyOnDatagram(" ∷ "" ∷ [])

abbrev pub rx_trace : Text
rx_trace = rows (
    "{" ∷ "#ifdef __SWITCH__" ∷ "    static unsigned int switch_phy_rx_trace = 0;"
    ∷ "    const unsigned int trace_n = __sync_fetch_and_add(&switch_phy_rx_trace, 1);"
    ∷ "    if (trace_n < 20 || (trace_n % 100) == 0) {"
    ∷ "        const struct sockaddr_in* la = (localAddr && localAddr->sa_family == AF_INET)"
    ∷ "            ? reinterpret_cast<const struct sockaddr_in*>(localAddr) : NULL;"
    ∷ "        const struct sockaddr_in* ra = (from && from->sa_family == AF_INET)"
    ∷ "            ? reinterpret_cast<const struct sockaddr_in*>(from) : NULL;"
    ∷ "        fprintf(stderr,"
    ∷ "                \"[SWITCH-PHY] NodeService RX #%u len=%lu local=%u remote=%u\\n\","
    ∷ "                trace_n + 1," ∷ "                len,"
    ∷ "                la ? (unsigned)ntohs(la->sin_port) : 0u,"
    ∷ "                ra ? (unsigned)ntohs(ra->sin_port) : 0u);" ∷ "    }" ∷ "#endif" ∷ "" ∷ [])

abbrev pub recv_mark : Text
recv_mark = codes "[SWITCH-PHY] UDP recv"

abbrev pub string_include : Text
string_include = rows ("#include <string.h>" ∷ "" ∷ [])

abbrev pub recv_target : Text
recv_target = rows (
    "long n = (long)::recvfrom(s->sock, buf, sizeof(buf), 0, (struct sockaddr*)&ss, &slen);" ∷ ""
    ∷ [])

abbrev pub recv_trace : Text
recv_trace = rows (
    "#ifdef __SWITCH__" ∷ "\t\t\t\t\t\t\tstatic unsigned int switch_phy_recv_trace = 0;"
    ∷ "\t\t\t\t\t\t\tconst unsigned int recv_trace_n = __sync_fetch_and_add(&switch_phy_recv_trace, 1);"
    ∷ "\t\t\t\t\t\t\tif (recv_trace_n < 20 || (n < 0 && recv_trace_n < 40)) {"
    ∷ "\t\t\t\t\t\t\t\tfprintf(stderr, \"[SWITCH-PHY] UDP recv fd=%d n=%ld errno=%d\\n\","
    ∷ "\t\t\t\t\t\t\t\t        (int)s->sock, n, (n < 0) ? errno : 0);" ∷ "\t\t\t\t\t\t\t}"
    ∷ "#endif" ∷ "" ∷ [])

abbrev pub udp_marker : Text
udp_marker =
    rows ("case ZT_PHY_SOCKET_UDP:" ∷ "\t\t\t\t\tif (FD_ISSET(s->sock, &rfds)) {" ∷ "" ∷ [])

abbrev pub ready_trace : Text
ready_trace = rows (
    "#ifdef __SWITCH__" ∷ "\t\t\t\t\t\tstatic unsigned int switch_phy_ready_trace = 0;"
    ∷ "\t\t\t\t\t\tconst unsigned int ready_trace_n = __sync_fetch_and_add(&switch_phy_ready_trace, 1);"
    ∷ "\t\t\t\t\t\tif (ready_trace_n < 20) {"
    ∷ "\t\t\t\t\t\t\tfprintf(stderr, \"[SWITCH-PHY] UDP select-readable fd=%d\\n\", (int)s->sock);"
    ∷ "\t\t\t\t\t\t}" ∷ "#endif" ∷ "" ∷ [])
