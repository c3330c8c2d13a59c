-- ===== src/LdnPatch/LanDiscovery.antt =====
-- The edits of ldn_mitm's `lan_discovery.cpp`, in the script's order.
use switch_ldn_zt.Base.{List, [], ◌∷◌}
use switch_ldn_zt.Text.{codes, rows}
use switch_ldn_zt.Disk.{FilePath}
use switch_ldn_zt.LdnPatch.Edit.{Edit, one, every, function}

abbrev pub lan_discovery : FilePath
lan_discovery = codes "ldn_mitm/ldn_mitm/source/lan_discovery.cpp"

abbrev pub lan_discovery_edits : List Edit
lan_discovery_edits =
    (one (codes "#include \"ipinfo.hpp\"\n")
      (rows ("#include \"ipinfo.hpp\"" ∷ "#include \"zt_bridge.hpp\"" ∷ "" ∷ [])))
    ∷ (one
        (rows (
          "            struct sockaddr_in addr;" ∷ "            socklen_t addrlen = sizeof(addr);"
          ∷ "            int new_fd = accept(this->getFd(), (struct sockaddr *)&addr, &addrlen);"
          ∷ []))
        (codes "            int new_fd = ztbridge::accept(this->getFd());"))
    ∷ (every (codes "            close(new_fd);") (codes "            ztbridge::close(new_fd);") 2)
    ∷ (function (codes "    u32 LDUdpSocket::getBroadcast()")
        (rows ("{" ∷ "        return ztbridge::peer_ip_host_order();" ∷ "    }" ∷ [])))
    ∷ (function (codes "    Result LANDiscovery::setSocketOpts(int fd)")
        (rows ("{" ∷ "        AMS_UNUSED(fd);" ∷ "        return 0;" ∷ "    }" ∷ [])))
    ∷ (one (codes "        fd = ::socket(AF_INET, SOCK_STREAM, 0);")
        (codes "        fd = ztbridge::socket(AF_INET, SOCK_STREAM, 0);"))
    ∷ (every (codes "            if (bind(fd, (struct sockaddr *)&addr, sizeof(addr)) != 0) {")
        (codes "            if (ztbridge::bind(fd, &addr) != 0) {") 2)
    ∷ (one (codes "            if (listen(fd, 10) != 0) {")
        (codes "            if (ztbridge::listen(fd, 10) != 0) {"))
    ∷ (one (codes "        fd = ::socket(AF_INET, SOCK_DGRAM, 0);")
        (codes "        fd = ztbridge::socket(AF_INET, SOCK_DGRAM, 0);"))
    ∷ (one
        (codes
          "        int ret = ::connect(this->tcp->getFd(), (struct sockaddr *)&addr, sizeof(addr));")
        (codes "        int ret = ztbridge::connect(this->tcp->getFd(), &addr);"))
    ∷ (one
        (rows (
          "        rc = nifmGetCurrentIpAddress(&ipAddress);" ∷ "        if (R_FAILED(rc))"
          ∷ "        {" ∷ "            return rc;" ∷ "        }"
          ∷ "        ipAddress = ntohl(ipAddress);" ∷ []))
        (rows (
          "        rc = ztbridge::local_ip_host_order(&ipAddress);" ∷ "        if (R_FAILED(rc))"
          ∷ "        {" ∷ "            return rc;" ∷ "        }" ∷ [])))
    ∷ (one
        (rows (
          "        u32 ip;" ∷ "        rc = nifmGetCurrentIpAddress(&ip);"
          ∷ "        if (R_SUCCEEDED(rc)) {" ∷ "            ip = ntohl(ip);"
          ∷ "            memcpy(mac->raw + 2, &ip, sizeof(ip));" ∷ "        }" ∷ ""
          ∷ "        return rc;" ∷ []))
        (rows (
          "        u32 ip;" ∷ "        rc = ztbridge::local_ip_host_order(&ip);"
          ∷ "        if (R_SUCCEEDED(rc)) {" ∷ "            memcpy(mac->raw + 2, &ip, sizeof(ip));"
          ∷ "        }" ∷ "" ∷ "        return rc;" ∷ [])))
    ∷ []
