-- ===== src/AnchorCheck/Anchors.antt =====
-- The anchors that the check looks for, file by file (`ANCHORS`).
use switch_ldn_zt.Base.{List, [], ◌∷◌}
use switch_ldn_zt.Text.{Text, codes}

abbrev pub lan_discovery_cpp : Text
lan_discovery_cpp = codes "lan_discovery.cpp"

abbrev pub bind_needle : Text
bind_needle = codes "if (bind(fd, (struct sockaddr *)&addr, sizeof(addr)) != 0) {"

abbrev pub anchors : List (Text × List Text)
anchors =
    (
      codes "lan_protocol.cpp",
      codes "int Pollable::Poll(Pollable *fds[], size_t nfds, int timeout)"
          ∷ codes "struct pollfd pfds[nfds];"
          ∷ codes "int rc = poll(pfds, nfds, timeout);"
          ∷ codes "void LanSocket::close()"
          ∷ codes "::close(this->fd);"
          ∷ codes "::recvfrom(this->fd, buf, len, 0, nullptr, 0)"
          ∷ codes "::sendto(this->fd, buf, len, 0, nullptr, 0)"
          ∷ codes "socklen_t addr_len = sizeof(*addr);"
          ∷ codes "::sendto(this->fd, buf, len, 0, (struct sockaddr *)addr, sizeof(*addr))"
          ∷ [],
    )
    ∷ (
      codes "lan_discovery.cpp",
      codes "int LDTcpSocket::onRead()"
          ∷ codes "int new_fd = accept(this->getFd(), (struct sockaddr *)&addr, &addrlen);"
          ∷ codes "u32 LDUdpSocket::getBroadcast()"
          ∷ codes "Result LANDiscovery::setSocketOpts(int fd)"
          ∷ codes "fd = ::socket(AF_INET, SOCK_STREAM, 0);"
          ∷ codes "if (bind(fd, (struct sockaddr *)&addr, sizeof(addr)) != 0) {"
          ∷ codes "if (listen(fd, 10) != 0) {"
          ∷ codes "fd = ::socket(AF_INET, SOCK_DGRAM, 0);"
          ∷ codes "int ret = ::connect(this->tcp->getFd(), (struct sockaddr *)&addr, sizeof(addr));"
          ∷ codes "rc = nifmGetCurrentIpAddress(&ipAddress);"
          ∷ codes "rc = nifmGetCurrentIpAddress(&ip);"
          ∷ codes "u32 address, netmask, gateway, primary_dns, secondary_dns;"
          ∷ codes
              "Result rc = nifmGetCurrentIpConfigInfo(&address, &netmask, &gateway, &primary_dns, &secondary_dns);"
          ∷ [],
    )
    ∷ (
      codes "ldn_icommunication.cpp",
      codes "Result ICommunicationService::Initialize(const sf::ClientProcessId &client_process_id)"
          ∷ codes "R_TRY(lanDiscovery.initialize([&](){"
          ∷ codes
              "Result ICommunicationService::GetIpv4Address(sf::Out<u32> address, sf::Out<u32> netmask)"
          ∷ codes
              "nifmGetCurrentIpConfigInfo(address.GetPointer(), netmask.GetPointer(), &gateway, &primary_dns, &secondary_dns);"
          ∷ [],
    )
    ∷ (
      codes "ldnmitm_main.cpp",
      codes "R_ABORT_UNLESS(log::Initialize());"
          ∷ codes "LogFormat(\"main\");"
          ∷ codes
              "R_ABORT_UNLESS((mitm::g_server_manager.RegisterMitmServer<mitm::ldn::LdnMitMService>(0, MitmServiceName)));"
          ∷ codes "LogFormat(\"registered\");"
          ∷ [],
    )
    ∷ []
