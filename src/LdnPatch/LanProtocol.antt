-- ===== src/LdnPatch/LanProtocol.antt =====
-- The edits of ldn_mitm's `lan_protocol.cpp`, in the script's order.
use switch_ldn_zt.Base.{List, [], ◌∷◌}
use switch_ldn_zt.Text.{codes, rows}
use switch_ldn_zt.Disk.{FilePath}
use switch_ldn_zt.LdnPatch.Edit.{Edit, one}

abbrev pub lan_protocol : FilePath
lan_protocol = codes "ldn_mitm/ldn_mitm/source/lan_protocol.cpp"

abbrev pub lan_protocol_edits : List Edit
lan_protocol_edits =
    (one (codes "#include <stratosphere.hpp>\n")
      (rows ("#include <stratosphere.hpp>" ∷ "#include \"zt_bridge.hpp\"" ∷ "" ∷ [])))
    ∷ (one
        (rows (
          "    struct pollfd pfds[nfds];" ∷ "    for (size_t i = 0; i < nfds; i++) {"
          ∷ "        pfds[i].fd = fds[i] ? fds[i]->getFd() : -1;"
          ∷ "        pfds[i].events = POLLIN;" ∷ "        pfds[i].revents = 0;" ∷ "    }"
          ∷ "    int rc = poll(pfds, nfds, timeout);" ∷ []))
        (rows (
          "    ztbridge::PollFd pfds[nfds];" ∷ "    for (size_t i = 0; i < nfds; i++) {"
          ∷ "        pfds[i].fd = fds[i] ? fds[i]->getFd() : -1;"
          ∷ "        pfds[i].events = ZT_POLLIN;" ∷ "        pfds[i].revents = 0;" ∷ "    }"
          ∷ "    int rc = ztbridge::poll(pfds, nfds, timeout);" ∷ [])))
    ∷ (one (codes "        const struct pollfd &pfd = pfds[i];")
        (codes "        const ztbridge::PollFd &pfd = pfds[i];"))
    ∷ (one (codes "if (pfd.revents & (POLLERR | POLLHUP))")
        (codes "if (pfd.revents & (ZT_POLLERR | ZT_POLLHUP | ZT_POLLNVAL))"))
    ∷ (one (codes "else if (pfd.revents & (POLLIN | POLLPRI))")
        (codes "else if (pfd.revents & (ZT_POLLIN | ZT_POLLPRI))"))
    ∷ (one (codes "        ::close(this->fd);") (codes "        ztbridge::close(this->fd);"))
    ∷ (one (codes "    auto rc = ::recvfrom(this->fd, buf, len, 0, nullptr, 0);")
        (codes "    auto rc = ztbridge::recv(this->fd, buf, len);"))
    ∷ (one (codes "    return ::sendto(this->fd, buf, len, 0, nullptr, 0);")
        (codes "    return ztbridge::send(this->fd, buf, len);"))
    ∷ (one
        (rows (
          "    socklen_t addr_len = sizeof(*addr);"
          ∷ "    return ::recvfrom(this->fd, buf, len, 0, (struct sockaddr *)addr, &addr_len);"
          ∷ []))
        (rows ("    AMS_UNUSED(addr);" ∷ "    return ztbridge::recv(this->fd, buf, len);" ∷ [])))
    ∷ (one
        (codes
          "    return ::sendto(this->fd, buf, len, 0, (struct sockaddr *)addr, sizeof(*addr));")
        (codes "    return ztbridge::sendto(this->fd, buf, len, addr);"))
    ∷ []
