-- ===== src/LdnPatch/Communication.antt =====
-- The edits of ldn_mitm's `ldn_icommunication.cpp`, in the script's order.
use switch_ldn_zt.Base.{List, [], ◌∷◌}
use switch_ldn_zt.Text.{codes, rows}
use switch_ldn_zt.Disk.{FilePath}
use switch_ldn_zt.LdnPatch.Edit.{Edit, one, function}

abbrev pub communication : FilePath
communication = codes "ldn_mitm/ldn_mitm/source/ldn_icommunication.cpp"

abbrev pub communication_edits : List Edit
communication_edits =
    (one (codes "#include <arpa/inet.h>\n")
      (rows ("#include <arpa/inet.h>" ∷ "#include \"zt_bridge.hpp\"" ∷ "" ∷ [])))
    ∷ (one (codes "        R_TRY(lanDiscovery.initialize([&](){") (
        rows (
          "        Result zt_rc = ztbridge::init();" ∷ "        if (R_FAILED(zt_rc)) {"
          ∷ "            LogFormat(\"LDN-ZT: init failed rc=%x\", zt_rc);"
          ∷ "            return MAKERESULT(0xFD, 0x50);" ∷ "        }" ∷ ""
          ∷ "        R_TRY(lanDiscovery.initialize([&](){" ∷ [])))
    ∷ (function
        (codes
          "    Result ICommunicationService::GetIpv4Address(sf::Out<u32> address, sf::Out<u32> netmask)")
        (rows (
          "{" ∷ "        u32 ztAddress = 0;"
          ∷ "        Result rc = ztbridge::local_ip_host_order(&ztAddress);"
          ∷ "        if (R_FAILED(rc)) {" ∷ "            return rc;" ∷ "        }"
          ∷ "        address.SetValue(ztAddress);" ∷ "        netmask.SetValue(0xFFFFFFFF);"
          ∷ "        LogFormat(\"get_ipv4_address %x %x\", address.GetValue(), netmask.GetValue());"
          ∷ "        return rc;" ∷ "    }" ∷ [])))
    ∷ []
