-- ===== src/LdnPatch/MainCpp.antt =====
-- The edits of ldn_mitm's `ldnmitm_main.cpp`, in the script's order.
use switch_ldn_zt.Base.{List, [], ◌∷◌}
use switch_ldn_zt.Text.{codes, rows}
use switch_ldn_zt.Disk.{FilePath}
use switch_ldn_zt.LdnPatch.Edit.{Edit, one}

abbrev pub main_cpp : FilePath
main_cpp = codes "ldn_mitm/ldn_mitm/source/ldnmitm_main.cpp"

abbrev pub main_cpp_edits : List Edit
main_cpp_edits =
    (one (rows ("        R_ABORT_UNLESS(log::Initialize());" ∷ "        LogFormat(\"main\");" ∷ []))
      (rows (
        "        R_ABORT_UNLESS(log::Initialize());"
        ∷ "        LogFormat(\"LDN-ZT: Main entered\");" ∷ [])))
    ∷ (one
        (rows (
          "        R_ABORT_UNLESS((mitm::g_server_manager.RegisterMitmServer<mitm::ldn::LdnMitMService>(0, MitmServiceName)));"
          ∷ "        LogFormat(\"registered\");" ∷ []))
        (rows (
          "        R_ABORT_UNLESS((mitm::g_server_manager.RegisterMitmServer<mitm::ldn::LdnMitMService>(0, MitmServiceName)));"
          ∷ "        LogFormat(\"LDN-ZT: mitm registered\");" ∷ [])))
    ∷ (one (codes "alignas(0x40) constinit u8 g_heap_memory[128_KB];")
        (codes "alignas(0x40) constinit u8 g_heap_memory[1_MB];"))
    ∷ []
