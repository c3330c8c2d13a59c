-- ===== src/Restore.antt =====
-- scripts/restore-zt-udp-checksum.py: the checksum setting of libzt's UDP sockets.
pub mod Runs
pub mod RoundTrip
use switch_ldn_zt.Base.{Bool, true, false, List, [], ◌∷◌, if◌then◌else◌}
use switch_ldn_zt.Text.{Text, codes, contains, replace_first}
use switch_ldn_zt.Disk.{FilePath}
use switch_ldn_zt.Script.{Message, Script, file, ◌>>=◌, ◌>>◌, require, print}
use switch_ldn_zt.Walk.{Verdict, pass, finish, rewrite, Body, walk}

abbrev pub libzt : FilePath
libzt = codes "libzt"

abbrev pub node_service : Text
node_service = codes "NodeService.cpp"

abbrev pub checked : Text
checked = codes "_phy(this, false, false)"

abbrev pub unchecked : Text
unchecked = codes "_phy(this, false, true)"

-- the loop over `NodeService.cpp`
unfoldable pub restore_body : Body
restore_body path s =
    if contains checked s
    then rewrite (replace_first checked unchecked s) (record {
      format = "Restored upstream UDP checksum setting in {path}: noCheck=true";
      args = file path ∷ [];
    })
    else if contains unchecked s
    then finish (record {
      format = "UDP checksum setting already restored in {path}: noCheck=true";
      args = file path ∷ [];
    })
    else pass

unfoldable pub restore : Script Unit
restore = do
  found ← walk libzt node_service restore_body
  require found "ERROR: active libzt NodeService.cpp not found or PHY constructor not recognized" []
  print "IncomingPacket auth trace: disabled for green-build baseline" []
