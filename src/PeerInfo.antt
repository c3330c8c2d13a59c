-- ===== src/PeerInfo.antt =====
-- scripts/patch-zt-peer-info-struct.py: libzt copies a peer field by field, not by `memcpy`.
pub mod Blocks
pub mod Runs
use switch_ldn_zt.Base.{Bool, true, false, not, List, [], ◌∷◌, ◌==◌, if◌then◌else◌}
use switch_ldn_zt.Text.{Text, codes, contains, count, replace_first, strip}
use switch_ldn_zt.Disk.{FilePath}
use switch_ldn_zt.Script.{Message, Script, file, num, ◌>>=◌, ◌>>◌, require}
use switch_ldn_zt.Walk.{Verdict, pass, finish, rewrite_raw, abort, Body, walk}
use switch_ldn_zt.PeerInfo.Blocks.{old_copy, new_copy}

-- the loop over `NodeService.cpp`
unfoldable pub peer_info_body : Body
peer_info_body path s =
    if contains (strip new_copy) s
    then finish
        (record { format = "Peer-info struct copy already patched: {path}"; args = file path ∷ [] })
    else if contains old_copy s
    then if not (count old_copy s == 1)
      then abort (record {
        format = "ERROR: expected one peer-info memcpy block in {path}, found {s.count(old)}";
        args = file path ∷ num (count old_copy s) ∷ [];
      })
      else rewrite_raw (replace_first old_copy new_copy s) (record {
        format =
            "Fixed ZT_Peer -> zts_peer_info_t field-by-field copy (was a mismatched-layout memcpy): {path}";
        args = file path ∷ [];
      })
    else pass

unfoldable pub peer_info : Script Unit
peer_info = do
  found ← walk (codes "libzt") (codes "NodeService.cpp") peer_info_body
  require found "ERROR: could not find the peer-info memcpy block in any NodeService.cpp" []
