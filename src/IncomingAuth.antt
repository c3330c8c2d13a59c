-- ===== src/IncomingAuth.antt =====
-- scripts/patch-incoming-auth-trace.py: traces of the packets that libzt rejects and receives.
pub mod Texts
pub mod Edits
pub mod Runs
use switch_ldn_zt.Base.{Bool, Option, none, some, List, [], ◌∷◌, ◌++◌, not, if◌then◌else◌}
use switch_ldn_zt.Text.{Text, codes, contains, replace_first}
use switch_ldn_zt.Disk.{FilePath}
use switch_ldn_zt.Script.{Script, file, ◌>>=◌, ◌>>◌, exit, print, list_files}
use switch_ldn_zt.Script.Edits.{
  Edited, edited, refused, then_edit, edit_file, subn_or, replace_at, unless, never,
}
use switch_ldn_zt.IncomingAuth.Texts.{
  stdio_line, trace_hpp, metrics_hpp, reject_mark, dearmor_pat, failure_call, reject_trace,
  received_mark, receive_anchor, receive_trace,
}

abbrev pub first_path : List FilePath → Option FilePath
first_path [] = none
first_path (p ∷ ps) = some p

-- Its message names `IncomingPacket.cpp`, whichever file is edited.
unfoldable pub add_stdio : FilePath → Text → Text → Edited
add_stdio incoming marker s =
    if contains stdio_line s
    then edited s
    else if not (contains marker s)
    then refused (record {
      format = "ERROR: include anchor not found in {incoming}";
      args = file incoming ∷ [];
    })
    else edited (replace_first marker (marker ++ codes "#include <stdio.h>\n") s)

-- the replacement in the block that was matched
unfoldable pub trace_block : Text → Text
trace_block block = replace_first failure_call (reject_trace ++ failure_call) block

unfoldable pub trace_reject : Text → Edited
trace_reject s =
    unless (contains reject_mark)
      (subn_or dearmor_pat trace_block never "ERROR: current invalid-MAC/dearmor block not found") s

unfoldable pub edit_incoming : FilePath → Text → Edited
edit_incoming incoming s = then_edit (add_stdio incoming trace_hpp s) trace_reject

unfoldable pub trace_receive : Text → Edited
trace_receive s =
    unless (contains received_mark)
      (replace_at receive_anchor receive_trace never
        "ERROR: Peer::received() lastReceive anchor not found")
      s

unfoldable pub edit_peer : FilePath → Text → Edited
edit_peer incoming s = then_edit (add_stdio incoming metrics_hpp s) trace_receive

unfoldable pub trace_files : Option FilePath → Option FilePath → Script Unit
trace_files none peer = exit "ERROR: active libzt IncomingPacket.cpp not found" []
trace_files (some incoming) none = exit "ERROR: active libzt Peer.cpp not found" []
trace_files (some incoming) (some peer) = do
  edit_file incoming (edit_incoming incoming)
  edit_file peer (edit_peer incoming)
  print "IncomingPacket trace applied: {incoming}" (file incoming ∷ [])
  print "Peer receive trace applied: {peer_cpp}" (file peer ∷ [])

unfoldable pub incoming_auth : Script Unit
incoming_auth = do
  incomings ← list_files (codes "libzt") (codes "IncomingPacket.cpp")
  peers ← list_files (codes "libzt") (codes "Peer.cpp")
  trace_files (first_path incomings) (first_path peers)
