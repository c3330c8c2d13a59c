-- ===== src/Phy.antt =====
-- scripts/patch-switch-phy.py: traces of what libzt receives, and its checksum setting.
pub mod Texts
pub mod Setting
pub mod Node
pub mod Header
pub mod Traces
pub mod Runs
pub mod Twice
pub use switch_ldn_zt.Script.Edits.{Edited, edited, refused, then_edit}
use switch_ldn_zt.Base.{
  ℕ, ◌+◌, String, Bool, true, false, not, ◌&&◌, ◌||◌, Option, none, some, List, [], ◌∷◌, ◌++◌, take,
  drop, ◌==◌, if◌then◌else◌,
}
use switch_ldn_zt.Text.{Text, codes, contains, count, find?, find_from?, replace_first}
use switch_ldn_zt.Disk.{FilePath}
use switch_ldn_zt.Script.{Message, Script, file, shown, num, ◌>>=◌, ◌>>◌, require}
use switch_ldn_zt.Walk.{Verdict, pass, finish, rewrite, abort, Body, walk}
use switch_ldn_zt.Phy.Texts.{
  unchecked, checked, rx_mark, stdlib_include, stdio_block, datagram_marker, rx_trace, recv_mark,
  string_include, recv_target, recv_trace, udp_marker, ready_trace,
}

unfoldable pub set_checked : FilePath → Text → Edited
set_checked path s =
    if contains unchecked s
    then if not (count unchecked s == 1)
      then refused (record {
        format = "ERROR: expected one {needle} in {path}, found {s.count(needle)}";
        args = shown unchecked ∷ file path ∷ num (count unchecked s) ∷ [];
      })
      else edited (replace_first unchecked checked s)
    else edited s

unfoldable pub include_stdio : Text → Text
include_stdio s =
    if contains stdlib_include s && not (contains stdio_block s)
    then replace_first stdlib_include (stdlib_include ++ (stdio_block ++ codes "\n")) s
    else s

abbrev pub at_brace : FilePath → Text → Option ℕ → Edited
at_brace path s none =
    refused
      (record { format = "ERROR: phyOnDatagram() body not found in {path}"; args = file path ∷ [] })
at_brace path s (some body) = edited (take body s ++ (rx_trace ++ drop (body + 1) s))

abbrev pub at_marker : FilePath → Text → Option ℕ → Edited
at_marker path s none =
    refused
      (record { format = "ERROR: phyOnDatagram() not found in {path}"; args = file path ∷ [] })
at_marker path s (some p) = at_brace path s (find_from? p (codes "{") s)

unfoldable pub insert_trace : FilePath → Text → Edited
insert_trace path s = at_marker path s (find? datagram_marker s)

-- the instrumentation of `phyOnDatagram`
unfoldable pub trace_rx : FilePath → Text → Edited
trace_rx path s = if contains rx_mark s then edited s else insert_trace path (include_stdio s)

abbrev pub end_with : FilePath → String → Edited → Verdict
end_with path format (edited s) = rewrite s (record { format = format; args = file path ∷ [] })
end_with path format (refused msg) = abort msg

-- the loop over `NodeService.cpp`
unfoldable pub node_body : Body
node_body path s =
    end_with path "Switch PHY patch applied to active NodeService: {path}"
      (then_edit (set_checked path s) (trace_rx path))

-- The edits of `Phy.hpp`, one after the other.
unfoldable pub include_stdio_here : FilePath → Text → Edited
include_stdio_here path s =
    if contains stdio_block s
    then edited s
    else if not (contains string_include s)
    then refused
        (record { format = "ERROR: include marker not found in {path}"; args = file path ∷ [] })
    else edited (replace_first string_include (string_include ++ (stdio_block ++ codes "\n")) s)

unfoldable pub trace_recv : FilePath → Text → Edited
trace_recv path s =
    if not (contains recv_target s)
    then refused (record {
      format = "ERROR: active recvfrom() statement not found in {path}";
      args = file path ∷ [];
    })
    else edited (replace_first recv_target (recv_target ++ recv_trace) s)

unfoldable pub trace_ready : FilePath → Text → Edited
trace_ready path s =
    if not (contains udp_marker s)
    then refused (record {
      format = "ERROR: UDP poll case marker not found in {path}";
      args = file path ∷ [];
    })
    else edited (replace_first udp_marker (udp_marker ++ ready_trace) s)

-- What tells the header of ZeroTier's sockets from others of its name.
unfoldable pub is_phy : Text → Bool
is_phy s =
    contains (codes "udpBind(") s
    && contains (codes "recvfrom(") s
    && contains (codes "phyOnDatagram") s

-- the loop over `Phy.hpp`
unfoldable pub header_body : Body
header_body path s =
    if not (is_phy s)
    then pass
    else if contains recv_mark s
    then finish (record {
      format = "Switch PHY receive trace already present: {path}";
      args = file path ∷ [];
    })
    else end_with path "Switch PHY select/recv trace applied: {path}"
        (then_edit (then_edit (include_stdio_here path s) (trace_recv path)) (trace_ready path))

unfoldable pub phy : Script Unit
phy = do
  patched ← walk (codes "libzt") (codes "NodeService.cpp") node_body
  require patched "ERROR: could not find active libzt NodeService.cpp" []
  phy_found ← walk (codes "libzt") (codes "Phy.hpp") header_body
  require phy_found "ERROR: active libzt Phy.hpp not found" []
