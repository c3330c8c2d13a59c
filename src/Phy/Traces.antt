-- ===== src/Phy/Traces.antt =====
-- What a round makes of the text that it read: the traces, whole, unless their marks stood there.
use switch_ldn_zt.Base.{true, false, ◌++◌, ◌≡◌, ◌⊎◌, refl, inl, inr, arith, Bool-cases}
use switch_ldn_zt.Text.{Text, contains, replace_first}
use switch_ldn_zt.Text.Occurs.{contains-append, contains-replace_first}
use switch_ldn_zt.Disk.{FilePath}
use switch_ldn_zt.Walk.Turns.{Turns}
use switch_ldn_zt.Phy.{
  edited, then_edit, set_checked, include_stdio, insert_trace, trace_rx, include_stdio_here,
  trace_recv, trace_ready, is_phy, node_body, header_body,
}
use switch_ldn_zt.Phy.Setting.{set_checked-replaces}
use switch_ldn_zt.Phy.Node.{
  insert_trace-edits, then_edit-edits, end_with-rewrites, end_with-other, node_body-Reaches,
}
use switch_ldn_zt.Phy.Header.{
  edits, header_body-rewrites, header_body-raw, header_body-finished, header_body-Reaches,
}
use switch_ldn_zt.Phy.Texts.{
  unchecked, checked, rx_mark, rx_trace, recv_mark, recv_target, recv_trace, udp_marker,
  ready_trace,
}

-- The text with the setting that switches the checksum on.
abbrev pub with_checked : Text → Text
with_checked s = replace_first unchecked checked s

-- What becomes of a `NodeService.cpp`: it is left with its new setting if it has the mark of the
-- trace, and holds the trace otherwise.
pub record GetsTrace (s t : Text) : Type 0 where
  pub no_unchecked : contains unchecked t ≡ false
  pub traced :
      ((contains rx_mark (with_checked s) ≡ true) × (t ≡ with_checked s))
      ⊎ (contains rx_trace t ≡ true)

insert_trace-holds :
    (p : FilePath) (s : Text) {t : Text} → insert_trace p s ≡ edited t → contains rx_trace t ≡ true
insert_trace-holds p s h =
    let (pre, post, _, after) = insert_trace-edits p s h in
    rw after (contains-append pre rx_trace post)

trace_rx-traces :
    (p : FilePath) (s : Text) {t : Text}
    → trace_rx p s ≡ edited t
    → ((contains rx_mark s ≡ true) × (t ≡ s)) ⊎ (contains rx_trace t ≡ true)
unfolding trace_rx
trace_rx-traces p s {t} h = elim (Bool-cases (contains rx_mark s)) [
  | inl marked ↦ inl (marked, ground arith)
  | inr fresh ↦ inr (insert_trace-holds p (include_stdio s) (ground arith))
]

pub node_body-Turns : Turns node_body GetsTrace
unfolding node_body
node_body-Turns = record {
  raw = λ p s t msg clean h. absurd ((end_with-other p _ _).0 h);
  cooked = λ p s t msg clean h.
      let (u, set, traced) = then_edit-edits (set_checked p s) _ (end_with-rewrites p _ _ h) in
      let (clean_t, good) = node_body-Reaches.cooked p s t msg clean h in
      (
        clean_t,
        record {
          no_unchecked = good.no_unchecked;
          traced = rw (← set_checked-replaces p s set) (trace_rx-traces p u traced);
        },
      );
  finished = λ p s msg h. absurd ((end_with-other p _ _ {t = s}).1 h);
}

-- What becomes of a `Phy.hpp`: it is left alone if it has the mark of the receive trace. Otherwise
-- that trace is put behind the receive statement, and then the other one behind the UDP case.
pub record GetsTraces (s t : Text) : Type 0 where
  pub is_header : is_phy t ≡ true
  pub traced :
      ((contains recv_mark s ≡ true) × (t ≡ s))
      ⊎ ((v : Text) × (contains (recv_target ++ recv_trace) v ≡ true)
          × (contains udp_marker v ≡ true)
          × (t ≡ replace_first udp_marker (udp_marker ++ ready_trace) v))

trace_recv-holds :
    (p : FilePath) (s : Text) {t : Text}
    → trace_recv p s ≡ edited t
    → contains (recv_target ++ recv_trace) t ≡ true
unfolding trace_recv
trace_recv-holds p s {t} h =
    let hit : contains recv_target s ≡ true = ground arith in
    let same : replace_first recv_target (recv_target ++ recv_trace) s ≡ t = ground arith in
    rw (← same) (contains-replace_first recv_target (recv_target ++ recv_trace) s hit)

trace_ready-replaces :
    (p : FilePath) (s : Text) {t : Text}
    → trace_ready p s ≡ edited t
    → (contains udp_marker s ≡ true) × (t ≡ replace_first udp_marker (udp_marker ++ ready_trace) s)
unfolding trace_ready
trace_ready-replaces p s h = ground arith

edits-trace :
    (p : FilePath) (s : Text) {t : Text}
    → edits p s ≡ edited t
    → (v : Text) × (contains (recv_target ++ recv_trace) v ≡ true)
      × (contains udp_marker v ≡ true)
      × (t ≡ replace_first udp_marker (udp_marker ++ ready_trace) v)
edits-trace p s h =
    let (v, both, third) =
      then_edit-edits (then_edit (include_stdio_here p s) (trace_recv p)) _ h in
    let (u, _, second) = then_edit-edits (include_stdio_here p s) _ both in
    let (case, made) = trace_ready-replaces p v third in
    (v, trace_recv-holds p u second, case, made)

pub header_body-Turns : Turns header_body GetsTraces
header_body-Turns = record {
  raw = λ p s t msg clean h. absurd (header_body-raw p s h);
  cooked = λ p s t msg clean h.
      let (_, rest) = header_body-rewrites p s h in
      let (clean_t, good) = header_body-Reaches.cooked p s t msg clean h in
      (
        clean_t,
        record {
          is_header = good.is_header;
          traced = inr (edits-trace p s (end_with-rewrites p _ (edits p s) rest));
        },
      );
  finished = λ p s msg h.
      let (phy, marked) = header_body-finished p s h in
      record { is_header = phy; traced = inl (marked, refl) };
}
