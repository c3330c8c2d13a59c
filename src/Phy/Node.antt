-- ===== src/Phy/Node.antt =====
-- What a round over `NodeService.cpp` leaves in the file.
use switch_ldn_zt.Base.{
  ◌+◌, String, true, false, not, ◌&&◌, none, some, [], ◌∷◌, ◌++◌, ◌≡◌, refl, sym, ap, ◌∙◌, inl, inr,
  arith, take, drop, take-length-append, length-append, append_assoc, drop-length-append,
  Bool-cases, Option-cases, All-append_left, All-append_right, length,
}
use switch_ldn_zt.Text.{Text, codes, rows, contains, find?, find_from?}
use switch_ldn_zt.Text.Occurs.{contains-append, contains_trans}
use switch_ldn_zt.Text.Marked.{Lacks}
use switch_ldn_zt.Text.Barrier.{find_from?-splits}
use switch_ldn_zt.Text.Newlines.{NoCr, NoCr-append, replace_first-NoCr}
use switch_ldn_zt.Disk.{FilePath}
use switch_ldn_zt.Script.{Message}
use switch_ldn_zt.Walk.{finish, rewrite_raw, rewrite}
use switch_ldn_zt.Walk.Reaches.{Reaches}
use switch_ldn_zt.Phy.{
  Edited, edited, refused, then_edit, set_checked, include_stdio, at_brace, at_marker, insert_trace,
  trace_rx, end_with, node_body,
}
use switch_ldn_zt.Phy.Setting.{
  needle, unchecked-barrier, unchecked-block, blocks-clean, inner, two_includes, rx_trace-block,
  set_checked-edits, included-unchecked,
}
use switch_ldn_zt.Phy.Texts.{
  unchecked, rx_mark, stdlib_include, stdio_block, datagram_marker, rx_trace,
}

include_stdio-unchecked : (s : Text) → contains unchecked (include_stdio s) ≡ contains unchecked s
unfolding include_stdio
include_stdio-unchecked s = ground (arith, included-unchecked s)

two_includes-NoCr : NoCr two_includes
unfolding codes rows
two_includes-NoCr = omega arith

include_stdio-NoCr : (s : Text) → NoCr s → NoCr (include_stdio s)
unfolding include_stdio
include_stdio-NoCr s clean =
    elim (Bool-cases (contains stdlib_include s && not (contains stdio_block s))) [
      | inl both ↦
          rw both (replace_first-NoCr stdlib_include two_includes s two_includes-NoCr clean)
      | inr skip ↦ rw skip clean
    ]

drop_past : (pre post : Text) → drop (length pre + 1) (pre ++ b'{' ∷ post) ≡ post
drop_past pre post =
    rw (← length-append pre (b'{' ∷ []), ← append_assoc pre (b'{' ∷ []) post)
      (drop-length-append (pre ++ b'{' ∷ []) post)

pub insert_trace-edits :
    (p : FilePath) (s : Text) {t : Text}
    → insert_trace p s ≡ edited t
    → (pre : Text) × (post : Text) × (s ≡ pre ++ b'{' ∷ post) × (t ≡ pre ++ (rx_trace ++ post))
unfolding insert_trace codes
insert_trace-edits p s {t} h = elim (Option-cases (find? datagram_marker s)) [
  | inl gone ↦ let bad : at_marker p s none ≡ edited t = rw gone at h in cc
  | inr (i, found) ↦ elim (Option-cases (find_from? i (codes "{") s)) [
    | inl gone ↦ let bad : at_brace p s none ≡ edited t = rw (found, gone) at h in cc
    | inr (b, brace) ↦
        let e : at_brace p s (some b) ≡ edited t = rw (found, brace) at h in
        let (pre, post, splits, size) = find_from?-splits i (codes "{") s brace in
        let start : take b s ≡ pre = rw (splits, ← size) (take-length-append pre _) in
        let rest : drop (b + 1) s ≡ post = rw (splits, ← size) (drop_past pre post) in
        (pre, post, splits, ground (arith, start, rest))
  ]
]

rx_trace-marked : contains rx_mark rx_trace ≡ true
unfolding codes rows contains
rx_trace-marked = refl

rx_trace-NoCr : NoCr rx_trace
unfolding codes rows
rx_trace-NoCr = omega arith

-- What the script wants of a `NodeService.cpp`.
pub record IsTraced (t : Text) : Type 0 where
  pub no_unchecked : contains unchecked t ≡ false
  pub traced : contains rx_mark t ≡ true

-- The trace takes the place of a brace, and brings no old setting.
insert_trace-unchecked :
    (p : FilePath) (s : Text) {t : Text}
    → insert_trace p s ≡ edited t
    → contains unchecked t ≡ contains unchecked s
insert_trace-unchecked p s {t} h =
    let (pre, post, before, after) = insert_trace-edits p s h in
    let lacks : Lacks b'{' (b'_' ∷ needle) = unfold codes in omega arith in
    ap (contains unchecked) (after ∙ ap (λ u. pre ++ u) (rx_trace-block post))
    ∙ unchecked-block b'{' (inner rx_trace) lacks blocks-clean.2 pre post
    ∙ sym (unchecked-barrier lacks pre post)
    ∙ ap (contains unchecked) (sym before)

insert_trace-IsTraced :
    (p : FilePath) (s : Text) {t : Text}
    → contains unchecked s ≡ false
    → NoCr s
    → insert_trace p s ≡ edited t
    → NoCr t × IsTraced t
insert_trace-IsTraced p s {t} gone clean h =
    let (pre, post, before, after) = insert_trace-edits p s h in
    let parts : NoCr (pre ++ b'{' ∷ post) = rw before at clean in
    let clean_pre = All-append_left _ pre (b'{' ∷ post) parts in
    let clean_post = (All-append_right _ pre (b'{' ∷ post) parts).1 in
    (
      rw after (
          NoCr-append pre (rx_trace ++ post) clean_pre
            (NoCr-append rx_trace post rx_trace-NoCr clean_post)),
      record {
        no_unchecked = insert_trace-unchecked p s h ∙ gone;
        traced = rw after (
            contains_trans rx_mark rx_trace (pre ++ (rx_trace ++ post)) rx_trace-marked
              (contains-append pre rx_trace post));
      },
    )

trace_rx-IsTraced :
    (p : FilePath) (s : Text) {t : Text}
    → contains unchecked s ≡ false
    → NoCr s
    → trace_rx p s ≡ edited t
    → NoCr t × IsTraced t
unfolding trace_rx
trace_rx-IsTraced p s {t} gone clean h = elim (Bool-cases (contains rx_mark s)) [
  | inl marked ↦
      let same : s ≡ t = ground arith in
      (rw (← same) clean, record { no_unchecked = rw (← same) gone; traced = rw (← same) marked })
  | inr fresh ↦
      let went : insert_trace p (include_stdio s) ≡ edited t = ground arith in
      insert_trace-IsTraced p (include_stdio s) (include_stdio-unchecked s ∙ gone)
        (include_stdio-NoCr s clean) went
]

pub then_edit-edits :
    (r : Edited) (f : Text → Edited) {t : Text}
    → then_edit r f ≡ edited t
    → (s : Text) × (r ≡ edited s) × (f s ≡ edited t)
then_edit-edits (edited s) f h = (s, refl, h)
then_edit-edits (refused msg) f h = cc

pub end_with-rewrites :
    (p : FilePath) (format : String) (r : Edited) {t : Text} {msg : Message}
    → end_with p format r ≡ rewrite t msg
    → r ≡ edited t
end_with-rewrites p format (edited s) h = ground arith
end_with-rewrites p format (refused msg) h = cc

pub end_with-other :
    (p : FilePath) (format : String) (r : Edited) {t : Text} {msg : Message}
    → ((end_with p format r ≡ rewrite_raw t msg) → ⊥) × ((end_with p format r ≡ finish msg) → ⊥)
end_with-other p format (edited s) = (λ h. cc, λ h. cc)
end_with-other p format (refused msg) = (λ h. cc, λ h. cc)

pub node_body-Reaches : Reaches node_body IsTraced
unfolding node_body
node_body-Reaches = record {
  raw = λ p s t msg clean h. absurd ((end_with-other p _ _).0 h);
  cooked = λ p s t msg clean h.
      let (u, set, traced) = then_edit-edits (set_checked p s) _ (end_with-rewrites p _ _ h) in
      let (gone, clean_u) = set_checked-edits p s clean set in
      trace_rx-IsTraced p u gone clean_u traced;
  finished = λ p s msg h. absurd ((end_with-other p _ _ {t = s}).1 h);
}
