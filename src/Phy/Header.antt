-- ===== src/Phy/Header.antt =====
-- What a round over `Phy.hpp` leaves in the file.
use switch_ldn_zt.Base.{
  ℕ, ◌-◌, true, [], ◌∷◌, ◌++◌, ◌≡◌, refl, inl, inr, arith, length, take, Bool-cases,
}
use switch_ldn_zt.Text.{Text, codes, rows, contains, replace_first}
use switch_ldn_zt.Text.Occurs.{contains-replace_first, contains_trans}
use switch_ldn_zt.Text.Marked.{Lacks}
use switch_ldn_zt.Text.Barrier.{contains-insert}
use switch_ldn_zt.Text.Newlines.{NoCr, replace_first-NoCr}
use switch_ldn_zt.Disk.{FilePath}
use switch_ldn_zt.Script.{Message}
use switch_ldn_zt.Walk.{Verdict, finish, rewrite_raw, rewrite}
use switch_ldn_zt.Walk.Reaches.{Reaches}
use switch_ldn_zt.Phy.{
  Edited, edited, then_edit, include_stdio_here, trace_recv, trace_ready, is_phy, end_with,
  header_body,
}
use switch_ldn_zt.Phy.Node.{then_edit-edits, end_with-rewrites, end_with-other}
use switch_ldn_zt.Phy.Texts.{
  stdio_block, string_include, recv_mark, recv_target, recv_trace, udp_marker, ready_trace,
}

-- The texts that the script looks for in the header begin with these characters and end a line.
abbrev cut : Text → Text
cut s = take (length s - 1) s

lines-cut :
    (string_include ≡ cut string_include ++ b'\n' ∷ [])
    × (recv_target ≡ cut recv_target ++ b'\n' ∷ [])
    × (udp_marker ≡ cut udp_marker ++ b'\n' ∷ [])
unfolding codes rows
lines-cut = (refl, refl, refl)

-- `t` is `s` with a text put behind a line, or `s` itself.
abbrev Keeps : Text → Text → Type 0
Keeps s t =
    (c : ℕ) (o : Text) → Lacks b'\n' (c ∷ o) → contains (c ∷ o) s ≡ true → contains (c ∷ o) t ≡ true

insert-Keeps :
    (line new s : Text)
    → line ≡ cut line ++ b'\n' ∷ []
    → Keeps s (replace_first line (line ++ new) s)
insert-Keeps line new s e c o lacks h = rw e (contains-insert c o b'\n' (cut line) new s lacks h)

-- An edit of the header inserts, and leaves no `\r` behind.
abbrev Inserts : (FilePath → Text → Edited) → Type 0
Inserts edit = (p : FilePath) (s t : Text) → NoCr s → edit p s ≡ edited t → NoCr t × Keeps s t

insert-Inserts :
    (line new s : Text) {t : Text}
    → line ≡ cut line ++ b'\n' ∷ []
    → NoCr (line ++ new)
    → NoCr s
    → replace_first line (line ++ new) s ≡ t
    → NoCr t × Keeps s t
insert-Inserts line new s {t} e clean_new clean same = (
  rw (← same) (replace_first-NoCr line (line ++ new) s clean_new clean),
  λ c o lacks h. rw (← same) (insert-Keeps line new s e c o lacks h),
)

news-NoCr :
    NoCr (string_include ++ (stdio_block ++ codes "\n"))
    × NoCr (recv_target ++ recv_trace)
    × NoCr (udp_marker ++ ready_trace)
unfolding codes rows
news-NoCr = (omega arith, omega arith, omega arith)

include_stdio_here-Inserts : Inserts include_stdio_here
unfolding include_stdio_here
include_stdio_here-Inserts p s t clean h = elim (Bool-cases (contains stdio_block s)) [
  | inl there ↦
      let same : s ≡ t = ground arith in (rw (← same) clean, λ c o lacks has. rw (← same) has)
  | inr missing ↦ insert-Inserts string_include _ s lines-cut.0 news-NoCr.0 clean (ground arith)
]

trace_recv-Inserts : Inserts trace_recv
unfolding trace_recv
trace_recv-Inserts p s t clean h =
    insert-Inserts recv_target recv_trace s lines-cut.1 news-NoCr.1 clean (ground arith)

trace_ready-Inserts : Inserts trace_ready
unfolding trace_ready
trace_ready-Inserts p s t clean h =
    insert-Inserts udp_marker ready_trace s lines-cut.2 news-NoCr.2 clean (ground arith)

recv_trace-marked : contains recv_mark (recv_target ++ recv_trace) ≡ true
unfolding codes rows contains
recv_trace-marked = refl

trace_recv-marks :
    (p : FilePath) (s : Text) {t : Text} → trace_recv p s ≡ edited t → contains recv_mark t ≡ true
unfolding trace_recv
trace_recv-marks p s {t} h =
    let hit : contains recv_target s ≡ true = ground arith in
    let same : replace_first recv_target (recv_target ++ recv_trace) s ≡ t = ground arith in
    contains_trans recv_mark (recv_target ++ recv_trace) t recv_trace-marked
      (rw (← same) (contains-replace_first recv_target (recv_target ++ recv_trace) s hit))

-- What the script wants of a `Phy.hpp`.
pub record IsInstrumented (t : Text) : Type 0 where
  pub is_header : is_phy t ≡ true
  pub traced : contains recv_mark t ≡ true

Keeps-is_phy : (s t : Text) → Keeps s t → is_phy s ≡ true → is_phy t ≡ true
unfolding is_phy codes
Keeps-is_phy s t keeps h = ground (
  arith,
  keeps b'u' (codes "dpBind(") (omega arith),
  keeps b'r' (codes "ecvfrom(") (omega arith),
  keeps b'p' (codes "hyOnDatagram") (omega arith),
)

Keeps-mark : (s t : Text) → Keeps s t → contains recv_mark s ≡ true → contains recv_mark t ≡ true
unfolding codes
Keeps-mark s t keeps h = keeps b'[' (codes "SWITCH-PHY] UDP recv") (omega arith) h

-- the texts of the three edits, one after the other
abbrev pub edits : FilePath → Text → Edited
edits p s = then_edit (then_edit (include_stdio_here p s) (trace_recv p)) (trace_ready p)

edits-IsInstrumented :
    (p : FilePath) (s t : Text)
    → is_phy s ≡ true
    → NoCr s
    → edits p s ≡ edited t
    → NoCr t × IsInstrumented t
edits-IsInstrumented p s t phy clean h =
    let (v, both, third) =
      then_edit-edits (then_edit (include_stdio_here p s) (trace_recv p)) _ h in
    let (u, first, second) = then_edit-edits (include_stdio_here p s) _ both in
    let (clean_u, keeps_u) = include_stdio_here-Inserts p s u clean first in
    let (clean_v, keeps_v) = trace_recv-Inserts p u v clean_u second in
    let (clean_t, keeps_t) = trace_ready-Inserts p v t clean_v third in
    (
      clean_t,
      record {
        is_header =
            Keeps-is_phy v t keeps_t (Keeps-is_phy u v keeps_v (Keeps-is_phy s u keeps_u phy));
        traced = Keeps-mark v t keeps_t (trace_recv-marks p u second);
      },
    )

module _ (p : FilePath) (s : Text) where
  abbrev last : Verdict
  last = end_with p "Switch PHY select/recv trace applied: {path}" (edits p s)

  pub header_body-rewrites :
      {t : Text} {msg : Message}
      → header_body p s ≡ rewrite t msg
      → (is_phy s ≡ true) × (last ≡ rewrite t msg)
  unfolding header_body
  header_body-rewrites h = ground arith

  pub header_body-raw : {t : Text} {msg : Message} → header_body p s ≡ rewrite_raw t msg → ⊥
  unfolding header_body
  header_body-raw {t} {msg} h =
      ground (arith, (end_with-other p _ (edits p s) {t = t} {msg = msg}).0)

  pub header_body-finished :
      {msg : Message}
      → header_body p s ≡ finish msg
      → (is_phy s ≡ true) × (contains recv_mark s ≡ true)
  unfolding header_body
  header_body-finished {msg} h =
      ground (arith, (end_with-other p _ (edits p s) {t = s} {msg = msg}).1)

pub header_body-Reaches : Reaches header_body IsInstrumented
header_body-Reaches = record {
  raw = λ p s t msg clean h. absurd (header_body-raw p s h);
  cooked = λ p s t msg clean h.
      let (phy, rest) = header_body-rewrites p s h in
      edits-IsInstrumented p s t phy clean (end_with-rewrites p _ (edits p s) rest);
  finished = λ p s msg h.
      let (phy, marked) = header_body-finished p s h in record { is_header = phy; traced = marked };
}
