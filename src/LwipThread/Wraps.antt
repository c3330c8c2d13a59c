-- ===== src/LwipThread/Wraps.antt =====
-- A call of the driver is wrapped once.
use switch_ldn_zt.Base.{ℕ, true, ◌≡◌, take, inl, inr, Bool-cases}
use switch_ldn_zt.Text.{Text, codes, contains}
use switch_ldn_zt.Text.Occurs.{contains-append, contains-right, contains-part}
use switch_ldn_zt.Script.{ok}
use switch_ldn_zt.Script.Outcome.Laws.{bind-ok, ok-injective}
use switch_ldn_zt.LwipThread.Places.{slice, line_start, indent_of}
use switch_ldn_zt.LwipThread.VirtualTap.{
  trace_line, before_call, call_token, wrap_call, wrap_first_call,
}

token-trace_line :
    (indent label : Text)
    → contains (call_token label) (trace_line indent (codes "BEFORE_") label) ≡ true
unfolding codes
token-trace_line indent label =
    contains-right (call_token label) indent _
      (contains-append (codes "printf(\"") (call_token label) (codes "\\n\");\n"))

token-wrap_call :
    (label : Text) (place semi : ℕ) (src : Text)
    → contains (call_token label) (wrap_call label place semi src) ≡ true
unfolding wrap_call
token-wrap_call label place semi src =
    let line = line_start place src in
    let indent = indent_of (slice line place src) in
    contains-part (call_token label) (take line src) (before_call indent label) _ (
      contains-part (call_token label) (codes "#ifdef __SWITCH__\n")
        (trace_line indent (codes "BEFORE_") label) _ (token-trace_line indent label))

-- What `wrap_first_call` makes of a text holds the line printed before the call, so that a second
-- call of the helper for the same label leaves the text as it is.
pub wrap_first_call_twice :
    (name label src : Text) {t : Text}
    → wrap_first_call name label src ≡ ok t
    → (contains (call_token label) t ≡ true) × (wrap_first_call name label t ≡ ok t)
unfolding wrap_first_call
wrap_first_call_twice name label src {t} h = (there, rw there)
  where
    there : contains (call_token label) t ≡ true
    there = elim (Bool-cases (contains (call_token label) src)) [
      | inl before ↦ let same : src ≡ t = ok-injective (rw before at h) in rw (← same) before
      | inr new ↦
          let (place, _, h1) = bind-ok _ _ (rw new at h) in
          let (close, _, h2) = bind-ok _ _ h1 in
          let (semi, _, h3) = bind-ok _ _ h2 in
          rw (← ok-injective h3) (token-wrap_call label place semi src)
    ]
