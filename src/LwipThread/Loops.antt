-- ===== src/LwipThread/Loops.antt =====
-- The two loops at the end: what they make of a file they do not make again.
use switch_ldn_zt.Base.{
  ℕ, ◌+◌, true, Option, none, some, [], ◌++◌, ◌≡◌, refl, arith, take, drop, All-take, All-drop, inl,
  inr, Bool-cases,
}
use switch_ldn_zt.Text.{Text, codes, rows, contains, starts_with, replace_first}
use switch_ldn_zt.Text.Occurs.{contains-right, contains_trans, contains-replace_first}
use switch_ldn_zt.Text.Newlines.{NoCr, NoCr-append, replace_first-NoCr}
use switch_ldn_zt.Disk.{FilePath}
use switch_ldn_zt.Script.{Message, ok, Machine, said}
use switch_ldn_zt.Walk.{finish, rewrite_raw, rewrite, walk}
use switch_ldn_zt.Walk.Twice.{Settles, walk-Settled, Settled-walk}
use switch_ldn_zt.Regex.{find_match?}
use switch_ldn_zt.LwipThread.{libzt, clock_name, constants_name}
use switch_ldn_zt.LwipThread.Clock.{
  include_switch_header, with_clock, clock_body, byte_order_body, say,
}
use switch_ldn_zt.LwipThread.Texts.{
  monotonic_mark, now_pat, now_new, byte_order_mark, inline_anchor, byte_order,
}
use switch_ldn_zt.LwipThread.ClockTexts.{
  clean_texts, include_switch_header-NoCr, include_switch_header-mark,
}

with_clock-rewrites :
    (p : FilePath) (s t : Text) (msg : Message) (o : Option (ℕ × ℕ))
    → NoCr s
    → with_clock p s o ≡ rewrite t msg
    → NoCr t × (contains monotonic_mark t ≡ true)
with_clock-rewrites p s t msg none clean h = absurd (cc h)
with_clock-rewrites p s t msg (some (i, n)) clean h =
    let u = take i s ++ (now_new ++ drop (i + n) s) in
    let same : include_switch_header u ≡ t = cc h in
    let whole =
      NoCr-append _ _ (All-take _ i s clean)
        (NoCr-append _ _ clean_texts.0 (All-drop _ (i + n) s clean)) in
    rw (← same) (
      include_switch_header-NoCr u whole,
      include_switch_header-mark u (take i s, drop (i + n) s, refl),
    )

clock_body-rewrites :
    (p : FilePath) (s t : Text) (msg : Message)
    → NoCr s
    → clock_body p s ≡ rewrite t msg
    → NoCr t × (contains monotonic_mark t ≡ true)
unfolding clock_body
clock_body-rewrites p s t msg clean h = elim (Bool-cases (contains monotonic_mark s)) [
  | inl there ↦ absurd (cc (rw there at h))
  | inr new ↦ with_clock-rewrites p s t msg (find_match? now_pat s) clean (rw new at h)
]

with_clock-no_raw :
    (p : FilePath) (s t : Text) (msg : Message) (o : Option (ℕ × ℕ))
    → with_clock p s o ≡ rewrite_raw t msg
    → ⊥
with_clock-no_raw p s t msg none h = cc h
with_clock-no_raw p s t msg (some (i, n)) h = cc h

clock_body-no_raw :
    (p : FilePath) (s t : Text) (msg : Message) → clock_body p s ≡ rewrite_raw t msg → ⊥
unfolding clock_body
clock_body-no_raw p s t msg h = elim (Bool-cases (contains monotonic_mark s)) [
  | inl there ↦ cc (rw there at h)
  | inr new ↦ with_clock-no_raw p s t msg (find_match? now_pat s) (rw new at h)
]

clock_body-finishes :
    (p : FilePath) (t : Text)
    → contains monotonic_mark t ≡ true
    → (told : Message) × (clock_body p t ≡ finish told)
unfolding clock_body
clock_body-finishes p t there =
    (say "OSUtils::now() Switch monotonic patch already present, nothing to do." [], rw there)

clock_body-Settles : Settles clock_body
clock_body-Settles = record {
  raw = λ p s t msg clean h. absurd (clock_body-no_raw p s t msg h);
  cooked = λ p s t msg clean h.
      let (quiet, there) = clock_body-rewrites p s t msg clean h in
      let (told, done) = clock_body-finishes p t there in (quiet, told, done);
}

byte_order-mark : contains byte_order_mark byte_order ≡ true
unfolding contains starts_with codes rows
byte_order-mark = refl

byte_order_body-rewrites :
    (p : FilePath) (s t : Text) (msg : Message)
    → byte_order_body p s ≡ rewrite t msg
    → (contains inline_anchor s ≡ true)
      × (replace_first inline_anchor (inline_anchor ++ byte_order) s ≡ t)
unfolding byte_order_body
byte_order_body-rewrites p s t msg h = ground arith

byte_order_body-no_raw :
    (p : FilePath) (s t : Text) (msg : Message) → byte_order_body p s ≡ rewrite_raw t msg → ⊥
unfolding byte_order_body
byte_order_body-no_raw p s t msg h = ground arith

byte_order_body-finishes :
    (p : FilePath) (t : Text)
    → contains byte_order_mark t ≡ true
    → (told : Message) × (byte_order_body p t ≡ finish told)
unfolding byte_order_body
byte_order_body-finishes p t there =
    (say "Constants.hpp byte-order fix already present, nothing to do." [], rw there)

byte_order_body-Settles : Settles byte_order_body
byte_order_body-Settles = record {
  raw = λ p s t msg clean h. absurd (byte_order_body-no_raw p s t msg h);
  cooked = λ p s t msg clean h.
      let (hit, e) = byte_order_body-rewrites p s t msg h in
      let (_, _, anchor, order) = clean_texts in
      let there : contains byte_order_mark t ≡ true = rw (← e) (
        contains_trans byte_order_mark (inline_anchor ++ byte_order) _
          (contains-right byte_order_mark inline_anchor byte_order byte_order-mark)
          (contains-replace_first inline_anchor (inline_anchor ++ byte_order) s hit)) in
      let (told, done) = byte_order_body-finishes p t there in
      (
        rw (← e)
            (replace_first-NoCr inline_anchor _ s (NoCr-append inline_anchor _ anchor order) clean),
        told,
        done,
      );
}

-- A loop over `OSUtils.hpp` that was left by `break` only prints when it is run again.
pub clock_twice :
    (m : Machine) {m' : Machine}
    → walk libzt clock_name clock_body m ≡ (ok true, m')
    → (told : Message) × (walk libzt clock_name clock_body m' ≡ (ok true, said told m'))
clock_twice m h =
    let st = walk-Settled libzt clock_name clock_body clock_body-Settles m h in
    (st.told, Settled-walk st)

-- A loop over `Constants.hpp` that was left by `break` only prints when it is run again.
pub byte_order_twice :
    (m : Machine) {m' : Machine}
    → walk libzt constants_name byte_order_body m ≡ (ok true, m')
    → (told : Message) × (walk libzt constants_name byte_order_body m' ≡ (ok true, said told m'))
byte_order_twice m h =
    let st = walk-Settled libzt constants_name byte_order_body byte_order_body-Settles m h in
    (st.told, Settled-walk st)
