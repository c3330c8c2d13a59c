-- ===== src/Phy/Setting.antt =====
-- The checksum setting in the texts of a round over `NodeService.cpp`: where it can occur.
use switch_ldn_zt.Base.{
  ℕ, ◌-◌, true, false, ◌||◌, ◌∷◌, ◌++◌, ◌≡◌, refl, sym, ap, ◌∙◌, inl, inr, arith, take, drop,
  Bool-cases, length,
}
use switch_ldn_zt.Text.{Text, codes, rows, contains, count, starts_with, replace_first}
use switch_ldn_zt.Text.Occurs.{contains-Leftmost, replace_first-Leftmost, replace_first-missing}
use switch_ldn_zt.Text.Marked.{Lacks, contains-replace_once}
use switch_ldn_zt.Text.Barrier.{contains-block, contains-barrier}
use switch_ldn_zt.Text.Newlines.{NoCr, replace_first-NoCr}
use switch_ldn_zt.Disk.{FilePath}
use switch_ldn_zt.Phy.{edited, set_checked}
use switch_ldn_zt.Phy.Texts.{unchecked, checked, stdlib_include, stdio_block, rx_trace}

-- The old setting, after its `_`, and the new one.
abbrev pub needle : Text
needle = codes "phy(this, false, true)"

abbrev answer : Text
answer = codes "phy(this, false, false)"

unchecked-mark : unchecked ≡ b'_' ∷ needle
unfolding codes
unchecked-mark = refl

checked-mark : checked ≡ b'_' ∷ answer
unfolding codes
checked-mark = refl

checked-NoCr : NoCr checked
unfolding codes
checked-NoCr = omega arith

replaced-unchecked :
    (s : Text)
    → count unchecked s ≡ 1
    → contains unchecked (replace_first unchecked checked s) ≡ false
unfolding codes starts_with
replaced-unchecked s one =
    contains-replace_once b'_' needle answer (omega arith) (omega arith) s one (λ post. refl)

pub set_checked-edits :
    (p : FilePath) (s : Text) {t : Text}
    → NoCr s
    → set_checked p s ≡ edited t
    → (contains unchecked t ≡ false) × NoCr t
unfolding set_checked
set_checked-edits p s {t} clean h = elim (Bool-cases (contains unchecked s)) [
  | inr miss ↦ let same : s ≡ t = ground arith in (rw (← same) miss, rw (← same) clean)
  | inl hit ↦
      let one : count unchecked s ≡ 1 = ground arith in
      let same : replace_first unchecked checked s ≡ t = ground arith in
      (
        rw (← same) (replaced-unchecked s one),
        rw (← same) (replace_first-NoCr unchecked checked s checked-NoCr clean),
      )
]

-- Where the setting is not there, nothing is replaced.
pub set_checked-replaces :
    (p : FilePath) (s : Text) {t : Text}
    → set_checked p s ≡ edited t
    → t ≡ replace_first unchecked checked s
unfolding set_checked
set_checked-replaces p s h = ground (arith, replace_first-missing unchecked checked s)

-- `stdlib_include` with what is put behind it, between the characters at its ends
abbrev pub two_includes : Text
two_includes = stdlib_include ++ (stdio_block ++ codes "\n")

abbrev pub inner : Text → Text
inner s = take (length s - 2) (drop 1 s)

stdlib_include-block :
    (post : Text) → stdlib_include ++ post ≡ b'#' ∷ (inner stdlib_include ++ b'\n' ∷ post)
unfolding codes rows
stdlib_include-block post = refl

two_includes-block :
    (post : Text) → two_includes ++ post ≡ b'#' ∷ (inner two_includes ++ b'\n' ∷ post)
unfolding codes rows
two_includes-block post = refl

pub rx_trace-block : (post : Text) → rx_trace ++ post ≡ b'{' ∷ (inner rx_trace ++ b'\n' ∷ post)
unfolding codes rows
rx_trace-block post = refl

pub unchecked-block :
    (x : ℕ) (block : Text)
    → Lacks x (b'_' ∷ needle)
    → contains unchecked block ≡ false
    → (pre post : Text)
    → contains unchecked (pre ++ x ∷ (block ++ b'\n' ∷ post))
      ≡ (contains unchecked pre || contains unchecked post)
unfolding codes
unchecked-block x block lx miss pre post =
    contains-block b'_' needle x b'\n' lx (omega arith) pre block post ∙ rw miss

pub unchecked-barrier :
    {x : ℕ}
    → Lacks x (b'_' ∷ needle)
    → (pre post : Text)
    → contains unchecked (pre ++ x ∷ post) ≡ (contains unchecked pre || contains unchecked post)
unfolding codes
unchecked-barrier lx pre post = contains-barrier b'_' needle _ lx pre post

-- None of the blocks holds the old setting.
pub blocks-clean :
    (contains unchecked (inner stdlib_include) ≡ false)
    × (contains unchecked (inner two_includes) ≡ false)
    × (contains unchecked (inner rx_trace) ≡ false)
unfolding codes rows contains
blocks-clean = (refl, refl, refl)

pub included-unchecked :
    (s : Text)
    → contains stdlib_include s ≡ true
    → contains unchecked (replace_first stdlib_include two_includes s) ≡ contains unchecked s
included-unchecked s hit =
    let (pre, post, l) = contains-Leftmost stdlib_include s hit in
    let (clean, clean_new, _) = blocks-clean in
    let lacks : Lacks b'#' (b'_' ∷ needle) = unfold codes in omega arith in
    let before : s ≡ pre ++ b'#' ∷ (inner stdlib_include ++ b'\n' ∷ post) =
      l.splits ∙ ap (λ t. pre ++ t) (stdlib_include-block post) in
    let after : replace_first stdlib_include two_includes s
        ≡ pre ++ b'#' ∷ (inner two_includes ++ b'\n' ∷ post) =
      replace_first-Leftmost two_includes l ∙ ap (λ t. pre ++ t) (two_includes-block post) in
    ap (contains unchecked) after
    ∙ unchecked-block b'#' (inner two_includes) lacks clean_new pre post
    ∙ sym (unchecked-block b'#' (inner stdlib_include) lacks clean pre post)
    ∙ ap (contains unchecked) (sym before)
