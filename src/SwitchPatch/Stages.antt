-- ===== src/SwitchPatch/Stages.antt =====
-- What each stage of the script has made of its file when it returns.
use switch_ldn_zt.Base.{
  ℕ, ◌-◌, Bool, true, not, ◌||◌, ◌⊎◌, inl, inr, [], ◌++◌, ◌≡◌, refl, arith, take, length,
  Bool-cases, All-drop, All-take,
}
use switch_ldn_zt.Text.{Text, codes, rows, contains, starts_with}
use switch_ldn_zt.Text.Occurs.{
  contains-replace_first, contains-append, contains_trans, contains_refl, contains-right,
  contains-part,
}
use switch_ldn_zt.Text.Newlines.{NoCr, NoCr-append, replace_first-NoCr}
use switch_ldn_zt.Disk.{FilePath}
use switch_ldn_zt.Script.Frame.{leaves_rules}
use switch_ldn_zt.Script.Ensures.{
  Ensures, Ensures-read_text, From, From-if, From-last, From-require, From-raise, From-write_text,
}
use switch_ldn_zt.Script.Revises.{Revises, Revises-last}
use switch_ldn_zt.Script.Edits.{Edited, edited, refused, save, edit_unless, never}
use switch_ldn_zt.Script.Edits.Laws.{
  Makes, Makes-edited, Makes-then_edit, Makes-unless, Makes-subn_or, Makes-replace_at,
  Ensures-edit_file, Ensures-edit_unless, Revises-edit_unless,
}
use switch_ldn_zt.Regex.Searching.{Subn, kept, replaced, Subn-contains}
use switch_ldn_zt.SwitchPatch.{
  constants_hpp, patch_constants, utils_hpp, patch_stok, binder_hpp, binder_guards, save_binder,
  patch_binder, phy_hpp, phy_guards, patch_phy, utils_cpp, utils_guards, hwcaps_new, patch_utils,
  cmake_lists, drop_port_mapper, cmake_edits, patch_cmake, port_cc, add_ssize, patch_port_cc,
  add_stdexcept,
}
use switch_ldn_zt.SwitchPatch.Texts.{
  switch_block, stok_new, enum_marker, hwcaps_probe, hwcaps_mark, hwcaps_pat, miniupnpc_flag,
  pic_objects, port_mapper, port_new, ssize_compat, time_include, pragma_once, enum_override,
  cleanup_new, listen_test, port_done, ssize_mark, stdexcept_include,
}
use switch_ldn_zt.SwitchPatch.Clean.{
  switch_block-NoCr, apple_marker-NoCr, stok_new-NoCr, ifaddrs_new-NoCr, guard_new-NoCr,
  enum_override-NoCr, enum_marker-NoCr, un_new-NoCr, cleanup_new-NoCr, uio_new-NoCr,
  hwcaps_probe-NoCr, miniupnpc_new-NoCr, glob_new-NoCr, port_new-NoCr, ssize_compat-NoCr,
  time_include-NoCr, stdexcept_include-NoCr, pragma_once-NoCr,
}

abbrev pub Has : Text → Text → Type 0
Has part s = contains part s ≡ true

pub constants-Ensures : Ensures constants_hpp (Has switch_block) patch_constants
unfolding patch_constants
constants-Ensures =
    Ensures-edit_unless _ _ _ (λ s there. there)
      λ s clean.
        Makes-replace_at _ _ never _ s clean (NoCr-append _ _ switch_block-NoCr apple_marker-NoCr)
          (λ hit.
            contains_trans switch_block _ _ (contains-append [] switch_block _)
              (contains-replace_first _ _ s hit))
          (λ bad. absurd (cc bad))

pub stok-Ensures : Ensures utils_hpp (Has stok_new) patch_stok
unfolding patch_stok
stok-Ensures = Ensures-edit_file _ _ λ s clean.
    Makes-subn_or _ _ never _ s clean (λ w _. stok_new-NoCr)
      (λ out found one. Subn-contains stok_new found one (λ b w q m. contains_refl stok_new))
      (λ bad. absurd (cc bad))

binder_guards-Makes : (s : Text) → NoCr s → Makes (λ _. Unit) (binder_guards s)
unfolding binder_guards
binder_guards-Makes s clean =
    Makes-then_edit {Q = λ _. Unit} _ _
      (Makes-unless _ _ s clean (λ _. tt)
        (Makes-subn_or _ _ never _ s clean (λ w _. ifaddrs_new-NoCr) (λ _ _ _. tt) (λ _. tt)))
      λ t clean _. Makes-subn_or _ _ _ _ t clean (λ w _. guard_new-NoCr) (λ _ _ _. tt) (λ _. tt)

newline-NoCr : NoCr (codes "\n")
unfolding codes
newline-NoCr = omega arith

or_left : (a b : Bool) → a ≡ true → (a || b) ≡ true
or_left a b h = rw h

or_right : (a b : Bool) → b ≡ true → (a || b) ≡ true
or_right a b h = ground arith

save_binder-From :
    (s : Text) (r : Edited)
    → Makes (λ _. Unit) r
    → From binder_hpp (Has enum_override) s (save_binder r)
unfolding save_binder save
save_binder-From s (refused msg) made = From-raise s _
save_binder-From s (edited t) made =
    let (clean, _) = made.made refl in
    From-if s _ _ _
      (λ there. From-last s _ _ (search leaves_rules) (λ _. From-write_text s t clean there))
      (λ new. From-require s _ _ _ _ (λ hit. From-last s _ _ (search leaves_rules) (λ _.
        From-write_text s _
          (replace_first-NoCr enum_marker _ t
            (NoCr-append _ _ enum_marker-NoCr (NoCr-append _ _ newline-NoCr enum_override-NoCr))
            clean)
          (contains_trans enum_override _ _
            (contains-right enum_override enum_marker _
              (contains-right enum_override (codes "\n") _ (contains_refl enum_override)))
            (contains-replace_first _ _ t hit)))))

pub binder-Ensures : Ensures binder_hpp (Has enum_override) patch_binder
unfolding patch_binder
binder-Ensures =
    Ensures-read_text _
      λ s clean. save_binder-From s (binder_guards s) (binder_guards-Makes s clean)

-- The block that unlinks a socket's path is guarded, or there is none.
abbrev pub IsGuarded : Text → Type 0
IsGuarded s = (contains cleanup_new s || not (contains listen_test s)) ≡ true

pub phy-Ensures : Ensures phy_hpp IsGuarded patch_phy
unfolding patch_phy phy_guards
phy-Ensures = Ensures-edit_file _ _ λ s clean.
    Makes-then_edit {Q = λ _. Unit} _ _
      (Makes-subn_or _ _ _ _ s clean (λ w _. un_new-NoCr) (λ _ _ _. tt) (λ _. tt))
      λ t clean _.
        Makes-subn_or _ _ _ _ t clean (λ w _. cleanup_new-NoCr)
          (λ out found one.
            or_left _ _
              (Subn-contains cleanup_new found one (λ b w q m. contains_refl cleanup_new)))
          (λ there. or_right _ _ there)

-- The lines that give the Switch no capabilities, each behind the same characters.
abbrev pub zero_lines : Text → Text
zero_lines indent =
    codes "#ifdef __SWITCH__\n"
    ++ (indent
        ++ (codes "const long hwcaps = 0;\n"
            ++ (indent
                ++ (codes "#else\n"
                    ++ (indent ++ (hwcaps_probe ++ (codes "\n" ++ (indent ++ codes "#endif"))))))))

-- The mark of these lines is there, or the lines are, whole.
abbrev pub HasZero : Text → Type 0
HasZero s =
    (contains hwcaps_mark s ≡ true) ⊎ ((indent : Text) × (contains (zero_lines indent) s ≡ true))

hwcaps_lines-NoCr :
    NoCr (codes "#ifdef __SWITCH__\n")
    × NoCr (codes "const long hwcaps = 0;\n")
    × NoCr (codes "#else\n")
    × NoCr (codes "#endif")
unfolding codes
hwcaps_lines-NoCr = omega arith

hwcaps_new-NoCr : (w : Text) → NoCr w → NoCr (hwcaps_new w)
unfolding hwcaps_new
hwcaps_new-NoCr w h =
    let (start, none_there, other, end) = hwcaps_lines-NoCr in
    let indent = All-take _ (length w - length hwcaps_probe) w h in
    search (NoCr-append, newline-NoCr, hwcaps_probe-NoCr) depth 20

contains-hwcaps_new :
    (w : Text) → (indent : Text) × (contains (zero_lines indent) (hwcaps_new w) ≡ true)
unfolding hwcaps_new
contains-hwcaps_new w = (indent, contains-right (zero_lines indent) indent _ (contains_refl _))
  where
    indent : Text
    indent = take (length w - length hwcaps_probe) w

-- What replaces the probe holds the lines, so the text does that it is put into.
zero_lines-Subn :
    {u : Text} (out : Text × ℕ) → Subn hwcaps_pat hwcaps_new u out → out.1 ≡ 1 → HasZero out.0
zero_lines-Subn out (kept miss) one = absurd (cc one)
zero_lines-Subn out (replaced {pre} {word} {post} f) one =
    let (indent, there) = contains-hwcaps_new word in
    inr (
      indent,
      contains_trans (zero_lines indent) (hwcaps_new word) _ there
          (contains-append pre (hwcaps_new word) post),
    )

pub utils-Ensures : Ensures utils_cpp HasZero patch_utils
unfolding patch_utils utils_guards
utils-Ensures = Ensures-edit_file _ _ λ s clean.
    Makes-then_edit {Q = λ _. Unit} _ _
      (Makes-subn_or _ _ _ _ s clean (λ w _. uio_new-NoCr) (λ _ _ _. tt) (λ _. tt))
      λ t clean _.
        Makes-unless _ _ t clean inl (
          Makes-subn_or _ _ never _ t clean hwcaps_new-NoCr zero_lines-Subn
            (λ bad. absurd (cc bad)))

drop_port_mapper-NoCr : (s : Text) → NoCr s → NoCr (drop_port_mapper s)
unfolding drop_port_mapper
drop_port_mapper-NoCr s clean =
    replace_first-NoCr miniupnpc_flag _ _ miniupnpc_new-NoCr
      (replace_first-NoCr pic_objects [] _ tt (replace_first-NoCr port_mapper [] s tt clean))

port_new-done : contains port_done port_new ≡ true
unfolding contains starts_with codes rows
port_new-done = refl

pub cmake-Ensures : Ensures cmake_lists (Has port_done) patch_cmake
unfolding patch_cmake cmake_edits
cmake-Ensures = Ensures-edit_file _ _ λ s clean.
    Makes-then_edit {Q = λ _. Unit} _ _
      (Makes-replace_at _ _ _ _ _ (drop_port_mapper-NoCr s clean) glob_new-NoCr (λ _. tt) (λ _. tt))
      λ t clean _.
        Makes-replace_at _ _ _ _ t clean port_new-NoCr
          (λ hit.
            contains_trans port_done port_new _ port_new-done
              (contains-replace_first _ port_new t hit))
          (λ there. there)

-- The definition that the port's header lacks.
abbrev pub ssize_lines : Text
ssize_lines = codes "#include <limits.h>\n#ifndef SSIZE_MAX\n#define SSIZE_MAX LONG_MAX\n#endif\n"

-- What becomes of it: it is left alone if it asks for the name, and gets the definition otherwise.
abbrev pub GetsSsize : Text → Text → Type 0
GetsSsize s t = ((contains ssize_mark s ≡ true) × (t ≡ s)) ⊎ (contains ssize_lines t ≡ true)

lines-compat : contains ssize_lines ssize_compat ≡ true
unfolding contains starts_with codes rows
lines-compat = refl

mark-lines : contains ssize_mark ssize_lines ≡ true
unfolding contains starts_with codes
mark-lines = refl

add_ssize-Makes : (s : Text) → NoCr s → Makes (Has ssize_lines) (add_ssize s)
unfolding add_ssize
add_ssize-Makes s clean = elim (Bool-cases (contains time_include s)) [
  | inl hit ↦ rw hit (
      Makes-edited _
        (replace_first-NoCr time_include _ s (NoCr-append _ _ ssize_compat-NoCr time_include-NoCr)
          clean)
        (contains_trans ssize_lines _ _
          (contains-part ssize_lines [] ssize_compat time_include lines-compat)
          (contains-replace_first time_include _ s hit)))
  | inr miss ↦ rw miss (
      Makes-edited _ (NoCr-append _ s ssize_compat-NoCr clean)
        (contains-part ssize_lines [] ssize_compat s lines-compat))
]

pub port_cc-Revises : Revises port_cc GetsSsize patch_port_cc
unfolding patch_port_cc
port_cc-Revises = Revises-last _ _ (search leaves_rules) λ there.
    Revises-last _ _ (search leaves_rules) λ _.
      Revises-edit_unless _ _ _ (λ s hit. inl (hit, refl))
        λ s clean. record {
          made = λ e. let (clean_t, good) = (add_ssize-Makes s clean).made e in (clean_t, inr good);
        }

-- Either way the name is asked for.
pub GetsSsize-mark : (s t : Text) → GetsSsize s t → contains ssize_mark t ≡ true
GetsSsize-mark s t (inl (hit, same)) = rw same hit
GetsSsize-mark s t (inr lines) = contains_trans ssize_mark ssize_lines t mark-lines lines

add_stdexcept-Makes : (s : Text) → NoCr s → Makes (Has stdexcept_include) (add_stdexcept s)
unfolding add_stdexcept
add_stdexcept-Makes s clean = elim (Bool-cases (starts_with pragma_once s)) [
  | inl hit ↦ rw hit (
      Makes-edited _
        (NoCr-append _ _ pragma_once-NoCr (
          NoCr-append _ _ stdexcept_include-NoCr
            (NoCr-append _ _ newline-NoCr (All-drop _ (length pragma_once) s clean))))
        (contains-right stdexcept_include pragma_once _ (contains-append [] stdexcept_include _)))
  | inr miss ↦ rw miss (
      Makes-edited _ (NoCr-append _ _ stdexcept_include-NoCr (NoCr-append _ s newline-NoCr clean))
        (contains-append [] stdexcept_include _))
]

pub header-Ensures :
    (p : FilePath)
    → Ensures p (Has stdexcept_include) (edit_unless p (contains stdexcept_include) add_stdexcept)
header-Ensures p = Ensures-edit_unless _ _ _ (λ s there. there) add_stdexcept-Makes
