-- ===== src/Restore/RoundTrip.antt =====
-- The checksum setting from the PHY script to the restore script.
use switch_ldn_zt.Base.{true, false, [], ◌∷◌, ◌++◌, ◌≡◌, sym, ◌∙◌, arith, inl, inr, Bool-cases}
use switch_ldn_zt.Text.{Text, codes, contains, replace_first}
use switch_ldn_zt.Text.Occurs.{
  contains-Leftmost, replace_first-Leftmost, contains-append, contains_trans,
}
use switch_ldn_zt.Text.Marked.{replace_first-marked}
use switch_ldn_zt.Disk.{FilePath}
use switch_ldn_zt.Script.{Message, file}
use switch_ldn_zt.Walk.{rewrite}
use switch_ldn_zt.Restore.{checked, unchecked, restore_body}
use switch_ldn_zt.Phy.{edited, set_checked}
use switch_ldn_zt.Phy.Setting.{set_checked-replaces}

-- A text without `old` has none in a part at its start.
contains-start : (old pre w : Text) → contains old (pre ++ w) ≡ false → contains old pre ≡ false
contains-start old pre w miss = elim (Bool-cases (contains old pre)) [
  | inr gone ↦ gone
  | inl hit ↦ absurd (cc (contains_trans old pre (pre ++ w) hit (contains-append [] pre w), miss))
]

restored :
    (pre post : Text)
    → contains checked pre ≡ false
    → replace_first checked unchecked (pre ++ (checked ++ post)) ≡ pre ++ (unchecked ++ post)
unfolding codes
restored pre post miss =
    replace_first-marked b'_' (codes "phy(this, false, false)") unchecked pre post (omega arith)
      miss

swap_back :
    (s : Text)
    → contains unchecked s ≡ true
    → contains checked s ≡ false
    → (contains checked (replace_first unchecked checked s) ≡ true)
      × (replace_first checked unchecked (replace_first unchecked checked s) ≡ s)
swap_back s hit miss =
    let (pre, post, l) = contains-Leftmost unchecked s hit in
    let there : replace_first unchecked checked s ≡ pre ++ (checked ++ post) =
      replace_first-Leftmost checked l in
    let none_before : contains checked pre ≡ false =
      contains-start checked pre (unchecked ++ post) (rw l.splits at miss) in
    (
      rw there (contains-append pre checked post),
      rw there (restored pre post none_before) ∙ sym l.splits,
    )

abbrev pub restored_message : FilePath → Message
restored_message p = record {
  format = "Restored upstream UDP checksum setting in {path}: noCheck=true";
  args = file p ∷ [];
}

-- If a text holds the setting that leaves the checksum off and not the other one, then of what the
-- PHY script's step for that setting makes of it, a round of the restore script writes the text itself
-- back. (The traces that the PHY script puts in afterwards are not taken out.)
pub set_checked-restore_body :
    (p : FilePath) (s : Text) {t : Text}
    → contains unchecked s ≡ true
    → contains checked s ≡ false
    → set_checked p s ≡ edited t
    → restore_body p t ≡ rewrite s (restored_message p)
unfolding restore_body
set_checked-restore_body p s {t} hit miss h =
    let made = sym (set_checked-replaces p s h) in
    let (there, back) = swap_back s hit miss in
    let e : contains checked t ≡ true = rw (← made) there in
    let b : replace_first checked unchecked t ≡ s = rw (← made) back in rw (e, b)
