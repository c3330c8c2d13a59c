-- ===== src/Script/Edits/Laws.antt =====
-- What the shared edits leave alone, and what they ensure.
use switch_ldn_zt.Base.{
  ℕ, String, Bool, true, false, not, ◌&&◌, ◌≡◌, refl, ◌∙◌, ◌==◌, not-false, if◌then◌else◌,
}
use switch_ldn_zt.Text.{Text, contains, eqb, replace_first}
use switch_ldn_zt.Text.Newlines.{NoCr, replace_first-NoCr}
use switch_ldn_zt.Disk.{FilePath}
use switch_ldn_zt.Script.Gate.{if_read}
use switch_ldn_zt.Script.Returns.{returns, returns-read_text}
use switch_ldn_zt.Script.{Machine, try_read, Message, pure, raise, write_text}
use switch_ldn_zt.Script.Frame.{Leaves, leaves_rules}
use switch_ldn_zt.Script.Ensures.{
  Ensures, Ensures-read_text, From, From-if, From-pure, From-raise, From-write_text,
}
use switch_ldn_zt.Script.Revises.{Revises, Revises-read_text}
use switch_ldn_zt.Script.Edits.{
  Edited, edited, refused, then_edit, save, edit_file, edit_unless, subn_or, replace_at, unless,
}
use switch_ldn_zt.Regex.{Regex, subn_by}
use switch_ldn_zt.Regex.Searching.{Subn, kept, replaced, subn_by-Subn, Subn-NoCr}

module _ {q : FilePath} where
  pub Leaves-save : (p : FilePath) (r : Edited) → eqb q p ≡ false → Leaves q (save p r)
  unfolding save
  Leaves-save p (edited t) away = search leaves_rules
  Leaves-save p (refused msg) away = search leaves_rules

  pub Leaves-edit_file :
      (p : FilePath) (f : Text → Edited) → eqb q p ≡ false → Leaves q (edit_file p f)
  unfolding edit_file
  Leaves-edit_file p f away = search (Leaves-save, leaves_rules)

  pub Leaves-edit_unless :
      (p : FilePath) (done : Text → Bool) (f : Text → Edited)
      → eqb q p ≡ false
      → Leaves q (edit_unless p done f)
  unfolding edit_unless
  Leaves-edit_unless p done f away = search (Leaves-save, leaves_rules)

-- The text that an edit makes, if it makes one, holds no `\r` and has the property.
pub record Makes (P : Text → Type 0) (r : Edited) : Type 0 where
  pub made : {t : Text} → r ≡ edited t → NoCr t × P t

module _ {P : Text → Type 0} where
  pub Makes-refused : (msg : Message) → Makes P (refused msg)
  Makes-refused msg = record { made = λ {t} e. absurd (cc e) }

  pub Makes-edited : (s : Text) → NoCr s → P s → Makes P (edited s)
  Makes-edited s clean good = record {
    made = λ {t} e. let same : s ≡ t = cc e in rw (← same) (clean, good);
  }

  pub Makes-if :
      (b : Bool) (k l : Edited)
      → (b ≡ true → Makes P k)
      → (b ≡ false → Makes P l)
      → Makes P (if b then k else l)
  Makes-if true k l hk hl = hk refl
  Makes-if false k l hk hl = hl refl

  pub Makes-then_edit :
      {Q : Text → Type 0} (r : Edited) (f : Text → Edited)
      → Makes Q r
      → ((t : Text) → NoCr t → Q t → Makes P (f t))
      → Makes P (then_edit r f)
  Makes-then_edit (edited s) f hr hf = let (clean, good) = hr.made refl in hf s clean good
  Makes-then_edit (refused msg) f hr hf = Makes-refused msg

  pub Makes-unless :
      (done : Text → Bool) (f : Text → Edited) (s : Text)
      → NoCr s
      → (done s ≡ true → P s)
      → Makes P (f s)
      → Makes P (unless done f s)
  unfolding unless
  Makes-unless done f s clean there made =
      Makes-if (done s) (edited s) (f s) (λ h. Makes-edited s clean (there h)) (λ _. made)

  Makes-end :
      {r : Regex} {new : Text → Text} {s : Text} (accepted : Bool) (msg : Message) (out : Text × ℕ)
      → Subn r new s out
      → NoCr out.0
      → (out.1 ≡ 1 → P out.0)
      → (accepted ≡ true → P s)
      → Makes P (if not (out.1 == 1) && not accepted then refused msg else edited out.0)
  Makes-end accepted msg out (replaced f) clean hit there = Makes-edited out.0 clean (hit refl)
  Makes-end true msg out (kept miss) clean hit there = Makes-edited out.0 clean (there refl)
  Makes-end false msg out (kept miss) clean hit there = Makes-refused msg

  -- A substitution that must count 1 unless the text is accepted as it is.
  pub Makes-subn_or :
      (r : Regex) (new : Text → Text) (accepted : Text → Bool) (missing : String) (s : Text)
      → NoCr s
      → ((w : Text) → NoCr w → NoCr (new w))
      → ((out : Text × ℕ) → Subn r new s out → out.1 ≡ 1 → P out.0)
      → (accepted s ≡ true → P s)
      → Makes P (subn_or r new accepted missing s)
  unfolding subn_or
  Makes-subn_or r new accepted missing s clean hn hit there =
      let found = subn_by-Subn r new s in
      Makes-end (accepted s) _ (subn_by r new s) found (Subn-NoCr found hn clean) (hit _ found)
        there

  pub Makes-replace_at :
      (old new : Text) (accepted : Text → Bool) (missing : String) (s : Text)
      → NoCr s
      → NoCr new
      → (contains old s ≡ true → P (replace_first old new s))
      → (accepted s ≡ true → P s)
      → Makes P (replace_at old new accepted missing s)
  unfolding replace_at
  Makes-replace_at old new accepted missing s clean hn hit there =
      Makes-if _ _ _ (λ h. Makes-edited _ (replace_first-NoCr old new s hn clean) (hit h))
        (λ _.
          Makes-if _ _ _ (λ _. Makes-refused _)
            (λ h. Makes-edited s clean (there (not-false (accepted s) h))))

  From-save : (p : FilePath) (s : Text) (r : Edited) → Makes P r → From p P s (save p r)
  unfolding save
  From-save p s (edited t) h = let (clean, good) = h.made refl in From-write_text s t clean good
  From-save p s (refused msg) h = From-raise s _

  pub Ensures-edit_file :
      (p : FilePath) (f : Text → Edited)
      → ((s : Text) → NoCr s → Makes P (f s))
      → Ensures p P (edit_file p f)
  unfolding edit_file
  Ensures-edit_file p f h = Ensures-read_text _ λ s clean. From-save p s (f s) (h s clean)

  pub Ensures-edit_unless :
      (p : FilePath) (done : Text → Bool) (f : Text → Edited)
      → ((s : Text) → done s ≡ true → P s)
      → ((s : Text) → NoCr s → Makes P (f s))
      → Ensures p P (edit_unless p done f)
  unfolding edit_unless
  Ensures-edit_unless p done f there h = Ensures-read_text _ λ s clean.
      From-if s (done s) (pure tt) (save p (f s)) (λ hit. From-pure s tt (there s hit))
        (λ _. From-save p s (f s) (h s clean))

pub Revises-edit_file :
    {R : Text → Text → Type 0} (p : FilePath) (f : Text → Edited)
    → ((s : Text) → NoCr s → Makes (R s) (f s))
    → Revises p R (edit_file p f)
unfolding edit_file
Revises-edit_file p f makes = Revises-read_text _ λ s clean. From-save p s (f s) (makes s clean)

pub Revises-edit_unless :
    {R : Text → Text → Type 0} (p : FilePath) (done : Text → Bool) (f : Text → Edited)
    → ((s : Text) → done s ≡ true → R s s)
    → ((s : Text) → NoCr s → Makes (R s) (f s))
    → Revises p R (edit_unless p done f)
unfolding edit_unless
Revises-edit_unless p done f there makes = Revises-read_text _ λ s clean.
    From-if s (done s) (pure tt) (save p (f s)) (λ hit. From-pure s tt (there s hit))
      (λ _. From-save p s (f s) (makes s clean))

abbrev pub is_edited : Edited → Bool
is_edited (edited t) = true
is_edited (refused msg) = false

save-returns : (p : FilePath) (r : Edited) (m : Machine) → returns (save p r) m ≡ is_edited r
unfolding save write_text raise
save-returns p (edited t) m = refl
save-returns p (refused msg) m = refl

-- An edit of a file returns where the file can be read and the edit makes a text of it.
pub returns-edit_file :
    (p : FilePath) (f : Text → Edited) (m : Machine) (test : Text → Bool)
    → ((s : Text) → is_edited (f s) ≡ test s)
    → returns (edit_file p f) m ≡ if_read (try_read p m) test
unfolding edit_file
returns-edit_file p f m test h =
    returns-read_text p (λ s. save p (f s)) m test (λ s. save-returns p (f s) m ∙ h s)
