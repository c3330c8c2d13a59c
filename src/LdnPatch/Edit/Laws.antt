-- ===== src/LdnPatch/Edit/Laws.antt =====
-- What the three helpers do to a file that can be read, and that a refusal leaves the machine alone.
use switch_ldn_zt.Base.{
  ℕ, ◌<◌, true, false, some, [], ◌∷◌, ◌++◌, ◌≡◌, refl, ◌∙◌, arith, take, ltb, ◌≤◌, if◌then◌else◌,
}
use switch_ldn_zt.Text.{Text, eqb, contains}
use switch_ldn_zt.Text.Occurs.{Leftmost, Leftmost-contains, replace_first-Leftmost}
use switch_ldn_zt.Text.Newlines.{NoCr, replace_first-NoCr}
use switch_ldn_zt.Text.Every.{Every, Every-count, Every-replace_every, Every-NoCr}
use switch_ldn_zt.Disk.{FilePath}
use switch_ldn_zt.Script.{
  Error, system_exit, file, num, quoted, ok, err, Machine, Script, try_read, read_text, write_text,
  ◌>>=◌,
}
use switch_ldn_zt.Script.Inversion.{>>=-run}
use switch_ldn_zt.Walk.Target.{try_read-write_text, try_read-NoCr}
use switch_ldn_zt.LdnPatch.Edit.{replace, replace_all}

-- The script returns, and from then on `path` reads as `s`, every other file as before.
pub record Rewrites (path : FilePath) (s : Text) (script : Script Unit) (m : Machine) : Type 0 where
  pub after : Machine
  pub returns : script m ≡ (ok tt, after)
  pub reads : (q : FilePath) → try_read q after ≡ (if eqb q path then some s else try_read q m)

pub read_text-run :
    (path : FilePath) {s : Text} {m : Machine}
    → try_read path m ≡ some s
    → read_text path m ≡ (ok s, m)
unfolding read_text
read_text-run path h = rw h

pub write_text-Rewrites :
    (path : FilePath) (s : Text) (m : Machine) → NoCr s → Rewrites path s (write_text path s) m
unfolding write_text
write_text-Rewrites path s m clean = record {
  after = (write_text path s m).1;
  returns = refl;
  reads = λ q. try_read-write_text path q s m clean;
}

abbrev pub missing_anchor : FilePath → Text → Error
missing_anchor path old = system_exit (record {
  format = "patch anchor missing: {path}: {old[:80]!r}";
  args = file path ∷ quoted (take 80 old) ∷ [];
})

abbrev pub too_few : FilePath → Text → ℕ → ℕ → Error
too_few path old minimum found = system_exit (record {
  format = "patch anchor missing: {path}: expected at least {minimum}, found {count}: {old[:80]!r}";
  args = file path ∷ num minimum ∷ num found ∷ quoted (take 80 old) ∷ [];
})

-- `s` behaves as `t` from here on.
pub Rewrites-by :
    {path : FilePath} {s : Text} (a b : Script Unit) {m : Machine}
    → a m ≡ b m
    → Rewrites path s b m
    → Rewrites path s a m
Rewrites-by a b e r = record { after = r.after; returns = e ∙ r.returns; reads = r.reads }

module _ (path : FilePath) {s : Text} {m : Machine} (read : try_read path m ≡ some s) where
  -- Where the file can be read, `old` stands in it and `new` holds no `\r`, `replace` returns: the
  -- file then reads with `new` in the first place of `old`, and every other file as before.
  pub replace_lem :
      {old pre post : Text} (new : Text)
      → Leftmost old s pre post
      → NoCr new
      → Rewrites path (pre ++ (new ++ post)) (replace path old new) m
  unfolding replace
  replace_lem {old} {pre} {post} new l clean =
      Rewrites-by (replace path old new) (write_text path (pre ++ (new ++ post)))
        (>>=-run (read_text path) _ m (read_text-run path read)
          ∙ rw (Leftmost-contains l, replace_first-Leftmost new l) (unfold ◌>>=◌ in refl))
        (write_text-Rewrites path (pre ++ (new ++ post)) m (
          rw (← replace_first-Leftmost new l)
            (replace_first-NoCr old new s clean (try_read-NoCr path m read))))

  -- Where the file can be read and `old` is not in it, `replace` exits and leaves the machine alone.
  pub replace_missing :
      (old new : Text)
      → contains old s ≡ false
      → replace path old new m ≡ (err (missing_anchor path old), m)
  unfolding replace
  replace_missing old new miss =
      >>=-run (read_text path) _ m (read_text-run path read) ∙ rw miss (unfold ◌>>=◌ in refl)

  -- Where the file can be read, it holds `old`, which is not empty, `n` times and no less than the
  -- minimum, and `new` holds no `\r`, `replace_all` returns: the file then reads with `new` in each
  -- of the places, taken from the left, and every other file as before.
  pub replace_all_lem :
      {c n : ℕ} {old new t : Text} (minimum : ℕ)
      → Every (c ∷ old) new n s t
      → minimum ≤ n
      → NoCr new
      → Rewrites path t (replace_all path (c ∷ old) new minimum) m
  unfolding replace_all
  replace_all_lem {c} {n} {old} {new} {t} minimum every enough clean =
      let many : ltb n minimum ≡ false = ground arith in
      Rewrites-by (replace_all path (c ∷ old) new minimum) (write_text path t)
        (>>=-run (read_text path) _ m (read_text-run path read)
          ∙ rw (Every-count c old new every, many, Every-replace_every c old new every)
              (unfold ◌>>=◌ in refl))
        (write_text-Rewrites path t m
          (Every-NoCr c old new clean every (try_read-NoCr path m read)))

  -- Where the file can be read and holds `old`, which is not empty, fewer times than the minimum,
  -- `replace_all` exits with the number found and leaves the machine alone.
  pub replace_all_refused :
      {c n : ℕ} {old new t : Text} (minimum : ℕ)
      → Every (c ∷ old) new n s t
      → n < minimum
      → replace_all path (c ∷ old) new minimum m ≡ (err (too_few path (c ∷ old) minimum n), m)
  unfolding replace_all
  replace_all_refused {c} {n} {old} {new} minimum every few =
      let low : ltb n minimum ≡ true = ground arith in
      >>=-run (read_text path) _ m (read_text-run path read)
      ∙ rw (Every-count c old new every, low) (unfold ◌>>=◌ in refl)
