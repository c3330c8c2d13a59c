-- ===== src/Hotpath/Patches.antt =====
-- What the script has made of the two files when it returns.
use switch_ldn_zt.Base.{
  ℕ, true, false, ◌&&◌, ◌||◌, ◌⊎◌, inl, inr, some, [], ◌≡◌, refl, ap, ◌∙◌, arith, ◌==◌, not-false,
  Bool-cases, if◌then◌else◌,
}
use switch_ldn_zt.Text.{Text, codes, contains, eqb}
use switch_ldn_zt.Text.Occurs.{contains-replace_first}
use switch_ldn_zt.Text.Newlines.{NoCr, replace_first-NoCr}
use switch_ldn_zt.Disk.{FilePath}
use switch_ldn_zt.Script.{ok, Machine, Script, pure, ◌>>◌, print, try_read, write_raw}
use switch_ldn_zt.Script.Inversion.{>>=-ok, require-ok, read_text-ok}
use switch_ldn_zt.Script.Frame.{Leaves, Leaves-reads, leaves_rules}
use switch_ldn_zt.Script.Ensures.{
  Reads, Reads-write_raw, Ensures, Ensures-last, Ensures-first, Ensures-read_text, From-if,
  From-write_raw, From-raise, From-pure,
}
use switch_ldn_zt.Walk.Target.{try_read-NoCr}
use switch_ldn_zt.Regex.{subn}
use switch_ldn_zt.Regex.Searching.{Subn, kept, replaced, subn-Subn, Subn-NoCr}
use switch_ldn_zt.Hotpath.{
  posix, main_cpp, send_pat, recv_pat, send_repl, recv_repl, already_applied, write_posix,
  patch_posix, old_sessions, new_sessions, set_sessions, patch_main, hotpath,
}

-- What the script makes of `posix_compat.cpp`: one substitution after the other, each of them of the
-- first match if there is one, and both of them made unless both marks stood there before.
pub record IsHotPatch (s t : Text) : Type 0 where
  pub middle : Text
  pub sends : ℕ
  pub receives : ℕ
  pub send_block : Subn send_pat (λ _. send_repl) s (middle, sends)
  pub receive_block : Subn recv_pat (λ _. recv_repl) middle (t, receives)
  pub allowed : ((sends ≡ 1) × (receives ≡ 1)) ⊎ (already_applied s ≡ true)

allowed_cases :
    (s : Text) (n k : ℕ)
    → ((n == 1 && k == 1) || already_applied s) ≡ true
    → ((n ≡ 1) × (k ≡ 1)) ⊎ (already_applied s ≡ true)
allowed_cases s n k h = elim (Bool-cases (already_applied s)) [
  | inl there ↦ inr there
  | inr miss ↦ inl (ground arith, ground arith)
]

send_repl-NoCr : NoCr send_repl
unfolding codes
send_repl-NoCr = omega arith

recv_repl-NoCr : NoCr recv_repl
unfolding codes
recv_repl-NoCr = omega arith

-- What is written, or left where no block was found, reads as the text after both substitutions.
written_posix :
    {s : Text} (one two : Text × ℕ) (m : Machine) {m' : Machine}
    → NoCr s
    → try_read posix m ≡ some s
    → Subn send_pat (λ _. send_repl) s one
    → Subn recv_pat (λ _. recv_repl) one.0 two
    → (if one.1 == 1 || two.1 == 1 then write_raw posix two.0 else pure tt) m ≡ (ok tt, m')
    → try_read posix m' ≡ some two.0
unfolding pure write_raw
written_posix one two m clean read (kept a) (kept b) h = rw (← ap (λ r. r.1) h) read
written_posix one two m clean read (kept a) (replaced b) h = rw (← ap (λ r. r.1) h) (
    let r =
      Reads-write_raw posix {P = λ t. t ≡ two.0} two.0 m
        (Subn-NoCr (replaced b) (λ _ _. recv_repl-NoCr) clean) refl in
    r.reads ∙ ap some r.good)
written_posix one two m clean read (replaced a) b h = rw (← ap (λ r. r.1) h) (
    let r =
      Reads-write_raw posix {P = λ t. t ≡ two.0} two.0 m
        (Subn-NoCr b (λ _ _. recv_repl-NoCr) (Subn-NoCr (replaced a) (λ _ _. send_repl-NoCr) clean))
        refl in
    r.reads ∙ ap some r.good)

write_posix-ok :
    {s : Text} (one two : Text × ℕ) (m : Machine) {m' : Machine}
    → try_read posix m ≡ some s
    → Subn send_pat (λ _. send_repl) s one
    → Subn recv_pat (λ _. recv_repl) one.0 two
    → write_posix s one two m ≡ (ok tt, m')
    → (try_read posix m' ≡ some two.0) × IsHotPatch s two.0
unfolding write_posix
write_posix-ok {s} (s2, n1) (s3, n2) m read a b h =
    let (allowed, rest) = require-ok _ _ _ _ m h in
    (
      written_posix (s2, n1) (s3, n2) m (try_read-NoCr posix m read) read a b rest,
      record {
        middle = s2;
        sends = n1;
        receives = n2;
        send_block = a;
        receive_block = b;
        allowed = allowed_cases s n1 n2 allowed;
      },
    )

Leaves-set_sessions : {q : FilePath} (s : Text) → eqb q main_cpp ≡ false → Leaves q (set_sessions s)
unfolding set_sessions
Leaves-set_sessions s away = search leaves_rules

Leaves-patch_main : {q : FilePath} → eqb q main_cpp ≡ false → Leaves q patch_main
unfolding patch_main
Leaves-patch_main away = search (Leaves-set_sessions, leaves_rules)

-- the end of the script, after the first file
abbrev pub ending : Script Unit
ending = do
  patch_main
  print "Applied runtime hot-path fix: no SD I/O from sendto/recvfrom and 16 BSD sessions." []

pub Leaves-ending : {q : FilePath} → eqb q main_cpp ≡ false → Leaves q ending
Leaves-ending away = search (Leaves-patch_main, leaves_rules)

-- If the script returns, `posix_compat.cpp` could be read, and reads afterwards as the text in which
-- first the send block and then the receive block is replaced, each at its first match; a block may
-- be missing only if both counter lines stood in the file before.
pub hotpath-IsHotPatch :
    (m : Machine) {m' : Machine}
    → hotpath m ≡ (ok tt, m')
    → (s : Text) × (t : Text) × (try_read posix m ≡ some s)
      × (try_read posix m' ≡ some t)
      × IsHotPatch s t
unfolding hotpath patch_posix
hotpath-IsHotPatch m {m'} h =
    let (_, m1, first, rest) = >>=-ok patch_posix (λ _. ending) m h in
    let (s, read, ends) = read_text-ok posix _ m first in
    let (there, good) =
      write_posix-ok (subn send_pat send_repl s) (subn recv_pat recv_repl _) m read
        (subn-Subn send_pat send_repl s) (subn-Subn recv_pat recv_repl _) ends in
    let same : try_read posix m' ≡ try_read posix m1 =
      rw (← ap (λ r. r.1) rest)
        (Leaves-reads {q = posix} (Leaves-ending (unfold eqb codes in refl)) m1) in
    (s, (subn recv_pat recv_repl (subn send_pat send_repl s).0).0, read, same ∙ there, good)

new_sessions-NoCr : NoCr new_sessions
unfolding codes
new_sessions-NoCr = omega arith

abbrev pub HasSessions : Text → Type 0
HasSessions s = contains new_sessions s ≡ true

patch_main-Ensures : Ensures main_cpp HasSessions patch_main
unfolding patch_main set_sessions
patch_main-Ensures = Ensures-read_text set_sessions λ s clean.
    From-if s _ _ _
      (λ old.
        From-write_raw s _ (replace_first-NoCr old_sessions new_sessions s new_sessions-NoCr clean)
          (contains-replace_first old_sessions new_sessions s old))
      (λ gone.
        From-if s _ _ _ (λ missing. From-raise s _) (λ there. From-pure s tt (not-false _ there)))

-- If the script returns, `main.cpp` reads as a text that sets 16 BSD sessions.
pub hotpath-HasSessions :
    (m : Machine) {m' : Machine} → hotpath m ≡ (ok tt, m') → Reads main_cpp HasSessions m'
unfolding hotpath
hotpath-HasSessions m h =
    (Ensures-last patch_posix (λ _. ending)
        (λ _. Ensures-first patch_main _ patch_main-Ensures (λ _. search leaves_rules))).after
      m h

pub Leaves-patch_posix : {q : FilePath} → eqb q posix ≡ false → Leaves q patch_posix
unfolding patch_posix write_posix
Leaves-patch_posix away = search leaves_rules
