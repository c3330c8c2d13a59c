-- ===== src/SwitchPatch/Again.antt =====
-- The guards around the two system headers on a second run.
use switch_ldn_zt.Base.{ℕ, String, true, Option, [], ◌∷◌, ◌++◌, ◌≡◌, refl, arith}
use switch_ldn_zt.Text.{Text, codes, rows, contains, starts_with}
use switch_ldn_zt.Text.Occurs.{contains-Leftmost}
use switch_ldn_zt.Regex.{Regex, accepts, space, lit, sp, literal, pattern, subn}
use switch_ldn_zt.Regex.Matching.{Matches, done, one, enough, more}
use switch_ldn_zt.Regex.Searching.{subn-Subn, Subn-contains, Subn-again}
use switch_ldn_zt.SwitchPatch.Texts.{un_pat, un_new, uio_pat, uio_new}

-- A literal matches itself.
literal-Matches :
    (l : Text) {r : Regex} {w s : Text} {b : Option ℕ}
    → ((b : Option ℕ) → Matches r b w s)
    → Matches (literal l r) b (l ++ w) s
unfolding accepts
literal-Matches [] rest = rest _
literal-Matches (c ∷ l) rest = one (ground arith) (literal-Matches l rest)

abbrev include_pat : String → Regex
include_pat header = pattern (lit "#include" ∷ sp ∷ lit header ∷ [])

abbrev include_line : String → Text
include_line header = codes "#include" ++ (b' ' ∷ (codes header ++ []))

include-Matches :
    (header : String) {b : Option ℕ} {s : Text}
    → Matches (include_pat header) b (include_line header) s
include-Matches header = literal-Matches (codes "#include") λ b.
    more {c = space} {x = b' '} (unfold accepts in refl)
      (enough (literal-Matches (codes header) (λ _. done)))

-- A replacement that holds the line itself is found again.
include-again :
    (header : String) (new s : Text)
    → contains (include_line header) new ≡ true
    → (subn (include_pat header) new s).1 ≡ 1
    → (subn (include_pat header) new (subn (include_pat header) new s).0).1 ≡ 1
include-again header new s holds hit =
    let line =
      Subn-contains (include_line header) (subn-Subn (include_pat header) new s) hit
        (λ b w q m. holds) in
    let (pre, post, there) = contains-Leftmost (include_line header) _ line in
    Subn-again pre (include_line header) post (subn-Subn (include_pat header) new _) there.splits
      (include-Matches header)

un_new-line : contains (include_line "<sys/un.h>") un_new ≡ true
unfolding contains starts_with codes rows
un_new-line = refl

uio_new-line : contains (include_line "<sys/uio.h>") uio_new ≡ true
unfolding contains starts_with codes rows
uio_new-line = refl

-- Where the substitution that guards `<sys/un.h>` has replaced a match, the same substitution of its
-- result replaces a match again.
pub un_guard_again :
    (s : Text) → (subn un_pat un_new s).1 ≡ 1 → (subn un_pat un_new (subn un_pat un_new s).0).1 ≡ 1
un_guard_again s = include-again "<sys/un.h>" un_new s un_new-line

-- The same for `<sys/uio.h>`.
pub uio_guard_again :
    (s : Text)
    → (subn uio_pat uio_new s).1 ≡ 1
    → (subn uio_pat uio_new (subn uio_pat uio_new s).0).1 ≡ 1
uio_guard_again s = include-again "<sys/uio.h>" uio_new s uio_new-line
