-- ===== src/Regex.antt =====
-- The part of Python's `re` that the scripts call: patterns made of single characters, of runs of one
-- class (`x*`, `x+`, `x*?`), of places (`^`, `$`, `\b`) and of alternatives. A Regex goes on to its
-- end, so a run is followed by what has to match behind it. The matcher tries the ways to match in
-- Python's order and takes the first.
pub mod Matching
pub mod Searching
pub mod Pieces
use switch_ldn_zt.Base.{
  ℕ, zero, suc, ◌+◌, Bool, true, false, not, ◌&&◌, ◌||◌, Option, none, some, List, [], ◌∷◌, ◌++◌,
  take, drop, leb, ◌==◌, if◌then◌else◌, String,
}
use switch_ldn_zt.Text.{Text, codes, is_space, later}

pub data Class : Type 0 where
  char : ℕ → Class
  -- `\s`
  space : Class
  -- `.` with `re.S`
  any : Class
  -- `[^…]`; `.` without `re.S` is all but `\n`
  none_of : Text → Class
  -- `[…]`
  one_of : Text → Class

abbrev pub mem : ℕ → Text → Bool
mem x [] = false
mem x (c ∷ cs) = x == c || mem x cs

unfoldable pub accepts : Class → ℕ → Bool
accepts (char c) x = x == c
accepts space x = is_space x
accepts any x = true
accepts (none_of cs) x = not (mem x cs)
accepts (one_of cs) x = mem x cs

pub data Regex : Type 0 where
  done : Regex
  one : Class → Regex → Regex
  -- `x*`
  many : Class → Regex → Regex
  -- `x*?`
  few : Class → Regex → Regex
  -- `^` and `$` with `re.M`
  line_start : Regex → Regex
  line_end : Regex → Regex
  -- `\b`; the test says which characters belong to a word
  boundary : (ℕ → Bool) → Regex → Regex
  either : Regex → Regex → Regex

-- The parts of a pattern, in the order in which they are written.
pub data Piece : Type 0 where
  lit : String → Piece
  -- `x*`, `x+` and `x*?`
  run : Class → Piece
  some_run : Class → Piece
  short_run : Class → Piece
  -- `^`, `$` and `\b`
  start_of_line : Piece
  end_of_line : Piece
  edge_of : (ℕ → Bool) → Piece

abbrev pub literal : Text → Regex → Regex
literal [] r = r
literal (c ∷ cs) r = one (char c) (literal cs r)

abbrev pub before : Piece → Regex → Regex
before (lit s) r = literal (codes s) r
before (run c) r = many c r
before (some_run c) r = one c (many c r)
before (short_run c) r = few c r
before start_of_line r = line_start r
before end_of_line r = line_end r
before (edge_of word) r = boundary word r

abbrev pub onto : List Piece → Regex → Regex
onto [] r = r
onto (p ∷ ps) r = before p (onto ps r)

abbrev pub pattern : List Piece → Regex
pattern ps = onto ps done

abbrev pub sp : Piece
sp = run space

abbrev pub sps : Piece
sps = some_run space

-- The places, by the character before and the text behind.
abbrev pub is_line_start : Option ℕ → Bool
is_line_start none = true
is_line_start (some c) = c == b'\n'

abbrev pub is_line_end : Text → Bool
is_line_end [] = true
is_line_end (c ∷ s) = c == b'\n'

abbrev pub in_word : (ℕ → Bool) → Option ℕ → Bool
in_word word none = false
in_word word (some c) = word c

abbrev pub begins_word : (ℕ → Bool) → Text → Bool
begins_word word [] = false
begins_word word (c ∷ s) = word c

abbrev pub differ : Bool → Bool → Bool
differ true b = not b
differ false b = b

abbrev pub or_else : Option ℕ → Option ℕ → Option ℕ
or_else none n = n
or_else (some m) n = some m

-- How many characters are matched at the start of a text that follows the character `b`.
unfoldable pub match : Regex → Option ℕ → Text → Option ℕ
unfolding accepts
match done b s = some 0
match (one c r) b [] = none
match (one c r) b (x ∷ s) =
    let rest = later (match r (some x) s) in if accepts c x then rest else none
match (many c r) b [] = match r b []
match (many c r) b (x ∷ s) =
    let longer = later (match (many c r) (some x) s) in
    let stop = match r b (x ∷ s) in
    let both = or_else longer stop in if accepts c x then both else stop
match (few c r) b [] = match r b []
match (few c r) b (x ∷ s) =
    let longer = later (match (few c r) (some x) s) in
    let stop = match r b (x ∷ s) in
    let both = or_else stop longer in if accepts c x then both else stop
match (line_start r) b s = let rest = match r b s in if is_line_start b then rest else none
match (line_end r) b s = let rest = match r b s in if is_line_end s then rest else none
match (boundary word r) b s =
    let rest = match r b s in if differ (in_word word b) (begins_word word s) then rest else none
match (either p q) b s = let first = match p b s in let second = match q b s in or_else first second

abbrev pub at_start : Option ℕ → Option (ℕ × ℕ) → Option (ℕ × ℕ)
at_start (some n) rest = some (0, n)
at_start none none = none
at_start none (some (i, n)) = some (suc i, n)

-- `re.search(r, s)`: where the match starts and how long it is. `b` is the character before.
unfoldable pub search_from : Regex → Option ℕ → Text → Option (ℕ × ℕ)
unfolding match
search_from r b [] = at_start (match r b []) none
search_from r b (x ∷ s) = let rest = search_from r (some x) s in at_start (match r b (x ∷ s)) rest

unfoldable pub find_match? : Regex → Text → Option (ℕ × ℕ)
unfolding search_from
find_match? r s = search_from r none s

abbrev pub subn_at : (Text → Text) → Text → Option (ℕ × ℕ) → Text × ℕ
subn_at new s none = (s, 0)
subn_at new s (some (i, n)) = (take i s ++ (new (take n (drop i s)) ++ drop (i + n) s), 1)

-- `re.subn(r, new, s, count=1)`, where `new` is made from what is matched
unfoldable pub subn_by : Regex → (Text → Text) → Text → Text × ℕ
unfolding find_match?
subn_by r new s = subn_at new s (find_match? r s)

-- the same with one text, which holds no backslash
unfoldable pub subn : Regex → Text → Text → Text × ℕ
unfolding subn_by
subn r new s = subn_by r (λ _. new) s
