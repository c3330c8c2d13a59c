-- ===== src/Text.antt =====
-- Texts, and the methods of Python's `str` that the scripts call. A text is the list of its code
-- points. An index is a number, and -1 (nothing found) is `none`.
pub mod Occurs
pub mod Count
pub mod Marked
pub mod Newlines
pub mod Every
pub mod Barrier
use Prim.Native.Char.{code}
use Prim.Native.String
use switch_ldn_zt.Base.{
  ℕ, zero, suc, ◌+◌, ◌-◌, String, Bool, true, false, ◌&&◌, ◌||◌, Option, none, some, List, [], ◌∷◌,
  ◌++◌, leb, length, take, drop, ◌==◌, if◌then◌else◌,
}

abbrev pub Text : Type 0
Text = List ℕ

-- the code points of a literal
unfoldable pub codes : String → Text
codes String.[] = []
codes (String.◌∷◌ c s) = code c ∷ codes s

-- a literal of several lines
unfoldable pub rows : List String → Text
unfolding codes
rows [] = []
rows (s ∷ []) = codes s
rows (s ∷ t ∷ ss) = codes s ++ b'\n' ∷ rows (t ∷ ss)

-- `s == t`
unfoldable pub eqb : Text → Text → Bool
eqb [] [] = true
eqb [] (d ∷ t) = false
eqb (c ∷ s) [] = false
eqb (c ∷ s) (d ∷ t) = c == d && eqb s t

-- `s.startswith(old)`
unfoldable pub starts_with : Text → Text → Bool
starts_with [] s = true
starts_with (c ∷ old) [] = false
starts_with (c ∷ old) (d ∷ s) = c == d && starts_with old s

-- `old in s`
unfoldable pub contains : Text → Text → Bool
unfolding starts_with
contains old [] = starts_with old []
contains old (c ∷ s) = starts_with old (c ∷ s) || contains old s

abbrev pub later : Option ℕ → Option ℕ
later none = none
later (some i) = some (suc i)

-- `s.find(old)`
unfoldable pub find? : Text → Text → Option ℕ
unfolding starts_with
find? old [] = if starts_with old [] then some 0 else none
find? old (c ∷ s) = if starts_with old (c ∷ s) then some 0 else later (find? old s)

-- `s.replace(old, new, 1)`
unfoldable pub replace_first : Text → Text → Text → Text
unfolding starts_with
replace_first old new [] = if starts_with old [] then new else []
replace_first old new (c ∷ s) =
    if starts_with old (c ∷ s)
    then new ++ drop (length old) (c ∷ s)
    else c ∷ replace_first old new s

-- The scan of `s.count(old)`: the number says how many characters of the last match are still to
-- be passed over.
unfoldable pub count_from : ℕ → Text → Text → ℕ
unfolding starts_with
count_from k old [] = if starts_with old [] then 1 else 0
count_from (suc k) old (c ∷ s) = count_from k old s
count_from zero old (c ∷ s) =
    let hit = starts_with old (c ∷ s) in
    (if hit then 1 else 0) + count_from (if hit then length old - 1 else 0) old s

-- `s.count(old)`, matches that do not overlap
unfoldable pub count : Text → Text → ℕ
unfolding count_from
count old s = count_from 0 old s

-- The scan of `s.replace(old, new)`. An empty `old` matches before each character, and keeps it.
unfoldable pub replace_from : ℕ → Text → Text → Text → Text
unfolding starts_with
replace_from k old new [] = if starts_with old [] then new else []
replace_from (suc k) old new (c ∷ s) = replace_from k old new s
replace_from zero old new (c ∷ s) =
    let hit = starts_with old (c ∷ s) in
    (if hit then new ++ take (1 - length old) (c ∷ []) else c ∷ [])
    ++ replace_from (if hit then length old - 1 else 0) old new s

-- `s.replace(old, new)`
unfoldable pub replace_every : Text → Text → Text → Text
unfolding replace_from
replace_every old new s = replace_from 0 old new s

-- `s.find(old, start)`
unfoldable pub find_from? : ℕ → Text → Text → Option ℕ
unfolding find?
find_from? zero old s = find? old s
find_from? (suc n) old [] = none
find_from? (suc n) old (c ∷ s) = later (find_from? n old s)

-- the characters that `s.strip()` takes away
abbrev pub is_space : ℕ → Bool
is_space c =
    (leb 9 c && leb c 13)
    || (leb 28 c && leb c 32)
    || c == 0x85
    || c == 0xa0
    || c == 0x1680
    || (leb 0x2000 c && leb c 0x200a)
    || c == 0x2028
    || c == 0x2029
    || c == 0x202f
    || c == 0x205f
    || c == 0x3000

unfoldable pub lstrip : Text → Text
lstrip [] = []
lstrip (c ∷ s) = let rest = lstrip s in if is_space c then rest else c ∷ s

unfoldable pub rstrip : Text → Text
unfolding eqb
rstrip [] = []
rstrip (c ∷ s) = let rest = rstrip s in if is_space c && eqb rest [] then [] else c ∷ rest

-- `s.strip()`
unfoldable pub strip : Text → Text
unfolding lstrip rstrip
strip s = rstrip (lstrip s)
