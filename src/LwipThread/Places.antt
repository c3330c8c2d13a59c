-- ===== src/LwipThread/Places.antt =====
-- Places in a text, as the script finds them.
use switch_ldn_zt.Base.{
  ℕ, ◌+◌, ◌-◌, not, ◌&&◌, ◌||◌, Option, none, some, [], ◌∷◌, ◌++◌, length, take, drop, ltb, ◌==◌,
  if◌then◌else◌,
}
use switch_ldn_zt.Text.{Text, contains, find_from?, replace_first, eqb, later}
use switch_ldn_zt.Regex.{Regex, find_match?}

-- `s[:i] + new + s[i:]`
unfoldable pub insert_at : ℕ → Text → Text → Text
insert_at i new s = take i s ++ (new ++ drop i s)

-- `m.end()` of `re.search(r, s)`
abbrev pub end_of : Option (ℕ × ℕ) → Option ℕ
end_of none = none
end_of (some (i, n)) = some (i + n)

unfoldable pub search_end? : Regex → Text → Option ℕ
search_end? r s = end_of (find_match? r s)

-- `s.find(old, start)`. A start of -1 is the last character.
unfoldable pub find_after? : Option ℕ → Text → Text → Option ℕ
find_after? none old s = find_from? (length s - 1) old s
find_after? (some i) old s = find_from? i old s

-- `i + 1`, where -1 is nothing found
abbrev pub past : Option ℕ → ℕ
past none = 0
past (some i) = i + 1

abbrev pub shifted : ℕ → Option ℕ → Option ℕ
shifted i none = none
shifted i (some j) = some (i + j)

-- The loop `for i in range(start, len(s))` over the depth of brackets, which is kept as the numbers of
-- those opened and closed: it ends at the bracket that brings the depth to 0.
unfoldable pub close_of : ℕ → ℕ → ℕ → ℕ → Text → Option ℕ
close_of left right opened closed [] = none
close_of left right opened closed (c ∷ s) =
    let rest =
      close_of left right (if c == left then opened + 1 else opened)
        (if not (c == left) && c == right then closed + 1 else closed) s in
    let ends = not (c == left) && (c == right && opened == closed + 1) in
    if ends then some 0 else later rest

-- The loop from the place of `left`, which was looked for.
unfoldable pub close_after? : ℕ → ℕ → ℕ → Text → Option ℕ
close_after? left right i s = shifted i (close_of left right 0 0 (drop i s))

-- The same from the last character on, and from the first after it: the place was not found.
unfoldable pub close_from? : ℕ → ℕ → Option ℕ → Text → Option ℕ
close_from? left right (some i) s = close_after? left right i s
close_from? left right none s =
    let last = drop (length s - 1) s in
    close_of left right (if eqb last (left ∷ []) then 1 else 0)
      (if eqb last (right ∷ []) then 1 else 0) s

-- `s.rfind('\n') + 1`
unfoldable pub after_newline : Text → ℕ
after_newline [] = 0
after_newline (c ∷ s) =
    let rest = after_newline s in if ltb 0 rest then rest + 1 else if c == b'\n' then 1 else 0

-- `s.rfind('\n', 0, i) + 1`
unfoldable pub line_start : ℕ → Text → ℕ
line_start i s = after_newline (take i s)

-- `re.match(r'[ \t]*', s).group(0)`
unfoldable pub indent_of : Text → Text
indent_of [] = []
indent_of (c ∷ s) = let rest = indent_of s in if c == b' ' || c == b'\t' then c ∷ rest else []

-- `s[i:j]`
abbrev pub slice : ℕ → ℕ → Text → Text
slice i j s = drop i (take j s)

-- `if mark not in s: s = s[:i] + new + s[i:]`
unfoldable pub mark_at : Text → ℕ → Text → Text → Text
mark_at mark i new s = if contains mark s then s else insert_at i new s

-- `if mark not in s:` and `if anchor in s:` the text put behind the anchor
unfoldable pub include_after : Text → Text → Text → Text → Text
include_after mark anchor new s =
    if contains mark s then s else replace_first anchor (anchor ++ new) s
