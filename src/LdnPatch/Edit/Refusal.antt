-- ===== src/LdnPatch/Edit/Refusal.antt =====
-- The helpers where they raise.
use switch_ldn_zt.Base.{ℕ, Option, none, some}
use switch_ldn_zt.Text.{Text}
use switch_ldn_zt.Disk.{FilePath}
use switch_ldn_zt.Script.Atomic.{IsAtomic, atomic_rules}
use switch_ldn_zt.LdnPatch.Edit.{
  replace, replace_all, replace_function, replace_found, replace_from_brace, replace_body,
}

replace-IsAtomic : (path : FilePath) (old new : Text) → IsAtomic (replace path old new)
unfolding replace
replace-IsAtomic path old new = search atomic_rules

replace_all-IsAtomic :
    (path : FilePath) (old new : Text) (minimum : ℕ) → IsAtomic (replace_all path old new minimum)
unfolding replace_all
replace_all-IsAtomic path old new minimum = search atomic_rules

module _ (path : FilePath) (signature new_body text : Text) where
  body-IsAtomic :
      (start : ℕ) (e : Option ℕ) → IsAtomic (replace_body path signature new_body text start e)
  unfolding replace_body
  body-IsAtomic start none = search atomic_rules
  body-IsAtomic start (some e) = search atomic_rules

  brace-IsAtomic :
      (start : ℕ) (brace : Option ℕ)
      → IsAtomic (replace_from_brace path signature new_body text start brace)
  unfolding replace_from_brace
  brace-IsAtomic start none = search atomic_rules
  brace-IsAtomic start (some b) = body-IsAtomic start _

  found-IsAtomic : (start : Option ℕ) → IsAtomic (replace_found path signature new_body text start)
  unfolding replace_found
  found-IsAtomic none = search atomic_rules
  found-IsAtomic (some start) = brace-IsAtomic start _

replace_function-IsAtomic :
    (path : FilePath) (signature new_body : Text)
    → IsAtomic (replace_function path signature new_body)
unfolding replace_function
replace_function-IsAtomic path signature new_body =
    search (atomic_rules, λ (text : Text). found-IsAtomic path signature new_body text)

-- Each of the three helpers leaves the machine as it was if it raises, whatever its arguments.
pub helpers-IsAtomic :
    (path : FilePath) (a b : Text) (minimum : ℕ)
    → IsAtomic (replace path a b)
      × IsAtomic (replace_all path a b minimum)
      × IsAtomic (replace_function path a b)
helpers-IsAtomic path a b minimum = (
  replace-IsAtomic path a b,
  replace_all-IsAtomic path a b minimum,
  replace_function-IsAtomic path a b,
)
