-- ===== src/Tests/LdnEdits.antt =====
-- The three editing helpers on small files.
use switch_ldn_zt.Base.{true, some, [], ◌∷◌, ◌++◌, ◌≡◌, refl, arith}
use switch_ldn_zt.Text.{Text, codes, contains, eqb, find?, find_from?}
use switch_ldn_zt.Text.Newlines.{universal_newlines}
use switch_ldn_zt.Text.Occurs.{Leftmost}
use switch_ldn_zt.Text.Every.{Every}
use switch_ldn_zt.Disk.{File, FilePath, find_file}
use switch_ldn_zt.Script.{Machine, ok, try_read, read_text, write_text, ◌>>=◌}
use switch_ldn_zt.Script.Atomic.{IsAtomic}
use switch_ldn_zt.LdnPatch.Edit.{
  replace, replace_all, replace_function, replace_found, replace_from_brace, replace_body,
  close_brace,
}
use switch_ldn_zt.LdnPatch.Edit.Braces.{opening, closing, Balanced}
use switch_ldn_zt.LdnPatch.Edit.Laws.{Rewrites, replace_lem, replace_all_lem}
use switch_ldn_zt.LdnPatch.Edit.Function.{Function, rewritten, replace_function_lem}
use switch_ldn_zt.LdnPatch.Edit.Finds.{replace_function_finds}
use switch_ldn_zt.LdnPatch.Edit.Refusal.{helpers-IsAtomic}

abbrev path : FilePath
path = codes "a.cpp"

abbrev old : Text
old = codes "ab"

abbrev new : Text
new = codes "c"

abbrev machine : Text → Machine
machine s = record { files = (path, File.text s) ∷ []; windows = true; out = [] }

abbrev abx : Machine
abx = machine (codes "abx")

abx_read : try_read path abx ≡ some (codes "abx")
abx_read = unfold try_read find_file eqb codes universal_newlines in refl

abx_first : Leftmost old (codes "abx") [] (codes "x")
abx_first = record { splits = unfold codes in refl; first = λ p q e. omega arith }

replace_lem_example : Rewrites path (new ++ codes "x") (replace path old new) abx
replace_lem_example = replace_lem path abx_read new abx_first (unfold codes in omega arith)

abx-Every : Every (b'a' ∷ codes "b") new 1 (codes "abx") (new ++ codes "x")
abx-Every =
    Every.one {s = codes "abx"} {t = codes "x"} {pre = []} {post = codes "x"}
      (record { splits = unfold codes in refl; first = λ p q e. omega arith })
      (Every.none_left {s = codes "x"} (unfold contains codes in refl)) refl

replace_all_lem_example :
    Rewrites path (new ++ codes "x") (replace_all path (b'a' ∷ codes "b") new 1) abx
replace_all_lem_example =
    replace_all_lem path abx_read 1 abx-Every (omega arith) (unfold codes in omega arith)

-- a function whose body holds a block
abbrev fun_text : Text
fun_text = codes "int f()\n{x{}}y"

abbrev fun_machine : Machine
fun_machine = machine fun_text

abbrev signature : Text
signature = codes "int f()"

fun_read : try_read path fun_machine ≡ some fun_text
fun_read = unfold try_read find_file eqb codes universal_newlines in refl

fun_body : Balanced (codes "x{}")
fun_body =
    unfold codes in
    Balanced.plain b'x' (omega arith) (omega arith) (Balanced.group Balanced.nil Balanced.nil refl)

fun_found :
    Leftmost signature fun_text [] (codes "\n" ++ opening ∷ (codes "x{}" ++ closing ∷ codes "y"))
fun_found = record { splits = unfold codes in refl; first = λ p q e. omega arith }

abbrev fun : Function signature fun_text
fun = record {
  before = [];
  gap = codes "\n";
  body = codes "x{}";
  after = codes "y";
  found = fun_found;
  no_brace = unfold codes in omega arith;
  balanced = fun_body;
}

replace_function_lem_example :
    Rewrites path
      (rewritten fun (codes "{}"))
      (replace_function path signature (codes "{}"))
      fun_machine
replace_function_lem_example =
    replace_function_lem path fun (codes "{}") fun_read (unfold codes in omega arith)

abbrev fun_end : Machine
fun_end = (replace_function path signature (codes "{}") fun_machine).1

fun_run : (replace_function path signature (codes "{}") fun_machine).0 ≡ ok tt
unfolding replace_function replace_found replace_from_brace replace_body close_brace find?
    find_from? codes universal_newlines find_file eqb ◌>>=◌ read_text try_read write_text
fun_run = refl

replace_function_finds_example : Function signature fun_text
replace_function_finds_example =
    replace_function_finds path signature (codes "{}") fun_machine {m' = fun_end}
      (unfold codes in omega arith) fun_read (λ i. (fun_run i, fun_end))

helpers-IsAtomic_example :
    IsAtomic (replace path old new)
    × IsAtomic (replace_all path old new 2)
    × IsAtomic (replace_function path old new)
helpers-IsAtomic_example = helpers-IsAtomic path old new 2
