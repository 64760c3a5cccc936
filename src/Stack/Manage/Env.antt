-- ===== src/Stack/Manage/Env.antt =====
-- The texts that biz/compose_stack.go reads: the env file of a stack, and a search that ignores case.
use swirl_evo.Common.{
  ℕ, ◌+◌, Bool, true, false, ◌||◌, ◌==◌, List, [], ◌∷◌, Option, none, some, Text, codes, cut, split,
  trim_space, to_lower, text_eq, if◌then◌else◌,
}
use swirl_evo.Common.Dict.{Dict, replace}
use swirl_evo.Host.{has_prefix}

abbrev pub line_break : ℕ
line_break = 10

abbrev pub set_parts : Option (Text × Text) → Dict Text Text → Dict Text Text
set_parts none out = out
set_parts (some (key, value)) out = replace (trim_space key) (trim_space value) out

-- The step of the loop for one line.
unfoldable pub read_line : Text → Dict Text Text → Dict Text Text
unfolding cut replace
read_line line out =
    let trimmed = trim_space line in
    if trimmed == [] || has_prefix (codes "#") trimmed
    then out
    else set_parts (cut (codes "=") trimmed) out

unfoldable pub read_lines : List Text → Dict Text Text → Dict Text Text
unfolding read_line
read_lines [] out = out
read_lines (line ∷ lines) out = read_lines lines (read_line line out)

-- `parseEnvFile`; the map without entries is `nil` or empty alike.
unfoldable pub parse_env_file : Text → Dict Text Text
unfolding read_lines split
parse_env_file content =
    let lines = read_lines (split line_break content) [] in if content == [] then [] else lines

-- `split2`.
unfoldable pub split2 : Text → Text → Text × Text
unfolding cut
split2 s sep = elim (cut sep s) [ none ↦ (s, []) | some parts ↦ parts ]

-- The loop of `indexFoldCase`, from a position on; both texts are in lower case.
unfoldable pub index_from : ℕ → Text → Text → Option ℕ
index_from i part [] = if has_prefix part [] then some i else none
index_from i part (c ∷ s) =
    let later = index_from (i + 1) part s in if has_prefix part (c ∷ s) then some i else later

-- `indexFoldCase`: `none` for -1.
unfoldable pub index_fold_case : Text → Text → Option ℕ
unfolding index_from
index_fold_case s part = index_from 0 (to_lower part) (to_lower s)

unfoldable pub contains_ignore_case : Text → Text → Bool
unfolding index_fold_case
contains_ignore_case s part = elim (index_fold_case s part) [ none ↦ false | some i ↦ true ]
