-- ===== src/MdPatch.antt =====
-- pkg/document/md_patch.go. The JSON of a patch is decoded by encoding/json; the model starts at
-- the decoded operations. An `int` is 64 bits wide: `op.Line+op.Count` wraps around.
pub mod Places
pub mod Lines
pub mod Ops
pub mod Bounds
pub mod Run
use gen_runner.Prelude.{
  ℕ, zero, suc, ◌+◌, ◌-◌, ◌*◌, ◌/◌, ◌%◌, ◌^◌, ◌≤◌, ◌<◌, min, max, ◌≡◌, refl, sym, ap, ◌∙◌, subst,
  ◌≢◌, ◌↔◌, ◌⊎◌, inl, inr, Bool, true, false, not, ◌&&◌, ◌||◌, Option, none, some, List, [], ◌∷◌,
  ◌++◌, map, reverse, append_assoc, append-nil, arith, ltb, leb, ◌==◌, if◌then◌else◌, ltb→lt,
  lt→ltb, leb→le, le→leb, lt→leb_false, le→ltb_false, ==_iff, Bool-cases, Option-cases, List-cases,
  length, is_empty, get_elem?, set, take, drop, filter_by, all_by, All, length-append,
  length-reverse, length-map, length-set, take-append-drop, length-take, length-drop,
  take-append_left, drop-append_left, All-append, All-map_weaken,
}
use gen_runner.Prelude.Int.{ℤ, pos, negsuc, pos_part, is_negative}
use gen_runner.Text.{Text, codes, text_eq, trim_space, has_prefix, byte_len}

pub data PatchError : Type 0 where
  empty_patch patch_too_long no_ops too_many_ops output_too_long : PatchError
  empty_old not_found ambiguous : PatchError
  line_out_of_range too_many_lines bad_count range_out_of_range : PatchError
  empty_op unknown_op : PatchError

-- `panics` is a slice expression out of range.
pub data Result {ℓ} (A : Type ℓ) : Type ℓ where
  ok : A → Result A
  err : PatchError → Result A
  panics : Result A

-- A step that fails ends the operation: `if err != nil { return "", err }`.
infixl 5 ◌>>=◌ ◌>>◌
abbrev pub ◌>>=◌ {ℓ κ} : {X : Type ℓ} {Y : Type κ} → Result X → (X → Result Y) → Result Y
panics >>= next = panics
err why >>= next = err why
ok value >>= next = next value

-- A step that gives no value.
abbrev pub ◌>>◌ {κ} : {Y : Type κ} → Result (Unit {0}) → Result Y → Result Y
check >> rest = check >>= λ _. rest

-- `if bad { return err }`
abbrev pub reject_if : Bool → PatchError → Result (Unit {0})
reject_if true e = err e
reject_if false e = ok tt

pub record MdPatchOp : Type 0 where
  pub op : Text
  pub line : ℤ
  pub count : ℤ
  pub lines : List Text
  pub text : Text
  pub old : Text
  pub new : Text

abbrev pub max_spec_json_bytes : ℕ
max_spec_json_bytes = 256 * 1024

abbrev pub max_ops : ℕ
max_ops = 200

abbrev pub max_output_runes : ℕ
max_output_runes = 600_000

abbrev pub max_line_count : ℕ
max_line_count = 100_000

abbrev pub newline : ℕ
newline = 10

-- `strings.Split(s, "\n")`, with the line read so far.
unfoldable pub split_from : Text → Text → List Text
split_from cur [] = cur ∷ []
split_from cur (c ∷ s) =
    let cut = cur ∷ split_from [] s in
    let go_on = split_from (cur ++ c ∷ []) s in if c == newline then cut else go_on

-- `splitLines`: the empty text is one empty line, which `strings.Split` gives too.
unfoldable pub split_lines : Text → List Text
split_lines [] = [] ∷ []
split_lines (c ∷ s) = split_from [] (c ∷ s)

-- `strings.Join(lines, "\n")`
unfoldable pub join_lines : List Text → Text
join_lines [] = []
join_lines (l ∷ []) = l
join_lines (l ∷ k ∷ ls) = l ++ newline ∷ join_lines (k ∷ ls)

-- `strings.Count` and `strings.Replace(…, 1)` of a text that is not empty. `skip` counts the code
-- points of a match that are still to be passed over: matches do not overlap.
unfoldable pub count_from : Text → ℕ → Text → ℕ
count_from old skip [] = 0
count_from old (suc skip) (c ∷ s) = count_from old skip s
count_from old zero (c ∷ s) =
    let hit = suc (count_from old (length old - 1) s) in
    let miss = count_from old zero s in if has_prefix (c ∷ s) old then hit else miss

unfoldable pub count_substr : Text → Text → ℕ
count_substr s old = count_from old 0 s

unfoldable pub replace_first : Text → Text → Text → Text
replace_first [] old new = []
replace_first (c ∷ s) old new =
    let rest = replace_first s old new in
    if has_prefix (c ∷ s) old then new ++ drop (length old) (c ∷ s) else c ∷ rest

-- A sum of two numbers that are not negative, as an `int`: past 2^63 - 1 it is negative.
unfoldable pub add_int : ℕ → ℕ → ℤ
add_int a b = if ltb (a + b) (2 ^ 63) then pos (a + b) else negsuc (2 ^ 64 - (a + b) - 1)

-- `z > n`, for a number `n`
abbrev pub gt_len : ℤ → ℕ → Bool
gt_len (pos a) n = ltb n a
gt_len (negsuc a) n = false

-- `lines[:i]` and `lines[i:]`; an index past the end panics. (A slice's capacity is its length
-- here: `strings.Split` makes it so.)
unfoldable pub slice_to : List Text → ℕ → Result (List Text)
slice_to ls i = if ltb (length ls) i then panics else ok (take i ls)

unfoldable pub slice_from : List Text → ℤ → Result (List Text)
slice_from ls (pos i) = if ltb (length ls) i then panics else ok (drop i ls)
slice_from ls (negsuc i) = panics

unfoldable pub replace_substring : Text → MdPatchOp → Result Text
replace_substring text op = do
  reject_if (is_empty op.old) empty_old
  let n = count_substr text op.old
  reject_if (n == 0) not_found
  reject_if (ltb 1 n) ambiguous
  ok (replace_first text op.old op.new)

unfoldable pub insert_before_line : Text → MdPatchOp → Result Text
insert_before_line text op = do
  let lines = split_lines text
  reject_if (is_negative op.line || ltb (length lines) (pos_part op.line)) line_out_of_range
  let insert = split_lines op.text
  reject_if (ltb max_line_count (length lines + length insert)) too_many_lines
  front ← slice_to lines (pos_part op.line)
  back ← slice_from lines op.line
  ok (join_lines (front ++ insert ++ back))

-- `op.Count < 1`, and the range test that deleting and replacing share.
unfoldable pub check_range : List Text → MdPatchOp → Result (Unit {0})
check_range lines op = do
  reject_if (pos_part op.count == 0) bad_count
  reject_if (is_negative op.line) range_out_of_range
  reject_if (gt_len (add_int (pos_part op.line) (pos_part op.count)) (length lines))
      range_out_of_range

unfoldable pub delete_line_range : Text → MdPatchOp → Result Text
delete_line_range text op = do
  let lines = split_lines text
  check_range lines op
  front ← slice_to lines (pos_part op.line)
  back ← slice_from lines (add_int (pos_part op.line) (pos_part op.count))
  ok (join_lines (front ++ back))

-- `len(lines)-op.Count+len(op.Lines)` is below 0 only where `op.Count` is past every slice, and no
-- test fails then; it is 0 here.
unfoldable pub replace_line_range : Text → MdPatchOp → Result Text
replace_line_range text op = do
  let lines = split_lines text
  check_range lines op
  reject_if (ltb max_line_count (length lines + length op.lines - pos_part op.count)) too_many_lines
  front ← slice_to lines (pos_part op.line)
  back ← slice_from lines (add_int (pos_part op.line) (pos_part op.count))
  ok (join_lines (front ++ op.lines ++ back))

module _ (lower : ℕ → ℕ) where
  unfoldable pub apply_one : Text → MdPatchOp → Result Text
  apply_one text op =
      let kind = trim_space (map lower op.op) in
      if text_eq kind (codes "append")
      then ok (text ++ op.text)
      else if text_eq kind (codes "prepend")
      then ok (op.text ++ text)
      else if text_eq kind (codes "replace_substring")
      then replace_substring text op
      else if text_eq kind (codes "insert_before_line")
      then insert_before_line text op
      else if text_eq kind (codes "delete_line_range")
      then delete_line_range text op
      else if text_eq kind (codes "replace_line_range")
      then replace_line_range text op
      else if is_empty kind
      then err empty_op
      else err unknown_op

  unfoldable pub validate_output_size : Text → Result (Unit {0})
  validate_output_size s = reject_if (ltb max_output_runes (length s)) output_too_long

  unfoldable pub apply_all : Text → List MdPatchOp → Result Text
  apply_all text [] = do validate_output_size text; ok text
  apply_all text (op ∷ ops) = do
    validate_output_size text
    text' ← apply_one text op
    apply_all text' ops

  -- `decode` is what `json.Unmarshal` makes of the trimmed patch text. Texts are valid UTF-8, so the
  -- test for that is left out.
  unfoldable pub apply_patch_json : (Text → Result (List MdPatchOp)) → Text → Text → Result Text
  apply_patch_json decode base patch = do
    let json = trim_space patch
    reject_if (is_empty json) empty_patch
    reject_if (ltb max_spec_json_bytes (byte_len json)) patch_too_long
    ops ← decode json
    reject_if (is_empty ops) no_ops
    reject_if (ltb max_ops (length ops)) too_many_ops
    apply_all base ops
