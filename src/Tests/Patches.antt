-- ===== src/Tests/Patches.antt =====
-- Runs of the patches, and the theorems about them at concrete documents.
use gen_runner.Prelude.{
  ℕ, ◌+◌, ◌-◌, ◌^◌, ◌≤◌, ◌<◌, ◌≡◌, refl, ap, ◌≢◌, ◌&&◌, List, [], ◌∷◌, arith, leb, if◌then◌else◌,
  length,
}
use gen_runner.Prelude.Int.{ℤ, pos}
use gen_runner.Text.{Text, codes, trim_space, trim_left_func, trim_right_func, is_space, byte_len}
use gen_runner.History.{to_lower}
use gen_runner.MdPatch.{
  max_output_runes, max_spec_json_bytes, max_ops, split_from, Result, ok, panics, MdPatchOp,
  split_lines, join_lines, delete_line_range, insert_before_line, replace_substring, replace_first,
  count_substr, count_from, apply_one, apply_all, apply_patch_json, validate_output_size,
  check_range, add_int, slice_to, slice_from,
}
use gen_runner.MdPatch.Ops.{delete-insert, delete_line_range-panics}
use gen_runner.MdPatch.Places.{Replaces}
use gen_runner.MdPatch.Bounds.{replace_substring-Replaces, apply_one-ne-panics}
use gen_runner.MdPatch.Run.{Applies, apply_patch_json-Applies}

abbrev line_op : Text → ℤ → ℤ → List Text → Text → MdPatchOp
line_op name line count lines text = record {
  op = name;
  line = line;
  count = count;
  lines = lines;
  text = text;
  old = codes "b";
  new = codes "x";
}

abbrev doc : Text
doc = codes "a\nb\nc"

doc_lines : split_lines doc ≡ codes "a" ∷ codes "b" ∷ codes "c" ∷ []
unfolding split_lines split_from
doc_lines = refl

abbrev insert_x : MdPatchOp
insert_x = line_op [] (pos 1) (pos 0) [] (codes "x")

x_lines : split_lines (codes "x") ≡ codes "x" ∷ []
unfolding split_lines split_from
x_lines = refl

x_inserted : insert_before_line doc insert_x ≡ ok (codes "a\nx\nb\nc")
unfolding insert_before_line split_lines split_from join_lines slice_to slice_from
x_inserted = refl

delete-insert_example :
    delete_line_range (codes "a\nx\nb\nc") (line_op [] (pos 1) (pos 1) [] []) ≡ ok doc
delete-insert_example =
    delete-insert doc (codes "a\nx\nb\nc") (codes "a" ∷ []) (codes "b" ∷ codes "c" ∷ []) insert_x
      (line_op [] (pos 1) (pos 1) [] []) doc_lines refl (refl, rw x_lines)
      (omega (arith, ap (λ (l : List Text). length l) x_lines)) x_inserted

delete_line_range-panics_example :
    delete_line_range doc (line_op [] (pos (2 ^ 63 - 1)) (pos 1) [] []) ≡ panics
delete_line_range-panics_example =
    delete_line_range-panics doc (line_op [] (pos (2 ^ 63 - 1)) (pos 1) [] []) (2 ^ 63 - 1) 1
      (refl, refl) (omega arith) (omega arith) (omega arith) (omega arith)

x_replaces_b : replace_substring doc insert_x ≡ ok (codes "a\nx\nc")
unfolding replace_substring replace_first count_substr count_from
x_replaces_b = refl

replace_substring-Replaces_example :
    Replaces doc (codes "b") (codes "x") (codes "a\nx\nc")
    × (count_substr doc (codes "b") ≡ 1)
    × (codes "b" ≢ [])
replace_substring-Replaces_example =
    replace_substring-Replaces doc insert_x (codes "a\nx\nc") x_replaces_b

abbrev ascii_lower : ℕ → ℕ
ascii_lower c = if leb 65 c && leb c 90 then c + 32 else c

apply_one-ne-panics_example :
    apply_one ascii_lower doc (line_op (codes "delete_line_range") (pos 7) (pos 2) [] []) ≢ panics
apply_one-ne-panics_example =
    apply_one-ne-panics ascii_lower doc (line_op (codes "delete_line_range") (pos 7) (pos 2) [] [])
      (omega arith)

-- The decoder of one patch.
abbrev decode_one : Text → Result (List MdPatchOp)
decode_one s = ok (line_op (codes "delete_line_range") (pos 1) (pos 1) [] [] ∷ [])

one_applied : apply_patch_json ascii_lower decode_one doc (codes "{}") ≡ ok (codes "a\nc")
unfolding apply_patch_json apply_all apply_one validate_output_size delete_line_range check_range
    add_int slice_to slice_from split_lines split_from join_lines trim_space trim_left_func
    trim_right_func is_space byte_len to_lower
one_applied = refl

apply_patch_json-Applies_example :
    (ops : List MdPatchOp) × (decode_one (trim_space (codes "{}")) ≡ ok ops)
    × (0 < length ops)
    × (length ops ≤ max_ops)
    × (byte_len (trim_space (codes "{}")) ≤ max_spec_json_bytes)
    × Applies ascii_lower doc ops (codes "a\nc")
    × (length (codes "a\nc") ≤ max_output_runes)
apply_patch_json-Applies_example =
    apply_patch_json-Applies ascii_lower decode_one doc (codes "{}") (codes "a\nc") one_applied

-- Places that overlap count as one.
overlapping_places : count_substr (codes "aaa") (codes "aa") ≡ 1
unfolding count_substr count_from
overlapping_places = refl
