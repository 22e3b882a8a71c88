-- ===== src/MdPatch/Bounds.antt =====
-- pkg/document/md_patch.go: panics, and what the replacement of a text does.
use gen_runner.MdPatch.Places.{Replaces, replace_first-Replaces}
use gen_runner.Prelude.{ℕ, ◌+◌, ◌<◌, ◌≡◌, ◌≢◌, [], arith}
use gen_runner.Prelude.Int.{pos_part}
use gen_runner.Text.{Text}
use gen_runner.MdPatch.{
  ok, panics, MdPatchOp, count_from, count_substr, replace_first, add_int, slice_to, slice_from,
  replace_substring, insert_before_line, check_range, delete_line_range, replace_line_range,
  apply_one,
}
use gen_runner.MdPatch.Ops.{int_limit}

-- If a replacement succeeds, then the old text is not empty. The result is the text with the first
-- place of the old text replaced and all around it as it was, and the old text does not stand in what
-- follows that place. (Places that overlap the first are not looked for, as with `strings.Count`.)
pub replace_substring-Replaces :
    (text : Text) (op : MdPatchOp) (r : Text)
    → replace_substring text op ≡ ok r
    → Replaces text op.old op.new r × (count_substr text op.old ≡ 1) × (op.old ≢ [])
unfolding replace_substring count_substr
replace_substring-Replaces text op r h =
    let once : count_from op.old 0 text ≡ 1 = ground arith in
    let made : replace_first text op.old op.new ≡ r = ground arith in
    let some_old : op.old ≢ [] = ground arith in
    (rw made at (replace_first-Replaces text op.old op.new some_old once), once, some_old)

-- No overflow: the numbers of the operation add up to an `int`.
abbrev pub NoOverflow : MdPatchOp → Type 0
NoOverflow op = pos_part op.line + pos_part op.count < int_limit

delete_line_range-ne-panics :
    (text : Text) (op : MdPatchOp) → NoOverflow op → delete_line_range text op ≢ panics
unfolding delete_line_range check_range add_int slice_to slice_from
delete_line_range-ne-panics text op fits h = ground arith

replace_line_range-ne-panics :
    (text : Text) (op : MdPatchOp) → NoOverflow op → replace_line_range text op ≢ panics
unfolding replace_line_range check_range add_int slice_to slice_from
replace_line_range-ne-panics text op fits h = ground arith

insert_before_line-ne-panics : (text : Text) (op : MdPatchOp) → insert_before_line text op ≢ panics
unfolding insert_before_line slice_to slice_from
insert_before_line-ne-panics text op h = ground arith

replace_substring-ne-panics : (text : Text) (op : MdPatchOp) → replace_substring text op ≢ panics
unfolding replace_substring
replace_substring-ne-panics text op h = ground arith

-- If the line and the count of an operation add up below 2^63, it does not panic, whatever the
-- text.
pub apply_one-ne-panics :
    (lower : ℕ → ℕ) (text : Text) (op : MdPatchOp)
    → NoOverflow op
    → apply_one lower text op ≢ panics
unfolding apply_one
apply_one-ne-panics lower text op fits h = ground (
  arith,
  replace_substring-ne-panics text op,
  insert_before_line-ne-panics text op,
  delete_line_range-ne-panics text op fits,
  replace_line_range-ne-panics text op fits,
)
