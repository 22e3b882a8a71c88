-- ===== src/MdPatch/Ops.antt =====
-- pkg/document/md_patch.go: the line operations on the lines of a text.
use gen_runner.Prelude.{
  ℕ, suc, ◌+◌, ◌-◌, ◌^◌, ◌≤◌, ◌<◌, ◌≡◌, refl, sym, ap, ◌∙◌, ◌≢◌, false, List, [], ◌∷◌, ◌++◌,
  append_assoc, arith, ltb, ◌==◌, lt→ltb, le→ltb_false, length, All, length-append,
  take-append_left, drop-append_left, All-append,
}
use gen_runner.Prelude.Int.{pos}
use gen_runner.Text.{Text}
use gen_runner.MdPatch.{
  ok, panics, MdPatchOp, max_line_count, split_lines, join_lines, add_int, slice_to, slice_from,
  insert_before_line, check_range, delete_line_range, replace_line_range,
}
use gen_runner.MdPatch.Lines.{
  IsLine, join_lines-split_lines, split_lines-join_lines, split_lines-All, split_lines-ne-nil,
}

abbrev pub int_limit : ℕ
int_limit = 2 ^ 63

-- An operation on the lines behind the first `a` ones, `n` of them.
abbrev pub AtRange : MdPatchOp → ℕ → ℕ → Type 0
AtRange op a n = (op.line ≡ pos a) × (op.count ≡ pos n)

append-ne-nil : (a t b : List Text) → t ≢ [] → a ++ (t ++ b) ≢ []
append-ne-nil [] [] b ne h = ne refl
append-ne-nil [] (x ∷ t) b ne h = cc
append-ne-nil (y ∷ a) t b ne h = cc

All-split {ℓ κ} :
    {A : Type ℓ} (P : A → Type κ) (xs ys : List A) → All P (xs ++ ys) → All P xs × All P ys
All-split P [] ys h = (tt, h)
All-split P (x ∷ xs) ys h = let (hx, hy) = All-split P xs ys h.1 in ((h.0, hx), hy)

slice_to-append : (xs ys : List Text) → slice_to (xs ++ ys) (length xs) ≡ ok xs
unfolding slice_to
slice_to-append xs ys = rw (
  le→ltb_false (length (xs ++ ys)) (length xs) (omega (arith, length-append xs ys)),
  take-append_left xs ys,
)

slice_from-append : (xs ys : List Text) → slice_from (xs ++ ys) (pos (length xs)) ≡ ok ys
unfolding slice_from
slice_from-append xs ys = rw (
  le→ltb_false (length (xs ++ ys)) (length xs) (omega (arith, length-append xs ys)),
  drop-append_left xs ys,
)

slice_from_parts :
    (a m b : List Text) → slice_from (a ++ (m ++ b)) (pos (length a + length m)) ≡ ok b
slice_from_parts a m b =
    rw (← append_assoc a m b, ← length-append a m) (slice_from-append (a ++ m) b)

add_int-pos : (a b : ℕ) → a + b < int_limit → add_int a b ≡ pos (a + b)
unfolding add_int
add_int-pos a b h = rw (lt→ltb (a + b) (2 ^ 63) h)

check_range-ok :
    (a m b : List Text) (op : MdPatchOp)
    → AtRange op (length a) (length m)
    → m ≢ []
    → length a + length m < int_limit
    → check_range (a ++ (m ++ b)) op ≡ ok tt
unfolding check_range
check_range-ok a [] b op h ne fits = absurd (ne refl)
check_range-ok a (x ∷ m) b op h ne fits =
    let len = length-append a ((x ∷ m) ++ b) in
    let len' = length-append m b in
    rw
      (
        h.1,
        h.0,
        add_int-pos (length a) (suc (length m)) fits,
        le→ltb_false (length (a ++ ((x ∷ m) ++ b))) (length a + suc (length m))
            (omega (arith, len, len')),
      )
      (ground arith)

-- If the lines of a text are `a`, `m` and `b` in a row, `m` is not empty, the operation names the
-- range of `m`, and the end of that range is an `int`, then deleting gives the text of `a` and `b`.
pub delete_line_range_lem :
    (text : Text) (a m b : List Text) (op : MdPatchOp)
    → split_lines text ≡ a ++ (m ++ b)
    → AtRange op (length a) (length m)
    → m ≢ []
    → length a + length m < int_limit
    → delete_line_range text op ≡ ok (join_lines (a ++ b))
unfolding delete_line_range
delete_line_range_lem text a m b op e h ne fits = rw (
  e,
  check_range-ok a m b op h ne fits,
  h.0,
  h.1,
  add_int-pos (length a) (length m) fits,
  slice_to-append a (m ++ b),
  slice_from_parts a m b,
)

-- If the lines of a text are `a`, `m` and `b` in a row, `m` is not empty, the operation names the
-- range of `m`, whose end is an `int`, and the new text has at most 100000 lines, then replacing
-- gives the text of `a`, the new lines and `b`.
pub replace_line_range_lem :
    (text : Text) (a m b : List Text) (op : MdPatchOp)
    → split_lines text ≡ a ++ (m ++ b)
    → AtRange op (length a) (length m)
    → m ≢ []
    → length a + length m < int_limit
    → length a + length op.lines + length b ≤ max_line_count
    → replace_line_range text op ≡ ok (join_lines (a ++ op.lines ++ b))
unfolding replace_line_range
replace_line_range_lem text a m b op e h ne fits small =
    let room : ltb max_line_count (length (a ++ (m ++ b)) + length op.lines - length m) ≡ false =
      le→ltb_false _ _ (omega (arith, length-append a (m ++ b), length-append m b)) in
    rw (
      e,
      check_range-ok a m b op h ne fits,
      h.0,
      h.1,
      room,
      add_int-pos (length a) (length m) fits,
      slice_to-append a (m ++ b),
      slice_from_parts a m b,
    )

-- If the lines of a text are `a` and `b` in a row, the operation names the line behind `a`, and the
-- new text has at most 100000 lines, then inserting gives the text of `a`, the lines inserted and
-- `b`.
pub insert_before_line_lem :
    (text : Text) (a b : List Text) (op : MdPatchOp)
    → split_lines text ≡ a ++ b
    → op.line ≡ pos (length a)
    → length a + length b + length (split_lines op.text) ≤ max_line_count
    → insert_before_line text op ≡ ok (join_lines (a ++ split_lines op.text ++ b))
unfolding insert_before_line
insert_before_line_lem text a b op e h small =
    let within : ltb (length (a ++ b)) (length a) ≡ false =
      le→ltb_false _ _ (omega (arith, length-append a b)) in
    let room : ltb max_line_count (length (a ++ b) + length (split_lines op.text)) ≡ false =
      le→ltb_false _ _ (omega (arith, length-append a b)) in
    rw (e, h, within, room, slice_to-append a b, slice_from-append a b)

split_lines-insert :
    (a t b : List Text)
    → t ≢ []
    → All IsLine a
    → All IsLine t
    → All IsLine b
    → split_lines (join_lines (a ++ t ++ b)) ≡ a ++ (t ++ b)
split_lines-insert a t b ne ha ht hb =
    ap (λ (ls : List Text). split_lines (join_lines ls)) (append_assoc a t b)
    ∙ split_lines-join_lines (a ++ (t ++ b)) (append-ne-nil a t b ne)
        (All-append IsLine a (t ++ b) ha (All-append IsLine t b ht hb))

-- If an insertion behind the lines `a` of a text succeeds, within 100000 lines, then deleting as
-- many lines as it inserted at that place gives the text back.
pub delete-insert :
    (text text' : Text) (a b : List Text) (ins del : MdPatchOp)
    → split_lines text ≡ a ++ b
    → ins.line ≡ pos (length a)
    → AtRange del (length a) (length (split_lines ins.text))
    → length a + length b + length (split_lines ins.text) ≤ max_line_count
    → insert_before_line text ins ≡ ok text'
    → delete_line_range text' del ≡ ok text
delete-insert text text' a b ins del e h at small r =
    let t = split_lines ins.text in
    let parts = All-split IsLine a b (rw e at (split_lines-All text)) in
    let same : join_lines (a ++ t ++ b) ≡ text' =
      cc (insert_before_line_lem text a b ins e h small) in
    delete_line_range_lem text' a t b del
      (rw (← same) (
        split_lines-insert a t b (split_lines-ne-nil ins.text) parts.0 (split_lines-All ins.text)
          parts.1))
      at (split_lines-ne-nil ins.text) (omega arith)
    ∙ ap (λ (ls : List Text). ok (join_lines ls)) (sym e)
    ∙ ap (λ (s : Text). ok s) (join_lines-split_lines text)

-- If the line and the count of a delete are numbers below 2^63, the count positive, and their sum
-- is not below 2^63, then the delete panics.
pub delete_line_range-panics :
    (text : Text) (op : MdPatchOp) (line count : ℕ)
    → AtRange op line count
    → line < int_limit
    → 0 < count
    → count < int_limit
    → int_limit ≤ line + count
    → delete_line_range text op ≡ panics
unfolding delete_line_range check_range add_int slice_from slice_to
delete_line_range-panics text op line count h l p c over =
    let some_lines : (count == 0) ≡ false = ground arith in
    rw (h.0, h.1, some_lines, le→ltb_false (line + count) (2 ^ 63) over) (ground arith)
