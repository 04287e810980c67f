-- ===== src/Protocol/Ason/Parse/Fuel.antt =====
-- crates/ash-protocol/src/ason/parse.rs: no field leaves more lines than it was given.
use ash.Common.{
  ℕ, zero, suc, ◌+◌, ◌≤◌, ◌≡◌, Bool, true, false, refl, List, [], ◌∷◌, ◌++◌, length, arith, ok,
  ok_or, reject_if, not, ◌==◌, ◌||◌, if◌then◌else◌, >>=-eq-ok,
}
use ash.Common.Text.{Str, str_len, split_once, contains}
use ash.Protocol.Ason.Errors.{LimitKind}
use ash.Protocol.Ason.Model.{Cell, Field}
use ash.Protocol.Ason.Parse.Items.{Limits, enforce, parse_header, parse_row}
use ash.Protocol.Ason.Parse.Lines.{
  Cursor, header_rows, header_value, rows_loop, parse_block, parse_inline, parse_field, fields_loop,
}

rows_loop_shrinks :
    (l : Limits) (width line declared consumed left number : ℕ) (lines : List Str) (values : ℕ)
    (rows : List (List Cell)) {out : List (List Cell) × Cursor}
    → rows_loop l width line declared consumed left number lines values rows ≡ ok out
    → length out.1.lines ≤ length lines
unfolding rows_loop
rows_loop_shrinks l width line declared consumed zero number lines values rows h = ground arith
rows_loop_shrinks l width line declared consumed (suc left) number [] values rows h = ground arith
rows_loop_shrinks l width line declared consumed (suc left) number ([] ∷ lines) values rows h =
    ground arith
rows_loop_shrinks l width line declared consumed (suc left) number ((c ∷ row) ∷ lines) values rows
      h =
    let ((cells, values'), e, rest) = >>=-eq-ok (parse_row l (c ∷ row) width number values) _ h in
    omega (
      arith,
      rows_loop_shrinks l width line declared (consumed + 1) left (number + 1) lines values'
          (rows ++ cells ∷ []) rest,
    )

parse_block_shrinks :
    (l : Limits) (head payload : Str) (line : ℕ) (lines : List Str) (values : ℕ)
    {out : Field × Cursor}
    → parse_block l head payload line lines values ≡ ok out
    → length out.1.lines ≤ length lines
unfolding parse_block
parse_block_shrinks l head payload line lines values h =
    let (_, e1, h1) = >>=-eq-ok (reject_if (not (str_len payload == 0)) _) _ h in
    let (header, e2, h2) = >>=-eq-ok (parse_header l head line) _ h1 in
    let (_, e3, h3) =
      >>=-eq-ok (enforce (header_rows header.rows) l.max_rows LimitKind.rows line) _ h2 in
    let ((rows, cursor), e4, h4) =
      >>=-eq-ok
        (rows_loop l (length header.columns) line (header_rows header.rows) 0
          (header_rows header.rows) (line + 1) lines values [])
        _ h3 in
    let (value, e5, h5) = >>=-eq-ok (header_value header rows line) _ h4 in
    ground (
      arith,
      rows_loop_shrinks l (length header.columns) line (header_rows header.rows) 0
          (header_rows header.rows) (line + 1) lines values [] e4,
    )

parse_inline_shrinks :
    (l : Limits) (head payload : Str) (line : ℕ) (lines : List Str) (values : ℕ)
    {out : Field × Cursor}
    → parse_inline l head payload line lines values ≡ ok out
    → length out.1.lines ≤ length lines
unfolding parse_inline
parse_inline_shrinks l head payload line lines values h = ground arith

branches_shrink :
    (l : Limits) (block : Bool) (head payload : Str) (line : ℕ) (lines : List Str) (values : ℕ)
    {out : Field × Cursor}
    → (if block
        then parse_block l head payload line lines values
        else parse_inline l head payload line lines values)
      ≡ ok out
    → length out.1.lines ≤ length lines
branches_shrink l true head payload line lines values h =
    parse_block_shrinks l head payload line lines values h
branches_shrink l false head payload line lines values h =
    parse_inline_shrinks l head payload line lines values h

pub parse_field_shrinks :
    (l : Limits) (line : Str) (number : ℕ) (lines : List Str) (values : ℕ) (fields : List Field)
    {out : Field × Cursor}
    → parse_field l line number lines values fields ≡ ok out
    → length out.1.lines ≤ length lines
unfolding parse_field
parse_field_shrinks l line number lines values fields h =
    let (_, e1, h1) =
      >>=-eq-ok (enforce (length fields + 1) l.max_fields LimitKind.fields number) _ h in
    let ((head, payload), e2, h2) = >>=-eq-ok (ok_or (split_once b':' line) _) _ h1 in
    let ((field, cursor), e3, h3) = >>=-eq-ok _ _ h2 in
    ground (
      arith,
      branches_shrink l (contains b'{' head || contains b'[' head) head payload number lines values
          e3,
    )

pub fields_loop-nil :
    (l : Limits) (fuel number values : ℕ) (fields : List Field)
    → fields_loop l fuel number [] values fields ≡ ok fields
unfolding fields_loop
fields_loop-nil l zero number values fields = refl
fields_loop-nil l (suc fuel) number values fields = refl
