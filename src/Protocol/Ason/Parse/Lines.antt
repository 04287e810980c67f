-- ===== src/Protocol/Ason/Parse/Lines.antt =====
-- crates/ash-protocol/src/ason/parse.rs: the lines of a document, and `decode`, `canonicalize` and
-- `is_canonical` of mod.rs.
use ash.Common.{
  ℕ, zero, suc, ◌+◌, Bool, not, ◌||◌, Option, none, some, List, [], ◌∷◌, ◌++◌, length, ◌==◌,
  if◌then◌else◌, Result, ok, err, ◌>>=◌, ◌>>◌, ok_or, map_err, reject_if, map,
}
use ash.Common.Eq.{bytes_eq}
use ash.Common.Text.{
  Str, str_bytes, str_len, starts_with, ends_with, drop_last, split, split_once, contains, position,
  count,
}
use ash.Protocol.Ason.Errors.{
  DecodeError, LimitKind, missing_final_lf, carriage_return, empty_document, blank_line, syntax,
  duplicate_field, missing_rows,
}
use ash.Protocol.Ason.Model.{
  Cell, Value, Field, Document, seen, new_document, new_record, new_table,
}
use ash.Protocol.Ason.Encode.{encode}
use ash.Protocol.Ason.Parse.Items.{
  Limits, default, Header, enforce, parse_key, parse_atom, parse_vector, parse_row, parse_header,
}

-- The lines that are left, with the number of the first.
pub record Cursor : Type 0 where
  pub number : ℕ
  pub lines : List Str
  pub values : ℕ

-- `for consumed in 0..row_count`: the rows that are still to be read, and those read so far.
unfoldable pub rows_loop :
    Limits
    → ℕ
    → ℕ
    → ℕ
    → ℕ
    → ℕ
    → ℕ
    → List Str
    → ℕ
    → List (List Cell)
    → Result (List (List Cell) × Cursor) DecodeError
rows_loop l width line declared consumed zero number lines values rows =
    ok (rows, record { number = number; lines = lines; values = values })
rows_loop l width line declared consumed (suc left) number [] values rows =
    err (missing_rows line declared consumed)
rows_loop l width line declared consumed (suc left) number ([] ∷ lines) values rows =
    err (blank_line number)
rows_loop l width line declared consumed (suc left) number ((c ∷ row) ∷ lines) values rows = do
  (cells, values') ← parse_row l (c ∷ row) width number values
  rows_loop l width line declared (consumed + 1) left (number + 1) lines values'
      (rows ++ cells ∷ [])

-- `rows.pop()`
unfoldable pub last_row : List (List Cell) → Option (List Cell)
last_row [] = none
last_row (r ∷ []) = some r
last_row (r ∷ s ∷ rows) = last_row (s ∷ rows)

-- The value of a record or table from its header and its rows.
unfoldable pub header_value : Header → List (List Cell) → ℕ → Result Value DecodeError
header_value h rows line = elim h.rows [
  | some n ↦
      map_err (λ _. syntax line 1 "invalid table model")
        (do t ← new_table h.columns rows; ok (Value.table t))
  | none ↦ do
    values ← ok_or (last_row rows) (missing_rows line 1 0)
    map_err (λ _. syntax line 1 "invalid record model")
        (do r ← new_record h.columns values; ok (Value.record_value r))
]

abbrev pub header_rows : Option ℕ → ℕ
header_rows none = 1
header_rows (some n) = n

-- A record or a table, from its header, what follows the colon, and the lines behind it.
unfoldable pub parse_block :
    Limits → Str → Str → ℕ → List Str → ℕ → Result (Field × Cursor) DecodeError
parse_block l head payload line lines values = do
  reject_if (not (str_len payload == 0))
      (syntax line (str_len head + 2) "record and table headers cannot contain an inline value")
  header ← parse_header l head line
  enforce (header_rows header.rows) l.max_rows LimitKind.rows line
  (rows, cursor) ←
      rows_loop l (length header.columns) line (header_rows header.rows) 0 (header_rows header.rows)
        (line + 1) lines values []
  value ← header_value header rows line
  ok (record { key = header.key; value = value }, cursor)

unfoldable pub parse_payload : Limits → Str → ℕ → ℕ → ℕ → Result (Value × ℕ) DecodeError
parse_payload l payload line column values =
    if starts_with b'[' payload
    then (do (v, values') ← parse_vector l payload line column values; ok (Value.vector v, values'))
    else (do (a, values') ← parse_atom l payload line column values; ok (Value.scalar a, values'))

-- A scalar or a vector on one line.
unfoldable pub parse_inline :
    Limits → Str → Str → ℕ → List Str → ℕ → Result (Field × Cursor) DecodeError
parse_inline l head payload line lines values = do
  key ← parse_key l head line
  (value, values') ← parse_payload l payload line (str_len head + 2) values
  ok (
    record { key = key; value = value },
    record { number = line + 1; lines = lines; values = values' },
  )

-- One round of the loop over the lines: the field that a line begins, which is not blank.
unfoldable pub parse_field :
    Limits → Str → ℕ → List Str → ℕ → List Field → Result (Field × Cursor) DecodeError
parse_field l line number lines values fields = do
  enforce (length fields + 1) l.max_fields LimitKind.fields number
  (head, payload) ←
      ok_or (split_once b':' line)
        (syntax number (str_len line + 1) "top-level field is missing ':'")
  (field, cursor) ←
      (if contains b'{' head || contains b'[' head
        then parse_block l head payload number lines values
        else parse_inline l head payload number lines values)
  reject_if (seen (map (λ (f : Field). f.key) fields) field.key) (duplicate_field number field.key)
  ok (field, cursor)

-- The loop over the lines. Every round takes a line at least, so the number of lines is enough
-- fuel.
unfoldable pub fields_loop :
    Limits → ℕ → ℕ → List Str → ℕ → List Field → Result (List Field) DecodeError
fields_loop l fuel number [] values fields = ok fields
fields_loop l zero number (line ∷ lines) values fields = ok fields
fields_loop l (suc fuel) number ([] ∷ lines) values fields = err (blank_line number)
fields_loop l (suc fuel) number ((c ∷ line) ∷ lines) values fields = do
  (field, cursor) ← parse_field l (c ∷ line) number lines values fields
  fields_loop l fuel cursor.number cursor.lines cursor.values (fields ++ field ∷ [])

abbrev parse_lines : Limits → List Str → Result (List Field) DecodeError
parse_lines l lines = fields_loop l (length lines) 1 lines 0 []

unfoldable pub parse_body : Limits → Str → ℕ → Result Document DecodeError
parse_body l [] line_count = err empty_document
parse_body l (c ∷ body) line_count = do
  enforce line_count l.max_lines LimitKind.lines 1
  fields ← parse_lines l (split 10 (c ∷ body))
  map_err (λ _. empty_document) (new_document fields)

unfoldable pub decode_with_limits : Str → Limits → Result Document DecodeError
decode_with_limits input l = do
  enforce (str_len input) l.max_bytes LimitKind.bytes 1
  elim (position 13 (str_bytes input)) [ some offset ↦ err (carriage_return offset) | none ↦ ok tt ]
  reject_if (not (ends_with 10 input)) missing_final_lf
  parse_body l (drop_last input) (count 10 (str_bytes input))

unfoldable pub decode : Str → Result Document DecodeError
decode input = decode_with_limits input default

unfoldable pub canonicalize : Str → Limits → Result Str DecodeError
canonicalize input l = do d ← decode_with_limits input l; ok (encode d)

unfoldable pub is_canonical : Str → Limits → Result Bool DecodeError
is_canonical input l = do canonical ← canonicalize input l; ok (bytes_eq canonical input)
