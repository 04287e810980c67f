-- ===== src/Protocol/Ason/Parse/Items.antt =====
-- crates/ash-protocol/src/ason/parse.rs: keys, atoms, vectors, rows and headers.
use ash.Common.{
  ℕ, ◌+◌, ◌*◌, ◌^◌, Bool, true, false, not, ◌&&◌, ◌||◌, Option, none, some, List, [], ◌∷◌, ◌++◌,
  length, all, ltb, ◌==◌, if◌then◌else◌, Result, ok, err, ◌>>=◌, ◌>>◌, ok_or, map_err, reject_if,
}
use ash.Common.Text.{
  Str, str_bytes, str_len, is_ascii_digit, starts_with, ends_with, drop_last, split, split_once,
  rsplit_once, contains,
}
use ash.Common.Radix.{from_str_radix}
use ash.Protocol.Ason.Errors.{
  DecodeError, LimitKind, limit, syntax, invalid_key, duplicate_column, empty_columns, row_width,
  invalid_row_count,
}
use ash.Protocol.Ason.Model.{Key, Atom, Cell, seen, new_key}
use ash.Protocol.Ason.Scalar
use ash.Protocol.Ason.Split.{Item, ItemLimit, split_items}

pub record Limits : Type 0 where
  pub max_bytes : ℕ
  pub max_lines : ℕ
  pub max_fields : ℕ
  pub max_key_bytes : ℕ
  pub max_columns : ℕ
  pub max_rows : ℕ
  pub max_vector_items : ℕ
  pub max_scalar_bytes : ℕ
  pub max_values : ℕ

abbrev pub default : Limits
default = record {
  max_bytes = 8 * 1024 * 1024;
  max_lines = 262_144;
  max_fields = 256;
  max_key_bytes = 128;
  max_columns = 128;
  max_rows = 100_000;
  max_vector_items = 4_096;
  max_scalar_bytes = 1024 * 1024;
  max_values = 1_000_000;
}

unfoldable pub enforce : ℕ → ℕ → LimitKind → ℕ → Result (Unit {0}) DecodeError
enforce actual most kind line = if ltb most actual then err (limit kind most line) else ok tt

unfoldable pub parse_key : Limits → Str → ℕ → Result Key DecodeError
parse_key l source line = do
  enforce (str_len source) l.max_key_bytes LimitKind.key_bytes line
  map_err (λ _. invalid_key line source) (new_key source)

-- `bump_value`: the new count of values.
unfoldable pub bump_value : Limits → ℕ → ℕ → Result ℕ DecodeError
bump_value l line values = do
  enforce (values + 1) l.max_values LimitKind.values line
  ok (values + 1)

unfoldable pub parse_atom : Limits → Str → ℕ → ℕ → ℕ → Result (Atom × ℕ) DecodeError
parse_atom l source line column values = do
  values' ← bump_value l line values
  a ← Scalar.decode source line column l.max_scalar_bytes
  ok (a, values')

unfoldable pub parse_atoms : Limits → List Item → ℕ → ℕ → ℕ → Result (List Atom × ℕ) DecodeError
parse_atoms l [] line column values = ok ([], values)
parse_atoms l ((offset, value) ∷ rest) line column values = do
  (a, values') ← parse_atom l value line (column + offset) values
  (atoms, values'') ← parse_atoms l rest line column values'
  ok (a ∷ atoms, values'')

abbrev bracket_error : ℕ → ℕ → DecodeError
bracket_error line column = syntax line column "vector must be enclosed by '[' and ']'"

-- The items between the brackets.
unfoldable pub parse_inner : Limits → Str → ℕ → ℕ → ℕ → Result (List Atom × ℕ) DecodeError
parse_inner l [] line column values = ok ([], values)
parse_inner l (c ∷ inner) line column values = do
  raw ← split_items (c ∷ inner) false line (ItemLimit.vector l.max_vector_items)
  parse_atoms l raw line column values

unfoldable pub parse_vector : Limits → Str → ℕ → ℕ → ℕ → Result (List Atom × ℕ) DecodeError
parse_vector l [] line column values = err (bracket_error line column)
parse_vector l (c ∷ inner) line column values =
    if not (c == b'[') || not (ends_with b']' (c ∷ inner))
    then err (bracket_error line column)
    else parse_inner l (drop_last inner) line column values

unfoldable pub parse_cell : Limits → Str → ℕ → ℕ → ℕ → Result (Cell × ℕ) DecodeError
parse_cell l source line column values =
    if starts_with b'[' source
    then (do (v, values') ← parse_vector l source line column values; ok (Cell.vector v, values'))
    else (do (a, values') ← parse_atom l source line column values; ok (Cell.atom a, values'))

unfoldable pub parse_cells : Limits → List Item → ℕ → ℕ → Result (List Cell × ℕ) DecodeError
parse_cells l [] line values = ok ([], values)
parse_cells l ((column, value) ∷ rest) line values = do
  (c, values') ← parse_cell l value line column values
  (cs, values'') ← parse_cells l rest line values'
  ok (c ∷ cs, values'')

unfoldable pub parse_row : Limits → Str → ℕ → ℕ → ℕ → Result (List Cell × ℕ) DecodeError
parse_row l source width line values = do
  raw ← split_items source true line (ItemLimit.row width)
  reject_if (not (length raw == width)) (row_width line width (length raw))
  parse_cells l raw line values

-- The loop of `columns`, with the columns so far.
unfoldable pub columns_loop : Limits → ℕ → List Str → List Key → Result (List Key) DecodeError
columns_loop l line [] columns = ok columns
columns_loop l line (value ∷ rest) columns = do
  enforce (length columns + 1) l.max_columns LimitKind.columns line
  key ← parse_key l value line
  reject_if (seen columns key) (duplicate_column line key)
  columns_loop l line rest (columns ++ key ∷ [])

unfoldable pub parse_columns : Limits → Str → ℕ → Result (List Key) DecodeError
parse_columns l [] line = err (empty_columns line)
parse_columns l (c ∷ source) line = columns_loop l line (split b',' (c ∷ source)) []

unfoldable pub row_count_digits : Str → Bool
row_count_digits [] = false
row_count_digits (c ∷ s) =
    all is_ascii_digit (str_bytes (c ∷ s)) && not (ltb 1 (str_len (c ∷ s)) && c == b'0')

unfoldable pub parse_row_count : Str → ℕ → Result ℕ DecodeError
parse_row_count source line =
    if row_count_digits source
    then ok_or (from_str_radix 10 (2 ^ 64) source) (invalid_row_count line)
    else err (invalid_row_count line)

pub record Header : Type 0 where
  pub key : Key
  pub columns : List Key
  pub rows : Option ℕ

-- The key and the row count of a header's part before the brace.
unfoldable pub header_prefix : Str → ℕ → Result (Str × Option ℕ) DecodeError
header_prefix prefix line =
    if ends_with b']' prefix
    then (do
      (key_source, count) ←
          ok_or (rsplit_once b'[' (drop_last prefix))
            (syntax line 1 "table header is missing an opening bracket")
      rows ← parse_row_count count line
      ok (key_source, some rows))
    else if contains b'[' prefix || contains b']' prefix
    then err (syntax line 1 "malformed table row count")
    else ok (prefix, none)

unfoldable pub parse_header : Limits → Str → ℕ → Result Header DecodeError
parse_header l head line = do
  reject_if (not (ends_with b'}' head)) (syntax line 1 "record or table header must end with '}'")
  (prefix, back) ←
      ok_or (split_once b'{' head)
        (syntax line 1 "record or table header is missing an opening brace")
  (key_source, rows) ← header_prefix prefix line
  key ← parse_key l key_source line
  columns ← parse_columns l (drop_last back) line
  ok (record { key = key; columns = columns; rows = rows })
