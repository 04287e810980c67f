-- ===== src/Protocol/Ason/Split.antt =====
-- crates/ash-protocol/src/ason/parse.rs: splitting a row or a vector at its top-level commas.
use ash.Common.{
  ℕ, ◌+◌, Bool, true, false, not, ◌&&◌, List, [], ◌∷◌, ◌++◌, length, ltb, ◌==◌, if◌then◌else◌,
  Result, ok, err, ◌>>=◌,
}
use ash.Common.Text.{Str, str_len, len_utf8}
use ash.Protocol.Ason.Errors.{DecodeError, LimitKind, limit, syntax, row_width}

pub data ItemLimit : Type 0 where
  row : ℕ → ItemLimit
  vector : ℕ → ItemLimit

-- An item with the column at which it starts.
abbrev pub Item : Type 0
Item = ℕ × Str

unfoldable pub push_item : List Item → Item → ItemLimit → ℕ → Result (List Item) DecodeError
push_item items item (row expected) line =
    if ltb expected (length items + 1)
    then err (row_width line expected (length items + 1))
    else ok (items ++ item ∷ [])
push_item items item (vector most) line =
    if ltb most (length items + 1)
    then err (limit LimitKind.vector_items most line)
    else ok (items ++ item ∷ [])

-- The locals of the loop: where it is, and the current item, which is the text from `start` to
-- `offset`.
pub record Scan : Type 0 where
  pub offset : ℕ
  pub start : ℕ
  pub current : Str
  pub items : List Item
  pub quoted : Bool
  pub escaped : Bool
  pub nested : Bool

-- The step of the loop on a character that stays in the current item.
abbrev pub keep : ℕ → Scan → Scan
keep c s = record s { offset = s.offset + len_utf8 c; current = s.current ++ c ∷ [] }

unfoldable pub scan_step : Bool → ℕ → ItemLimit → Scan → ℕ → Result Scan DecodeError
scan_step allow_vector line max s c =
    if s.quoted
    then (if s.escaped
        then ok (record (keep c s) { escaped = false })
        else if c == b'\\'
        then ok (record (keep c s) { escaped = true })
        else if c == b'"'
        then ok (record (keep c s) { quoted = false })
        else ok (keep c s))
    else if c == b'"'
    then ok (record (keep c s) { quoted = true })
    else if c == b'['
    then (if allow_vector && not s.nested
        then ok (record (keep c s) { nested = true })
        else err (syntax line (s.offset + 1) "nested vectors are not allowed"))
    else if c == b']'
    then (if allow_vector && s.nested
        then ok (record (keep c s) { nested = false })
        else err (syntax line (s.offset + 1) "unmatched vector bracket"))
    else if c == b',' && not s.nested
    then (do
      items ← push_item s.items (s.start + 1, s.current) max line
      ok (record s { offset = s.offset + 1; start = s.offset + 1; current = []; items = items }))
    else ok (keep c s)

unfoldable pub scan : Bool → ℕ → ItemLimit → Scan → Str → Result Scan DecodeError
scan allow_vector line max s [] = ok s
scan allow_vector line max s (c ∷ rest) = do
  s' ← scan_step allow_vector line max s c
  scan allow_vector line max s' rest

abbrev pub scan_start : Scan
scan_start = record {
  offset = 0;
  start = 0;
  current = [];
  items = [];
  quoted = false;
  escaped = false;
  nested = false;
}

unfoldable pub split_items : Str → Bool → ℕ → ItemLimit → Result (List Item) DecodeError
split_items source allow_vector line max = do
  s ← scan allow_vector line max scan_start source
  if s.quoted
      then err (syntax line (str_len source) "unterminated quoted string")
      else if s.nested
      then err (syntax line (str_len source) "unterminated vector")
      else push_item s.items (s.start + 1, s.current) max line
