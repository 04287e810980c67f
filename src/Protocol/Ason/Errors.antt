-- ===== src/Protocol/Ason/Errors.antt =====
-- crates/ash-protocol/src/ason/error.rs: the parser's errors.
use Prim.Native.String.{String}
use ash.Common.{ℕ}
use ash.Common.Text.{Str}

pub data LimitKind : Type 0 where
  bytes lines fields key_bytes columns rows vector_items scalar_bytes values : LimitKind

-- The fields stand in the source's order.
pub data DecodeError : Type 0 where
  limit : LimitKind → ℕ → ℕ → DecodeError
  missing_final_lf : DecodeError
  carriage_return : ℕ → DecodeError
  empty_document : DecodeError
  blank_line : ℕ → DecodeError
  syntax : ℕ → ℕ → String → DecodeError
  invalid_key : ℕ → Str → DecodeError
  duplicate_field : ℕ → Str → DecodeError
  duplicate_column : ℕ → Str → DecodeError
  empty_columns : ℕ → DecodeError
  invalid_row_count : ℕ → DecodeError
  missing_rows : ℕ → ℕ → ℕ → DecodeError
  row_width : ℕ → ℕ → ℕ → DecodeError
  invalid_reference : ℕ → ℕ → DecodeError
  invalid_escape : ℕ → ℕ → String → DecodeError
