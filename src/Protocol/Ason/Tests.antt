-- ===== src/Protocol/Ason/Tests.antt =====
-- Concrete documents, and the theorems at concrete inputs.
use ash.Common.{◌≡◌, ◌≤◌, length, refl, true, List, [], ◌∷◌, ok, arith}
use ash.Common.Text.{
  Str, codes, utf8, position, ends_with, drop_last, count, split, split_once, rsplit_once, contains,
}
use ash.Protocol.Ason.Model.{
  null, reference, text, Cell, Value, Field, Document, duplicate, seen, new_key, is_valid_key,
  valid_key_bytes, validate_columns, validate_rows, new_document, new_table,
}
use ash.Protocol.Ason.Scalar.{
  is_bare_byte, enforce_bytes, bare, quoted_loop, quoted, decode_reference, is_reference_digits,
  decode_text, escape,
}
use ash.Protocol.Ason.Scalar
use ash.Protocol.Ason.Encode.{write_atom}
use ash.Protocol.Ason.Parse.Items.{
  default, enforce, parse_key, bump_value, parse_atom, parse_atoms, parse_inner, parse_vector,
  parse_cell, parse_cells, parse_row, columns_loop, parse_columns, row_count_digits,
  parse_row_count, header_prefix, parse_header,
}
use ash.Protocol.Ason.Split.{push_item, scan_step, scan, split_items}
use ash.Common.Radix.{from_str_radix, parse_digits, to_digit}
use ash.Protocol.Ason.Parse.Lines.{
  fields_loop, decode, decode_with_limits, parse_body, parse_field, parse_inline, parse_block,
  parse_payload, rows_loop, header_value,
}
use ash.Protocol.Ason.Parse.Fields.{Reads, fields_loop-new_document}
use ash.Protocol.Ason.RoundTrip.Numeral.{decode_reference-print_u64}
use ash.Common.Radix.{print_u64}
use ash.Protocol.Ason.Encode.{write_quoted}
use ash.Protocol.Ason.RoundTrip.Quoted.{quoted-write_quoted}
use ash.Protocol.Ason.RoundTrip.Scalar.{decode-write_atom}

abbrev table_text : Str
table_text = codes "t:1\nd[2]{p,l}:\na,~\n\"x y\",[@7,b]\n"

abbrev cells : List (List Cell)
cells =
    (Cell.atom (text (codes "a")) ∷ Cell.atom null ∷ [])
    ∷ (Cell.atom (text (codes "x y")) ∷ Cell.vector (reference 7 ∷ text (codes "b") ∷ []) ∷ [])
    ∷ []

abbrev document : Document
document = record {
  fields =
      record { key = codes "t"; value = Value.scalar (text (codes "1")) }
      ∷ record {
        key = codes "d";
        value = Value.table (record { columns = codes "p" ∷ codes "l" ∷ []; rows = cells });
      }
      ∷ [];
}

decode_table : decode table_text ≡ ok document
unfolding decode decode_with_limits enforce utf8 position ends_with parse_body drop_last count
    fields_loop split parse_field split_once contains parse_inline parse_key new_key is_valid_key
    valid_key_bytes parse_payload parse_atom bump_value Scalar.decode decode_text bare enforce_bytes
    is_bare_byte parse_block parse_header header_prefix rsplit_once parse_row_count row_count_digits
    from_str_radix parse_digits to_digit parse_columns columns_loop seen rows_loop parse_row
    split_items scan scan_step push_item parse_cells parse_cell parse_vector parse_inner parse_atoms
    quoted quoted_loop decode_reference is_reference_digits header_value new_table validate_columns
    duplicate validate_rows new_document
decode_table = refl

-- `@7` is what the encoder writes for a reference, so the text "@7" is quoted.
decode-write_atom_example :
    Scalar.decode (write_atom (text (codes "@7\n"))) 1 3 4096 ≡ ok (text (codes "@7\n"))
decode-write_atom_example =
    decode-write_atom (text (codes "@7\n")) 1 3 4096 (unfold utf8 in omega arith)

decode_reference-print_u64_example :
    (is_reference_digits (print_u64 1042) ≡ true)
    × (Scalar.decode_reference (print_u64 1042) 1 1 ≡ ok (reference 1042))
decode_reference-print_u64_example = decode_reference-print_u64 1042 1 1 (omega arith)

quoted-write_quoted_example :
    quoted (write_quoted (codes "tab\tand\u{1b}")) 1 1 64 ≡ ok (codes "tab\tand\u{1b}")
quoted-write_quoted_example =
    quoted-write_quoted (codes "tab\tand\u{1b}") 1 1 64 (unfold utf8 in omega arith)

abbrev two_fields : List Field
two_fields =
    record { key = codes "t"; value = Value.scalar (text (codes "1")) }
    ∷ record { key = codes "u"; value = Value.scalar (text (codes "2")) }
    ∷ []

two_lines_read : fields_loop default 2 1 (codes "t:1" ∷ codes "u:2" ∷ []) 0 [] ≡ ok two_fields
unfolding decode decode_with_limits enforce utf8 position ends_with parse_body drop_last count
    fields_loop split parse_field split_once contains parse_inline parse_key new_key is_valid_key
    valid_key_bytes parse_payload parse_atom bump_value Scalar.decode decode_text bare enforce_bytes
    is_bare_byte parse_block parse_header header_prefix rsplit_once parse_row_count row_count_digits
    from_str_radix parse_digits to_digit parse_columns columns_loop seen rows_loop parse_row
    split_items scan scan_step push_item parse_cells parse_cell parse_vector parse_inner parse_atoms
    quoted quoted_loop decode_reference is_reference_digits header_value new_table validate_columns
    duplicate validate_rows new_document
two_lines_read = refl

fields_loop-new_document_example :
    Reads default 1 (codes "t:1" ∷ codes "u:2" ∷ []) 0 [] two_fields
    × (length two_fields ≤ default.max_fields)
    × (new_document two_fields ≡ ok (record { fields = two_fields }))
fields_loop-new_document_example =
    fields_loop-new_document default (codes "t:1") (codes "u:2" ∷ []) two_fields two_lines_read
