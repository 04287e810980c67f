-- ===== src/Protocol/Ason/Encode.antt =====
-- crates/ash-protocol/src/ason/encode.rs: the canonical text of a document.
use ash.Common.{ℕ, Bool, false, not, ◌&&◌, List, [], ◌∷◌, ◌++◌, length, all, ◌==◌, if◌then◌else◌}
use ash.Common.Text.{Str, str_bytes, is_control}
use ash.Common.Radix.{print_u64, print_hex}
use ash.Protocol.Ason.Model.{Key, Atom, null, reference, text, Cell, Value, Field, Document}
use ash.Protocol.Ason.Scalar.{is_bare_byte, is_reference_digits}

unfoldable pub is_reference_syntax : Str → Bool
is_reference_syntax [] = false
is_reference_syntax (c ∷ digits) = c == b'@' && is_reference_digits digits

unfoldable pub is_bare_text : Str → Bool
is_bare_text [] = false
is_bare_text (c ∷ s) = all is_bare_byte (str_bytes (c ∷ s)) && not (is_reference_syntax (c ∷ s))

-- What `write_quoted` writes for one character.
unfoldable pub escaped : ℕ → Str
escaped c =
    if c == b'\\'
    then b'\\' ∷ b'\\' ∷ []
    else if c == b'"'
    then b'\\' ∷ b'"' ∷ []
    else if c == 10
    then b'\\' ∷ b'n' ∷ []
    else if c == 13
    then b'\\' ∷ b'r' ∷ []
    else if c == 9
    then b'\\' ∷ b't' ∷ []
    else if is_control c
    then b'\\' ∷ b'u' ∷ b'{' ∷ (print_hex c ++ b'}' ∷ [])
    else c ∷ []

unfoldable pub escaped_text : Str → Str
escaped_text [] = []
escaped_text (c ∷ s) = escaped c ++ escaped_text s

unfoldable pub write_quoted : Str → Str
write_quoted value = b'"' ∷ (escaped_text value ++ b'"' ∷ [])

unfoldable pub write_atom : Atom → Str
write_atom null = b'~' ∷ []
write_atom (reference id) = b'@' ∷ print_u64 id
write_atom (text value) = if is_bare_text value then value else write_quoted value

-- The loops that put a comma before every item but the first.
unfoldable pub write_items : List Atom → Str
write_items [] = []
write_items (a ∷ []) = write_atom a
write_items (a ∷ b ∷ rest) = write_atom a ++ (b',' ∷ write_items (b ∷ rest))

unfoldable pub write_vector : List Atom → Str
write_vector values = b'[' ∷ (write_items values ++ b']' ∷ [])

unfoldable pub write_cell : Cell → Str
write_cell (Cell.atom a) = write_atom a
write_cell (Cell.vector values) = write_vector values

unfoldable pub write_cells : List Cell → Str
write_cells [] = []
write_cells (c ∷ []) = write_cell c
write_cells (c ∷ d ∷ rest) = write_cell c ++ (b',' ∷ write_cells (d ∷ rest))

unfoldable pub write_row : List Cell → Str
write_row row = write_cells row ++ 10 ∷ []

unfoldable pub write_rows : List (List Cell) → Str
write_rows [] = []
write_rows (row ∷ rows) = write_row row ++ write_rows rows

unfoldable pub write_keys : List Key → Str
write_keys [] = []
write_keys (k ∷ []) = k
write_keys (k ∷ l ∷ rest) = k ++ (b',' ∷ write_keys (l ∷ rest))

unfoldable pub write_columns : List Key → Str
write_columns columns = b'{' ∷ (write_keys columns ++ b'}' ∷ [])

unfoldable pub write_value : Value → Str
write_value (Value.scalar a) = b':' ∷ (write_atom a ++ 10 ∷ [])
write_value (Value.vector values) = b':' ∷ (write_vector values ++ 10 ∷ [])
write_value (Value.record_value r) = write_columns r.columns ++ (b':' ∷ 10 ∷ write_row r.values)
write_value (Value.table t) =
    (b'[' ∷ (print_u64 (length t.rows) ++ b']' ∷ []))
    ++ (write_columns t.columns ++ (b':' ∷ 10 ∷ write_rows t.rows))

unfoldable pub write_field : Field → Str
write_field f = f.key ++ write_value f.value

unfoldable pub encode_fields : List Field → Str
encode_fields [] = []
encode_fields (f ∷ fs) = write_field f ++ encode_fields fs

unfoldable pub encode : Document → Str
encode d = encode_fields d.fields
