-- ===== src/Protocol/Ason/Model.antt =====
-- crates/ash-protocol/src/ason/model.rs: documents, and the checks of their constructors.
use ash.Common.{
  ℕ, Bool, false, not, ◌&&◌, ◌||◌, Option, none, some, List, [], ◌∷◌, length, all, ◌==◌,
  if◌then◌else◌, Result, ok, err, ◌>>◌, reject_if, map,
}
use ash.Common.Eq.{bytes_eq}
use ash.Common.Text.{Str, str_bytes, is_ascii_alphabetic, is_ascii_alphanumeric}

-- A key is kept as its text; `Key::new` is the only way to make one.
abbrev pub Key : Type 0
Key = Str

pub data Atom : Type 0 where
  null : Atom
  reference : ℕ → Atom
  text : Str → Atom

pub data Cell : Type 0 where
  atom : Atom → Cell
  vector : List Atom → Cell

pub record Record : Type 0 where
  pub columns : List Key
  pub values : List Cell

pub record Table : Type 0 where
  pub columns : List Key
  pub rows : List (List Cell)

pub data Value : Type 0 where
  scalar : Atom → Value
  vector : List Atom → Value
  record_value : Record → Value
  table : Table → Value

pub record Field : Type 0 where
  pub key : Key
  pub value : Value

pub record Document : Type 0 where
  pub fields : List Field

pub data BuildError : Type 0 where
  empty_document : BuildError
  invalid_key : Str → BuildError
  duplicate_field : Str → BuildError
  empty_columns : BuildError
  duplicate_column : Str → BuildError
  width : ℕ → ℕ → BuildError

abbrev is_key_byte : ℕ → Bool
is_key_byte b = is_ascii_alphanumeric b || b == b'_' || b == b'.' || b == b'-'

unfoldable pub valid_key_bytes : List ℕ → Bool
valid_key_bytes [] = false
valid_key_bytes (first ∷ rest) =
    (is_ascii_alphabetic first || first == b'_') && all is_key_byte rest

unfoldable pub is_valid_key : Str → Bool
unfolding valid_key_bytes
is_valid_key value = valid_key_bytes (str_bytes value)

unfoldable pub new_key : Str → Result Key BuildError
new_key value = if is_valid_key value then ok value else err (BuildError.invalid_key value)

-- `!names.insert(name)` on the set of the names seen so far.
unfoldable pub seen : List Str → Str → Bool
seen [] name = false
seen (x ∷ xs) name = bytes_eq x name || seen xs name

-- The first name that occurs for the second time.
unfoldable pub duplicate : List Str → List Str → Option Str
unfolding seen
duplicate names [] = none
duplicate names (x ∷ xs) =
    let rest = duplicate (x ∷ names) xs in if seen names x then some x else rest

unfoldable pub new_document : List Field → Result Document BuildError
unfolding duplicate
new_document [] = err BuildError.empty_document
new_document (f ∷ fs) = elim (duplicate [] (map (λ (g : Field). g.key) (f ∷ fs))) [
  | some k ↦ err (BuildError.duplicate_field k)
  | none ↦ ok (record { fields = f ∷ fs })
]

-- `Document::get`
unfoldable pub get_in : List Field → Str → Option Value
get_in [] key = none
get_in (f ∷ fs) key = if bytes_eq f.key key then some f.value else get_in fs key

unfoldable pub get : Document → Str → Option Value
unfolding get_in
get d key = get_in d.fields key

unfoldable pub validate_columns : List Key → Result (Unit {0}) BuildError
unfolding duplicate
validate_columns [] = err BuildError.empty_columns
validate_columns (c ∷ cs) = elim (duplicate [] (c ∷ cs)) [
  | some k ↦ err (BuildError.duplicate_column k)
  | none ↦ ok tt
]

unfoldable pub new_record : List Key → List Cell → Result Record BuildError
unfolding validate_columns
new_record columns values = do
  validate_columns columns
  reject_if (not (length columns == length values))
      (BuildError.width (length columns) (length values))
  ok (record { columns = columns; values = values })

unfoldable pub validate_rows : ℕ → List (List Cell) → Result (Unit {0}) BuildError
validate_rows expected [] = ok tt
validate_rows expected (row ∷ rows) = do
  reject_if (not (length row == expected)) (BuildError.width expected (length row))
  validate_rows expected rows

unfoldable pub new_table : List Key → List (List Cell) → Result Table BuildError
unfolding validate_columns validate_rows
new_table columns rows = do
  validate_columns columns
  validate_rows (length columns) rows
  ok (record { columns = columns; rows = rows })
