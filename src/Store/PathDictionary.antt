-- ===== src/Store/PathDictionary.antt =====
-- crates/ash-store/src/path_dictionary.rs: the session's interner of logical paths. A path is the
-- list of its UTF-8 bytes. `poisoned` is the state of the mutex.
pub mod Assign
pub mod Intern
pub mod Lifetime
mod Tests
use ash.Common.{
  ℕ, ◌+◌, Bool, true, false, not, ◌||◌, Option, none, some, List, [], ◌∷◌, ◌++◌, length, ltb, ◌==◌,
  if◌then◌else◌, Result, ok, err, ◌>>=◌, ◌>>◌, reject_if, ok_or,
}
use ash.Common.Eq.{bytes_eq, bytes_keys}
use ash.Common.Map.{Map, get, insert, is_some}
use ash.Common.Words.{u64_modulus, checked_add, saturating_add}

abbrev pub LogicalPath : Type 0
LogicalPath = List ℕ

pub record PathEntry : Type 0 where
  pub id : ℕ
  pub value : LogicalPath

pub record InternedPaths : Type 0 where
  pub ids : List ℕ
  pub introduced : List PathEntry

pub record State : Type 0 where
  pub next_id : ℕ
  pub by_path : Map LogicalPath ℕ

pub record PathDictionary : Type 0 where
  pub max_entries : ℕ
  pub poisoned : Bool
  pub state : State

pub data PathDictionaryError : Type 0 where
  invalid_limit invalid_path id_exhausted poisoned : PathDictionaryError
  quota : ℕ → PathDictionaryError

abbrev pub empty_state : State
empty_state = record { next_id = 1; by_path = [] }

unfoldable pub new : ℕ → Result PathDictionary PathDictionaryError
new max_entries =
    if max_entries == 0
    then err PathDictionaryError.invalid_limit
    else ok (record { max_entries = max_entries; poisoned = false; state = empty_state })

abbrev pub default : PathDictionary
default = record { max_entries = 65_536; poisoned = false; state = empty_state }

unfoldable pub contains_nul : LogicalPath → Bool
contains_nul [] = false
contains_nul (b ∷ bs) = b == 0 || contains_nul bs

unfoldable pub is_empty : LogicalPath → Bool
is_empty [] = true
is_empty (b ∷ bs) = false

unfoldable pub validate_path : LogicalPath → Result (Unit {0}) PathDictionaryError
unfolding contains_nul is_empty
validate_path path =
    if is_empty path || ltb 4096 (length path) || contains_nul path
    then err PathDictionaryError.invalid_path
    else ok tt

unfoldable pub validate_paths : List LogicalPath → Result (Unit {0}) PathDictionaryError
validate_paths [] = ok tt
validate_paths (path ∷ rest) = do validate_path path; validate_paths rest

-- `filter(|path| !state.by_path.contains_key(path))`
unfoldable pub absent : Map LogicalPath ℕ → List LogicalPath → List LogicalPath
absent m [] = []
absent m (path ∷ rest) =
    let others = absent m rest in if is_some (get m path) then others else path ∷ others

unfoldable pub without : LogicalPath → List LogicalPath → List LogicalPath
without path [] = []
without path (q ∷ rest) =
    let others = without path rest in if bytes_eq q path then others else q ∷ others

-- `collect::<HashSet<_>>()`: the values, each once.
unfoldable pub distinct : List LogicalPath → List LogicalPath
unfolding without
distinct [] = []
distinct (path ∷ rest) = path ∷ without path (distinct rest)

-- The loop that assigns identifiers, with the vectors that it has filled so far.
unfoldable pub assign : List LogicalPath → State → InternedPaths → State × InternedPaths
assign [] s out = (s, out)
assign (path ∷ rest) s out = elim (get s.by_path path) [
  | some id ↦ assign rest s (record out { ids = out.ids ++ id ∷ [] })
  | none ↦
      assign rest (record { next_id = s.next_id + 1; by_path = insert s.by_path path s.next_id })
        (record {
          ids = out.ids ++ s.next_id ∷ [];
          introduced = out.introduced ++ record { id = s.next_id; value = path } ∷ [];
        })
]

-- The checks before anything is assigned, in their order.
unfoldable pub admit : PathDictionary → List LogicalPath → Result (Unit {0}) PathDictionaryError
admit d paths = do
  reject_if d.poisoned PathDictionaryError.poisoned
  validate_paths paths
  let new_count = length (distinct (absent d.state.by_path paths))
  reject_if (ltb d.max_entries (saturating_add u64_modulus (length d.state.by_path) new_count))
      (PathDictionaryError.quota d.max_entries)
  next ← ok_or (checked_add u64_modulus d.state.next_id new_count) PathDictionaryError.id_exhausted
  ok tt

-- The dictionary after a call, and what the call returns.
unfoldable pub intern :
    PathDictionary → List LogicalPath → PathDictionary × Result InternedPaths PathDictionaryError
intern d paths = elim (admit d paths) [
  | err e ↦ (d, err e)
  | ok _ ↦
      let (s, out) = assign paths d.state (record { ids = []; introduced = [] }) in
      (record d { state = s }, ok out)
]

unfoldable pub len : PathDictionary → Result ℕ PathDictionaryError
len d = do reject_if d.poisoned PathDictionaryError.poisoned; ok (length d.state.by_path)
