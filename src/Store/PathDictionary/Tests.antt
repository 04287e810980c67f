-- ===== src/Store/PathDictionary/Tests.antt =====
-- Concrete runs of the path dictionary, and the theorems at concrete inputs.
use ash.Common.{ℕ, ◌≡◌, ◌↔◌, refl, List, false, [], ◌∷◌, ok, err, arith}
use ash.Common.Words.{checked_add, saturating_add}
use ash.Common.Map.{get, insert}
use ash.Store.PathDictionary.{
  LogicalPath, PathDictionary, PathDictionaryError, empty_state, new, intern, admit, validate_paths,
  validate_path, absent, distinct, assign,
}
use ash.Store.PathDictionary.Lifetime.{interns, intern-same_iff}
use ash.Store.PathDictionary.Intern.{
  IsValid, InternContract, new-IsValid, intern-IsValid, intern_contract,
}

abbrev path_a : LogicalPath
path_a = b'a' ∷ []

abbrev path_b : LogicalPath
path_b = b'b' ∷ []

abbrev four_paths : PathDictionary
four_paths = record { max_entries = 4; poisoned = false; state = empty_state }

abbrev one_path : PathDictionary
one_path = record { max_entries = 1; poisoned = false; state = empty_state }

-- The order of the input drives the identifiers, and a repeated path is introduced once.
intern_twice :
    (intern four_paths (path_b ∷ path_a ∷ path_b ∷ [])).1
    ≡ ok (record {
      ids = 1 ∷ 2 ∷ 1 ∷ [];
      introduced = record { id = 1; value = path_b } ∷ record { id = 2; value = path_a } ∷ [];
    })
unfolding intern admit validate_paths validate_path absent distinct checked_add saturating_add
    assign get insert
intern_twice = refl

-- A batch over the quota changes nothing.
intern_over_quota :
    intern one_path (path_a ∷ path_b ∷ path_b ∷ []) ≡ (one_path, err (PathDictionaryError.quota 1))
unfolding intern admit validate_paths validate_path absent distinct checked_add saturating_add get
intern_over_quota = refl

made : new 4 ≡ ok four_paths
unfolding new
made = refl

intern-IsValid_example : IsValid (intern four_paths (path_b ∷ path_a ∷ path_b ∷ [])).0
intern-IsValid_example =
    intern-IsValid four_paths (path_b ∷ path_a ∷ path_b ∷ [])
      (new-IsValid 4 four_paths (omega arith) made)

intern_contract_example :
    InternContract four_paths
      (path_b ∷ path_a ∷ path_b ∷ [])
      (intern four_paths (path_b ∷ path_a ∷ path_b ∷ []))
intern_contract_example = intern_contract four_paths (path_b ∷ path_a ∷ path_b ∷ [])

-- A call, a call that is refused, and a call that meets both paths again.
abbrev filled : PathDictionary
filled = (intern four_paths (path_b ∷ path_a ∷ [])).0

abbrev refused : List (List LogicalPath)
refused = ([] ∷ []) ∷ []

first_answers :
    (intern four_paths (path_b ∷ path_a ∷ [])).1
    ≡ ok (record {
      ids = 1 ∷ 2 ∷ [];
      introduced = record { id = 1; value = path_b } ∷ record { id = 2; value = path_a } ∷ [];
    })
unfolding intern admit validate_paths validate_path absent distinct checked_add saturating_add
    assign get insert
first_answers = refl

later_answers :
    (intern (interns filled refused) (path_a ∷ path_b ∷ [])).1
    ≡ ok (record { ids = 2 ∷ 1 ∷ []; introduced = [] })
unfolding interns intern admit validate_paths validate_path absent distinct checked_add
    saturating_add assign get insert
later_answers = refl

intern-same_iff_example : (path_b ≡ path_b) ↔ ◌≡◌ {A = ℕ} 1 1
unfolding interns
intern-same_iff_example =
    intern-same_iff 4 four_paths four_paths [] refused (path_b ∷ path_a ∷ []) (path_a ∷ path_b ∷ [])
      (record {
        ids = 1 ∷ 2 ∷ [];
        introduced = record { id = 1; value = path_b } ∷ record { id = 2; value = path_a } ∷ [];
      })
      (record { ids = 2 ∷ 1 ∷ []; introduced = [] }) 0 1 path_b path_b 1 1 (omega arith) made refl
      first_answers later_answers refl refl refl refl
