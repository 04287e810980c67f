-- ===== src/Store/PathDictionary/Intern.antt =====
-- What a call of `intern` promises its caller, on success and on every error.
use ash.Common.{
  ℕ, ◌+◌, ◌≤◌, ◌<◌, ◌≡◌, refl, false, some, List, length, arith, Result, ok, err, Result-cases, inl,
  inr,
}
use ash.Common.Eq.{bytes_keys}
use ash.Common.Map.{get}
use ash.Common.Words.{u64_modulus, saturating_add}
use ash.Store.PathDictionary.{
  LogicalPath, InternedPaths, PathDictionary, PathDictionaryError, empty_state, new, absent,
  distinct, admit, intern,
}
use ash.Store.PathDictionary.Assign.{
  IsCoherent, Answers, Introduced, plan, assign-plan, length-distinct, plan-IsCoherent, plan-keeps,
  plan-Answers, plan-Introduced, plan-fresh,
}

pub record IsValid (d : PathDictionary) : Type 0 where
  pub coherent : IsCoherent d.state
  pub quota : length d.state.by_path ≤ d.max_entries
  pub word : d.max_entries + 1 < u64_modulus

empty_state-IsCoherent : IsCoherent empty_state
unfolding get
empty_state-IsCoherent = record {
  counted = omega arith;
  below = λ p i e. cc;
  injective = λ p q i e f. cc;
}

-- A new dictionary is valid, for every quota that a word holds with one to spare.
pub new-IsValid : (n : ℕ) (d : PathDictionary) → n + 1 < u64_modulus → new n ≡ ok d → IsValid d
unfolding new
new-IsValid n d w h =
    let e : d ≡ record { max_entries = n; poisoned = false; state = empty_state } = ground arith in
    rw e (record { coherent = empty_state-IsCoherent; quota = omega arith; word = w })

admit-fits :
    (d : PathDictionary) (paths : List LogicalPath) {u : Unit {0}}
    → d.max_entries + 1 < u64_modulus
    → admit d paths ≡ ok u
    → length d.state.by_path + length (distinct (absent d.state.by_path paths)) ≤ d.max_entries
unfolding admit saturating_add
admit-fits d paths w h = ground arith

-- The two ends of a call, by the verdict of its checks.
intern_refused :
    (d : PathDictionary) (paths : List LogicalPath) {e : PathDictionaryError}
    → admit d paths ≡ err e
    → intern d paths ≡ (d, err e)
unfolding intern
intern_refused d paths h = rw (h, intern)

abbrev after : PathDictionary → List LogicalPath → PathDictionary
after d paths = record d { state = (plan paths d.state).0 }

intern_admitted :
    (d : PathDictionary) (paths : List LogicalPath) {u : Unit {0}}
    → admit d paths ≡ ok u
    → intern d paths ≡ (
      after d paths,
      ok (record { ids = (plan paths d.state).1; introduced = (plan paths d.state).2 }),
    )
unfolding intern
intern_admitted d paths h = rw (h, intern) (rw assign-plan refl)

-- A call keeps a dictionary valid, whatever it returns: as many identifiers are given out as there
-- are paths, all are positive and below the next, no two paths share one, and the quota is not
-- passed.
pub intern-IsValid :
    (d : PathDictionary) (paths : List LogicalPath) → IsValid d → IsValid (intern d paths).0
intern-IsValid d paths v = elim (Result-cases (admit d paths)) [
  | inl (u, e) ↦ rw (intern_admitted d paths e) (record {
    coherent = plan-IsCoherent paths d.state v.coherent;
    quota = omega (
      arith,
      plan-fresh paths d.state,
      length-distinct d.state.by_path d.state.next_id paths,
      admit-fits d paths v.word e,
    );
    word = v.word;
  })
  | inr (x, e) ↦ rw (intern_refused d paths e) v
]

-- A successful call from `d` to `d'`.
pub record Interned (d d' : PathDictionary) (paths : List LogicalPath) (out : InternedPaths)
    : Type 0 where
  pub answers : Answers d'.state.by_path paths out.ids
  pub keeps :
      (p : LogicalPath) (i : ℕ) → get d.state.by_path p ≡ some i → get d'.state.by_path p ≡ some i
  pub introduces : Introduced d.state.by_path d'.state.by_path out.introduced
  pub grows : length d'.state.by_path ≡ length d.state.by_path + length out.introduced

-- The result of a call from `d`, as its caller may read it.
abbrev pub InternContract :
    PathDictionary
    → List LogicalPath
    → PathDictionary × Result InternedPaths PathDictionaryError
    → Type 0
InternContract d paths (d', err e) = d' ≡ d
InternContract d paths (d', ok out) = Interned d d' paths out

-- A call that fails leaves the dictionary as it was. One that succeeds answers every path, in
-- order, with the identifier under which the dictionary then has it; no older entry has changed;
-- the introduced entries are new, and account for the growth of the dictionary.
pub intern_contract :
    (d : PathDictionary) (paths : List LogicalPath) → InternContract d paths (intern d paths)
intern_contract d paths = elim (Result-cases (admit d paths)) [
  | inl (u, e) ↦ rw (intern_admitted d paths e) (record {
    answers = plan-Answers paths d.state;
    keeps = plan-keeps paths d.state;
    introduces = plan-Introduced paths d.state;
    grows = omega (arith, plan-fresh paths d.state);
  })
  | inr (x, e) ↦ rw (intern_refused d paths e) refl
]
