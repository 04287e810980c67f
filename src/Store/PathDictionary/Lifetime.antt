-- ===== src/Store/PathDictionary/Lifetime.antt =====
-- The identifiers of crates/ash-store/src/path_dictionary.rs over the life of a dictionary.
use ash.Common.{
  ℕ, suc, zero, ◌+◌, ◌<◌, ◌≡◌, ◌↔◌, sym, ap, ◌∙◌, some, List, [], ◌∷◌, get_elem?, ok_injective,
  Result, ok, err,
}
use mathlib.Core.Option.{some-injective}
use ash.Common.Eq.{bytes_keys}
use ash.Common.Map.{Map, get}
use ash.Common.Words.{u64_modulus}
use ash.Store.PathDictionary.{
  LogicalPath, InternedPaths, PathDictionary, PathDictionaryError, new, intern,
}
use ash.Store.PathDictionary.Assign.{Answers}
use ash.Store.PathDictionary.Intern.{
  IsValid, InternContract, new-IsValid, intern-IsValid, intern_contract,
}

-- A sequence of calls, each with its result.
unfoldable pub interns : PathDictionary → List (List LogicalPath) → PathDictionary
interns d [] = d
interns d (paths ∷ calls) = interns (intern d paths).0 calls

interns-IsValid :
    (d : PathDictionary) (calls : List (List LogicalPath)) → IsValid d → IsValid (interns d calls)
unfolding interns
interns-IsValid d [] v = v
interns-IsValid d (paths ∷ calls) v =
    interns-IsValid (intern d paths).0 calls (intern-IsValid d paths v)

intern-keeps :
    (d : PathDictionary) (paths : List LogicalPath) (p : LogicalPath) (i : ℕ)
    → get d.state.by_path p ≡ some i
    → get (intern d paths).0.state.by_path p ≡ some i
intern-keeps d paths p i h = go (intern d paths) (intern_contract d paths)
  where
    go :
        (out : PathDictionary × Result InternedPaths PathDictionaryError)
        → InternContract d paths out
        → get out.0.state.by_path p ≡ some i
    go (d', err e) same = rw same h
    go (d', ok out) c = c.keeps p i h

interns-keeps :
    (d : PathDictionary) (calls : List (List LogicalPath)) (p : LogicalPath) (i : ℕ)
    → get d.state.by_path p ≡ some i
    → get (interns d calls).state.by_path p ≡ some i
unfolding interns
interns-keeps d [] p i h = h
interns-keeps d (paths ∷ calls) p i h =
    interns-keeps (intern d paths).0 calls p i (intern-keeps d paths p i h)

get_elem?-Answers :
    (m : Map LogicalPath ℕ) (paths : List LogicalPath) (ids : List ℕ) (n : ℕ) (p : LogicalPath)
    (i : ℕ)
    → Answers m paths ids
    → get_elem? paths n ≡ some p
    → get_elem? ids n ≡ some i
    → get m p ≡ some i
get_elem?-Answers m [] ids n p i a h g = cc
get_elem?-Answers m (q ∷ paths) [] n p i a h g = cc
get_elem?-Answers m (q ∷ paths) (j ∷ ids) zero p i (a, rest) h g =
    rw (some-injective q p h, some-injective j i g) at a
get_elem?-Answers m (q ∷ paths) (j ∷ ids) (suc n) p i (a, rest) h g =
    get_elem?-Answers m paths ids n p i rest h g

-- What a call that succeeds has answered stands in the dictionary.
intern-Answers :
    (d : PathDictionary) (paths : List LogicalPath) (out : InternedPaths)
    → (intern d paths).1 ≡ ok out
    → Answers (intern d paths).0.state.by_path paths out.ids
intern-Answers d paths out h = go (intern d paths) (intern_contract d paths) h
  where
    go :
        (res : PathDictionary × Result InternedPaths PathDictionaryError)
        → InternContract d paths res
        → res.1 ≡ ok out
        → Answers res.0.state.by_path paths out.ids
    go (d', err e) same e' = cc
    go (d', ok out') c e' = rw (sym (ap (λ x. x.ids) (ok_injective e'))) (c.answers)

-- Two answers of a dictionary over its life, however far apart: for a dictionary that `new` has made
-- with a quota below the largest machine word, any calls, a call that succeeds, any calls after it,
-- and another that succeeds, a path of the first call and one of the second have the same identifier
-- exactly if they are the same path. Calls that fail change nothing of this.
pub intern-same_iff :
    (quota : ℕ) (made d : PathDictionary) (before between : List (List LogicalPath))
    (paths paths' : List LogicalPath) (out out' : InternedPaths) (m n : ℕ) (p q : LogicalPath)
    (i j : ℕ)
    → quota + 1 < u64_modulus
    → new quota ≡ ok made
    → interns made before ≡ d
    → (intern d paths).1 ≡ ok out
    → (intern (interns (intern d paths).0 between) paths').1 ≡ ok out'
    → get_elem? paths m ≡ some p
    → get_elem? out.ids m ≡ some i
    → get_elem? paths' n ≡ some q
    → get_elem? out'.ids n ≡ some j
    → (p ≡ q) ↔ (i ≡ j)
intern-same_iff quota made d before between paths paths' out out' m n p q i j word new_ok reached
      ok1 ok2 hp hi hq hj =
    let valid : IsValid d =
      rw (sym reached) (interns-IsValid made before (new-IsValid quota made word new_ok)) in
    let d1 = (intern d paths).0 in
    let d2 = interns d1 between in
    let valid2 : IsValid (intern d2 paths').0 =
      intern-IsValid d2 paths' (interns-IsValid d1 between (intern-IsValid d paths valid)) in
    let first =
      get_elem?-Answers d1.state.by_path paths out.ids m p i (intern-Answers d paths out ok1) hp
        hi in
    let kept = intern-keeps d2 paths' p i (interns-keeps d1 between p i first) in
    let second =
      get_elem?-Answers (intern d2 paths').0.state.by_path paths' out'.ids n q j
        (intern-Answers d2 paths' out' ok2) hq hj in
    (
      λ same. some-injective i j (sym kept ∙ rw same second),
      λ same. valid2.coherent.injective p q i kept (rw same second),
    )
