-- ===== src/Store/PathDictionary/Assign.antt =====
-- The loop that assigns identifiers: how many it introduces, and what it keeps.
use ash.Common.{
  ℕ, ◌+◌, ◌≤◌, ◌<◌, ◌≡◌, refl, ap, ◌∙◌, none, some, List, [], ◌∷◌, ◌++◌, length, arith, append-nil,
  append_assoc, Option-cases, inl, inr,
}
use ash.Common.Eq.{bytes_keys, bytes_eq_iff}
use ash.Common.Map.{Map, get, insert, get-insert, length-insert_new}
use ash.Store.PathDictionary.{
  LogicalPath, PathEntry, InternedPaths, State, absent, without, distinct, assign,
}

-- How many identifiers the loop introduces.
unfoldable pub fresh : Map LogicalPath ℕ → ℕ → List LogicalPath → ℕ
fresh m n [] = 0
fresh m n (path ∷ rest) = elim (get m path) [
  | some id ↦ fresh m n rest
  | none ↦ 1 + fresh (insert m path n) (n + 1) rest
]

module _ (m : Map LogicalPath ℕ) (n : ℕ) (path : LogicalPath) (rest : List LogicalPath) where
  fresh_old : {id : ℕ} → get m path ≡ some id → fresh m n (path ∷ rest) ≡ fresh m n rest
  unfolding fresh
  fresh_old e = rw (e, fresh)

  fresh_new : get m path ≡ none → fresh m n (path ∷ rest) ≡ 1 + fresh (insert m path n) (n + 1) rest
  unfolding fresh
  fresh_new e = rw (e, fresh)

  absent_old : {id : ℕ} → get m path ≡ some id → absent m (path ∷ rest) ≡ absent m rest
  unfolding absent
  absent_old e = ground arith

  absent_new : get m path ≡ none → absent m (path ∷ rest) ≡ path ∷ absent m rest
  unfolding absent
  absent_new e = ground arith

without-without :
    (p q : LogicalPath) (xs : List LogicalPath)
    → without p (without q xs) ≡ without q (without p xs)
unfolding without
without-without p q [] = refl
without-without p q (x ∷ xs) = ground (arith, without-without p q xs)

without_idem : (p : LogicalPath) (xs : List LogicalPath) → without p (without p xs) ≡ without p xs
unfolding without
without_idem p [] = refl
without_idem p (x ∷ xs) = ground (arith, without_idem p xs)

without-distinct :
    (p : LogicalPath) (xs : List LogicalPath) → without p (distinct xs) ≡ distinct (without p xs)
unfolding without distinct
without-distinct p [] = refl
without-distinct p (x ∷ xs) = ground (
  arith,
  bytes_eq_iff x p,
  without-without p x (distinct xs),
  without_idem p (distinct xs),
  without-distinct p xs,
)

-- What is absent after one more entry.
absent-insert :
    (m : Map LogicalPath ℕ) (p : LogicalPath) (n : ℕ) (xs : List LogicalPath)
    → absent (insert m p n) xs ≡ without p (absent m xs)
unfolding absent without
absent-insert m p n [] = refl
absent-insert m p n (x ∷ xs) =
    ground (arith, get-insert m p x n, bytes_eq_iff p x, bytes_eq_iff x p, absent-insert m p n xs)

-- The set that the quota check counts is what the loop introduces.
pub length-distinct :
    (m : Map LogicalPath ℕ) (n : ℕ) (xs : List LogicalPath)
    → length (distinct (absent m xs)) ≡ fresh m n xs
unfolding absent distinct fresh
length-distinct m n [] = refl
length-distinct m n (x ∷ xs) = elim (Option-cases (get m x)) [
  | inl e ↦
      rw (absent_new m n x xs e, fresh_new m n x xs e)
        (omega (
          arith,
          ap (length {A = LogicalPath}) (without-distinct x (absent m xs)),
          ap (λ (ys : List LogicalPath). length (distinct ys)) (absent-insert m x n xs),
          length-distinct (insert m x n) (n + 1) xs,
        ))
  | inr (i, e) ↦ rw (absent_old m n x xs e, fresh_old m n x xs e) (length-distinct m n xs)
]

-- One round of the loop, as a state and the entry that it introduces.
abbrev bind_new : LogicalPath → State → State
bind_new path s = record { next_id = s.next_id + 1; by_path = insert s.by_path path s.next_id }

-- The loop without its accumulators.
pub plan : List LogicalPath → State → State × List ℕ × List PathEntry
plan [] s = (s, [], [])
plan (path ∷ rest) s = elim (get s.by_path path) [
  | some id ↦ let (s', ids, entries) = plan rest s in (s', id ∷ ids, entries)
  | none ↦
      let (s', ids, entries) = plan rest (bind_new path s) in
      (s', s.next_id ∷ ids, record { id = s.next_id; value = path } ∷ entries)
]

module _ (path : LogicalPath) (rest : List LogicalPath) (s : State) where
  plan_old :
      {id : ℕ}
      → get s.by_path path ≡ some id
      → plan (path ∷ rest) s ≡ ((plan rest s).0, id ∷ (plan rest s).1, (plan rest s).2)
  unfolding plan
  plan_old e = rw (e, plan)

  plan_new :
      get s.by_path path ≡ none
      → plan (path ∷ rest) s ≡ (
        (plan rest (bind_new path s)).0,
        s.next_id ∷ (plan rest (bind_new path s)).1,
        record { id = s.next_id; value = path } ∷ (plan rest (bind_new path s)).2,
      )
  unfolding plan
  plan_new e = rw (e, plan)

pub assign-plan :
    (paths : List LogicalPath) (s : State) (out : InternedPaths)
    → assign paths s out ≡ (
      (plan paths s).0,
      record { ids = out.ids ++ (plan paths s).1; introduced = out.introduced ++ (plan paths s).2 },
    )
unfolding assign plan
assign-plan [] s out = rw (append-nil, append-nil)
assign-plan (path ∷ rest) s out = elim (Option-cases (get s.by_path path)) [
  | inr (id, e) ↦ rw (plan_old path rest s e, e, assign) (assign-plan rest s _ ∙ simp append_assoc)
  | inl e ↦
      rw (plan_new path rest s e, e, assign)
        (assign-plan rest (bind_new path s) _ ∙ simp append_assoc)
]

-- What the dictionary promises of its identifiers: they are 1, 2, 3, …, one for each path.
pub record IsCoherent (s : State) : Type 0 where
  pub counted : s.next_id ≡ length s.by_path + 1
  pub below : (p : LogicalPath) (i : ℕ) → get s.by_path p ≡ some i → (1 ≤ i) × (i < s.next_id)
  pub injective :
      (p q : LogicalPath) (i : ℕ) → get s.by_path p ≡ some i → get s.by_path q ≡ some i → p ≡ q

bind_new-IsCoherent :
    (path : LogicalPath) (s : State)
    → IsCoherent s
    → get s.by_path path ≡ none
    → IsCoherent (bind_new path s)
bind_new-IsCoherent path s c e = record {
  counted = omega (arith, c.counted, length-insert_new s.by_path path s.next_id e);
  below = λ p i h. ground (arith, get-insert s.by_path path p s.next_id, c.below p i, c.counted);
  injective = λ p q i hp hq. ground (
    arith,
    get-insert s.by_path path p s.next_id,
    get-insert s.by_path path q s.next_id,
    bytes_eq_iff path p,
    bytes_eq_iff path q,
    c.below p i,
    c.below q i,
    c.injective p q i,
  );
}

pub plan-IsCoherent :
    (paths : List LogicalPath) (s : State) → IsCoherent s → IsCoherent (plan paths s).0
unfolding plan
plan-IsCoherent [] s c = c
plan-IsCoherent (path ∷ rest) s c = elim (Option-cases (get s.by_path path)) [
  | inr (id, e) ↦ rw (plan_old path rest s e) (plan-IsCoherent rest s c)
  | inl e ↦
      rw (plan_new path rest s e)
        (plan-IsCoherent rest (bind_new path s) (bind_new-IsCoherent path s c e))
]

-- The loop keeps every entry, and each answer is the entry of its path afterwards.
pub plan-keeps :
    (paths : List LogicalPath) (s : State) (p : LogicalPath) (i : ℕ)
    → get s.by_path p ≡ some i
    → get (plan paths s).0.by_path p ≡ some i
unfolding plan
plan-keeps [] s p i h = h
plan-keeps (path ∷ rest) s p i h = elim (Option-cases (get s.by_path path)) [
  | inr (id, e) ↦ rw (plan_old path rest s e) (plan-keeps rest s p i h)
  | inl e ↦ rw (plan_new path rest s e) (
      plan-keeps rest (bind_new path s) p i
        (ground (arith, get-insert s.by_path path p s.next_id, bytes_eq_iff path p)))
]

-- The identifiers answer the paths, one for one.
abbrev pub Answers : Map LogicalPath ℕ → List LogicalPath → List ℕ → Type 0
Answers m [] [] = Unit
Answers m (p ∷ ps) (i ∷ is) = (get m p ≡ some i) × Answers m ps is
Answers m _ _ = ⊥

pub plan-Answers :
    (paths : List LogicalPath) (s : State) → Answers (plan paths s).0.by_path paths (plan paths s).1
unfolding plan
plan-Answers [] s = tt
plan-Answers (path ∷ rest) s = elim (Option-cases (get s.by_path path)) [
  | inr (id, e) ↦ rw (plan_old path rest s e) (plan-keeps rest s path id e, plan-Answers rest s)
  | inl e ↦ rw (plan_new path rest s e) (
    plan-keeps rest (bind_new path s) path s.next_id
        (ground (arith, get-insert s.by_path path path s.next_id, bytes_eq_iff path path)),
    plan-Answers rest (bind_new path s),
  )
]

-- Every introduced entry is new, and stands in the dictionary afterwards.
abbrev pub Introduced : Map LogicalPath ℕ → Map LogicalPath ℕ → List PathEntry → Type 0
Introduced before after [] = Unit
Introduced before after (e ∷ es) =
    (get before e.value ≡ none) × (get after e.value ≡ some e.id) × Introduced before after es

-- What was absent after a new entry was absent before it.
Introduced-bind_new :
    (path : LogicalPath) (s : State) (after : Map LogicalPath ℕ) (es : List PathEntry)
    → Introduced (bind_new path s).by_path after es
    → Introduced s.by_path after es
Introduced-bind_new path s after [] h = h
Introduced-bind_new path s after (e ∷ es) h = (
  ground (arith, get-insert s.by_path path e.value s.next_id),
  h.1,
  Introduced-bind_new path s after es h.2,
)

pub plan-Introduced :
    (paths : List LogicalPath) (s : State)
    → Introduced s.by_path (plan paths s).0.by_path (plan paths s).2
unfolding plan
plan-Introduced [] s = tt
plan-Introduced (path ∷ rest) s = elim (Option-cases (get s.by_path path)) [
  | inr (id, e) ↦ rw (plan_old path rest s e) (plan-Introduced rest s)
  | inl e ↦ rw (plan_new path rest s e) (
    e,
    plan-keeps rest (bind_new path s) path s.next_id
        (ground (arith, get-insert s.by_path path path s.next_id, bytes_eq_iff path path)),
    Introduced-bind_new path s _ _ (plan-Introduced rest (bind_new path s)),
  )
]

-- The loop introduces as many entries as the quota check has counted.
pub plan-fresh :
    (paths : List LogicalPath) (s : State)
    → (length (plan paths s).0.by_path ≡ length s.by_path + fresh s.by_path s.next_id paths)
      × (length (plan paths s).2 ≡ fresh s.by_path s.next_id paths)
unfolding plan fresh
plan-fresh [] s = omega arith
plan-fresh (path ∷ rest) s = elim (Option-cases (get s.by_path path)) [
  | inr (id, e) ↦
      rw (plan_old path rest s e, fresh_old s.by_path s.next_id path rest e) (plan-fresh rest s)
  | inl e ↦
      rw (plan_new path rest s e, fresh_new s.by_path s.next_id path rest e)
        (omega
          (arith, plan-fresh rest (bind_new path s), length-insert_new s.by_path path s.next_id e))
]
