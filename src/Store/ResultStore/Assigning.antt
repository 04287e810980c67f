-- ===== src/Store/ResultStore/Assigning.antt =====
-- The aliases that a group of contents gets: no step of the loop that changes the store fails.
use ash.Common.{
  ℕ, suc, ◌+◌, ◌<◌, ◌≤◌, ◌≡◌, refl, sym, ◌∙◌, true, false, none, some, List, [], ◌∷◌, ◌==◌, ok,
  length, arith, inl, inr,
}
use mathlib.Core.Option.{some-injective}
use ash.Common.Eq.{ℕ_keys, bytes_keys}
use ash.Common.Map.{
  Map, get, insert, get-insert_same, get-insert_other, key_cases, length-insert_new, IsUnique,
  insert-IsUnique,
}
use ash.Common.Words.{u64_modulus, checked_add}
use ash.Store.ResultStore.{Content, Entry, State, PendingContent}
use ash.Store.ResultStore.Retain.{Placement, existing, new_at, assign}
use ash.Store.ResultStore.Retaining.{
  total_bytes, total_bytes-insert_new, IsIndexed, Follows, with_entry, keeps_entries, some-ne-none,
}

-- Each alias leads to an entry with the digest it is for.
abbrev pub Answers : Map ℕ Entry → List (List ℕ) → List ℕ → Type 0
Answers m [] [] = Unit {0}
Answers m (id ∷ ids) (a ∷ aliases) =
    ((e : Entry) × (get m a ≡ some e) × (e.content_id ≡ id)) × Answers m ids aliases
Answers m _ _ = ⊥

abbrev pub Keeps : State → State → Type 0
Keeps s s' = (a : ℕ) (e : Entry) → get s.by_alias a ≡ some e → get s'.by_alias a ≡ some e

pub record Assigned (s s' : State) (first_new first_new' : Map (List ℕ) ℕ)
    (incoming incoming' alias alias' : ℕ) : Type 0 where
  pub indexed : IsIndexed alias' s'
  pub count : alias' + length first_new ≡ alias + length first_new'
  pub grew : length first_new ≤ length first_new'
  pub bytes : total_bytes s'.by_alias + incoming ≡ total_bytes s.by_alias + incoming'
  pub entries : length s'.by_alias + length first_new ≡ length s.by_alias + length first_new'
  pub kept : Keeps s s'
  pub unique : IsUnique s.by_alias → IsUnique s'.by_alias
  pub retired : (a : ℕ) → a < alias → get s.by_alias a ≡ none → get s'.by_alias a ≡ none
  pub same_bytes : s'.bytes ≡ s.bytes
  pub same_lock : s'.poisoned ≡ s.poisoned

-- A new entry.
pub Fresh-Follows :
    (s0 : State) (k : ℕ) (s : State) (first_new : Map (List ℕ) ℕ) (allocated : Map ℕ ℕ)
    (id : List ℕ) (alias : ℕ) (content : Content)
    → Follows s0 k s first_new allocated
    → get s0.by_content id ≡ none
    → Follows s0
        (suc k)
        (with_entry s id alias content)
        (insert first_new id k)
        (insert allocated k alias)
Fresh-Follows s0 k s first_new allocated id alias content f unknown = record {
  old = λ id' a h. elim (key_cases id id') [
    | inl same ↦ absurd (some-ne-none (sym h ∙ rw (sym same) unknown))
    | inr other ↦ get-insert_other s.by_content id id' alias other ∙ f.old id' a h
  ];
  unknown = λ id' u n. elim (key_cases id id') [
    | inl same ↦ absurd (some-ne-none (sym (get-insert_same first_new id k) ∙ rw (sym same) at n))
    | inr other ↦
        get-insert_other s.by_content id id' alias other
        ∙ f.unknown id' u (sym (get-insert_other first_new id id' k other) ∙ n)
  ];
  known = λ id' i u h. elim (key_cases id id') [
    | inl same ↦
        let at_k : k ≡ i =
          some-injective k i (sym (get-insert_same first_new id k) ∙ rw (sym same) at h) in
        (
          omega arith,
          alias,
          rw (sym at_k) (get-insert_same allocated k alias),
          rw (sym same) (get-insert_same s.by_content id alias),
        )
    | inr other ↦
        let (l, a, g, c) = f.known id' i u (sym (get-insert_other first_new id id' k other) ∙ h) in
        (
          omega arith,
          a,
          get-insert_other allocated k i alias (λ p. omega arith) ∙ g,
          get-insert_other s.by_content id id' alias other ∙ c,
        )
  ];
}

-- How the rest of the group ends.
abbrev pub Outcome :
    ℕ
    → List Placement
    → List PendingContent
    → List (List ℕ)
    → State
    → Map (List ℕ) ℕ
    → Map ℕ ℕ
    → ℕ
    → ℕ
    → Map (List ℕ) ℕ
    → ℕ
    → Type 0
Outcome k placements pending ids s first_new allocated incoming alias first_new' incoming' =
    (s' : State) × (aliases : List ℕ) × (alias' : ℕ) × (assign k placements pending ids s allocated
        alias
      ≡ (s', ok (aliases, alias')))
    × Assigned s s' first_new first_new' incoming incoming' alias alias'
    × Answers s'.by_alias ids aliases

module _ (k : ℕ) (rest : List Placement) (value : PendingContent) (pending : List PendingContent)
    (id : List ℕ) (ids : List (List ℕ)) (s : State) (first_new : Map (List ℕ) ℕ)
    (allocated : Map ℕ ℕ) (incoming alias : ℕ) (first_new' : Map (List ℕ) ℕ) (incoming' : ℕ) where
  pub Outcome-existing :
      (a : ℕ) (e : Entry)
      → get s.by_alias a ≡ some e
      → e.content_id ≡ id
      → Outcome (suc k) rest pending ids s first_new allocated incoming alias first_new' incoming'
      → Outcome k
          (existing a ∷ rest)
          (value ∷ pending)
          (id ∷ ids)
          s
          first_new
          allocated
          incoming
          alias
          first_new'
          incoming'
  unfolding assign
  Outcome-existing a e g same (s', aliases, alias', runs, d, answers) =
      (s', a ∷ aliases, alias', rw runs refl, d, ((e, d.kept a e g, same), answers))

  pub Outcome-repeated :
      (first a : ℕ) (e : Entry)
      → first < k
      → get allocated first ≡ some a
      → get s.by_alias a ≡ some e
      → e.content_id ≡ id
      → Outcome (suc k) rest pending ids s first_new allocated incoming alias first_new' incoming'
      → Outcome k
          (new_at first ∷ rest)
          (value ∷ pending)
          (id ∷ ids)
          s
          first_new
          allocated
          incoming
          alias
          first_new'
          incoming'
  unfolding assign
  Outcome-repeated first a e l found g same (s', aliases, alias', runs, d, answers) =
      let other : (first == k) ≡ false = ground arith in
      (s', a ∷ aliases, alias', rw (other, found, runs) refl, d, ((e, d.kept a e g, same), answers))

  pub Outcome-new :
      (content : Content)
      → value.content ≡ some content
      → suc alias < u64_modulus
      → IsIndexed alias s
      → get s.by_content id ≡ none
      → get first_new id ≡ none
      → Outcome
          (suc k)
          rest
          pending
          ids
          (with_entry s id alias content)
          (insert first_new id k)
          (insert allocated k alias)
          (incoming + content.length)
          (suc alias)
          first_new'
          incoming'
      → Outcome k
          (new_at k ∷ rest)
          (value ∷ pending)
          (id ∷ ids)
          s
          first_new
          allocated
          incoming
          alias
          first_new'
          incoming'
  unfolding assign checked_add
  Outcome-new content has fits i unknown new (s', aliases, alias', runs, d, answers) =
      let here : (k == k) ≡ true = ground arith in
      let next : checked_add u64_modulus alias 1 ≡ some (suc alias) = ground arith in
      let firsts = length-insert_new first_new id k new in
      let free = i.free alias (omega arith) in
      let entry : Entry = record { content_id = id; content = content; leases = 0 } in
      let entries = length-insert_new s.by_alias alias entry free in
      let sum = total_bytes-insert_new s.by_alias alias entry free in
      (
        s',
        alias ∷ aliases,
        alias',
        rw (here, has, next, runs) refl,
        record {
          indexed = d.indexed;
          count = let c = d.count in omega arith;
          grew = let c = d.grew in omega arith;
          bytes = let c = d.bytes in omega arith;
          entries = let c = d.entries in omega arith;
          kept = λ a e g. d.kept a e (keeps_entries s id alias content i unknown a e g);
          unique = λ u. d.unique (insert-IsUnique s.by_alias alias entry u);
          retired = λ a l g.
              d.retired a (omega arith)
                (get-insert_other s.by_alias alias a entry (λ p. omega arith) ∙ g);
          same_bytes = d.same_bytes;
          same_lock = d.same_lock;
        },
        ((entry, d.kept alias entry (get-insert_same s.by_alias alias entry), refl), answers),
      )
