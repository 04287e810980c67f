-- ===== src/Store/ResultStore/Contract.antt =====
-- The contract of `retain_pending`: a group is added to a valid store as a whole or not at all.
use ash.Common.{
  ℕ, ◌+◌, ◌<◌, ◌≤◌, ◌≡◌, refl, sym, false, not, Option, none, some, List, [], ◌∷◌, ◌==◌, Result, ok,
  err, length, arith, Result-cases, inl, inr,
}
use ash.Common.Eq.{ℕ_keys, bytes_keys}
use ash.Common.Map.{get, IsUnique}
use ash.Common.Words.{u64_modulus, checked_add}
use ash.Store.ResultStore.{StoreLimits, State, PendingContent, StoreError, StoreLimits}
use ash.Store.ResultStore.Retain.{
  Checked, content_ids, reserved_bytes, commit, finish, check, retain_pending,
}
use ash.Store.ResultStore.Retaining.{total_bytes, IsIndexed, Follows, some-ne-none}
use ash.Store.ResultStore.Assigning.{Answers, Keeps, Assigned}
use ash.Store.ResultStore.Aliases.{assign_lem}
use ash.Store.ResultStore.Checks.{Passed, check-Passed, content_ids-length}

-- The maps agree, `bytes` is the size of the contents, and the quotas hold.
pub record IsValid (limits : StoreLimits) (s : State) : Type 0 where
  pub indexed : IsIndexed s.next_alias s
  pub counted : s.bytes ≡ total_bytes s.by_alias
  pub within : s.bytes + s.pending_bytes ≤ limits.max_bytes
  pub entries : length s.by_alias ≤ limits.max_entries
  pub unique : IsUnique s.by_alias

-- The group has been added.
pub record Added (limits : StoreLimits) (s s' : State) (ids : List (List ℕ)) (aliases : List ℕ)
    (reserved : ℕ) : Type 0 where
  pub valid : IsValid limits s'
  pub kept : Keeps s s'
  pub later : s.next_alias ≤ s'.next_alias
  pub retired : (a : ℕ) → a < s.next_alias → get s.by_alias a ≡ none → get s'.by_alias a ≡ none
  pub answers : Answers s'.by_alias ids aliases
  pub settled : s'.pending_bytes + reserved ≡ s.pending_bytes

-- The state once the counts are set.
abbrev counted : Checked → State → State
counted c s = record s {
  next_alias = c.next_alias;
  bytes = s.bytes + c.incoming;
  pending_bytes = c.pending_after;
}

finish-ok :
    (c : Checked) (s : State) (aliases : List ℕ) (last : ℕ)
    → last ≡ c.next_alias
    → s.bytes + c.incoming < u64_modulus
    → finish c (s, ok (aliases, last)) ≡ (counted c s, ok aliases)
unfolding finish checked_add
finish-ok c s aliases last e fits =
    let same : not (last == c.next_alias) ≡ false = ground arith in
    let sum : checked_add u64_modulus s.bytes c.incoming ≡ some (s.bytes + c.incoming) =
      ground arith in
    rw (same, sum) refl

empty-Follows : (s : State) → Follows s 0 s [] []
unfolding get
empty-Follows s = record {
  old = λ id a h. h;
  unknown = λ id h n. h;
  known = λ id i u h. absurd (some-ne-none (sym h));
}

module _ (hash : List ℕ → List ℕ) (file : ℕ → Option (List ℕ)) (limits : StoreLimits) where
  counted-IsValid :
      (pending : List PendingContent) (s s' : State) (c : Checked) (last : ℕ)
      (p : Passed hash file limits s pending c)
      → IsValid limits s
      → Assigned s s' [] p.first_new 0 c.incoming s.next_alias last
      → (last ≡ c.next_alias)
        × (s'.bytes + c.incoming < u64_modulus)
        × IsValid limits (counted c s')
  counted-IsValid pending s s' c last p v d =
      let count = d.count in
      let aliases = p.aliases in
      let last_eq : last ≡ c.next_alias = omega arith in
      let bytes_eq = d.same_bytes in
      let bytes_fit = p.bytes_fit in
      let i : IsIndexed c.next_alias s' = rw last_eq at d.indexed in
      (
        last_eq,
        rw bytes_eq (omega arith),
        record {
          indexed = record { forward = i.forward; backward = i.backward; free = i.free };
          counted = rw bytes_eq (let sum = d.bytes in let known = v.counted in omega arith);
          within = rw bytes_eq (let max = p.bytes in omega arith);
          entries = let sum = d.entries in let max = p.entries in omega arith;
          unique = d.unique v.unique;
        },
      )

  commit_lem :
      (pending : List PendingContent) (s : State) (c : Checked)
      (p : Passed hash file limits s pending c)
      → IsValid limits s
      → (s' : State) × (aliases : List ℕ) × (commit c pending s ≡ (s', ok aliases))
        × Added limits s s' c.ids aliases p.reserved
  unfolding commit
  commit_lem pending s c p v =
      let (s', aliases, last, runs, d, answers) =
        assign_lem hash file s pending 0 pending c.ids
          (content_ids-length hash file pending c.ids p.digests) s [] [] 0 s.next_alias c.placements
          p.first_new c.incoming p.placed (empty-Follows s) v.indexed (p.aliases_fit) in
      let (last_eq, fits, valid) = counted-IsValid pending s s' c last p v d in
      (
        counted c s',
        aliases,
        rw runs (finish-ok c s' aliases last last_eq fits),
        record {
          valid = valid;
          kept = d.kept;
          later = let next = p.aliases in omega arith;
          retired = d.retired;
          answers = answers;
          settled = p.rest;
        },
      )

  -- The group as a whole: an error changes nothing, and a success keeps the store valid.
  abbrev pub Kept : List PendingContent → State → State × Result (List ℕ) StoreError → Type 0
  Kept pending s (s', err e) = s' ≡ s
  Kept pending s (s', ok aliases) =
      (ids : List (List ℕ)) × (reserved : ℕ) × (content_ids hash file pending ≡ ok ids)
      × (reserved_bytes 0 pending ≡ ok reserved)
      × Added limits s s' ids aliases reserved

  -- A group of contents is retained as a whole or not at all: on a store that is valid (the two maps
  -- are inverse, the byte count is right, the quotas hold), and with a quota of entries below the
  -- largest machine word, an error leaves the state as it was. A success gives a valid state within both
  -- quotas that has all the old entries, an alias for each content that leads to an entry with its
  -- digest, and the reservations of the group taken off the pending bytes.
  pub retain_pending-atomic :
      (this : ℕ) (pending : List PendingContent) (s : State)
      → limits.max_entries + 1 < u64_modulus
      → IsValid limits s
      → Kept pending s (retain_pending hash file limits this pending s)
  unfolding retain_pending content_ids reserved_bytes
  retain_pending-atomic this [] s l v = (
    [],
    0,
    refl,
    refl,
    record {
      valid = v;
      kept = λ a e h. h;
      later = omega arith;
      retired = λ a less h. h;
      answers = tt;
      settled = omega arith;
    },
  )
  retain_pending-atomic this (value ∷ rest) s l v =
      elim (Result-cases (check hash file limits this (value ∷ rest) s)) [
        | inr (e, h) ↦ rw (retain_pending, h) refl
        | inl (c, h) ↦
            let p = check-Passed hash file limits this (value ∷ rest) s c l h in
            let (s', aliases, runs, added) = commit_lem (value ∷ rest) s c p v in
            rw (retain_pending, h, runs) (c.ids, p.reserved, p.digests, p.reservations, added)
      ]
