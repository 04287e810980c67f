-- ===== src/Store/ResultStore/Retain.antt =====
-- `retain_pending` of crates/ash-store/src/result_store.rs, which commits a group of contents at once.
use ash.Common.{
  ℕ, suc, not, ◌||◌, Option, none, some, List, [], ◌∷◌, ◌==◌, ltb, if◌then◌else◌, Result, ok, err,
  ◌>>=◌, ◌>>◌, ok_or, reject_if, length, get_elem?,
}
use ash.Common.Eq.{ℕ_keys, bytes_keys}
use ash.Common.Map.{Map, get, insert}
use ash.Common.Words.{u64_modulus, checked_add, checked_sub, saturating_add}
use ash.Store.ResultStore.{
  StoreLimits, Content, State, PendingContent, StoreError, content_too_large, byte_quota,
  entry_quota, alias_exhausted, reservation_mismatch, digest_collision, invariant, lock,
  drop_reservation,
}
use ash.Store.ResultStore.Contents.{digest, equals, prepare_bytes}

pub data Placement : Type 0 where
  existing new_at : ℕ → Placement

-- The checks of the reservations, against the store `this`.
unfoldable pub check_pending : ℕ → List PendingContent → Result (Unit {0}) StoreError
check_pending this [] = ok tt
check_pending this (value ∷ rest) = do
  content ← ok_or value.content invariant
  elim (value.reservation) [
    | none ↦ ok tt
    | some r ↦ reject_if (not (r.store == this) || ltb content.length r.bytes) reservation_mismatch
  ]
  check_pending this rest

-- The sum of the reservations.
unfoldable pub reserved_bytes : ℕ → List PendingContent → Result ℕ StoreError
unfolding checked_add
reserved_bytes total [] = ok total
reserved_bytes total (value ∷ rest) = do
  next ←
      ok_or
        (checked_add u64_modulus total (elim (value.reservation) [ none ↦ 0 | some r ↦ r.bytes ]))
        content_too_large
  reserved_bytes next rest

unfoldable pub content_at : List PendingContent → ℕ → Option Content
content_at pending i = elim (get_elem? pending i) [ none ↦ none | some value ↦ value.content ]

module _ (hash : List ℕ → List ℕ) (file : ℕ → Option (List ℕ)) where
  -- The digests of the values that have none yet; the code takes them in parallel, here in order.
  unfoldable pub content_ids : List PendingContent → Result (List (List ℕ)) StoreError
  content_ids [] = ok []
  content_ids (value ∷ rest) = do
    id ← elim (value.content_id) [
      | some id ↦ ok id
      | none ↦ ok_or value.content invariant >>= digest hash file
    ]
    ids ← content_ids rest
    ok (id ∷ ids)

  -- Where one value goes, with the first occurrences and the bytes that are new.
  unfoldable pub place_one :
      State
      → List PendingContent
      → ℕ
      → PendingContent
      → List ℕ
      → Map (List ℕ) ℕ
      → ℕ
      → Result (Placement × Map (List ℕ) ℕ × ℕ) StoreError
  unfolding content_at checked_add
  place_one s pending index value id first_new incoming = do
    content ← ok_or value.content invariant
    elim (get s.by_content id) [
      | some alias ↦ do
        entry ← ok_or (get s.by_alias alias) invariant
        same ← equals hash file entry.content content
        reject_if (not same) digest_collision
        ok (existing alias, first_new, incoming)
      | none ↦ elim (get first_new id) [
        | some first ↦ do
          first_content ← ok_or (content_at pending first) invariant
          same ← equals hash file first_content content
          reject_if (not same) digest_collision
          ok (new_at first, first_new, incoming)
        | none ↦ do
          incoming' ← ok_or (checked_add u64_modulus incoming content.length) content_too_large
          ok (new_at index, insert first_new id index, incoming')
      ]
    ]

  unfoldable pub place :
      State
      → List PendingContent
      → ℕ
      → List PendingContent
      → List (List ℕ)
      → Map (List ℕ) ℕ
      → ℕ
      → Result (List Placement × Map (List ℕ) ℕ × ℕ) StoreError
  unfolding place_one
  place s pending index [] ids first_new incoming = ok ([], first_new, incoming)
  place s pending index (value ∷ rest) [] first_new incoming = ok ([], first_new, incoming)
  place s pending index (value ∷ rest) (id ∷ ids) first_new incoming =
      place_one s pending index value id first_new incoming
      >>= (λ (placement, first_new', incoming').
          place s pending (suc index) rest ids first_new' incoming'
          >>= (λ (placements, first_new'', incoming'').
              ok (placement ∷ placements, first_new'', incoming'')))

-- The loop that hands out the aliases. It has changed the state when it fails.
unfoldable pub assign :
    ℕ
    → List Placement
    → List PendingContent
    → List (List ℕ)
    → State
    → Map ℕ ℕ
    → ℕ
    → State × Result (List ℕ × ℕ) StoreError
unfolding checked_add
assign index [] pending ids s allocated alias = (s, ok ([], alias))
assign index (_ ∷ placements) [] ids s allocated alias = (s, err invariant)
assign index (_ ∷ placements) (value ∷ pending) [] s allocated alias = (s, err invariant)
assign index (existing a ∷ placements) (value ∷ pending) (id ∷ ids) s allocated alias =
    let (s', r) = assign (suc index) placements pending ids s allocated alias in
    (s', r >>= (λ (aliases, last). ok (a ∷ aliases, last)))
assign index (new_at first ∷ placements) (value ∷ pending) (id ∷ ids) s allocated alias =
    if not (first == index)
    then elim (get allocated first) [
      | none ↦ (s, err invariant)
      | some a ↦
          let (s', r) = assign (suc index) placements pending ids s allocated alias in
          (s', r >>= (λ (aliases, last). ok (a ∷ aliases, last)))
    ]
    else elim (value.content) [
      | none ↦ (s, err invariant)
      | some content ↦
          let s1 : State = record s {
            by_content = insert s.by_content id alias;
            by_alias =
                insert s.by_alias alias (record { content_id = id; content = content; leases = 0 });
          } in
          elim (checked_add u64_modulus alias 1) [
            | none ↦ (s1, err invariant)
            | some next ↦
                let (s', r) =
                  assign (suc index) placements pending ids s1 (insert allocated index alias)
                    next in
                (s', r >>= (λ (aliases, last). ok (alias ∷ aliases, last)))
          ]
    ]

-- What has been checked before the store changes.
pub record Checked : Type 0 where
  pub placements : List Placement
  pub ids : List (List ℕ)
  pub incoming : ℕ
  pub next_alias : ℕ
  pub pending_after : ℕ

-- The end of `retain_pending`: what the loop has given, then the counts.
unfoldable pub finish :
    Checked → State × Result (List ℕ × ℕ) StoreError → State × Result (List ℕ) StoreError
unfolding checked_add
finish c (s, err e) = (s, err e)
finish c (s, ok (aliases, alias)) =
    if not (alias == c.next_alias)
    then (s, err invariant)
    else elim (checked_add u64_modulus s.bytes c.incoming) [
      | none ↦ (record s { next_alias = c.next_alias }, err invariant)
      | some bytes ↦ (
        record s { next_alias = c.next_alias; bytes = bytes; pending_bytes = c.pending_after },
        ok aliases,
      )
    ]

unfoldable pub commit : Checked → List PendingContent → State → State × Result (List ℕ) StoreError
unfolding assign finish
commit c pending s = finish c (assign 0 c.placements pending c.ids s [] s.next_alias)

module _ (hash : List ℕ → List ℕ) (file : ℕ → Option (List ℕ)) (limits : StoreLimits)
    (this : ℕ) where
  unfoldable pub check : List PendingContent → State → Result Checked StoreError
  unfolding check_pending content_ids reserved_bytes place checked_add checked_sub saturating_add
  check pending s = do
    check_pending this pending
    ids ← content_ids hash file pending
    lock s
    reserved ← reserved_bytes 0 pending
    pending_after ← ok_or (checked_sub s.pending_bytes reserved) invariant
    (placements, first_new, incoming) ← place hash file s pending 0 pending ids [] 0
    current ← ok_or (checked_add u64_modulus s.bytes pending_after) content_too_large
    total ← ok_or (checked_add u64_modulus current incoming) content_too_large
    reject_if (ltb limits.max_bytes total) (byte_quota current incoming limits.max_bytes)
    reject_if
        (ltb limits.max_entries (saturating_add u64_modulus (length s.by_alias) (length first_new)))
        (entry_quota limits.max_entries)
    next_alias ← ok_or (checked_add u64_modulus s.next_alias (length first_new)) alias_exhausted
    ok (record {
      placements = placements;
      ids = ids;
      incoming = incoming;
      next_alias = next_alias;
      pending_after = pending_after;
    })

  unfoldable pub retain_pending : List PendingContent → State → State × Result (List ℕ) StoreError
  unfolding check commit
  retain_pending [] s = (s, ok [])
  retain_pending (value ∷ rest) s = elim (check (value ∷ rest) s) [
    | err e ↦ (s, err e)
    | ok c ↦ commit c (value ∷ rest) s
  ]

-- The drop of the values of a group that was refused.
unfoldable pub drop_pending : List PendingContent → State → State
unfolding drop_reservation
drop_pending [] s = s
drop_pending (value ∷ rest) s =
    drop_pending rest (elim (value.reservation) [ none ↦ s | some r ↦ drop_reservation r s ])

module _ (hash : List ℕ → List ℕ) (file : ℕ → Option (List ℕ)) (limits : StoreLimits)
    (this : ℕ) where
  -- Values that are retained have no reservation left to drop.
  unfoldable pub retain_captures : List PendingContent → State → State × Result (List ℕ) StoreError
  unfolding retain_pending drop_pending
  retain_captures pending s =
      let (s', r) = retain_pending hash file limits this pending s in
      elim r [ err e ↦ (drop_pending pending s', err e) | ok aliases ↦ (s', ok aliases) ]

  unfoldable pub prepare_all :
      (List ℕ → Option ℕ) → List (List ℕ) → Result (List PendingContent) StoreError
  unfolding prepare_bytes
  prepare_all spool [] = ok []
  prepare_all spool (bytes ∷ rest) = do
    value ← prepare_bytes hash file spool bytes
    values ← prepare_all spool rest
    ok (value ∷ values)

  unfoldable pub retain_many :
      (List ℕ → Option ℕ) → List (List ℕ) → State → State × Result (List ℕ) StoreError
  unfolding retain_pending prepare_all
  retain_many spool contents s = elim (prepare_all spool contents) [
    | err e ↦ (s, err e)
    | ok pending ↦ retain_pending hash file limits this pending s
  ]

  unfoldable pub retain : (List ℕ → Option ℕ) → List ℕ → State → State × Result ℕ StoreError
  unfolding retain_many
  retain spool bytes s =
      let (s', r) = retain_many spool (bytes ∷ []) s in
      (s', r >>= (λ aliases. ok_or (get_elem? aliases 0) invariant))
