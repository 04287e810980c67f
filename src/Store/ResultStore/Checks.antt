-- ===== src/Store/ResultStore/Checks.antt =====
-- What the checks of `retain_pending` establish before the store changes.
use ash.Common.{
  ℕ, ◌+◌, ◌<◌, ◌≤◌, ◌≡◌, refl, sym, false, Option, none, some, List, [], ◌∷◌, ltb, ok, ◌>>=◌,
  >>=-eq-ok, ok_or, ok_or-ok, ok_injective, reject_if-ok, length, arith,
}
use ash.Common.Eq.{ℕ_keys, bytes_keys}
use ash.Common.Map.{Map}
use ash.Common.Words.{
  u64_modulus, checked_add, checked_sub, saturating_add, checked_add-some, checked_sub-some,
}
use ash.Store.ResultStore.{
  StoreLimits, State, PendingContent, invariant, content_too_large, alias_exhausted, StoreLimits,
}
use ash.Store.ResultStore.Contents.{digest}
use ash.Store.ResultStore.Retain.{Checked, check_pending, content_ids, reserved_bytes, place, check}

module _ (hash : List ℕ → List ℕ) (file : ℕ → Option (List ℕ)) where
  pub content_ids-length :
      (pending : List PendingContent) (ids : List (List ℕ))
      → content_ids hash file pending ≡ ok ids
      → length pending ≡ length ids
  unfolding content_ids
  content_ids-length [] ids h = rw (sym (ok_injective h)) refl
  content_ids-length (value ∷ pending) ids h =
      let (id, _, h1) =
        >>=-eq-ok
          (elim (value.content_id) [
            | some id ↦ ok id
            | none ↦ ok_or value.content invariant >>= digest hash file
          ])
          _ h in
      let (rest, e, h2) = >>=-eq-ok (content_ids hash file pending) _ h1 in
      let tail = content_ids-length pending rest e in rw (sym (ok_injective h2)) (omega arith)

  sum-within :
      (bytes after incoming current total max : ℕ)
      → current ≡ bytes + after
      → total ≡ current + incoming
      → ltb max total ≡ false
      → bytes + after + incoming ≤ max
  sum-within bytes after incoming current total max c t h = ground arith

  -- What `check` has found.
  pub record Passed (limits : StoreLimits) (s : State) (pending : List PendingContent) (c : Checked)
      : Type 0 where
    pub first_new : Map (List ℕ) ℕ
    pub reserved : ℕ
    pub digests : content_ids hash file pending ≡ ok c.ids
    pub placed :
        place hash file s pending 0 pending c.ids [] 0 ≡ ok (c.placements, first_new, c.incoming)
    pub reservations : reserved_bytes 0 pending ≡ ok reserved
    pub rest : c.pending_after + reserved ≡ s.pending_bytes
    pub bytes : s.bytes + c.pending_after + c.incoming ≤ limits.max_bytes
    pub bytes_fit : s.bytes + c.pending_after + c.incoming < u64_modulus
    pub entries : length s.by_alias + length first_new ≤ limits.max_entries
    pub aliases : c.next_alias ≡ s.next_alias + length first_new
    pub aliases_fit : s.next_alias + length first_new < u64_modulus

  saturating_add_lem :
      (a b max : ℕ)
      → max + 1 < u64_modulus
      → ltb max (saturating_add u64_modulus a b) ≡ false
      → a + b ≤ max
  unfolding saturating_add
  saturating_add_lem a b max l h = ground arith

  pub check-Passed :
      (limits : StoreLimits) (this : ℕ) (pending : List PendingContent) (s : State) (c : Checked)
      → limits.max_entries + 1 < u64_modulus
      → check hash file limits this pending s ≡ ok c
      → Passed limits s pending c
  unfolding check
  check-Passed limits this pending s c l h =
      let (_, _, h1) = >>=-eq-ok (check_pending this pending) _ h in
      let (ids, e_ids, h2) = >>=-eq-ok (content_ids hash file pending) _ h1 in
      let (_, h3) = reject_if-ok s.poisoned _ _ h2 in
      let (reserved, e_res, h4) = >>=-eq-ok (reserved_bytes 0 pending) _ h3 in
      let (after, e_after, h5) =
        >>=-eq-ok (ok_or (checked_sub s.pending_bytes reserved) invariant) _ h4 in
      let ((placements, first_new, incoming), e_place, h6) =
        >>=-eq-ok (place hash file s pending 0 pending ids [] 0) _ h5 in
      let (current, e_current, h7) =
        >>=-eq-ok (ok_or (checked_add u64_modulus s.bytes after) content_too_large) _ h6 in
      let (total, e_total, h8) =
        >>=-eq-ok (ok_or (checked_add u64_modulus current incoming) content_too_large) _ h7 in
      let (quota, h9) = reject_if-ok (ltb limits.max_bytes total) _ _ h8 in
      let (entries, h10) =
        reject_if-ok
          (ltb limits.max_entries
            (saturating_add u64_modulus (length s.by_alias) (length first_new)))
          _ _ h9 in
      let (next, e_next, h11) =
        >>=-eq-ok (ok_or (checked_add u64_modulus s.next_alias (length first_new)) alias_exhausted)
          _ h10 in
      let (current_eq, _) =
        checked_add-some u64_modulus s.bytes after current (ok_or-ok _ _ e_current) in
      let (total_eq, total_fits) =
        checked_add-some u64_modulus current incoming total (ok_or-ok _ _ e_total) in
      let (next_eq, next_fits) =
        checked_add-some u64_modulus s.next_alias (length first_new) next (ok_or-ok _ _ e_next) in
      let rest = checked_sub-some s.pending_bytes reserved after (ok_or-ok _ _ e_after) in
      let few =
        saturating_add_lem (length s.by_alias) (length first_new) limits.max_entries l entries in
      let p : Passed limits s pending (record {
        placements = placements;
        ids = ids;
        incoming = incoming;
        next_alias = next;
        pending_after = after;
      }) =
        record {
          first_new = first_new;
          reserved = reserved;
          digests = e_ids;
          placed = e_place;
          reservations = e_res;
          rest = rest;
          bytes =
              sum-within s.bytes after incoming current total limits.max_bytes current_eq total_eq
                quota;
          bytes_fit = rw current_eq at total_fits;
          entries = few;
          aliases = next_eq;
          aliases_fit = next_fits;
        } in
      rw (sym (ok_injective h11)) p
