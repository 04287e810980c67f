-- ===== src/Store/ResultStore.antt =====
-- crates/ash-store/src/result_store.rs: retained results under aliases, with quotas. The hash is
-- blake3's; what a read of a spool file gives is a parameter, `none` for an I/O error.
pub mod Contents
pub mod Retain
pub mod Retaining
pub mod Assigning
pub mod Aliases
pub mod Checks
pub mod Contract
pub mod Invariant
pub mod Steps
pub mod Runs
pub mod Sample
mod Tests
use ash.Common.{
  ℕ, zero, suc, ◌+◌, ◌-◌, ◌*◌, ◌≤◌, min, Bool, true, false, not, ◌&&◌, ◌||◌, Option, none, some,
  List, [], ◌∷◌, ◌++◌, ◌==◌, ltb, leb, if◌then◌else◌, Result, ok, err, ◌>>=◌, ◌>>◌, ok_or,
  reject_if, length, get_elem?, map,
}
use ash.Common.Eq.{ℕ_keys, bytes_keys}
use ash.Common.Map.{Map, get, insert, remove}
use ash.Common.Words.{u64_modulus, checked_add, checked_sub, saturating_add}

pub record StoreLimits : Type 0 where
  pub max_bytes : ℕ
  pub max_entries : ℕ

-- A spool file is a number.
pub data Storage : Type 0 where
  memory : List ℕ → Storage
  disk : ℕ → Storage

pub record Content : Type 0 where
  pub length : ℕ
  pub storage : Storage

-- `leases` are the clones of the content's `Arc` outside of the store.
pub record Entry : Type 0 where
  pub content_id : List ℕ
  pub content : Content
  pub leases : ℕ

-- The state behind the mutex, with the mutex's flag.
pub record State : Type 0 where
  pub next_alias : ℕ
  pub bytes : ℕ
  pub pending_bytes : ℕ
  pub by_alias : Map ℕ Entry
  pub by_content : Map (List ℕ) ℕ
  pub poisoned : Bool

pub data StoreError : Type 0 where
  invalid_limits : StoreError
  content_too_large : StoreError
  byte_quota : ℕ → ℕ → ℕ → StoreError
  entry_quota : ℕ → StoreError
  alias_exhausted : StoreError
  unknown_alias : ℕ → StoreError
  in_use : ℕ → StoreError
  reservation_mismatch : StoreError
  read_limit : ℕ → ℕ → StoreError
  io : StoreError
  digest_collision : StoreError
  poisoned : StoreError
  invariant : StoreError

-- `store` says to which store a reservation belongs.
pub record StoreReservation : Type 0 where
  pub store : ℕ
  pub bytes : ℕ

pub record PendingContent : Type 0 where
  pub content_id : Option (List ℕ)
  pub content : Option Content
  pub reservation : Option StoreReservation

abbrev pub empty_state : State
empty_state = record {
  next_alias = 1;
  bytes = 0;
  pending_bytes = 0;
  by_alias = [];
  by_content = [];
  poisoned = false;
}

-- `ResultStore::new`, once the spool directory has been made or not.
unfoldable pub new : Result (Unit {0}) StoreError → StoreLimits → Result State StoreError
new spool limits = do
  reject_if (limits.max_bytes == 0 || limits.max_entries == 0) invalid_limits
  spool
  ok empty_state

abbrev pub lock : State → Result (Unit {0}) StoreError
lock s = reject_if s.poisoned StoreError.poisoned

-- `StoreReservation::reserve_u64`
unfoldable pub reserve :
    StoreLimits → StoreReservation → ℕ → State → Result (StoreReservation × State) StoreError
unfolding checked_add
reserve limits r incoming s = if incoming == 0 then ok (r, s) else do
  reservation_total ← ok_or (checked_add u64_modulus r.bytes incoming) content_too_large
  lock s
  current ← ok_or (checked_add u64_modulus s.bytes s.pending_bytes) content_too_large
  total ← ok_or (checked_add u64_modulus current incoming) content_too_large
  reject_if (ltb limits.max_bytes total) (byte_quota current incoming limits.max_bytes)
  pending ← ok_or (checked_add u64_modulus s.pending_bytes incoming) invariant
  ok (record r { bytes = reservation_total }, record s { pending_bytes = pending })

-- The drop of a reservation.
unfoldable pub drop_reservation : StoreReservation → State → State
drop_reservation r s =
    if r.bytes == 0 || s.poisoned then s else record s { pending_bytes = s.pending_bytes - r.bytes }

-- `ResultStore::get`: one more lease. `drop_lease` is the drop of one.
unfoldable pub get_lease : ℕ → State → State × Result Content StoreError
get_lease alias s =
    if s.poisoned then (s, err StoreError.poisoned) else elim (get s.by_alias alias) [
      | none ↦ (s, err (unknown_alias alias))
      | some entry ↦ (
        record s {
          by_alias = insert s.by_alias alias (record entry { leases = entry.leases + 1 });
        },
        ok entry.content,
      )
    ]

unfoldable pub drop_lease : ℕ → State → State
drop_lease alias s = elim (get s.by_alias alias) [
  | none ↦ s
  | some entry ↦ record s {
    by_alias = insert s.by_alias alias (record entry { leases = entry.leases - 1 });
  }
]

unfoldable pub content_id_of : ℕ → State → Result (List ℕ) StoreError
content_id_of alias s = do
  lock s
  entry ← ok_or (get s.by_alias alias) (unknown_alias alias)
  ok entry.content_id

-- `ResultStore::release`; the count of the `Arc` is one more than the leases.
unfoldable pub release : ℕ → State → State × Result (Unit {0}) StoreError
unfolding checked_sub
release alias s = if s.poisoned then (s, err StoreError.poisoned) else elim (get s.by_alias alias) [
  | none ↦ (s, err (unknown_alias alias))
  | some entry ↦
      if not (entry.leases == 0)
      then (s, err (in_use alias))
      else let s' : State = record s {
        by_alias = remove s.by_alias alias;
        by_content = remove s.by_content entry.content_id;
      } in
        elim (checked_sub s.bytes entry.content.length) [
          | none ↦ (s', err invariant)
          | some bytes ↦ (record s' { bytes = bytes }, ok tt)
        ]
]
