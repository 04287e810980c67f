-- ===== src/Protocol/Operation.antt =====
-- crates/ash-protocol/src/operation.rs: operation identifiers and capability bits.
use ash.Common.{
  ℕ, ◌-◌, ◌^◌, Option, none, some, Bool, true, false, ◌==◌, if◌then◌else◌, ◌≡◌, ◌≢◌, ◌↔◌, ◌⊎◌, refl,
  arith, bit_and,
}

pub data Operation : Type 0 where
  exec read list search_text patch fs batch : Operation
  ref_bytes ref_lines ref_search ref_release ref_project ref_materialize : Operation
  snapshot cancel : Operation

unfoldable pub id : Operation → ℕ
id exec = b'x'
id read = b'r'
id list = b'l'
id search_text = b'g'
id patch = b'p'
id fs = b'f'
id batch = b'b'
id ref_bytes = b'/'
id ref_lines = b'#'
id ref_search = b'?'
id ref_release = b'-'
id ref_project = b'|'
id ref_materialize = b'>'
id snapshot = b's'
id cancel = b'k'

pub from_id : ℕ → Option Operation
from_id c =
    if c == b'x'
    then some exec
    else if c == b'r'
    then some read
    else if c == b'l'
    then some list
    else if c == b'g'
    then some search_text
    else if c == b'p'
    then some patch
    else if c == b'f'
    then some fs
    else if c == b'b'
    then some batch
    else if c == b'/'
    then some ref_bytes
    else if c == b'#'
    then some ref_lines
    else if c == b'?'
    then some ref_search
    else if c == b'-'
    then some ref_release
    else if c == b'|'
    then some ref_project
    else if c == b'>'
    then some ref_materialize
    else if c == b's'
    then some snapshot
    else if c == b'k'
    then some cancel
    else none

unfoldable pub mask : Operation → ℕ
mask exec = 2 ^ 0
mask read = 2 ^ 1
mask list = 2 ^ 2
mask search_text = 2 ^ 3
mask patch = 2 ^ 4
mask fs = 2 ^ 5
mask batch = 2 ^ 6
mask ref_bytes = 2 ^ 7
mask ref_lines = 2 ^ 7
mask ref_search = 2 ^ 7
mask ref_release = 2 ^ 7
mask ref_project = 2 ^ 7
mask ref_materialize = 2 ^ 7
mask snapshot = 2 ^ 8
mask cancel = 2 ^ 9

pub is_reference_formula : Operation → Bool
is_reference_formula ref_bytes = true
is_reference_formula ref_lines = true
is_reference_formula ref_search = true
is_reference_formula ref_release = true
is_reference_formula ref_project = true
is_reference_formula ref_materialize = true
is_reference_formula _ = false

abbrev pub all_operation_mask : ℕ
all_operation_mask = 2 ^ 10 - 1

from_id-id : (o : Operation) → from_id (id o) ≡ some o
unfolding from_id id
from_id-id exec = refl
from_id-id _ = refl

id-from_id : (c : ℕ) (o : Operation) → from_id c ≡ some o → id o ≡ c
unfolding from_id id
id-from_id c o h = ground arith

-- A byte decodes to an operation exactly when it is that operation's identifier.
pub from_id_iff : (c : ℕ) (o : Operation) → (from_id c ≡ some o) ↔ (id o ≡ c)
from_id_iff c o = (id-from_id c o, λ e. rw (← e) (from_id-id o))

-- Every operation has a bit, one of the ten that the handshake negotiates.
mask-is_known : (o : Operation) → (bit_and (mask o) all_operation_mask ≡ mask o) × (mask o ≢ 0)
unfolding mask
mask-is_known exec = (refl, λ e. omega arith)
mask-is_known _ = (refl, λ e. omega arith)

-- Two operations have a negotiated bit in common only when they are equal or both work on retained
-- results.
pub mask_shared :
    (a b : Operation)
    → bit_and (mask a) (mask b) ≢ 0
    → (a ≡ b) ⊎ ((is_reference_formula a ≡ true) × (is_reference_formula b ≡ true))
unfolding mask is_reference_formula
mask_shared a b h = ground arith
