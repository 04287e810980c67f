-- ===== src/Protocol/Tests.antt =====
-- The theorems on operation identifiers at concrete inputs.
use ash.Common.{arith, bit_and, ◌≢◌, ◌≡◌, ◌↔◌, ◌⊎◌, some, true}
use ash.Protocol.Operation.{
  Operation, id, from_id, mask, is_reference_formula, from_id_iff, mask_shared,
}

from_id_iff_example : (from_id b'k' ≡ some Operation.cancel) ↔ (id Operation.cancel ≡ b'k')
from_id_iff_example = from_id_iff b'k' Operation.cancel

mask_shared_example :
    (Operation.ref_bytes ≡ Operation.ref_lines)
    ⊎ ((is_reference_formula Operation.ref_bytes ≡ true)
        × (is_reference_formula Operation.ref_lines ≡ true))
unfolding mask
mask_shared_example = mask_shared Operation.ref_bytes Operation.ref_lines shared
  where
    shared : bit_and (mask Operation.ref_bytes) (mask Operation.ref_lines) ≢ 0
    shared e = omega arith
