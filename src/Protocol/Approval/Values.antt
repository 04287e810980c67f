-- ===== src/Protocol/Approval/Values.antt =====
-- crates/ash-protocol/src/capability.rs: the capability bits, the sizes and the errors.
use ash.Common.{ℕ, ◌+◌, ◌-◌, ◌^◌}
use Prim.Native.String.{String}

pub data Capability : Type 0 where
  workspace_read workspace_write host_process retained_result : Capability

unfoldable pub mask : Capability → ℕ
mask workspace_read = 2 ^ 0
mask workspace_write = 2 ^ 1
mask host_process = 2 ^ 2
mask retained_result = 2 ^ 3

abbrev pub all_capability_mask : ℕ
all_capability_mask = 2 ^ 4 - 1

-- `!ALL_CAPABILITY_MASK` on a u64.
abbrev pub unknown_capabilities : ℕ
unknown_capabilities = 2 ^ 64 - 1 - all_capability_mask

abbrev pub approval_challenge_version : ℕ
approval_challenge_version = 1

abbrev pub approval_signing_bytes : ℕ
approval_signing_bytes = 105

abbrev pub approval_token_bytes : ℕ
approval_token_bytes = 16 + 32

pub data ApprovalValueError : Type 0 where
  fields version capability digest token : ApprovalValueError
  unsigned : String → ApprovalValueError
