-- ===== src/Protocol/Handshake.antt =====
-- crates/ash-protocol/src/handshake.rs: what a client asks for, what a server answers, and the checks
-- of both.
pub mod Agreement
mod Tests
use ash.Common.{
  ℕ, ◌-◌, ◌^◌, Bool, true, false, not, ◌&&◌, ◌||◌, min, bit_and, List, [], ◌∷◌, ◌==◌, ltb, leb,
  if◌then◌else◌, Result, ok, err, ◌>>◌, ◌>>=◌, reject_if,
}
use ash.Common.Text.{Str, str_len, codes}
use ash.Protocol.Frame.{hard_max_frame_bytes}
use ash.Protocol.Operation.{all_operation_mask}
use ash.Protocol.Approval.Values.{all_capability_mask, unknown_capabilities}

abbrev pub ash_protocol_major : ℕ
ash_protocol_major = 1

abbrev pub ash_protocol_minor : ℕ
ash_protocol_minor = 0

abbrev pub ason_format_major : ℕ
ason_format_major = 1

abbrev pub ason_format_minor : ℕ
ason_format_minor = 0

abbrev pub max_workspace_bytes : ℕ
max_workspace_bytes = 4096

abbrev pub max_nonce_bytes : ℕ
max_nonce_bytes = 128

abbrev pub max_platform_bytes : ℕ
max_platform_bytes = 64

abbrev pub min_session_frame_bytes : ℕ
min_session_frame_bytes = 256

-- `!ALL_OPERATION_MASK`
abbrev pub unknown_operations : ℕ
unknown_operations = 2 ^ 64 - 1 - all_operation_mask

pub record HandshakePreferences : Type 0 where
  pub ash_minor_low : ℕ
  pub ash_minor_high : ℕ
  pub ason_minor_low : ℕ
  pub ason_minor_high : ℕ
  pub max_frame_bytes : ℕ
  pub output_bytes : ℕ
  pub operation_mask : ℕ
  pub capability_mask : ℕ

pub record HandshakeRequest : Type 0 where
  pub request_id : ℕ
  pub ash_major : ℕ
  pub ason_major : ℕ
  pub preferences : HandshakePreferences
  pub workspace : Str
  pub nonce : Str

pub data SchemaError : Type 0 where
  fields : SchemaError
  expected_scalar : Str → SchemaError
  expected_record : Str → SchemaError
  columns : SchemaError
  invalid_unsigned : Str → SchemaError
  unexpected_value : Str → SchemaError
  integer_range : Str → SchemaError
  invalid_range : SchemaError
  invalid_limit : Str → SchemaError
  invalid_text : Str → SchemaError
  unsupported_version : Str → SchemaError
  invalid_server_configuration : SchemaError

-- `text.is_empty() || text.len() > limit`
unfoldable pub is_outside_text : ℕ → Str → Bool
is_outside_text limit text = str_len text == 0 || ltb limit (str_len text)

unfoldable pub is_outside_frame : ℕ → Bool
is_outside_frame bytes = ltb bytes min_session_frame_bytes || ltb hard_max_frame_bytes bytes

-- `HandshakeRequest::validate`
unfoldable pub validate_request : HandshakeRequest → Result (Unit {0}) SchemaError
unfolding is_outside_text is_outside_frame
validate_request request =
    let p = request.preferences in
    do
      reject_if (ltb p.ash_minor_high p.ash_minor_low || ltb p.ason_minor_high p.ason_minor_low)
          invalid_range
      reject_if (is_outside_frame p.max_frame_bytes) (invalid_limit (codes "frm"))
      reject_if (p.output_bytes == 0) (invalid_limit (codes "out"))
      reject_if (is_outside_text max_workspace_bytes request.workspace)
          (invalid_text (codes "root"))
      reject_if (is_outside_text max_nonce_bytes request.nonce) (invalid_text (codes "n"))

unfoldable pub new_request :
    ℕ → Str → Str → HandshakePreferences → Result HandshakeRequest SchemaError
unfolding validate_request
new_request request_id workspace nonce preferences =
    let request : HandshakeRequest = record {
      request_id = request_id;
      ash_major = ash_protocol_major;
      ason_major = ason_format_major;
      preferences = preferences;
      workspace = workspace;
      nonce = nonce;
    } in
    do validate_request request; ok request

pub record ServerHandshake : Type 0 where
  pub max_frame_bytes : ℕ
  pub max_output_bytes : ℕ
  pub operation_mask : ℕ
  pub capability_mask : ℕ
  pub os : Str
  pub arch : Str

pub record HandshakeResponse : Type 0 where
  pub request_id : ℕ
  pub ash_minor : ℕ
  pub ason_minor : ℕ
  pub frame_bytes : ℕ
  pub output_bytes : ℕ
  pub operation_mask : ℕ
  pub capability_mask : ℕ
  pub os : Str
  pub arch : Str
  pub session_id : ℕ
  pub nonce : Str

unfoldable pub valid_platform_name : Str → Bool
valid_platform_name value = not (str_len value == 0) && leb (str_len value) max_platform_bytes

-- `(low..=high).contains(&minor)`
unfoldable pub in_range : ℕ → ℕ → ℕ → Bool
in_range low high minor = leb low minor && leb minor high

unfoldable pub response_of : ServerHandshake → HandshakeRequest → ℕ → HandshakeResponse
response_of server request session_id =
    let p = request.preferences in
    let frame_bytes = min p.max_frame_bytes server.max_frame_bytes in
    record {
      request_id = request.request_id;
      ash_minor = ash_protocol_minor;
      ason_minor = ason_format_minor;
      frame_bytes = frame_bytes;
      output_bytes = min (min p.output_bytes server.max_output_bytes) frame_bytes;
      operation_mask = bit_and (bit_and p.operation_mask server.operation_mask) all_operation_mask;
      capability_mask =
          bit_and (bit_and p.capability_mask server.capability_mask) all_capability_mask;
      os = server.os;
      arch = server.arch;
      session_id = session_id;
      nonce = request.nonce;
    }

unfoldable pub negotiate :
    ServerHandshake → HandshakeRequest → ℕ → Result HandshakeResponse SchemaError
unfolding is_outside_frame valid_platform_name in_range response_of
negotiate server request session_id =
    let p = request.preferences in
    do
      reject_if
          (not (request.ash_major == ash_protocol_major)
            || not (in_range p.ash_minor_low p.ash_minor_high ash_protocol_minor))
          (unsupported_version (codes "ash"))
      reject_if
          (not (request.ason_major == ason_format_major)
            || not (in_range p.ason_minor_low p.ason_minor_high ason_format_minor))
          (unsupported_version (codes "ason"))
      reject_if (is_outside_frame server.max_frame_bytes || server.max_output_bytes == 0)
          invalid_server_configuration
      reject_if
          (not (valid_platform_name server.os)
            || not (valid_platform_name server.arch)
            || session_id == 0)
          invalid_server_configuration
      ok (response_of server request session_id)

-- `HandshakeResponse::validate`
unfoldable pub validate_response : HandshakeResponse → Result (Unit {0}) SchemaError
unfolding is_outside_text is_outside_frame valid_platform_name
validate_response r = do
  reject_if (not (r.ash_minor == ash_protocol_minor)) (unsupported_version (codes "ash"))
  reject_if (not (r.ason_minor == ason_format_minor)) (unsupported_version (codes "ason"))
  reject_if (is_outside_frame r.frame_bytes) (invalid_limit (codes "frm"))
  reject_if (r.output_bytes == 0) (invalid_limit (codes "out"))
  reject_if (not (bit_and r.operation_mask unknown_operations == 0))
      (unexpected_value (codes "ops"))
  reject_if (not (bit_and r.capability_mask unknown_capabilities == 0))
      (unexpected_value (codes "cap"))
  reject_if (not (valid_platform_name r.os)) (invalid_text (codes "os"))
  reject_if (not (valid_platform_name r.arch)) (invalid_text (codes "arch"))
  reject_if (r.session_id == 0) (unexpected_value (codes "sid"))
  reject_if (is_outside_text max_nonce_bytes r.nonce) (invalid_text (codes "n"))
