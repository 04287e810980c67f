-- ===== src/Protocol/Handshake/Agreement.antt =====
-- What a negotiated session is limited to, and that the client accepts the answer.
use ash.Common.{
  ◌↔◌, ◌*◌, ℕ, ◌≤◌, ◌≡◌, refl, false, not, ◌||◌, min, bit_and, ◌==◌, ok, arith, reject_if-ok,
  reject_if-false, reject_if-ok_last, reject_if-false_last,
}
use ash.Common.Text.{str_len}
use ash.Common.Masks.{
  IsWithin, IsWithin-trans, IsWithin-outside, bit_and-IsWithin_left, bit_and-IsWithin_right,
}
use ash.Protocol.Operation.{all_operation_mask}
use ash.Protocol.Approval.Values.{all_capability_mask, unknown_capabilities}
use ash.Protocol.Handshake.{
  unknown_operations, HandshakeRequest, ServerHandshake, HandshakeResponse, is_outside_text,
  is_outside_frame, valid_platform_name, in_range, validate_request, response_of, negotiate,
  validate_response, max_nonce_bytes,
}

-- A mask of what both sides name and the protocol knows.
pub record IsShared (client server protocol granted : ℕ) : Type 0 where
  pub asked : IsWithin granted client
  pub offered : IsWithin granted server
  pub known : IsWithin granted protocol

-- The session keeps to the limits of both sides.
pub record IsAgreed (server : ServerHandshake) (request : HandshakeRequest) (session_id : ℕ)
    (response : HandshakeResponse) : Type 0 where
  pub ash : (request.ash_major ≡ 1) × (request.preferences.ash_minor_low ≡ 0)
  pub ason : (request.ason_major ≡ 1) × (request.preferences.ason_minor_low ≡ 0)
  pub frame :
      (response.frame_bytes ≤ request.preferences.max_frame_bytes)
      × (response.frame_bytes ≤ server.max_frame_bytes)
  pub output :
      (response.output_bytes ≤ request.preferences.output_bytes)
      × (response.output_bytes ≤ server.max_output_bytes)
      × (response.output_bytes ≤ response.frame_bytes)
  pub operations :
      IsShared request.preferences.operation_mask server.operation_mask all_operation_mask
        response.operation_mask
  pub capabilities :
      IsShared request.preferences.capability_mask server.capability_mask all_capability_mask
        response.capability_mask
  pub echo :
      (response.request_id ≡ request.request_id)
      × (response.nonce ≡ request.nonce)
      × (response.session_id ≡ session_id)
  pub accepted : validate_response response ≡ ok tt

shared :
    (asked offered known : ℕ) → IsShared asked offered known (bit_and (bit_and asked offered) known)
shared asked offered known =
    let inner = bit_and-IsWithin_left (bit_and asked offered) known in
    record {
      asked = IsWithin-trans _ _ _ inner (bit_and-IsWithin_left asked offered);
      offered = IsWithin-trans _ _ _ inner (bit_and-IsWithin_right asked offered);
      known = bit_and-IsWithin_right (bit_and asked offered) known;
    }

-- The guards of the three checks, when they are passed.
record Checked (server : ServerHandshake) (request : HandshakeRequest) (session_id : ℕ)
    : Type 0 where
  ash :
      (not (request.ash_major == 1)
        || not (in_range request.preferences.ash_minor_low request.preferences.ash_minor_high 0))
      ≡ false
  ason :
      (not (request.ason_major == 1)
        || not (in_range request.preferences.ason_minor_low request.preferences.ason_minor_high 0))
      ≡ false
  limits : (is_outside_frame server.max_frame_bytes || server.max_output_bytes == 0) ≡ false
  platform :
      (not (valid_platform_name server.os)
        || not (valid_platform_name server.arch)
        || session_id == 0)
      ≡ false

negotiate-Checked :
    (server : ServerHandshake) (request : HandshakeRequest) (session_id : ℕ)
    (response : HandshakeResponse)
    → negotiate server request session_id ≡ ok response
    → Checked server request session_id × (response_of server request session_id ≡ response)
unfolding negotiate
negotiate-Checked server request session_id response h =
    let (ash, h1) = reject_if-ok _ _ _ h in
    let (ason, h2) = reject_if-ok _ _ _ h1 in
    let (limits, h3) = reject_if-ok _ _ _ h2 in
    let (platform, h4) = reject_if-ok _ _ _ h3 in
    (record { ash = ash; ason = ason; limits = limits; platform = platform }, cc)

-- What the checks of a request leave.
record Asked (request : HandshakeRequest) : Type 0 where
  frame : is_outside_frame request.preferences.max_frame_bytes ≡ false
  output : (request.preferences.output_bytes == 0) ≡ false
  nonce : is_outside_text max_nonce_bytes request.nonce ≡ false

validate_request-Asked :
    (request : HandshakeRequest) → validate_request request ≡ ok tt → Asked request
unfolding validate_request
validate_request-Asked request h =
    let (_, h1) = reject_if-ok _ _ _ h in
    let (frame, h2) = reject_if-ok _ _ _ h1 in
    let (output, h3) = reject_if-ok _ _ _ h2 in
    let (_, h4) = reject_if-ok _ _ _ h3 in
    record { frame = frame; output = output; nonce = reject_if-ok_last _ _ h4 }

known_operations :
    (m : ℕ) → IsWithin m all_operation_mask → (not (bit_and m unknown_operations == 0)) ≡ false
known_operations m h =
    let e = IsWithin-outside m all_operation_mask unknown_operations h refl in rw e refl

known_capabilities :
    (m : ℕ) → IsWithin m all_capability_mask → (not (bit_and m unknown_capabilities == 0)) ≡ false
known_capabilities m h =
    let e = IsWithin-outside m all_capability_mask unknown_capabilities h refl in rw e refl

smaller_frame :
    (a b : ℕ)
    → is_outside_frame a ≡ false
    → is_outside_frame b ≡ false
    → is_outside_frame (min a b) ≡ false
unfolding is_outside_frame
smaller_frame a b h k = ground arith

some_output :
    (a b x y : ℕ)
    → is_outside_frame (min a b) ≡ false
    → (x == 0) ≡ false
    → (y == 0) ≡ false
    → (min (min x y) (min a b) == 0) ≡ false
unfolding is_outside_frame
some_output a b x y f h k = ground arith

response_of-accepted :
    (server : ServerHandshake) (request : HandshakeRequest) (session_id : ℕ)
    → Asked request
    → Checked server request session_id
    → validate_response (response_of server request session_id) ≡ ok tt
unfolding validate_response response_of
response_of-accepted server request session_id a c =
    let p = request.preferences in
    let frame =
      smaller_frame p.max_frame_bytes server.max_frame_bytes a.frame (ground (arith, c.limits)) in
    let output =
      some_output p.max_frame_bytes server.max_frame_bytes p.output_bytes server.max_output_bytes
        frame a.output (ground (arith, c.limits)) in
    let ops =
      known_operations _ (shared p.operation_mask server.operation_mask all_operation_mask).known in
    let caps =
      known_capabilities _
        (shared p.capability_mask server.capability_mask all_capability_mask).known in
    let os : (not (valid_platform_name server.os)) ≡ false = ground (arith, c.platform) in
    let arch : (not (valid_platform_name server.arch)) ≡ false = ground (arith, c.platform) in
    let session : (session_id == 0) ≡ false = ground (arith, c.platform) in
    reject_if-false _ _ _ frame (
      reject_if-false _ _ _ output (
        reject_if-false _ _ _ ops (
          reject_if-false _ _ _ caps (
            reject_if-false _ _ _ os (
              reject_if-false _ _ _ arch
                (reject_if-false _ _ _ session (reject_if-false_last _ _ a.nonce)))))))

response_of-IsAgreed :
    (server : ServerHandshake) (request : HandshakeRequest) (session_id : ℕ)
    → Asked request
    → Checked server request session_id
    → IsAgreed server request session_id (response_of server request session_id)
unfolding response_of in_range
response_of-IsAgreed server request session_id a c =
    let p = request.preferences in
    record {
      ash = (ground (arith, c.ash), ground (arith, c.ash));
      ason = (ground (arith, c.ason), ground (arith, c.ason));
      frame = (omega arith, omega arith);
      output = (omega arith, omega arith, omega arith);
      operations = shared p.operation_mask server.operation_mask all_operation_mask;
      capabilities = shared p.capability_mask server.capability_mask all_capability_mask;
      echo = (refl, refl, refl);
      accepted = response_of-accepted server request session_id a c;
    }

-- What a server negotiates for a request that passed its checks: both sides speak version 1.0 of both
-- formats, frames and output keep to the limits of both sides and the output to a frame, the masks hold
-- only what both sides name and the protocol knows, the request and its nonce are echoed, and the
-- client's checks accept the answer.
pub negotiate-IsAgreed :
    (server : ServerHandshake) (request : HandshakeRequest) (session_id : ℕ)
    (response : HandshakeResponse)
    → validate_request request ≡ ok tt
    → negotiate server request session_id ≡ ok response
    → IsAgreed server request session_id response
negotiate-IsAgreed server request session_id response v h =
    let (c, e) = negotiate-Checked server request session_id response h in
    rw e at (response_of-IsAgreed server request session_id (validate_request-Asked request v) c)

-- The configuration of a server and a client that can agree.
pub record IsCompatible (server : ServerHandshake) (request : HandshakeRequest) (session_id : ℕ)
    : Type 0 where
  pub versions : (request.ash_major ≡ 1) × (request.ason_major ≡ 1)
  pub minors : (request.preferences.ash_minor_low ≡ 0) × (request.preferences.ason_minor_low ≡ 0)
  pub frame : (256 ≤ server.max_frame_bytes) × (server.max_frame_bytes ≤ 8 * 1024 * 1024)
  pub output : 1 ≤ server.max_output_bytes
  pub os : (1 ≤ str_len server.os) × (str_len server.os ≤ 64)
  pub arch : (1 ≤ str_len server.arch) × (str_len server.arch ≤ 64)
  pub session : 1 ≤ session_id

Checked-IsCompatible :
    (server : ServerHandshake) (request : HandshakeRequest) (session_id : ℕ)
    → Checked server request session_id
    → IsCompatible server request session_id
unfolding in_range is_outside_frame valid_platform_name
Checked-IsCompatible server request session_id c = record {
  versions = (ground (arith, c.ash), ground (arith, c.ason));
  minors = (ground (arith, c.ash), ground (arith, c.ason));
  frame = (ground (arith, c.limits), ground (arith, c.limits));
  output = ground (arith, c.limits);
  os = (ground (arith, c.platform), ground (arith, c.platform));
  arch = (ground (arith, c.platform), ground (arith, c.platform));
  session = ground (arith, c.platform);
}

IsCompatible-Checked :
    (server : ServerHandshake) (request : HandshakeRequest) (session_id : ℕ)
    → IsCompatible server request session_id
    → Checked server request session_id
unfolding in_range is_outside_frame valid_platform_name
IsCompatible-Checked server request session_id i = record {
  ash = ground (arith, i.versions, i.minors);
  ason = ground (arith, i.versions, i.minors);
  limits = ground (arith, i.frame, i.output);
  platform = ground (arith, i.os, i.arch, i.session);
}

-- Negotiation succeeds exactly when the request allows version 1.0 of both formats and the server's
-- limits, platform names and session identifier are within the bounds of the protocol.
pub negotiate_iff :
    (server : ServerHandshake) (request : HandshakeRequest) (session_id : ℕ)
    → ((response : HandshakeResponse) × (negotiate server request session_id ≡ ok response))
      ↔ IsCompatible server request session_id
unfolding negotiate
negotiate_iff server request session_id = (
  λ (response, h).
      Checked-IsCompatible server request session_id
        (negotiate-Checked server request session_id response h).0,
  λ i.
      let c = IsCompatible-Checked server request session_id i in
      (
        response_of server request session_id,
        reject_if-false _ _ _ c.ash (
            reject_if-false _ _ _ c.ason
              (reject_if-false _ _ _ c.limits (reject_if-false _ _ _ c.platform refl))),
      ),
)
