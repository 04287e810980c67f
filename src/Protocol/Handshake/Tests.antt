-- ===== src/Protocol/Handshake/Tests.antt =====
-- A client and a server of crates/ash-protocol/src/handshake.rs that agree, and one that asks for an old
-- version.
use ash.Common.{◌≡◌, refl, ◌↔◌, ok, err}
use ash.Common.Text.{codes, utf8}
use ash.Protocol.Frame.{default_max_frame_bytes}
use ash.Protocol.Handshake.{
  HandshakePreferences, HandshakeRequest, unsupported_version, ServerHandshake, HandshakeResponse,
  new_request, validate_request, negotiate,
}
use ash.Protocol.Handshake.Agreement.{IsAgreed, IsCompatible, negotiate-IsAgreed, negotiate_iff}

abbrev small_preferences : HandshakePreferences
small_preferences = record {
  ash_minor_low = 0;
  ash_minor_high = 2;
  ason_minor_low = 0;
  ason_minor_high = 0;
  max_frame_bytes = 4096;
  output_bytes = 65_536;
  operation_mask = 7;
  capability_mask = 31;
}

abbrev hello : HandshakeRequest
hello = record {
  request_id = 1;
  ash_major = 1;
  ason_major = 1;
  preferences = small_preferences;
  workspace = codes "/w";
  nonce = codes "n1";
}

hello_lem : new_request 1 (codes "/w") (codes "n1") small_preferences ≡ ok hello
unfolding new_request utf8
hello_lem = refl

abbrev local_server : ServerHandshake
local_server = record {
  max_frame_bytes = default_max_frame_bytes;
  max_output_bytes = 65_536;
  operation_mask = 5;
  capability_mask = 15;
  os = codes "linux";
  arch = codes "x86_64";
}

abbrev welcome : HandshakeResponse
welcome = record {
  request_id = 1;
  ash_minor = 0;
  ason_minor = 0;
  frame_bytes = 4096;
  output_bytes = 4096;
  operation_mask = 5;
  capability_mask = 15;
  os = codes "linux";
  arch = codes "x86_64";
  session_id = 9;
  nonce = codes "n1";
}

hello_passes : validate_request hello ≡ ok tt
unfolding validate_request utf8
hello_passes = refl

welcome_lem : negotiate local_server hello 9 ≡ ok welcome
unfolding negotiate utf8
welcome_lem = refl

old_version :
    negotiate local_server (record hello { ash_major = 0 }) 9
    ≡ err (unsupported_version (codes "ash"))
unfolding negotiate utf8
old_version = refl

negotiate-IsAgreed_example : IsAgreed local_server hello 9 welcome
negotiate-IsAgreed_example =
    negotiate-IsAgreed local_server hello 9 welcome hello_passes welcome_lem

negotiate_iff_example :
    ((response : HandshakeResponse) × (negotiate local_server hello 9 ≡ ok response))
    ↔ IsCompatible local_server hello 9
negotiate_iff_example = negotiate_iff local_server hello 9
