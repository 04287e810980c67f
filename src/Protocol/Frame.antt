-- ===== src/Protocol/Frame.antt =====
-- crates/ash-protocol/src/frame.rs: length-prefixed frames. The streams are parameters: a reader's
-- `read`, which fills a buffer of a given size in part, and a writer's `write_all`.
use ash.Common.{
  ℕ, zero, suc, ◌*◌, ◌-◌, ◌^◌, Bool, ◌||◌, Option, none, some, List, [], ◌∷◌, ◌++◌, length, ltb,
  ◌==◌, if◌then◌else◌, Result, ok, err, leb,
}
use ash.Common.Bytes.{to_be_bytes, from_be_bytes}
pub mod Stream
pub mod Reading
pub mod RoundTrip
mod Tests

abbrev pub hard_max_frame_bytes : ℕ
hard_max_frame_bytes = 8 * 1024 * 1024

abbrev pub default_max_frame_bytes : ℕ
default_max_frame_bytes = 1024 * 1024

-- Over the type of I/O errors.
pub data FrameError (I : Type 0) : Type 0 where
  invalid_limit : ℕ → ℕ → FrameError I
  zero_length : FrameError I
  payload_too_large : ℕ → ℕ → FrameError I
  truncated_prefix : ℕ → FrameError I
  truncated_payload : ℕ → ℕ → FrameError I
  io : I → FrameError I

pub record FrameCodec : Type 0 where
  pub max_payload : ℕ

abbrev pub default_codec : FrameCodec
default_codec = record { max_payload = default_max_frame_bytes }

unfoldable pub new_codec : {I : Type 0} → ℕ → Result FrameCodec (FrameError I)
new_codec max_payload =
    if max_payload == 0 || ltb hard_max_frame_bytes max_payload
    then err (FrameError.invalid_limit max_payload hard_max_frame_bytes)
    else ok (record { max_payload = max_payload })

-- How a loop that fills a buffer ends: with the buffer full, at the end of the stream, or on an
-- error.
pub data Filled (I : Type 0) : Type 0 where
  full : List ℕ → Filled I
  ended : List ℕ → Filled I
  failed : I → Filled I

module _ {R I : Type 0} (read : R → ℕ → R × Result (List ℕ) I) where
  -- The loop of `read` calls until `want` bytes are there. Every round adds a byte at least, so as
  -- many rounds as there are bytes wanted are enough.
  unfoldable pub fill : ℕ → ℕ → List ℕ → R → R × Filled I
  fill zero want got r = (r, Filled.full got)
  fill (suc fuel) want got r =
      if leb want (length got)
      then (r, Filled.full got)
      else let (r', end) = read r (want - length got) in
        elim end [
          | err e ↦ (r', Filled.failed e)
          | ok [] ↦ (r', Filled.ended got)
          | ok (b ∷ bs) ↦ fill fuel want (got ++ b ∷ bs) r'
        ]

  -- The second half of `read_frame`, for the declared length.
  unfoldable pub read_payload : FrameCodec → ℕ → R → R × Result (Option (List ℕ)) (FrameError I)
  read_payload codec declared r =
      if declared == 0
      then (r, err FrameError.zero_length)
      else if ltb codec.max_payload declared
      then (r, err (FrameError.payload_too_large declared codec.max_payload))
      else let (r', end) = fill declared declared [] r in
        elim end [
          | Filled.failed e ↦ (r', err (FrameError.io e))
          | Filled.ended got ↦ (r', err (FrameError.truncated_payload declared (length got)))
          | Filled.full payload ↦ (r', ok (some payload))
        ]

  unfoldable pub read_frame : FrameCodec → R → R × Result (Option (List ℕ)) (FrameError I)
  read_frame codec r =
      let (r', end) = fill 4 4 [] r in
      elim end [
        | Filled.failed e ↦ (r', err (FrameError.io e))
        | Filled.ended got ↦ (
          r',
          if length got == 0 then ok none else err (FrameError.truncated_prefix (length got)),
        )
        | Filled.full prefix ↦ read_payload codec (from_be_bytes prefix) r'
      ]

module _ {W I : Type 0} (write_all : W → List ℕ → W × Result (Unit {0}) I) where
  abbrev write_io : W × Result (Unit {0}) I → W × Result (Unit {0}) (FrameError I)
  write_io (w, ok u) = (w, ok u)
  write_io (w, err e) = (w, err (FrameError.io e))

  unfoldable pub write_frame : FrameCodec → W → List ℕ → W × Result (Unit {0}) (FrameError I)
  write_frame codec w payload =
      if length payload == 0
      then (w, err FrameError.zero_length)
      else if ltb codec.max_payload (length payload) || leb (2 ^ 32) (length payload)
      then (w, err (FrameError.payload_too_large (length payload) codec.max_payload))
      else let (w', end) = write_all w (to_be_bytes 4 (length payload)) in
        elim end [ err e ↦ (w', err (FrameError.io e)) | ok _ ↦ write_io (write_all w' payload) ]
