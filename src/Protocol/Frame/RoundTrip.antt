-- ===== src/Protocol/Frame/RoundTrip.antt =====
-- A frame that is written is read back.
use ash.Common.{
  ℕ, ◌^◌, ◌≤◌, ◌<◌, ◌≡◌, refl, ap, ◌∙◌, false, ◌||◌, some, List, [], ◌++◌, length, ltb, ◌==◌,
  Result, ok, leb, length-append, take-append, drop-append, append_assoc, arith,
}
use ash.Common.Bytes.{to_be_bytes, length-to_be_bytes, from_be_bytes-to_be_bytes}
use ash.Protocol.Frame.{FrameCodec, read_frame, write_frame, hard_max_frame_bytes}
use ash.Protocol.Frame.Stream.{IsReader, IsWriter}
use ash.Protocol.Frame.Reading.{payload_of, frame_of, frame_of_long, observe, read_frame-frame_of}

-- The bytes of a frame.
abbrev pub frame_bytes : List ℕ → List ℕ
frame_bytes payload = to_be_bytes 4 (length payload) ++ payload

-- What a codec accepts, for the limits that `FrameCodec::new` admits.
pub record Fits (codec : FrameCodec) (payload : List ℕ) : Type 0 where
  pub hard : codec.max_payload ≤ hard_max_frame_bytes
  pub some_byte : 0 < length payload
  pub allowed : length payload ≤ codec.max_payload

payload_of-append :
    {I : Type 0} (codec : FrameCodec) (payload rest : List ℕ)
    → Fits codec payload
    → payload_of {I = I} codec (length payload) (payload ++ rest) ≡ (rest, ok (some payload))
unfolding payload_of
payload_of-append codec payload rest fits =
    rw
      (
        take-append (length payload) payload rest refl,
        drop-append (length payload) payload rest refl,
      )
      (ground (arith, fits.hard, fits.some_byte, fits.allowed, length-append payload rest))

frame_of-frame_bytes :
    {I : Type 0} (codec : FrameCodec) (payload rest : List ℕ)
    → Fits codec payload
    → frame_of {I = I} codec (frame_bytes payload ++ rest) ≡ (rest, ok (some payload))
frame_of-frame_bytes {I = I} codec payload rest fits =
    let prefix = to_be_bytes 4 (length payload) in
    let four : length prefix ≡ 4 = length-to_be_bytes 4 (length payload) in
    rw
      (
        append_assoc prefix payload rest,
        frame_of_long {I = I} codec (prefix ++ (payload ++ rest))
            (omega (arith, length-append prefix (payload ++ rest))),
        take-append 4 prefix (payload ++ rest) four,
        drop-append 4 prefix (payload ++ rest) four,
        from_be_bytes-to_be_bytes 4 (length payload) (omega (arith, fits.hard, fits.allowed)),
      )
      (payload_of-append codec payload rest fits)

module _ {W I : Type 0} (write_all : W → List ℕ → W × Result (Unit {0}) I) (written : W → List ℕ)
    (writer : IsWriter write_all written) where
  write_frame_writes :
      (codec : FrameCodec) (w : W) (payload : List ℕ)
      → Fits codec payload
      → write_frame write_all codec w payload
        ≡ ((write_all (write_all w (to_be_bytes 4 (length payload))).0 payload).0, ok tt)
  unfolding write_frame
  write_frame_writes codec w payload fits =
      let prefix = to_be_bytes 4 (length payload) in
      let nonempty : (length payload == 0) ≡ false = ground arith in
      let small : (ltb codec.max_payload (length payload) || leb (2 ^ 32) (length payload))
          ≡ false =
        ground arith in
      rw (nonempty, small, writer.succeeds w prefix)
        (rw (writer.succeeds (write_all w prefix).0 payload) refl)

  -- A payload that fits is written as one frame behind what the stream has.
  pub write_frame_lem :
      (codec : FrameCodec) (w : W) (payload : List ℕ)
      → Fits codec payload
      → ((write_frame write_all codec w payload).1 ≡ ok tt)
        × (written (write_frame write_all codec w payload).0 ≡ written w ++ frame_bytes payload)
  write_frame_lem codec w payload fits =
      let prefix = to_be_bytes 4 (length payload) in
      rw (write_frame_writes codec w payload fits) (
        refl,
        writer.appends (write_all w prefix).0 payload
            ∙ ap (λ front. front ++ payload) (writer.appends w prefix)
            ∙ append_assoc (written w) prefix payload,
      )

-- What `write_frame` writes for a payload within the limit of a valid codec, any reader of the same
-- bytes gives back with `read_frame`, whatever the pieces in which it delivers them, and leaves what
-- follows the frame.
pub read_frame-write_frame :
    {W R I J : Type 0} (write_all : W → List ℕ → W × Result (Unit {0}) I) (written : W → List ℕ)
    (read : R → ℕ → R × Result (List ℕ) J) (contents : R → List ℕ) (codec : FrameCodec) (w : W)
    (r : R) (payload rest : List ℕ)
    → IsWriter write_all written
    → IsReader read contents
    → Fits codec payload
    → written w ≡ []
    → contents r ≡ written (write_frame write_all codec w payload).0 ++ rest
    → ((write_frame write_all codec w payload).1 ≡ ok tt)
      × (observe contents (read_frame read codec r) ≡ (rest, ok (some payload)))
read_frame-write_frame write_all written read contents codec w r payload rest writer reader fits
      fresh sent =
    let (done, bytes) = write_frame_lem write_all written writer codec w payload fits in
    let sent_frame : contents r ≡ frame_bytes payload ++ rest =
      sent ∙ ap (λ bs. bs ++ rest) (bytes ∙ ap (λ bs. bs ++ frame_bytes payload) fresh) in
    (
      done,
      read_frame-frame_of read contents reader codec r
          ∙ ap (λ s. frame_of codec s) sent_frame
          ∙ frame_of-frame_bytes codec payload rest fits,
    )
