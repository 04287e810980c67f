-- ===== src/Protocol/Frame/Reading.antt =====
-- What `read_frame` reads from a stream, as a function of the bytes that are to come.
use ash.Common.{
  ℕ, ◌≤◌, ◌<◌, ◌≡◌, refl, sym, Option, none, some, List, [], ◌∷◌, length, ltb, ◌==◌, if◌then◌else◌,
  Result, ok, err, take, drop, arith, Bool-cases, inl, inr,
}
use ash.Common.Bytes.{from_be_bytes}
use ash.Protocol.Frame.{FrameError, FrameCodec, Filled, fill, read_payload, read_frame}
use ash.Protocol.Frame.Stream.{IsReader, fill-Reaches}

-- The bytes that stay in the stream, and the frame.
unfoldable pub payload_of :
    {I : Type 0} → FrameCodec → ℕ → List ℕ → List ℕ × Result (Option (List ℕ)) (FrameError I)
payload_of codec declared s =
    if declared == 0
    then (s, err FrameError.zero_length)
    else if ltb codec.max_payload declared
    then (s, err (FrameError.payload_too_large declared codec.max_payload))
    else if ltb (length s) declared
    then ([], err (FrameError.truncated_payload declared (length s)))
    else (drop declared s, ok (some (take declared s)))

unfoldable pub frame_of :
    {I : Type 0} → FrameCodec → List ℕ → List ℕ × Result (Option (List ℕ)) (FrameError I)
unfolding payload_of
frame_of codec [] = ([], ok none)
frame_of codec (b ∷ bs) =
    if ltb (length (b ∷ bs)) 4
    then ([], err (FrameError.truncated_prefix (length (b ∷ bs))))
    else payload_of codec (from_be_bytes (take 4 (b ∷ bs))) (drop 4 (b ∷ bs))

pub frame_of_long :
    {I : Type 0} (codec : FrameCodec) (s : List ℕ)
    → 4 ≤ length s
    → frame_of {I = I} codec s ≡ payload_of codec (from_be_bytes (take 4 s)) (drop 4 s)
unfolding frame_of
frame_of_long codec [] h = absurd (omega arith)
frame_of_long codec (b ∷ bs) h = ground arith

frame_of_short :
    {I : Type 0} (codec : FrameCodec) (s : List ℕ)
    → length s < 4
    → frame_of {I = I} codec s
      ≡ ([], if length s == 0 then ok none else err (FrameError.truncated_prefix (length s)))
unfolding frame_of
frame_of_short codec [] h = refl
frame_of_short codec (b ∷ bs) h = ground arith

-- The bytes that are left in a stream, and the result.
abbrev pub observe :
    {R I : Type 0}
    → (R → List ℕ)
    → R × Result (Option (List ℕ)) (FrameError I)
    → List ℕ × Result (Option (List ℕ)) (FrameError I)
observe contents (r, out) = (contents r, out)

module _ {R I : Type 0} (read : R → ℕ → R × Result (List ℕ) I) (contents : R → List ℕ)
    (reader : IsReader read contents) where
  -- The read of a payload whose declared length is allowed.
  abbrev fill_payload : ℕ → R → R × Result (Option (List ℕ)) (FrameError I)
  fill_payload declared r =
      let (r', end) = fill read declared declared [] r in
      elim end [
        | Filled.failed e ↦ (r', err (FrameError.io e))
        | Filled.ended got ↦ (r', err (FrameError.truncated_payload declared (length got)))
        | Filled.full payload ↦ (r', ok (some payload))
      ]

  fill_payload_lem :
      (declared : ℕ) (r : R)
      → observe contents (fill_payload declared r) ≡ (
          if ltb (length (contents r)) declared
          then ([], err (FrameError.truncated_payload declared (length (contents r))))
          else (drop declared (contents r), ok (some (take declared (contents r)))))
  fill_payload_lem declared r =
      let (long, short) =
        fill-Reaches read contents reader declared declared [] r (omega arith) (omega arith) in
      elim (Bool-cases (ltb (length (contents r)) declared)) [
        | inl e ↦
            let (end, rest) = short (ground arith) in rw (end, fill_payload) (rw (rest, e) refl)
        | inr e ↦
            let (end, rest) = long (ground arith) in rw (end, fill_payload) (rw (rest, e) refl)
      ]

  read_payload-payload_of :
      (codec : FrameCodec) (declared : ℕ) (r : R)
      → observe contents (read_payload read codec declared r)
        ≡ payload_of codec declared (contents r)
  unfolding read_payload payload_of
  read_payload-payload_of codec declared r = elim (Bool-cases (declared == 0)) [
    | inl z ↦ rw z refl
    | inr z ↦ elim (Bool-cases (ltb codec.max_payload declared)) [
      | inl m ↦ rw (z, m) refl
      | inr m ↦ rw (z, m) (fill_payload_lem declared r)
    ]
  ]

  -- Over any stream that delivers its bytes in order, in pieces of any size, `read_frame` returns
  -- what `frame_of` computes from the bytes to come, and leaves in the stream what it leaves.
  pub read_frame-frame_of :
      (codec : FrameCodec) (r : R)
      → observe contents (read_frame read codec r) ≡ frame_of codec (contents r)
  unfolding read_frame frame_of
  read_frame-frame_of codec r =
      let (long, short) = fill-Reaches read contents reader 4 4 [] r (omega arith) (omega arith) in
      elim (Bool-cases (ltb (length (contents r)) 4)) [
        | inl e ↦
            let (end, rest) = short (ground arith) in
            rw (end, read_frame) (rw (rest, frame_of_short codec (contents r) (ground arith)) refl)
        | inr e ↦
            let (end, rest) = long (ground arith) in
            rw (end, read_frame)
              (rw (frame_of_long codec (contents r) (ground arith), sym rest)
                (read_payload-payload_of codec (from_be_bytes (take 4 (contents r)))
                  (fill read 4 4 [] r).0))
      ]
