-- ===== src/Protocol/Frame/Tests.antt =====
-- Streams in memory: a reader that delivers two bytes at a time at most, and a writer that appends.
use ash.Common.{
  ℕ, ◌<◌, ◌≡◌, refl, ap, some, List, [], ◌∷◌, ◌++◌, length, take, drop, min, arith, Result, ok, err,
  take-append-drop, length-take,
}
use ash.Protocol.Frame.{FrameError, FrameCodec, fill, read_frame, write_frame}
use ash.Protocol.Frame.Stream.{IsReader, IsWriter}
use ash.Protocol.Frame.Reading.{frame_of, observe, read_frame-frame_of}
use ash.Protocol.Frame.RoundTrip.{Fits, read_frame-write_frame}

abbrev read_two : List ℕ → ℕ → List ℕ × Result (List ℕ) ℕ
read_two r n = (drop (min 2 n) r, ok (take (min 2 n) r))

abbrev whole : List ℕ → List ℕ
whole r = r

read_two-IsReader : IsReader read_two whole
read_two-IsReader = record {
  bytes = λ r n. take (min 2 n) r;
  succeeds = λ r n. refl;
  delivers = λ r n. take-append-drop (min 2 n) r;
  fits = λ r n. omega (arith, length-take (min 2 n) r);
  ends = λ r n pos e. nothing r n pos e;
}
  where
    nothing : (r : List ℕ) (n : ℕ) → 0 < n → take (min 2 n) r ≡ [] → r ≡ []
    nothing [] n pos e = refl
    nothing (b ∷ r) n pos e =
        absurd (omega (arith, length-take (min 2 n) (b ∷ r), ap (λ (bs : List ℕ). length bs) e))

abbrev append : List ℕ → List ℕ → List ℕ × Result (Unit {0}) ℕ
append w bs = (w ++ bs, ok tt)

append-IsWriter : IsWriter append whole
append-IsWriter = record { succeeds = λ w bs. refl; appends = λ w bs. refl }

abbrev codec : FrameCodec
codec = record { max_payload = 64 }

-- A prefix that ends after two bytes.
truncated : read_frame read_two codec (0 ∷ 0 ∷ []) ≡ ([], err (FrameError.truncated_prefix 2))
unfolding read_frame fill
truncated = refl

read_frame-frame_of_example :
    observe whole (read_frame read_two codec (0 ∷ 0 ∷ 0 ∷ 3 ∷ 7 ∷ 8 ∷ 9 ∷ 1 ∷ []))
    ≡ frame_of codec (0 ∷ 0 ∷ 0 ∷ 3 ∷ 7 ∷ 8 ∷ 9 ∷ 1 ∷ [])
read_frame-frame_of_example =
    read_frame-frame_of read_two whole read_two-IsReader codec (0 ∷ 0 ∷ 0 ∷ 3 ∷ 7 ∷ 8 ∷ 9 ∷ 1 ∷ [])

abbrev payload : List ℕ
payload = 7 ∷ 8 ∷ 9 ∷ []

payload-Fits : Fits codec payload
payload-Fits = record { hard = omega arith; some_byte = omega arith; allowed = omega arith }

read_frame-write_frame_example :
    ((write_frame append codec [] payload).1 ≡ ok tt)
    × (observe whole (read_frame read_two codec ((write_frame append codec [] payload).0 ++ 5 ∷ []))
        ≡ (5 ∷ [], ok (some payload)))
read_frame-write_frame_example =
    read_frame-write_frame append whole read_two whole codec []
      ((write_frame append codec [] payload).0 ++ 5 ∷ []) payload (5 ∷ []) append-IsWriter
      read_two-IsReader payload-Fits refl refl
