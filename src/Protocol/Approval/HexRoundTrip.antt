-- ===== src/Protocol/Approval/HexRoundTrip.antt =====
-- Hexadecimal text and bytes determine one another, so a token has one accepted spelling.
use ash.Common.{
  ℕ, ◌+◌, ◌-◌, ◌*◌, ◌/◌, ◌%◌, ◌<◌, ◌≡◌, refl, sym, List, [], ◌∷◌, length, ltb, if◌then◌else◌, ok,
  >>=-eq-ok, ok_or, arith, ◌↔◌, All,
}
use ash.Common.Bytes.{IsArray, IsByte, agree_below, agree_below→eq, low_nibble}
use ash.Protocol.Approval.Values.{token}
use ash.Protocol.Approval.Hex.{
  hex_digit, encode_hex, hex_nibble, join_nibbles, decode_pairs, decode_hex_array,
}

hex_digit_lem : (i : ℕ) → i < 16 → hex_digit i ≡ (if ltb i 10 then i + 48 else i + 87)
unfolding hex_digit agree_below
hex_digit_lem = agree_below→eq hex_digit (λ i. if ltb i 10 then i + 48 else i + 87) 16 refl

hex_nibble-hex_digit : (i : ℕ) → i < 16 → hex_nibble (hex_digit i) ≡ ok i
unfolding hex_nibble
hex_nibble-hex_digit i h = rw (hex_digit_lem i h) (ground arith)

hex_digit-hex_nibble : (c v : ℕ) → hex_nibble c ≡ ok v → (hex_digit v ≡ c) × (v < 16)
unfolding hex_nibble
hex_digit-hex_nibble c v h = ground (arith, hex_digit_lem v)

decode_pairs-encode_hex : (bs : List ℕ) → All IsByte bs → decode_pairs (encode_hex bs) ≡ ok bs
unfolding decode_pairs encode_hex join_nibbles
decode_pairs-encode_hex [] h = refl
decode_pairs-encode_hex (b ∷ bs) (hb, hbs) =
    rw (low_nibble b hb, hex_nibble-hex_digit (b / 16) (omega arith))
      (rw (hex_nibble-hex_digit (b % 16) (omega arith), decode_pairs-encode_hex bs hbs)
        (ground arith))

length-encode_hex : (bs : List ℕ) → length (encode_hex bs) ≡ length bs * 2
unfolding encode_hex
length-encode_hex [] = refl
length-encode_hex (b ∷ bs) = omega (arith, length-encode_hex bs)

pub decode_hex_array-encode_hex :
    (n : ℕ) (bs : List ℕ) → IsArray n bs → decode_hex_array n (encode_hex bs) ≡ ok bs
unfolding decode_hex_array
decode_hex_array-encode_hex n bs h =
    ground (arith, length-encode_hex bs, decode_pairs-encode_hex bs h.1)

join_value : (high low b : ℕ) → ok_or (join_nibbles high low) token ≡ ok b → b ≡ high * 16 + low
unfolding join_nibbles
join_value high low b h = ground arith

decode_hex_array_inv :
    (n : ℕ) (s bs : List ℕ)
    → decode_hex_array n s ≡ ok bs
    → (length s ≡ n * 2) × (decode_pairs s ≡ ok bs)
unfolding decode_hex_array
decode_hex_array_inv n s bs h = ground arith

-- What a successful round of the loop has read.
decode_pair :
    (c d : ℕ) (rest bs : List ℕ)
    → decode_pairs (c ∷ d ∷ rest) ≡ ok bs
    → (high low : ℕ) × (tail : List ℕ) × (hex_nibble c ≡ ok high)
      × (hex_nibble d ≡ ok low)
      × (decode_pairs rest ≡ ok tail)
      × (bs ≡ (high * 16 + low) ∷ tail)
unfolding decode_pairs
decode_pair c d rest bs h =
    let (high, eh, h1) = >>=-eq-ok (hex_nibble c) _ h in
    let (low, el, h2) = >>=-eq-ok (hex_nibble d) _ h1 in
    let (b, eb, h3) = >>=-eq-ok (ok_or (join_nibbles high low) token) _ h2 in
    let (tail, et, h4) = >>=-eq-ok (decode_pairs rest) _ h3 in
    let value : b ≡ high * 16 + low = join_value high low b eb in
    (high, low, tail, eh, el, et, cc (value, h4))

encode_hex-decode_pairs :
    (n : ℕ) (s bs : List ℕ)
    → length s ≡ n * 2
    → decode_pairs s ≡ ok bs
    → (encode_hex bs ≡ s) × IsArray n bs
unfolding decode_pairs encode_hex
encode_hex-decode_pairs n [] [] l h = (refl, (omega arith, tt))
encode_hex-decode_pairs n [] (b ∷ bs) l h = cc
encode_hex-decode_pairs n (c ∷ []) bs l h = absurd (omega arith)
encode_hex-decode_pairs n (c ∷ d ∷ rest) bs l h =
    let (high, low, tail, eh, el, et, e) = decode_pair c d rest bs h in
    let (dc, hl) = hex_digit-hex_nibble c high eh in
    let (dd, ll) = hex_digit-hex_nibble d low el in
    let (en, array) = encode_hex-decode_pairs (n - 1) rest tail (omega arith) et in
    let high_part : (high * 16 + low) / 16 ≡ high = omega arith in
    let low_part : (high * 16 + low) % 16 ≡ low = omega arith in
    rw e (
      rw (low_nibble (high * 16 + low) (omega arith), high_part, low_part) (cc (dc, dd, en)),
      (omega (arith, array.0), (omega arith, array.1)),
    )

-- Decoding a text to an array of n bytes returns a list exactly when that list is an array of n bytes
-- and the text is its lowercase hexadecimal encoding.
pub decode_hex_array_iff :
    (n : ℕ) (s bs : List ℕ) → (decode_hex_array n s ≡ ok bs) ↔ (IsArray n bs × (s ≡ encode_hex bs))
decode_hex_array_iff n s bs = (
  λ h.
      let (len, pairs) = decode_hex_array_inv n s bs h in
      let (en, array) = encode_hex-decode_pairs n s bs len pairs in (array, sym en),
  λ (array, e). rw e (decode_hex_array-encode_hex n bs array),
)
