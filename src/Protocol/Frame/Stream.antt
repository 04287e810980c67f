-- ===== src/Protocol/Frame/Stream.antt =====
-- Frames over any stream that delivers its bytes in order, in pieces of any size.
use ash.Common.{
  ℕ, zero, suc, ◌+◌, ◌-◌, ◌≤◌, ◌<◌, ◌≡◌, refl, sym, ap, ◌∙◌, List, [], ◌∷◌, ◌++◌, length, Result,
  ok, leb, take, drop, length-append, take-append, drop-append, append_assoc, arith, append-nil,
  Bool-cases, inl, inr,
}
use mathlib.Core.Path.{subst}
use ash.Protocol.Frame.{Filled, fill}

-- What `AsyncRead` documents: a call returns the next bytes of the stream, at most as many as the
-- buffer holds; it returns none only at the end.
pub record IsReader {R I : Type 0} (read : R → ℕ → R × Result (List ℕ) I) (contents : R → List ℕ)
    : Type 0 where
  pub bytes : R → ℕ → List ℕ
  pub succeeds : (r : R) (n : ℕ) → (read r n).1 ≡ ok (bytes r n)
  pub delivers : (r : R) (n : ℕ) → bytes r n ++ contents (read r n).0 ≡ contents r
  pub fits : (r : R) (n : ℕ) → length (bytes r n) ≤ n
  pub ends : (r : R) (n : ℕ) → 0 < n → bytes r n ≡ [] → contents r ≡ []

-- What `write_all` documents: the bytes are appended to the stream.
pub record IsWriter {W I : Type 0} (write_all : W → List ℕ → W × Result (Unit {0}) I)
    (written : W → List ℕ) : Type 0 where
  pub succeeds : (w : W) (bs : List ℕ) → (write_all w bs).1 ≡ ok tt
  pub appends : (w : W) (bs : List ℕ) → written (write_all w bs).0 ≡ written w ++ bs

module _ {R I : Type 0} (read : R → ℕ → R × Result (List ℕ) I) (contents : R → List ℕ)
    (reader : IsReader read contents) where
  -- A loop with enough rounds for a stream `s`, of which it has a part: the buffer holds the front of
  -- the stream, or the stream ends before it is full.
  abbrev pub Reaches : ℕ → List ℕ → R × Filled I → Type 0
  Reaches want s (r, end) =
      (want ≤ length s → (end ≡ Filled.full (take want s)) × (contents r ≡ drop want s))
      × (length s < want → (end ≡ Filled.ended s) × (contents r ≡ []))

  full-Reaches :
      (want : ℕ) (got : List ℕ) (r : R)
      → length got ≡ want
      → Reaches want (got ++ contents r) (r, Filled.full got)
  full-Reaches want got r h = (
    λ _. (
      ap (λ bs. Filled.full bs) (sym (take-append want got (contents r) h)),
      sym (drop-append want got (contents r) h),
    ),
    λ l. absurd (omega (arith, length-append got (contents r))),
  )

  ended-Reaches :
      (want : ℕ) (got : List ℕ) (r r' : R)
      → length got < want
      → contents r ≡ []
      → contents r' ≡ contents r
      → Reaches want (got ++ contents r) (r', Filled.ended got)
  ended-Reaches want got r r' h e same = (
    λ l. absurd (omega (arith, length-append got (contents r), ap (λ (bs : List ℕ). length bs) e)),
    λ _. (ap (λ bs. Filled.ended bs) (sym (ap (λ bs. got ++ bs) e ∙ append-nil got)), same ∙ e),
  )

  -- One call of `read` in the loop, by what it delivers.
  fill_round :
      (fuel want : ℕ) (got : List ℕ) (r : R) (bs : List ℕ)
      → ((got' : List ℕ) (r' : R)
          → length got' ≤ want
          → want ≤ length got' + fuel
          → Reaches want (got' ++ contents r') (fill read fuel want got' r'))
      → length got < want
      → want ≤ length got + suc fuel
      → reader.bytes r (want - length got) ≡ bs
      → Reaches want (got ++ contents r) (elim bs [
        | [] ↦ ((read r (want - length got)).0, Filled.ended got)
        | b ∷ bs' ↦ fill read fuel want (got ++ b ∷ bs') (read r (want - length got)).0
      ])
  fill_round fuel want got r [] rest h f e =
      ended-Reaches want got r (read r (want - length got)).0 h
        (reader.ends r (want - length got) (omega arith) e)
        (ap (λ front. front ++ contents (read r (want - length got)).0) (sym e)
          ∙ reader.delivers r (want - length got))
  fill_round fuel want got r (b ∷ bs) rest h f e =
      let r' = (read r (want - length got)).0 in
      let same : (got ++ b ∷ bs) ++ contents r' ≡ got ++ contents r =
        append_assoc got (b ∷ bs) (contents r')
        ∙ ap (λ tail. got ++ tail)
            (ap (λ front. front ++ contents r') (sym e) ∙ reader.delivers r (want - length got)) in
      let size : length (got ++ b ∷ bs) ≤ want = omega (
        arith,
        length-append got (b ∷ bs),
        reader.fits r (want - length got),
        ap (λ (xs : List ℕ). length xs) e,
      ) in
      subst (λ s. Reaches want s (fill read fuel want (got ++ b ∷ bs) r')) same
        (rest (got ++ b ∷ bs) r' size (omega (arith, length-append got (b ∷ bs))))

  -- The loop ends with the buffer full, or at the end of the stream, after as many rounds as there are
  -- bytes wanted.
  pub fill-Reaches :
      (fuel want : ℕ) (got : List ℕ) (r : R)
      → length got ≤ want
      → want ≤ length got + fuel
      → Reaches want (got ++ contents r) (fill read fuel want got r)
  unfolding fill
  fill-Reaches zero want got r h f = full-Reaches want got r (omega arith)
  fill-Reaches (suc fuel) want got r h f = elim (Bool-cases (leb want (length got))) [
    | inl e ↦ rw e (full-Reaches want got r (ground arith))
    | inr e ↦ rw e (
        rw (reader.succeeds r (want - length got)) (
          fill_round fuel want got r (reader.bytes r (want - length got)) (fill-Reaches fuel want)
            (ground arith) f refl))
  ]
