-- ===== src/Shell/Glob/Denotation.antt =====
-- What a pattern means, without states: a text matches if it is cut into one piece for each token.
use ash.Common.{ℕ, ◌≡◌, refl, ap, ◌∙◌, ◌↔◌, ◌⊎◌, inl, inr, Bool, true, List, [], ◌∷◌, ◌++◌}
use ash.Shell.Glob.Pattern.{PatternToken, literal, any_one, any_sequence, class, token_matches}

-- The pieces that a token accepts: any, or one unit that it matches.
abbrev pub Piece : PatternToken → List ℕ → Type 0
Piece any_sequence piece = Unit {0}
Piece (literal u) piece = (c : ℕ) × (piece ≡ c ∷ []) × (token_matches (literal u) c ≡ true)
Piece any_one piece = (c : ℕ) × (piece ≡ c ∷ [])
Piece (class negated ranges) piece =
    (c : ℕ) × (piece ≡ c ∷ []) × (token_matches (class negated ranges) c ≡ true)

abbrev pub Matches : List PatternToken → List ℕ → Type 0
Matches [] text = text ≡ []
Matches (t ∷ pattern) text =
    (front : List ℕ) × (back : List ℕ) × (text ≡ front ++ back)
    × Piece t front
    × Matches pattern back

module _ (P : List ℕ → Type 0) where
  -- Some end of a text has the property, or the text behind one matching unit has it.
  abbrev pub BehindAny : List ℕ → Type 0
  BehindAny text = (front : List ℕ) × (back : List ℕ) × (text ≡ front ++ back) × P back

  abbrev pub BehindOne : PatternToken → List ℕ → Type 0
  BehindOne t [] = ⊥
  BehindOne t (c ∷ text) = (token_matches t c ≡ true) × P text

  pub BehindAny-cons :
      (c : ℕ) (text : List ℕ) → BehindAny (c ∷ text) ↔ (P (c ∷ text) ⊎ BehindAny text)
  BehindAny-cons c text = (forward, backward)
    where
      forward : BehindAny (c ∷ text) → P (c ∷ text) ⊎ BehindAny text
      forward ([], back, e, p) = inl (rw e p)
      forward (d ∷ front, back, e, p) = inr (front, back, (cc), p)

      backward : P (c ∷ text) ⊎ BehindAny text → BehindAny (c ∷ text)
      backward (inl p) = ([], c ∷ text, refl, p)
      backward (inr (front, back, e, p)) = (c ∷ front, back, ap (λ t. c ∷ t) e, p)

  pub BehindAny-nil : BehindAny [] ↔ P []
  BehindAny-nil = (forward, λ p. ([], [], refl, p))
    where
      forward : BehindAny [] → P []
      forward ([], back, e, p) = rw e p
      forward (d ∷ front, back, e, p) = cc

-- A token that is no sequence.
abbrev pub IsSingle : PatternToken → Type 0
IsSingle t =
    ((c : ℕ) → token_matches t c ≡ true → Piece t (c ∷ []))
    × ((piece : List ℕ) → Piece t piece → (c : ℕ) × (piece ≡ c ∷ []) × (token_matches t c ≡ true))

pub literal-IsSingle : (u : ℕ) → IsSingle (literal u)
literal-IsSingle u = (λ c m. (c, refl, m), λ piece p. p)

pub any_one-IsSingle : IsSingle any_one
unfolding token_matches
any_one-IsSingle = (λ c m. (c, refl), λ piece p. (p.0, p.1, refl))

pub class-IsSingle : (negated : Bool) (ranges : List (ℕ × ℕ)) → IsSingle (class negated ranges)
class-IsSingle negated ranges = (λ c m. (c, refl, m), λ piece p. p)

cut_first :
    (c d : ℕ) (text front back : List ℕ)
    → c ∷ text ≡ front ++ back
    → front ≡ d ∷ []
    → (c ≡ d) × (text ≡ back)
cut_first c d text front back e f =
    let g : c ∷ text ≡ d ∷ back = e ∙ ap (λ x. x ++ back) f in (cc g, cc g)

no_piece : (d : ℕ) (front back : List ℕ) → [] ≡ front ++ back → front ≡ d ∷ [] → ⊥
no_piece d front back e f = let g : [] ≡ d ∷ back = e ∙ ap (λ x. x ++ back) f in cc g

-- A text that matches behind a single token begins with a unit that the token matches.
pub Matches-single :
    (t : PatternToken) (pattern : List PatternToken) (text : List ℕ)
    → IsSingle t
    → Matches (t ∷ pattern) text ↔ BehindOne (Matches pattern) t text
Matches-single t pattern [] (build, take) = (forward, λ h. absurd h)
  where
    forward : Matches (t ∷ pattern) [] → ⊥
    forward (front, back, e, piece, m) =
        let (d, f, ok) = take front piece in no_piece d front back e f
Matches-single t pattern (c ∷ text) (build, take) =
    (forward, λ (m, rest). (c ∷ [], text, refl, build c m, rest))
  where
    forward : Matches (t ∷ pattern) (c ∷ text) → BehindOne (Matches pattern) t (c ∷ text)
    forward (front, back, e, piece, m) =
        let (d, f, ok) = take front piece in
        let (same, tail) = cut_first c d text front back e f in
        (ap (λ x. token_matches t x) same ∙ ok, rw tail m)
