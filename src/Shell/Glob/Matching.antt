-- ===== src/Shell/Glob/Matching.antt =====
-- The states of `matches_component` decide what the pattern means.
use ash.Common.{
  ℕ, suc, ◌+◌, ◌≡◌, refl, sym, ap, ◌∙◌, ◌↔◌, ◌⊎◌, inl, inr, Bool, true, false, not, ◌&&◌, ◌||◌,
  List, [], ◌∷◌, length, replicate, length-replicate, get_or, ◌==◌, ==_iff, foldl, arith,
  Bool-cases,
}
use ash.Shell.Glob.Pattern.{
  PatternToken, literal, any_one, any_sequence, class, token_matches, spread, advance, next_states,
  is_hidden, matches_component,
}
use ash.Shell.Glob.Denotation.{
  Matches, BehindAny, BehindOne, BehindAny-cons, BehindAny-nil, IsSingle, Matches-single,
  literal-IsSingle, any_one-IsSingle, class-IsSingle,
}

-- Some state is reached whose rest of the candidate has the property. There is one state more than
-- there are units.
abbrev Live : (List ℕ → Type 0) → List Bool → List ℕ → Type 0
Live P [] text = ⊥
Live P (s ∷ states) [] = (s ≡ true) × P []
Live P (s ∷ states) (c ∷ text) = ((s ≡ true) × P (c ∷ text)) ⊎ Live P states text

Live-map :
    (P Q : List ℕ → Type 0) (states : List Bool) (text : List ℕ)
    → ((rest : List ℕ) → P rest → Q rest)
    → Live P states text
    → Live Q states text
Live-map P Q [] text f h = h
Live-map P Q (s ∷ states) [] f (e, p) = (e, f [] p)
Live-map P Q (s ∷ states) (c ∷ text) f (inl (e, p)) = inl (e, f (c ∷ text) p)
Live-map P Q (s ∷ states) (c ∷ text) f (inr h) = inr (Live-map P Q states text f h)

and_parts : (a b : Bool) → (a && b) ≡ true → (a ≡ true) × (b ≡ true)
and_parts a b h = ground arith

-- A single token moves every state behind a unit that it matches.
Live-advance :
    (P : List ℕ → Type 0) (t : PatternToken) (b : Bool) (states : List Bool) (text : List ℕ)
    → length states ≡ length text + 1
    → Live P (b ∷ advance t states text) text
      ↔ (((b ≡ true) × P text) ⊎ Live (BehindOne P t) states text)
unfolding advance
Live-advance P t b [] text n = absurd (omega arith)
Live-advance P t b (s ∷ states) [] n = (λ (e, p). inl (e, p), back)
  where
    back : ((b ≡ true) × P []) ⊎ ((s ≡ true) × ⊥) → (b ≡ true) × P []
    back (inl h) = h
    back (inr (e, h)) = absurd h
Live-advance P t b (s ∷ states) (c ∷ text) n =
    let (rest0, rest1) = Live-advance P t (s && token_matches t c) states text (omega arith) in
    (forward rest0, backward rest1)
  where
    forward :
        (Live P ((s && token_matches t c) ∷ advance t states text) text
          → (((s && token_matches t c) ≡ true) × P text) ⊎ Live (BehindOne P t) states text)
        → ((b ≡ true) × P (c ∷ text))
          ⊎ Live P ((s && token_matches t c) ∷ advance t states text) text
        → ((b ≡ true) × P (c ∷ text))
          ⊎ (((s ≡ true) × BehindOne P t (c ∷ text)) ⊎ Live (BehindOne P t) states text)
    forward rest (inl h) = inl h
    forward rest (inr h) = elim (rest h) [
      | inl (e, p) ↦ let (es, et) = and_parts s (token_matches t c) e in inr (inl (es, (et, p)))
      | inr l ↦ inr (inr l)
    ]

    backward :
        (((((s && token_matches t c) ≡ true) × P text) ⊎ Live (BehindOne P t) states text)
          → Live P ((s && token_matches t c) ∷ advance t states text) text)
        → ((b ≡ true) × P (c ∷ text))
          ⊎ (((s ≡ true) × BehindOne P t (c ∷ text)) ⊎ Live (BehindOne P t) states text)
        → ((b ≡ true) × P (c ∷ text))
          ⊎ Live P ((s && token_matches t c) ∷ advance t states text) text
    backward rest (inl h) = inl h
    backward rest (inr (inl (es, (et, p)))) = inr (rest (inl (rw (es, et) refl, p)))
    backward rest (inr (inr l)) = inr (rest (inr l))

or_cases : (a b : Bool) → (a || b) ≡ true → (a ≡ true) ⊎ (b ≡ true)
or_cases true b h = inl refl
or_cases false b h = inr h

or_left : (a b : Bool) → a ≡ true → (a || b) ≡ true
or_left a b h = rw h refl

or_right : (a b : Bool) → b ≡ true → (a || b) ≡ true
or_right true b h = refl
or_right false b h = h

-- A sequence makes every state behind a reached one reached.
Live-spread :
    (P : List ℕ → Type 0) (b : Bool) (states : List Bool) (text : List ℕ)
    → length states ≡ length text + 1
    → Live P (spread b states) text
      ↔ (((b ≡ true) × BehindAny P text) ⊎ Live (BehindAny P) states text)
unfolding spread
Live-spread P b [] text n = absurd (omega arith)
Live-spread P b (s ∷ states) [] n = (forward, backward)
  where
    nil : BehindAny P [] ↔ P []
    nil = BehindAny-nil P

    forward :
        ((b || s) ≡ true) × P [] → ((b ≡ true) × BehindAny P []) ⊎ ((s ≡ true) × BehindAny P [])
    forward (e, p) = elim (or_cases b s e) [
      | inl eb ↦ inl (eb, nil.1 p)
      | inr es ↦ inr (es, nil.1 p)
    ]

    backward :
        ((b ≡ true) × BehindAny P []) ⊎ ((s ≡ true) × BehindAny P []) → ((b || s) ≡ true) × P []
    backward (inl (e, p)) = (or_left b s e, nil.0 p)
    backward (inr (e, p)) = (or_right b s e, nil.0 p)
Live-spread P b (s ∷ states) (c ∷ text) n =
    let (rest0, rest1) = Live-spread P (b || s) states text (omega arith) in
    (forward rest0, backward rest1)
  where
    cons : BehindAny P (c ∷ text) ↔ (P (c ∷ text) ⊎ BehindAny P text)
    cons = BehindAny-cons P c text

    place :
        ((b || s) ≡ true)
        → BehindAny P (c ∷ text)
        → ((b ≡ true) × BehindAny P (c ∷ text))
          ⊎ (((s ≡ true) × BehindAny P (c ∷ text)) ⊎ Live (BehindAny P) states text)
    place e p = elim (or_cases b s e) [ inl eb ↦ inl (eb, p) | inr es ↦ inr (inl (es, p)) ]

    forward :
        (Live P (spread (b || s) states) text
          → (((b || s) ≡ true) × BehindAny P text) ⊎ Live (BehindAny P) states text)
        → (((b || s) ≡ true) × P (c ∷ text)) ⊎ Live P (spread (b || s) states) text
        → ((b ≡ true) × BehindAny P (c ∷ text))
          ⊎ (((s ≡ true) × BehindAny P (c ∷ text)) ⊎ Live (BehindAny P) states text)
    forward rest (inl (e, p)) = place e (cons.1 (inl p))
    forward rest (inr h) = elim (rest h) [
      | inl (e, p) ↦ place e (cons.1 (inr p))
      | inr l ↦ inr (inr l)
    ]

    reach :
        (((((b || s) ≡ true) × BehindAny P text) ⊎ Live (BehindAny P) states text)
          → Live P (spread (b || s) states) text)
        → ((b || s) ≡ true)
        → BehindAny P (c ∷ text)
        → (((b || s) ≡ true) × P (c ∷ text)) ⊎ Live P (spread (b || s) states) text
    reach rest e p = elim (cons.0 p) [
      | inl here ↦ inl (e, here)
      | inr later ↦ inr (rest (inl (e, later)))
    ]

    backward :
        (((((b || s) ≡ true) × BehindAny P text) ⊎ Live (BehindAny P) states text)
          → Live P (spread (b || s) states) text)
        → ((b ≡ true) × BehindAny P (c ∷ text))
          ⊎ (((s ≡ true) × BehindAny P (c ∷ text)) ⊎ Live (BehindAny P) states text)
        → (((b || s) ≡ true) × P (c ∷ text)) ⊎ Live P (spread (b || s) states) text
    backward rest (inl (e, p)) = reach rest (or_left b s e) p
    backward rest (inr (inl (e, p))) = reach rest (or_right b s e) p
    backward rest (inr (inr l)) = inr (rest (inr l))

length-advance :
    (t : PatternToken) (states : List Bool) (text : List ℕ)
    → length states ≡ length text + 1
    → length (advance t states text) ≡ length text
unfolding advance
length-advance t states [] n = refl
length-advance t [] (c ∷ text) n = absurd (omega arith)
length-advance t (s ∷ states) (c ∷ text) n =
    omega (arith, length-advance t states text (omega arith))

length-spread : (b : Bool) (states : List Bool) → length (spread b states) ≡ length states
unfolding spread
length-spread b [] = refl
length-spread b (s ∷ states) = ap suc (length-spread (b || s) states)

length-next_states :
    (text : List ℕ) (states : List Bool) (t : PatternToken)
    → length states ≡ length text + 1
    → length (next_states text states t) ≡ length text + 1
unfolding next_states
length-next_states text states any_sequence n = omega (arith, length-spread false states)
length-next_states text states (literal u) n =
    omega (arith, length-advance (literal u) states text n)
length-next_states text states any_one n = omega (arith, length-advance any_one states text n)
length-next_states text states (class negated ranges) n =
    omega (arith, length-advance (class negated ranges) states text n)

module _ (pattern : List PatternToken) where
  Live-single :
      (t : PatternToken) (states : List Bool) (text : List ℕ)
      → IsSingle t
      → length states ≡ length text + 1
      → Live (Matches pattern) (false ∷ advance t states text) text
        ↔ Live (Matches (t ∷ pattern)) states text
  Live-single t states text single n = (forward, backward)
    where
      moved : Live (Matches pattern) (false ∷ advance t states text) text ↔ (
          ((false ≡ true) × Matches pattern text)
          ⊎ Live (BehindOne (Matches pattern) t) states text)
      moved = Live-advance (Matches pattern) t false states text n

      forward :
          Live (Matches pattern) (false ∷ advance t states text) text
          → Live (Matches (t ∷ pattern)) states text
      forward h = elim (moved.0 h) [
        | inl (e, m) ↦ cc
        | inr l ↦
            Live-map (BehindOne (Matches pattern) t) (Matches (t ∷ pattern)) states text
              (λ rest. (Matches-single t pattern rest single).1) l
      ]

      backward :
          Live (Matches (t ∷ pattern)) states text
          → Live (Matches pattern) (false ∷ advance t states text) text
      backward h = moved.1 (
          inr (
            Live-map (Matches (t ∷ pattern)) (BehindOne (Matches pattern) t) states text
              (λ rest. (Matches-single t pattern rest single).0) h))

  Live-sequence :
      (states : List Bool) (text : List ℕ)
      → length states ≡ length text + 1
      → Live (Matches pattern) (spread false states) text
        ↔ Live (Matches (any_sequence ∷ pattern)) states text
  Live-sequence states text n = (forward, backward)
    where
      moved : Live (Matches pattern) (spread false states) text ↔ (
          ((false ≡ true) × BehindAny (Matches pattern) text)
          ⊎ Live (BehindAny (Matches pattern)) states text)
      moved = Live-spread (Matches pattern) false states text n

      forward :
          Live (Matches pattern) (spread false states) text
          → Live (Matches (any_sequence ∷ pattern)) states text
      forward h = elim (moved.0 h) [
        | inl (e, m) ↦ cc
        | inr l ↦
            Live-map (BehindAny (Matches pattern)) (Matches (any_sequence ∷ pattern)) states text
              (λ rest (front, back, e, m). (front, back, e, tt, m)) l
      ]

      backward :
          Live (Matches (any_sequence ∷ pattern)) states text
          → Live (Matches pattern) (spread false states) text
      backward h = moved.1 (
          inr (
            Live-map (Matches (any_sequence ∷ pattern)) (BehindAny (Matches pattern)) states text
              (λ rest (front, back, e, u, m). (front, back, e, m)) h))

  -- One round of the loop over the tokens.
  Live-next_states :
      (t : PatternToken) (states : List Bool) (text : List ℕ)
      → length states ≡ length text + 1
      → Live (Matches pattern) (next_states text states t) text
        ↔ Live (Matches (t ∷ pattern)) states text
  unfolding next_states
  Live-next_states any_sequence states text n = Live-sequence states text n
  Live-next_states (literal u) states text n =
      Live-single (literal u) states text (literal-IsSingle u) n
  Live-next_states any_one states text n = Live-single any_one states text any_one-IsSingle n
  Live-next_states (class negated ranges) states text n =
      Live-single (class negated ranges) states text (class-IsSingle negated ranges) n

-- At the end the last state says whether the whole candidate has been taken.
Live-end :
    (states : List Bool) (text : List ℕ)
    → length states ≡ length text + 1
    → (get_or states (length text) false ≡ true) ↔ Live (Matches []) states text
Live-end [] text n = absurd (omega arith)
Live-end (s ∷ states) [] n = (λ e. (e, refl), λ (e, m). e)
Live-end (s ∷ states) (c ∷ text) n =
    let (forward, backward) = Live-end states text (omega arith) in
    (λ e. inr (forward e), settle backward)
  where
    settle :
        (Live (Matches []) states text → get_or states (length text) false ≡ true)
        → ((s ≡ true) × (c ∷ text ≡ [])) ⊎ Live (Matches []) states text
        → get_or states (length text) false ≡ true
    settle backward (inl (e, m)) = cc
    settle backward (inr l) = backward l

states-Live :
    (pattern : List PatternToken) (states : List Bool) (text : List ℕ)
    → length states ≡ length text + 1
    → (get_or (foldl (next_states text) states pattern) (length text) false ≡ true)
      ↔ Live (Matches pattern) states text
states-Live [] states text n = Live-end states text n
states-Live (t ∷ pattern) states text n =
    let (f, g) =
      states-Live pattern (next_states text states t) text (length-next_states text states t n) in
    let (h, k) = Live-next_states pattern t states text n in (λ e. h (f e), λ l. g (k l))

-- At the start only the first state is reached.
none-Live :
    (P : List ℕ → Type 0) (text : List ℕ) → ¬ Live P (false ∷ replicate (length text) false) text
none-Live P [] (e, p) = cc
none-Live P (c ∷ text) (inl (e, p)) = cc
none-Live P (c ∷ text) (inr h) = none-Live P text h

first-Live :
    (P : List ℕ → Type 0) (text : List ℕ)
    → Live P (true ∷ replicate (length text) false) text ↔ P text
first-Live P [] = (λ (e, p). p, λ p. (refl, p))
first-Live P (c ∷ text) = (forward, λ p. inl (refl, p))
  where
    forward :
        ((true ≡ true) × P (c ∷ text)) ⊎ Live P (false ∷ replicate (length text) false) text
        → P (c ∷ text)
    forward (inl (e, p)) = p
    forward (inr h) = absurd (none-Live P text h)

-- A pattern shows a text unless the text begins with a dot and the pattern not with that dot.
abbrev pub Shows : List PatternToken → List ℕ → Type 0
Shows pattern text =
    (rest : List ℕ)
    → text ≡ b'.' ∷ rest
    → (tail : List PatternToken) × (pattern ≡ literal b'.' ∷ tail)

head_dot : (c : ℕ) (text rest : List ℕ) → c ∷ text ≡ b'.' ∷ rest → c ≡ b'.'
head_dot c text rest e = cc

-- A pattern that does not begin with the dot.
Shows-undotted :
    (pattern : List PatternToken) (c : ℕ) (text : List ℕ)
    → ((tail : List PatternToken) → ¬ (pattern ≡ literal b'.' ∷ tail))
    → ((c == b'.') ≡ false) ↔ Shows pattern (c ∷ text)
Shows-undotted pattern c text differs = (forward, backward)
  where
    forward : (c == b'.') ≡ false → Shows pattern (c ∷ text)
    forward e rest d = let same = head_dot c text rest d in absurd (ground arith)

    backward : Shows pattern (c ∷ text) → (c == b'.') ≡ false
    backward shows = elim (Bool-cases (c == b'.')) [
      | inl e ↦
          let (tail, d) = shows text (ap (λ x. x ∷ text) ((==_iff c b'.').0 e)) in
          absurd (differs tail d)
      | inr e ↦ e
    ]

Shows-dotted :
    (u : ℕ) (pattern : List PatternToken) (text : List ℕ)
    → u ≡ b'.'
    → Shows (literal u ∷ pattern) text
Shows-dotted u pattern text e rest d = (pattern, ap (λ x. literal x ∷ pattern) e)

undotted :
    (u : ℕ) (pattern tail : List PatternToken)
    → (u == b'.') ≡ false
    → ¬ (literal u ∷ pattern ≡ literal b'.' ∷ tail)
undotted u pattern tail e d = let same : u ≡ b'.' = cc in absurd (ground arith)

and_true : (a b : Bool) → b ≡ true → (a && b) ≡ a
and_true a b h = ground arith

and_false : (a b : Bool) → b ≡ false → (a && b) ≡ false
and_false a b h = ground arith

is_hidden-Shows :
    (pattern : List PatternToken) (text : List ℕ)
    → (is_hidden pattern text ≡ false) ↔ Shows pattern text
unfolding is_hidden
is_hidden-Shows pattern [] = (λ e rest d. absurd (cc), λ shows. refl)
is_hidden-Shows [] (c ∷ text) = Shows-undotted [] c text (λ tail e. cc)
is_hidden-Shows (literal u ∷ pattern) (c ∷ text) = elim (Bool-cases (u == b'.')) [
  | inl e ↦ (
    λ h. Shows-dotted u pattern (c ∷ text) ((==_iff u b'.').0 e),
    λ shows. and_false (c == b'.') (not (u == b'.')) (ground arith),
  )
  | inr e ↦
      let (f, g) =
        Shows-undotted (literal u ∷ pattern) c text (λ tail. undotted u pattern tail e) in
      let same = and_true (c == b'.') (not (u == b'.')) (ground arith) in
      (λ h. f (sym same ∙ h), λ shows. same ∙ g shows)
]
is_hidden-Shows (any_one ∷ pattern) (c ∷ text) =
    Shows-undotted (any_one ∷ pattern) c text (λ tail e. cc)
is_hidden-Shows (any_sequence ∷ pattern) (c ∷ text) =
    Shows-undotted (any_sequence ∷ pattern) c text (λ tail e. cc)
is_hidden-Shows (class negated ranges ∷ pattern) (c ∷ text) =
    Shows-undotted (class negated ranges ∷ pattern) c text (λ tail e. cc)

-- The matcher accepts a name exactly when the pattern shows it (a leading dot is matched by a literal
-- dot only) and the name can be cut into one piece for each token: any piece for a sequence, one unit
-- that it matches for another token.
pub matches_component_iff :
    (pattern : List PatternToken) (text : List ℕ)
    → (matches_component pattern text ≡ true) ↔ (Shows pattern text × Matches pattern text)
unfolding matches_component
matches_component_iff pattern text =
    let (f, g) =
      states-Live pattern (true ∷ replicate (length text) false) text
        (omega (arith, length-replicate (length text) false)) in
    let (h, k) = first-Live (Matches pattern) text in
    let (shown, shows) = is_hidden-Shows pattern text in
    elim (Bool-cases (is_hidden pattern text)) [
      | inl e ↦ (rw e (λ d. absurd (cc)), λ (s, m). absurd (true_false (sym e ∙ shows s)))
      | inr e ↦ rw e (λ d. (shown e, h (f d)), λ (s, m). g (k m))
    ]
  where
    true_false : ¬ (true ≡ false)
    true_false p = cc
