-- ===== src/Shell/Glob/Pattern.antt =====
-- crates/ash-shell/src/glob.rs: the compiler of a component's pattern, and the matcher. A component
-- is a list of native units (the bytes of a name on Unix), each with the flag that says whether it is
-- active, that is, unquoted.
use Prim.Native.String.{String}
use ash.Common.{
  ℕ, zero, suc, Bool, true, false, not, ◌&&◌, ◌||◌, Option, none, some, List, [], ◌∷◌, length,
  replicate, get_or, foldl, ltb, leb, ◌==◌, if◌then◌else◌, Result, ok, err, ◌>>=◌,
}

pub data PatternToken : Type 0 where
  literal : ℕ → PatternToken
  any_one any_sequence : PatternToken
  class : Bool → List (ℕ × ℕ) → PatternToken

unfoldable pub in_ranges : List (ℕ × ℕ) → ℕ → Bool
in_ranges [] c = false
in_ranges ((low, high) ∷ ranges) c = (leb low c && leb c high) || in_ranges ranges c

-- `PatternToken::matches`, which is not called on a sequence.
unfoldable pub token_matches : PatternToken → ℕ → Bool
unfolding in_ranges
token_matches (literal u) c = u == c
token_matches any_one c = true
token_matches any_sequence c = false
token_matches (class negated ranges) c =
    if negated then not (in_ranges ranges c) else in_ranges ranges c

-- A unit with its flag.
abbrev pub Cell : Type 0
Cell = ℕ × Bool

abbrev pub is_active : ℕ → Cell → Bool
is_active u (v, active) = active && v == u

abbrev pub unterminated : String
unterminated = "pathname pattern contains an unterminated '[' class"

abbrev pub empty_class : String
empty_class = "pathname pattern contains an empty character class"

abbrev pub descending : String
descending = "pathname pattern contains a descending character range"

-- The content of a class up to its first active ']', and what follows it.
unfoldable pub split_closing : List Cell → Option (List Cell × List Cell)
split_closing [] = none
split_closing (c ∷ cells) =
    if is_active b']' c then some ([], cells) else elim (split_closing cells) [
      | none ↦ none
      | some (content, rest) ↦ some (c ∷ content, rest)
    ]

unfoldable pub class_ranges : List Cell → Result (List (ℕ × ℕ)) String
class_ranges [] = ok []
class_ranges ((u, a) ∷ []) = ok ((u, u) ∷ [])
class_ranges ((u, a) ∷ (v, b) ∷ []) = ok ((u, u) ∷ (v, v) ∷ [])
class_ranges ((u, a) ∷ (v, b) ∷ (w, c) ∷ rest) = elim (is_active b'-' (v, b)) [
  | true ↦ elim (ltb w u) [
    | true ↦ err descending
    | false ↦ do ranges ← class_ranges rest; ok ((u, w) ∷ ranges)
  ]
  | false ↦ do ranges ← class_ranges ((v, b) ∷ (w, c) ∷ rest); ok ((u, u) ∷ ranges)
]

-- The class from its content, with the cells behind it.
unfoldable pub close_class : Bool → List Cell → Result (PatternToken × List Cell) String
close_class negated cells = elim (split_closing cells) [
  | none ↦ err unterminated
  | some ([], rest) ↦ err empty_class
  | some (c ∷ content, rest) ↦ do
    ranges ← class_ranges (c ∷ content)
    ok (class negated ranges, rest)
]

-- `compile_class`, on the cells behind the '['.
unfoldable pub compile_class : List Cell → Result (PatternToken × List Cell) String
compile_class [] = close_class false []
compile_class (c ∷ cells) = elim (is_active b'!' c || is_active b'^' c) [
  | true ↦ close_class true cells
  | false ↦ close_class false (c ∷ cells)
]

-- What a cell begins.
pub data Lead : Type 0 where
  star one open_class plain : Lead

unfoldable pub lead : Cell → Lead
lead c =
    if is_active b'*' c
    then star
    else if is_active b'?' c
    then one
    else if is_active b'[' c
    then open_class
    else plain

-- `tokens.last()` is a sequence iff `after_star`, so that a second star in a row adds no token.
abbrev pub push_star : Bool → List PatternToken → List PatternToken
push_star after_star tokens = if after_star then tokens else any_sequence ∷ tokens

-- The branches of the loop body; `next` is the loop on what follows.
unfoldable pub compile_lead :
    Lead
    → (Bool → List Cell → Result (List PatternToken × Bool) String)
    → Bool
    → Cell
    → List Cell
    → Result (List PatternToken × Bool) String
compile_lead star next after_star c cells = do
  (tokens, has) ← next true cells
  ok (push_star after_star tokens, true)
compile_lead one next after_star c cells = do
  (tokens, has) ← next false cells
  ok (any_one ∷ tokens, true)
compile_lead open_class next after_star c cells = do
  (token, rest) ← compile_class cells
  (tokens, has) ← next false rest
  ok (token ∷ tokens, true)
compile_lead plain next after_star c cells = do
  (tokens, has) ← next false cells
  ok (literal c.0 ∷ tokens, has)

-- The loop of `compile_component`: the tokens from here on, and whether one of them is active. Every
-- round takes a cell at least, so the number of cells is enough fuel.
unfoldable pub compile_loop : ℕ → Bool → List Cell → Result (List PatternToken × Bool) String
unfolding compile_lead
compile_loop fuel after_star [] = ok ([], false)
compile_loop zero after_star (c ∷ cells) = ok ([], false)
compile_loop (suc fuel) after_star (c ∷ cells) =
    compile_lead (lead c) (compile_loop fuel) after_star c cells

unfoldable pub compile_component : List Cell → Result (Option (List PatternToken)) String
unfolding compile_loop
compile_component cells = do
  (tokens, has) ← compile_loop (length cells) false cells
  ok (if has then some tokens else none)

-- `next[index] = reachable`: what a sequence makes of the states.
unfoldable pub spread : Bool → List Bool → List Bool
spread reachable [] = []
spread reachable (s ∷ states) = (reachable || s) ∷ spread (reachable || s) states

-- `next[index + 1]`: what another token makes of the states.
unfoldable pub advance : PatternToken → List Bool → List ℕ → List Bool
advance t states [] = []
advance t [] (c ∷ candidate) = []
advance t (s ∷ states) (c ∷ candidate) = (s && token_matches t c) ∷ advance t states candidate

unfoldable pub next_states : List ℕ → List Bool → PatternToken → List Bool
next_states candidate states any_sequence = spread false states
next_states candidate states (literal u) = false ∷ advance (literal u) states candidate
next_states candidate states any_one = false ∷ advance any_one states candidate
next_states candidate states (class negated ranges) =
    false ∷ advance (class negated ranges) states candidate

-- A leading dot is matched by a literal dot only.
unfoldable pub is_hidden : List PatternToken → List ℕ → Bool
is_hidden pattern [] = false
is_hidden [] (c ∷ candidate) = c == b'.'
is_hidden (literal u ∷ pattern) (c ∷ candidate) = c == b'.' && not (u == b'.')
is_hidden (_ ∷ pattern) (c ∷ candidate) = c == b'.'

unfoldable pub matches_component : List PatternToken → List ℕ → Bool
unfolding next_states
matches_component pattern candidate =
    if is_hidden pattern candidate
    then false
    else get_or (foldl (next_states candidate) (true ∷ replicate (length candidate) false) pattern)
        (length candidate) false
