-- ===== src/Shell/Glob/Tests.antt =====
-- Concrete patterns, and the theorems at concrete inputs.
use ash.Common.{ℕ, ◌≡◌, ◌↔◌, refl, true, false, none, some, List, [], ◌∷◌, map, ok, err}
use ash.Common.Text.{codes}
use ash.Shell.Glob.Pattern.{
  PatternToken, literal, any_one, any_sequence, class, token_matches, in_ranges, Cell, descending,
  split_closing, class_ranges, close_class, compile_class, lead, compile_lead, compile_loop,
  compile_component, spread, advance, next_states, is_hidden, matches_component,
}
use ash.Shell.Glob.Compiling.{compile_component_quoted}
use ash.Shell.Glob.Denotation.{Matches}
use ash.Shell.Glob.Matching.{Shows, matches_component_iff}

abbrev active : List ℕ → List Cell
active units = map (λ u. (u, true)) units

abbrev quoted : List ℕ → List Cell
quoted units = map (λ u. (u, false)) units

-- `a**[!b-d]?`: two stars in a row are one token.
abbrev pattern_tokens : List PatternToken
pattern_tokens = literal b'a' ∷ any_sequence ∷ class true ((b'b', b'd') ∷ []) ∷ any_one ∷ []

compiled : compile_component (active (codes "a**[!b-d]?")) ≡ ok (some pattern_tokens)
unfolding compile_component compile_loop compile_lead lead compile_class close_class split_closing
    class_ranges
compiled = refl

refused : compile_component (active (codes "x[z-a]")) ≡ err descending
unfolding compile_component compile_loop compile_lead lead compile_class close_class split_closing
    class_ranges
refused = refl

matched :
    (matches_component pattern_tokens (codes "abcxy") ≡ true)
    × (matches_component pattern_tokens (codes "abcdy") ≡ false)
    × (matches_component (any_sequence ∷ []) (codes ".profile") ≡ false)
unfolding matches_component next_states is_hidden spread advance token_matches in_ranges
matched = (refl, refl, refl)

matches_component_iff_example :
    (matches_component pattern_tokens (codes "abcxy") ≡ true)
    ↔ (Shows pattern_tokens (codes "abcxy") × Matches pattern_tokens (codes "abcxy"))
matches_component_iff_example = matches_component_iff pattern_tokens (codes "abcxy")

compile_component_quoted_example : compile_component (quoted (codes "*[")) ≡ ok none
compile_component_quoted_example = compile_component_quoted (quoted (codes "*[")) (refl, (refl, tt))
