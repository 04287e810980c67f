-- ===== src/Shell/Glob/Compiling.antt =====
-- The compiler of a component's pattern: its loop ends, and quoted text is literal.
use Prim.Native.String.{String}
use ash.Common.{
  ℕ, zero, suc, ◌≤◌, ◌≡◌, refl, Bool, false, Option, none, some, List, [], ◌∷◌, length, All, arith,
  Result, ok,
}
use ash.Shell.Glob.Pattern.{
  PatternToken, literal, Cell, plain, lead, compile_lead, compile_loop, compile_component,
}

abbrev rest_length : Option (List Cell × List Cell) → ℕ
rest_length none = 0
rest_length (some (content, rest)) = length rest

abbrev Loop : Type 0
Loop = Bool → List Cell → Result (List PatternToken × Bool) String

compile_loop-nil : (fuel : ℕ) (after_star : Bool) → compile_loop fuel after_star [] ≡ ok ([], false)
unfolding compile_loop
compile_loop-nil zero after_star = refl
compile_loop-nil (suc fuel) after_star = refl

lead_quoted : (c : Cell) → c.1 ≡ false → lead c ≡ plain
unfolding lead
lead_quoted c h = rw h refl

-- The tokens of a text: each unit for itself.
abbrev pub literals : List Cell → List PatternToken
literals [] = []
literals (c ∷ cells) = literal c.0 ∷ literals cells

compile_loop_quoted :
    (fuel : ℕ) (after_star : Bool) (cells : List Cell)
    → length cells ≤ fuel
    → All (λ (c : Cell). c.1 ≡ false) cells
    → compile_loop fuel after_star cells ≡ ok (literals cells, false)
unfolding compile_loop compile_lead
compile_loop_quoted fuel after_star [] h q = compile_loop-nil fuel after_star
compile_loop_quoted zero after_star (c ∷ cells) h q = absurd (omega arith)
compile_loop_quoted (suc fuel) after_star (c ∷ cells) h (q, qs) =
    rw (lead_quoted c q) (rw (compile_loop_quoted fuel false cells (omega arith) qs) refl)

-- A component that is quoted throughout is no pattern, whatever units it has.
pub compile_component_quoted :
    (cells : List Cell) → All (λ (c : Cell). c.1 ≡ false) cells → compile_component cells ≡ ok none
unfolding compile_component
compile_component_quoted cells q =
    rw (compile_loop_quoted (length cells) false cells (omega arith) q) refl
