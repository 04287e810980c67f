-- ===== src/Store/ResultStore/Aliases.antt =====
-- Handing out the aliases of a whole group: no step of the loop that changes the store fails.
use ash.Common.{
  ℕ, suc, ◌+◌, ◌<◌, ◌≡◌, refl, Option, List, [], ◌∷◌, ok, >>=-eq-ok, length, arith, inl, inr,
}
use ash.Common.Eq.{ℕ_keys, bytes_keys}
use ash.Common.Map.{Map, insert, length-insert_new}
use ash.Common.Words.{u64_modulus}
use ash.Store.ResultStore.{State, PendingContent}
use ash.Store.ResultStore.Retain.{Placement, place_one, place, assign}
use ash.Store.ResultStore.Retaining.{
  IsIndexed, ok_three, place_one-cases, Follows, Follows-later, with_entry, with_entry-IsIndexed,
}
use ash.Store.ResultStore.Assigning.{
  Outcome, Outcome-existing, Outcome-repeated, Outcome-new, Fresh-Follows,
}

module _ (hash : List ℕ → List ℕ) (file : ℕ → Option (List ℕ)) (s0 : State)
    (all : List PendingContent) where
  -- From any state that follows the placements so far, the rest of the group gets its aliases.
  abbrev Assigns : ℕ → List PendingContent → List (List ℕ) → Type 0
  Assigns k pending ids =
      (s : State) (first_new : Map (List ℕ) ℕ) (allocated : Map ℕ ℕ) (incoming alias : ℕ)
      (placements : List Placement) (first_new' : Map (List ℕ) ℕ) (incoming' : ℕ)
      → place hash file s0 all k pending ids first_new incoming
        ≡ ok (placements, first_new', incoming')
      → Follows s0 k s first_new allocated
      → IsIndexed alias s
      → alias + length first_new' < u64_modulus + length first_new
      → Outcome k placements pending ids s first_new allocated incoming alias first_new' incoming'

  place-cons :
      (k : ℕ) (value : PendingContent) (pending : List PendingContent) (id : List ℕ)
      (ids : List (List ℕ)) (first_new : Map (List ℕ) ℕ) (incoming : ℕ)
      (placements : List Placement) (first_new' : Map (List ℕ) ℕ) (incoming' : ℕ)
      → place hash file s0 all k (value ∷ pending) (id ∷ ids) first_new incoming
        ≡ ok (placements, first_new', incoming')
      → (p : Placement) × (fn : Map (List ℕ) ℕ) × (inc : ℕ) × (rest : List Placement) × (place_one
            hash file s0 all k value id first_new incoming
          ≡ ok (p, fn, inc))
        × (place hash file s0 all (suc k) pending ids fn inc ≡ ok (rest, first_new', incoming'))
        × (placements ≡ p ∷ rest)
  unfolding place
  place-cons k value pending id ids first_new incoming placements first_new' incoming' h =
      let ((p, fn, inc), e1, h1) =
        >>=-eq-ok (place_one hash file s0 all k value id first_new incoming) _ h in
      let ((rest, fn', inc'), e2, h2) =
        >>=-eq-ok (place hash file s0 all (suc k) pending ids fn inc) _ h1 in
      let (p_eq, fn_eq, inc_eq) = ok_three h2 in (p, fn, inc, rest, e1, rw (fn_eq, inc_eq) e2, p_eq)

  assign_step :
      (k : ℕ) (value : PendingContent) (pending : List PendingContent) (id : List ℕ)
      (ids : List (List ℕ)) (s : State) (first_new : Map (List ℕ) ℕ) (allocated : Map ℕ ℕ)
      (incoming alias : ℕ) (p : Placement) (fn : Map (List ℕ) ℕ) (inc : ℕ) (rest : List Placement)
      (first_new' : Map (List ℕ) ℕ) (incoming' : ℕ)
      → Assigns (suc k) pending ids
      → place_one hash file s0 all k value id first_new incoming ≡ ok (p, fn, inc)
      → place hash file s0 all (suc k) pending ids fn inc ≡ ok (rest, first_new', incoming')
      → Follows s0 k s first_new allocated
      → IsIndexed alias s
      → alias + length first_new' < u64_modulus + length first_new
      → Outcome k
          (p ∷ rest)
          (value ∷ pending)
          (id ∷ ids)
          s
          first_new
          allocated
          incoming
          alias
          first_new'
          incoming'
  assign_step k value pending id ids s first_new allocated incoming alias p fn inc rest first_new'
        incoming' ih e1 e2 f i fits =
      elim (place_one-cases hash file s0 all k value id first_new incoming p fn inc e1) [
        | inl seen ↦
            let (e, g, same) = i.forward id seen.alias (f.old id seen.alias seen.known) in
            let later =
              ih s first_new allocated incoming alias rest first_new' incoming'
                (rw (seen.same.0, seen.same.1) at e2) (Follows-later s0 k s first_new allocated f) i
                fits in
            rw seen.goes (
              Outcome-existing k rest value pending id ids s first_new allocated incoming alias
                first_new' incoming' seen.alias e g same later)
        | inr (inl again) ↦
            let (l, a, found, known) = f.known id again.first again.unknown again.known in
            let (e, g, same) = i.forward id a known in
            let later =
              ih s first_new allocated incoming alias rest first_new' incoming'
                (rw (again.same.0, again.same.1) at e2) (Follows-later s0 k s first_new allocated f)
                i fits in
            rw again.goes (
              Outcome-repeated k rest value pending id ids s first_new allocated incoming alias
                first_new' incoming' again.first a e l found g same later)
        | inr (inr fresh) ↦
            let unknown = f.unknown id fresh.unknown fresh.new in
            let later =
              ih (with_entry s id alias fresh.content) (insert first_new id k)
                (insert allocated k alias) (incoming + fresh.content.length) (suc alias) rest
                first_new' incoming' (rw (fresh.grown.0, fresh.grown.1) at e2)
                (Fresh-Follows s0 k s first_new allocated id alias fresh.content f fresh.unknown)
                (with_entry-IsIndexed s id alias fresh.content i unknown)
                (let firsts = length-insert_new first_new id k fresh.new in omega arith) in
            let firsts = length-insert_new first_new id k fresh.new in
            let (_, _, _, _, d, _) = later in
            let grew = d.grew in
            rw fresh.goes (
              Outcome-new k rest value pending id ids s first_new allocated incoming alias
                first_new' incoming' fresh.content fresh.has (omega arith) i unknown fresh.new
                later)
      ]

  pub assign_lem :
      (k : ℕ) (pending : List PendingContent) (ids : List (List ℕ))
      → length pending ≡ length ids
      → Assigns k pending ids
  unfolding place assign
  assign_lem k [] [] l s first_new allocated incoming alias placements first_new' incoming' h f i
        fits =
      let (p, fn, inc) = ok_three h in
      (
        s,
        [],
        alias,
        rw p refl,
        record {
          indexed = i;
          count = rw fn refl;
          grew = rw fn (omega arith);
          bytes = rw inc refl;
          entries = rw fn refl;
          kept = λ a e g. g;
          unique = λ u. u;
          retired = λ a less g. g;
          same_bytes = refl;
          same_lock = refl;
        },
        tt,
      )
  assign_lem k [] (id ∷ ids) l s first_new allocated incoming alias placements first_new' incoming'
        h f i fits =
      absurd (omega arith)
  assign_lem k (value ∷ pending) [] l s first_new allocated incoming alias placements first_new'
        incoming' h f i fits =
      absurd (omega arith)
  assign_lem k (value ∷ pending) (id ∷ ids) l s first_new allocated incoming alias placements
        first_new' incoming' h f i fits =
      let (p, fn, inc, rest, e1, e2, eq) =
        place-cons k value pending id ids first_new incoming placements first_new' incoming' h in
      rw eq (
        assign_step k value pending id ids s first_new allocated incoming alias p fn inc rest
          first_new' incoming' (assign_lem (suc k) pending ids (omega arith)) e1 e2 f i fits)
