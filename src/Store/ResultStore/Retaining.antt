-- ===== src/Store/ResultStore/Retaining.antt =====
-- Handing out the aliases: what the placements of a group say of the store that it is added to.
use ash.Common.{
  ℕ, suc, ◌+◌, ◌<◌, ◌≤◌, ◌≡◌, sym, ap, ◌∙◌, not, Option, none, some, List, [], ◌∷◌, Result, ok,
  >>=-eq-ok, ok_or, ok_or-ok, ok_injective, reject_if-ok, arith, Option-cases, inl, inr, ◌⊎◌,
}
use mathlib.Core.Option.{some-injective}
use ash.Common.Eq.{ℕ_keys, bytes_keys}
use ash.Common.Map.{Map, get, insert, get-insert_same, get-insert_other, key_cases}
use ash.Common.Words.{u64_modulus, checked_add, checked_add-some}
use ash.Store.ResultStore.{
  Content, Entry, State, PendingContent, content_too_large, invariant, digest_collision,
}
use ash.Store.ResultStore.Contents.{equals}
use ash.Store.ResultStore.Retain.{Placement, existing, new_at, content_at, place_one}

unfoldable pub total_bytes : Map ℕ Entry → ℕ
total_bytes [] = 0
total_bytes ((a, e) ∷ rest) = e.content.length + total_bytes rest

pub total_bytes-insert_new :
    (m : Map ℕ Entry) (a : ℕ) (e : Entry)
    → get m a ≡ none
    → total_bytes (insert m a e) ≡ total_bytes m + e.content.length
unfolding total_bytes get insert
total_bytes-insert_new [] a e h = omega arith
total_bytes-insert_new ((b, f) ∷ m) a e h = ground (arith, total_bytes-insert_new m a e)

-- The two maps agree, and aliases from the next one on are free.
pub record IsIndexed (next : ℕ) (s : State) : Type 0 where
  pub forward :
      (id : List ℕ) (a : ℕ)
      → get s.by_content id ≡ some a
      → (e : Entry) × (get s.by_alias a ≡ some e) × (e.content_id ≡ id)
  pub backward :
      (a : ℕ) (e : Entry) → get s.by_alias a ≡ some e → get s.by_content e.content_id ≡ some a
  pub free : (a : ℕ) → next ≤ a → get s.by_alias a ≡ none

pub ok_three :
    {A B C E : Type 0} {a a' : A} {b b' : B} {c c' : C}
    → ◌≡◌ {A = Result (A × B × C) E} (ok (a, b, c)) (ok (a', b', c'))
    → (a' ≡ a) × (b' ≡ b) × (c' ≡ c)
ok_three {a = a} {a' = a'} {b = b} {b' = b'} {c = c} {c' = c'} h =
    let t : (a, b, c) ≡ (a', b', c') = ok_injective h in
    (sym (ap (λ x. x.0) t), sym (ap (λ x. x.1) t), sym (ap (λ x. x.2) t))

-- What a placement says, by its case.
module _ (s : State) (index : ℕ) (value : PendingContent) (id : List ℕ) (first_new : Map (List ℕ) ℕ)
    (incoming : ℕ) (p : Placement) (first_new' : Map (List ℕ) ℕ) (incoming' : ℕ) where
  pub record Seen : Type 0 where
    pub alias : ℕ
    pub known : get s.by_content id ≡ some alias
    pub goes : p ≡ existing alias
    pub same : (first_new' ≡ first_new) × (incoming' ≡ incoming)

  pub record Repeated : Type 0 where
    pub first : ℕ
    pub unknown : get s.by_content id ≡ none
    pub known : get first_new id ≡ some first
    pub goes : p ≡ new_at first
    pub same : (first_new' ≡ first_new) × (incoming' ≡ incoming)

  pub record Fresh : Type 0 where
    pub content : Content
    pub unknown : get s.by_content id ≡ none
    pub new : get first_new id ≡ none
    pub has : value.content ≡ some content
    pub goes : p ≡ new_at index
    pub grown : (first_new' ≡ insert first_new id index) × (incoming' ≡ incoming + content.length)

module _ (hash : List ℕ → List ℕ) (file : ℕ → Option (List ℕ)) where
  pub place_one-cases :
      (s : State) (pending : List PendingContent) (index : ℕ) (value : PendingContent) (id : List ℕ)
      (first_new : Map (List ℕ) ℕ) (incoming : ℕ) (p : Placement) (first_new' : Map (List ℕ) ℕ)
      (incoming' : ℕ)
      → place_one hash file s pending index value id first_new incoming
        ≡ ok (p, first_new', incoming')
      → Seen s index value id first_new incoming p first_new' incoming'
        ⊎ Repeated s index value id first_new incoming p first_new' incoming'
        ⊎ Fresh s index value id first_new incoming p first_new' incoming'
  unfolding place_one
  place_one-cases s pending index value id first_new incoming p first_new' incoming' h =
      let (content, has, h1) = >>=-eq-ok (ok_or value.content invariant) _ h in
      elim (Option-cases (get s.by_content id)) [
        | inr (alias, e) ↦
            let (entry, _, h2) =
              >>=-eq-ok (ok_or (get s.by_alias alias) invariant) _ (rw e at h1) in
            let (same, _, h3) = >>=-eq-ok (equals hash file entry.content content) _ h2 in
            let (p_eq, first_eq, incoming_eq) =
              ok_three (reject_if-ok (not same) digest_collision _ h3).1 in
            inl (record { alias = alias; known = e; goes = p_eq; same = (first_eq, incoming_eq) })
        | inl e ↦ elim (Option-cases (get first_new id)) [
          | inr (first, e') ↦
              let (other, _, h2) =
                >>=-eq-ok (ok_or (content_at pending first) invariant) _ (rw (e, e') at h1) in
              let (same, _, h3) = >>=-eq-ok (equals hash file other content) _ h2 in
              let (p_eq, first_eq, incoming_eq) =
                ok_three (reject_if-ok (not same) digest_collision _ h3).1 in
              inr (
                inl (record {
                  first = first;
                  unknown = e;
                  known = e';
                  goes = p_eq;
                  same = (first_eq, incoming_eq);
                }))
          | inl e' ↦
              let (total, added, h2) =
                >>=-eq-ok
                  (ok_or (checked_add u64_modulus incoming content.length) content_too_large) _
                  (rw (e, e') at h1) in
              let (p_eq, first_eq, incoming_eq) = ok_three h2 in
              let (sum, _) =
                checked_add-some u64_modulus incoming content.length total (ok_or-ok _ _ added) in
              inr (
                inr (record {
                  content = content;
                  unknown = e;
                  new = e';
                  has = ok_or-ok _ _ has;
                  goes = p_eq;
                  grown = (first_eq, incoming_eq ∙ sum);
                }))
        ]
      ]

-- How far the store follows the placements: `allocated` has an alias for each first occurrence.
pub record Follows (s0 : State) (k : ℕ) (s : State) (first_new : Map (List ℕ) ℕ)
    (allocated : Map ℕ ℕ) : Type 0 where
  pub old : (id : List ℕ) (a : ℕ) → get s0.by_content id ≡ some a → get s.by_content id ≡ some a
  pub unknown :
      (id : List ℕ)
      → get s0.by_content id ≡ none
      → get first_new id ≡ none
      → get s.by_content id ≡ none
  pub known :
      (id : List ℕ) (f : ℕ)
      → get s0.by_content id ≡ none
      → get first_new id ≡ some f
      → (f < k) × (a : ℕ) × (get allocated f ≡ some a) × (get s.by_content id ≡ some a)

pub Follows-later :
    (s0 : State) (k : ℕ) (s : State) (first_new : Map (List ℕ) ℕ) (allocated : Map ℕ ℕ)
    → Follows s0 k s first_new allocated
    → Follows s0 (suc k) s first_new allocated
Follows-later s0 k s first_new allocated f = record {
  old = f.old;
  unknown = f.unknown;
  known = λ id i u e. let (l, a, h, g) = f.known id i u e in (omega arith, a, h, g);
}

pub some-ne-none : {A : Type 0} {a : A} → ¬ (some a ≡ none)
some-ne-none h = cc

-- The state with one entry more.
abbrev pub with_entry : State → List ℕ → ℕ → Content → State
with_entry s id alias content = record s {
  by_content = insert s.by_content id alias;
  by_alias = insert s.by_alias alias (record { content_id = id; content = content; leases = 0 });
}

module _ (s : State) (id : List ℕ) (alias : ℕ) (content : Content) (i : IsIndexed alias s)
    (new : get s.by_content id ≡ none) where
  pub keeps_entries :
      (a : ℕ) (e : Entry)
      → get s.by_alias a ≡ some e
      → get (with_entry s id alias content).by_alias a ≡ some e
  keeps_entries a e h = elim (key_cases alias a) [
    | inl same ↦ absurd (some-ne-none (sym h ∙ rw (sym same) (i.free alias (omega arith))))
    | inr other ↦ get-insert_other s.by_alias alias a _ other ∙ h
  ]

  pub with_entry-IsIndexed : IsIndexed (suc alias) (with_entry s id alias content)
  with_entry-IsIndexed = record {
    forward = λ id' a h. elim (key_cases id id') [
      | inl same ↦
          let here : some alias ≡ some a =
            sym (get-insert_same s.by_content id alias) ∙ rw (sym same) at h in
          let eq : alias ≡ a = some-injective alias a here in
          (
            record { content_id = id; content = content; leases = 0 },
            rw (sym eq) (get-insert_same s.by_alias alias _),
            same,
          )
      | inr other ↦
          let (e, g, eq) =
            i.forward id' a (sym (get-insert_other s.by_content id id' alias other) ∙ h) in
          (e, keeps_entries a e g, eq)
    ];
    backward = λ a e h. elim (key_cases alias a) [
      | inl same ↦
          let entry : Entry = record { content_id = id; content = content; leases = 0 } in
          let eq : entry ≡ e =
            some-injective entry e
              (sym (get-insert_same s.by_alias alias entry) ∙ rw (sym same) at h) in
          rw (sym eq, sym same) (get-insert_same s.by_content id alias)
      | inr other ↦
          let old = i.backward a e (sym (get-insert_other s.by_alias alias a _ other) ∙ h) in
          elim (key_cases id e.content_id) [
            | inl same ↦ absurd (some-ne-none (sym (rw (sym same) at old) ∙ new))
            | inr different ↦ get-insert_other s.by_content id e.content_id alias different ∙ old
          ]
    ];
    free = λ a l. get-insert_other s.by_alias alias a _ (λ p. omega arith) ∙ i.free a (omega arith);
  }
