-- ===== src/Protocol/Ason/Parse/Fields.antt =====
-- crates/ash-protocol/src/ason/parse.rs: what the loop over the lines of a document has read when it
-- ends.
use ash.Common.{
  ℕ, zero, suc, ◌+◌, ◌≤◌, ◌≡◌, refl, sym, ap, ◌∙◌, false, none, List, [], ◌∷◌, ◌++◌, length,
  length-append, map, min, arith, ok, ok_or, reject_if-ok, ok_injective, >>=-eq-ok, ◌||◌,
  if◌then◌else◌,
}
use ash.Common.Text.{Str, split_once, contains}
use ash.Protocol.Ason.Errors.{LimitKind, duplicate_field}
use ash.Protocol.Ason.Model.{Field, seen, duplicate, new_document}
use ash.Protocol.Ason.Parse.Items.{Limits, enforce}
use ash.Protocol.Ason.Parse.Lines.{Cursor, parse_field, parse_block, parse_inline, fields_loop}
use ash.Protocol.Ason.Parse.Fuel.{parse_field_shrinks, fields_loop-nil}

abbrev keys : List Field → List Str
keys fields = map (λ (f : Field). f.key) fields

keys-append :
    (fields : List Field) (f : Field) → keys (fields ++ f ∷ []) ≡ keys fields ++ f.key ∷ []
keys-append [] f = refl
keys-append (g ∷ fields) f = ap (λ ks. g.key ∷ ks) (keys-append fields f)

-- A name that neither list has comes last without a duplicate.
duplicate-append :
    (names xs : List Str) (k : Str)
    → duplicate names xs ≡ none
    → seen names k ≡ false
    → seen xs k ≡ false
    → duplicate names (xs ++ k ∷ []) ≡ none
unfolding duplicate seen
duplicate-append names [] k d s t = rw s refl
duplicate-append names (x ∷ xs) k d s t = ground (arith, duplicate-append (x ∷ names) xs k)

-- The loop of the code, which takes lines until none is left: it ends with `out`.
pub data Reads (l : Limits) : ℕ → List Str → ℕ → List Field → List Field → Type 0 where
  finished : (number values : ℕ) (out : List Field) → Reads l number [] values out out
  field_read :
      (c : ℕ) (line : Str) (number : ℕ) (lines : List Str) (values : ℕ) (fields : List Field)
      (field : Field) (cursor : Cursor) (out : List Field)
      → parse_field l (c ∷ line) number lines values fields ≡ ok (field, cursor)
      → Reads l cursor.number cursor.lines cursor.values (fields ++ field ∷ []) out
      → Reads l number ((c ∷ line) ∷ lines) values fields out

-- A field that was read is new and within the limit.
parse_field-new :
    (l : Limits) (line : Str) (number : ℕ) (lines : List Str) (values : ℕ) (fields : List Field)
    (field : Field) (cursor : Cursor)
    → parse_field l line number lines values fields ≡ ok (field, cursor)
    → (length fields + 1 ≤ l.max_fields) × (seen (keys fields) field.key ≡ false)
unfolding parse_field enforce
parse_field-new l line number lines values fields field cursor h =
    let (_, e1, h1) =
      >>=-eq-ok (enforce (length fields + 1) l.max_fields LimitKind.fields number) _ h in
    let ((head, payload), e2, h2) = >>=-eq-ok (ok_or (split_once b':' line) _) _ h1 in
    let ((field', cursor'), e3, h3) =
      >>=-eq-ok
        (if contains b'{' head || contains b'[' head
          then parse_block l head payload number lines values
          else parse_inline l head payload number lines values)
        _ h2 in
    let (fresh, h4) =
      reject_if-ok (seen (keys fields) field'.key) (duplicate_field number field'.key) _ h3 in
    let same : field' ≡ field = ap (λ x. x.0) (ok_injective h4) in (ground arith, rw same at fresh)

record Accepted (l : Limits) (number : ℕ) (lines : List Str) (values : ℕ) (fields out : List Field)
    : Type 0 where
  pub all_read : Reads l number lines values fields out
  pub distinct : duplicate [] (keys out) ≡ none
  pub few : length out ≤ l.max_fields
  pub grows : length fields + min 1 (length lines) ≤ length out

fields_loop-Accepted :
    (l : Limits) (fuel number : ℕ) (lines : List Str) (values : ℕ) (fields out : List Field)
    → length lines ≤ fuel
    → duplicate [] (keys fields) ≡ none
    → length fields ≤ l.max_fields
    → fields_loop l fuel number lines values fields ≡ ok out
    → Accepted l number lines values fields out
unfolding fields_loop seen
fields_loop-Accepted l fuel number [] values fields out h d m e =
    let same : fields ≡ out =
      ok_injective (sym (fields_loop-nil l fuel number values fields) ∙ e) in
    rw (sym same) (record {
      all_read = finished number values fields;
      distinct = d;
      few = m;
      grows = omega arith;
    })
fields_loop-Accepted l zero number (line ∷ lines) values fields out h d m e = absurd (omega arith)
fields_loop-Accepted l (suc fuel) number ([] ∷ lines) values fields out h d m e = cc
fields_loop-Accepted l (suc fuel) number ((c ∷ line) ∷ lines) values fields out h d m e =
    let ((field, cursor), read, rest) =
      >>=-eq-ok (parse_field l (c ∷ line) number lines values fields) _ e in
    let (limit, new) = parse_field-new l (c ∷ line) number lines values fields field cursor read in
    let more = length-append fields (field ∷ []) in
    let shrunk = parse_field_shrinks l (c ∷ line) number lines values fields read in
    let distinct = duplicate-append [] (keys fields) field.key d refl new in
    let a =
      fields_loop-Accepted l fuel cursor.number cursor.lines cursor.values (fields ++ field ∷ [])
        out (omega arith) (rw (keys-append fields field) distinct) (omega arith) rest in
    let grows = a.grows in
    record {
      all_read = field_read c line number lines values fields field cursor out read a.all_read;
      distinct = a.distinct;
      few = a.few;
      grows = omega arith;
    }

new_document-ok :
    (out : List Field)
    → 1 ≤ length out
    → duplicate [] (keys out) ≡ none
    → new_document out ≡ ok (record { fields = out })
unfolding new_document
new_document-ok [] h d = absurd (omega arith)
new_document-ok (f ∷ fs) h d = rw d refl

-- When the loop over the lines of a document, one at least, ends without an error, it has read every
-- line to the last, each field by `parse_field` behind the fields before it; there are at most as many
-- fields as the limit says; and the check of the whole document that follows the loop, that it has a
-- field and no key twice, does not fail.
pub fields_loop-new_document :
    (l : Limits) (line : Str) (lines : List Str) (out : List Field)
    → fields_loop l (length (line ∷ lines)) 1 (line ∷ lines) 0 [] ≡ ok out
    → Reads l 1 (line ∷ lines) 0 [] out
      × (length out ≤ l.max_fields)
      × (new_document out ≡ ok (record { fields = out }))
unfolding duplicate
fields_loop-new_document l line lines out e =
    let a =
      fields_loop-Accepted l (length (line ∷ lines)) 1 (line ∷ lines) 0 [] out (omega arith) refl
        (omega arith) e in
    let grows = a.grows in (a.all_read, a.few, new_document-ok out (omega arith) a.distinct)
