-- ===== src/Store/ResultStore/Sample.antt =====
-- `CaptureSample` of crates/ash-store/src/result_store.rs: the two ends of a stream that is on disk.
-- Lists in memory are shorter than a machine word counts, and their allocation does not fail.
use ash.Common.{
  ℕ, ◌+◌, ◌-◌, ◌/◌, ◌<◌, ◌≤◌, ◌≡◌, refl, sym, ◌∙◌, min, true, false, not, ◌&&◌, Option, none, List,
  [], ◌∷◌, ◌++◌, ◌==◌, ltb, leb, if◌then◌else◌, length, get_elem?, take, drop, length-take,
  length-drop, length-append, drop-drop, take_append, drop_append, take-min, drop-min,
  get_elem?-append_low, get_elem?-append_high, get_elem?-none, get_elem?-some, drop_beyond,
  take_nil, drop_nil, append-nil, append_assoc, arith, Bool-cases, inl, inr,
}
use ash.Common.Map.{is_some}

pub record CaptureSample : Type 0 where
  pub head : List ℕ
  pub head_next : Option ℕ
  pub tail : List ℕ
  pub head_limit : ℕ
  pub tail_limit : ℕ

-- `CaptureSample::new`, with half of the limit for the head.
unfoldable pub new_sample : ℕ → CaptureSample
new_sample limit = record {
  head = [];
  head_next = none;
  tail = [];
  head_limit = limit / 2;
  tail_limit = limit - limit / 2;
}

-- What stays of the tail when bytes come after it.
unfoldable pub slide : ℕ → List ℕ → List ℕ → List ℕ
slide limit tail bytes =
    if limit == 0
    then tail
    else if leb limit (length bytes)
    then drop (length bytes - limit) bytes
    else drop (length tail + length bytes - limit) tail ++ bytes

unfoldable pub observe : CaptureSample → List ℕ → CaptureSample
unfolding slide
observe s bytes =
    let head_bytes = min (s.head_limit - length s.head) (length bytes) in
    let head = s.head ++ take head_bytes bytes in
    record s {
      head = head;
      head_next =
          if length head == s.head_limit
            && not (is_some s.head_next)
            && ltb head_bytes (length bytes)
          then get_elem? bytes head_bytes
          else s.head_next;
      tail = slide s.tail_limit s.tail (drop head_bytes bytes);
    }

-- The chunks of a stream, one after the other.
unfoldable pub observe_all : CaptureSample → List (List ℕ) → CaptureSample
unfolding observe
observe_all s [] = s
observe_all s (bytes ∷ chunks) = observe_all (observe s bytes) chunks

abbrev pub concat : List (List ℕ) → List ℕ
concat [] = []
concat (bytes ∷ chunks) = bytes ++ concat chunks

-- The last elements of a list.
abbrev pub take_last : ℕ → List ℕ → List ℕ
take_last n xs = drop (length xs - n) xs

-- The sample of a stream.
pub record IsSampleOf (stream : List ℕ) (s : CaptureSample) : Type 0 where
  pub head : s.head ≡ take s.head_limit stream
  pub head_next : s.head_next ≡ get_elem? stream s.head_limit
  pub tail : s.tail ≡ take_last s.tail_limit (drop s.head_limit stream)

-- The limits, which do not change.
abbrev pub HasLimits : ℕ → CaptureSample → Type 0
HasLimits limit s = (s.head_limit ≡ limit / 2) × (s.tail_limit ≡ limit - limit / 2)

slide-take_last :
    (limit : ℕ) (xs ys : List ℕ) → slide limit (take_last limit xs) ys ≡ take_last limit (xs ++ ys)
unfolding slide
slide-take_last limit xs ys =
    let all = length-append xs ys in
    let n = length (xs ++ ys) - limit in
    elim (Bool-cases (limit == 0)) [
      | inl e ↦
          let zero_eq : limit ≡ 0 = ground arith in
          rw e (
            drop_beyond (length xs - limit) xs (omega arith)
            ∙ sym (drop_beyond n (xs ++ ys) (omega arith)))
      | inr e ↦ elim (Bool-cases (leb limit (length ys))) [
        | inl l ↦
            let low : limit ≤ length ys = ground arith in
            let rest : n - length xs ≡ length ys - limit = omega arith in
            rw (e, l, drop_append n xs ys, drop_beyond n xs (omega arith), rest) refl
        | inr l ↦
            let high : length ys < limit = ground arith in
            let size = length-drop (length xs - limit) xs in
            let rest : n - length xs ≡ 0 = omega arith in
            let skip : length xs - limit + (length (take_last limit xs) + length ys - limit) ≡ n =
              omega arith in
            rw
              (
                e,
                l,
                drop_append n xs ys,
                rest,
                drop-drop (length xs - limit) (length (take_last limit xs) + length ys - limit) xs,
                skip,
              )
              refl
      ]
    ]

-- What is left of the head after a part of the stream.
head_rest : (h : ℕ) (stream : List ℕ) → h - length (take h stream) ≡ h - length stream
head_rest h stream = let size = length-take h stream in omega arith

observe-head :
    (h : ℕ) (stream bytes : List ℕ)
    → take h stream ++ take (min (h - length (take h stream)) (length bytes)) bytes
      ≡ take h (stream ++ bytes)
observe-head h stream bytes =
    rw (head_rest h stream, take-min (h - length stream) bytes) (sym (take_append h stream bytes))

observe-tail :
    (h : ℕ) (stream bytes : List ℕ)
    → drop h stream ++ drop (min (h - length (take h stream)) (length bytes)) bytes
      ≡ drop h (stream ++ bytes)
observe-tail h stream bytes =
    rw (head_rest h stream, drop-min (h - length stream) bytes) (sym (drop_append h stream bytes))

observe-head_next :
    (h : ℕ) (stream bytes head : List ℕ) (k : ℕ)
    → k ≡ min (h - length (take h stream)) (length bytes)
    → head ≡ take h (stream ++ bytes)
    → (if length head == h && not (is_some (get_elem? stream h)) && ltb k (length bytes)
        then get_elem? bytes k
        else get_elem? stream h)
      ≡ get_elem? (stream ++ bytes) h
observe-head_next h stream bytes head k k_eq head_eq =
    let rest = head_rest h stream in
    let all = length-append stream bytes in
    let size : length head ≡ min h (length (stream ++ bytes)) =
      rw head_eq (length-take h (stream ++ bytes)) in
    elim (Bool-cases (ltb h (length stream))) [
      | inl e ↦
          let less : h < length stream = ground arith in
          let (a, here) = get_elem?-some stream h less in
          let low = get_elem?-append_low stream bytes h less ∙ here in rw (here, low) ground arith
      | inr e ↦
          let more : length stream ≤ h = ground arith in
          let gone = get_elem?-none stream h more in
          let high = get_elem?-append_high stream bytes h more in
          elim (Bool-cases (ltb (h - length stream) (length bytes))) [
            | inl t ↦
                let less : h - length stream < length bytes = ground arith in
                let k_at : k ≡ h - length stream = omega arith in
                let full : (length head == h) ≡ true = ground arith in
                rw (gone, high, k_at, full, t) refl
            | inr t ↦
                let beyond : length bytes ≤ h - length stream = ground arith in
                let k_at : ltb k (length bytes) ≡ false = ground arith in
                rw (gone, high, get_elem?-none bytes (h - length stream) beyond, k_at) ground arith
          ]
    ]

observe-IsSampleOf :
    (s : CaptureSample) (stream bytes : List ℕ)
    → IsSampleOf stream s
    → IsSampleOf (stream ++ bytes) (observe s bytes)
unfolding observe
observe-IsSampleOf s stream bytes i =
    let head_eq = observe-head s.head_limit stream bytes in
    record {
      head = rw (i.head) head_eq;
      head_next =
          rw (i.head, i.head_next)
            (observe-head_next s.head_limit stream bytes _
              (min (s.head_limit - length (take s.head_limit stream)) (length bytes)) refl head_eq);
      tail =
          rw
            (
              i.head,
              i.tail,
              slide-take_last s.tail_limit (drop s.head_limit stream) (
                  drop (min (s.head_limit - length (take s.head_limit stream)) (length bytes))
                    bytes),
              observe-tail s.head_limit stream bytes,
            )
            refl;
    }

observe_all-IsSampleOf :
    (limit : ℕ) (s : CaptureSample) (stream : List ℕ) (chunks : List (List ℕ))
    → HasLimits limit s
    → IsSampleOf stream s
    → HasLimits limit (observe_all s chunks)
      × IsSampleOf (stream ++ concat chunks) (observe_all s chunks)
unfolding observe_all observe
observe_all-IsSampleOf limit s stream [] l i = (l, rw (append-nil stream) i)
observe_all-IsSampleOf limit s stream (bytes ∷ chunks) l i =
    rw (← append_assoc stream bytes (concat chunks)) (
      observe_all-IsSampleOf limit (observe s bytes) (stream ++ bytes) chunks l
        (observe-IsSampleOf s stream bytes i))

new_sample-IsSampleOf :
    (limit : ℕ) → HasLimits limit (new_sample limit) × IsSampleOf [] (new_sample limit)
unfolding new_sample
new_sample-IsSampleOf limit = (
  (refl, refl),
  record {
    head = sym (take_nil (limit / 2));
    head_next = refl;
    tail = rw (drop_nil (limit / 2)) (sym (drop_nil (0 - (limit - limit / 2))));
  },
)

-- However a stream is cut into chunks, its sample has the first half of the limit, the byte after it,
-- and of what follows the head the last bytes, as many as the rest of the limit.
pub observe_all-new_sample :
    (limit : ℕ) (chunks : List (List ℕ))
    → ((observe_all (new_sample limit) chunks).head ≡ take (limit / 2) (concat chunks))
      × ((observe_all (new_sample limit) chunks).head_next ≡ get_elem? (concat chunks) (limit / 2))
      × ((observe_all (new_sample limit) chunks).tail
          ≡ take_last (limit - limit / 2) (drop (limit / 2) (concat chunks)))
observe_all-new_sample limit chunks =
    let (l, i) = new_sample-IsSampleOf limit in
    let ((h, t), j) = observe_all-IsSampleOf limit (new_sample limit) [] chunks l i in
    (rw (sym h) (j.head), rw (sym h) (j.head_next), rw (sym t, sym h) (j.tail))
