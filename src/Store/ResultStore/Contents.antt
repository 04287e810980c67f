-- ===== src/Store/ResultStore/Contents.antt =====
-- `Content` of crates/ash-store/src/result_store.rs: digests, comparison and reads.
use ash.Common.{
  ℕ, zero, suc, ◌-◌, ◌*◌, ◌<◌, ◌≤◌, ◌≡◌, refl, sym, ap, min, Bool, true, false, not, ◌&&◌, ◌||◌,
  Option, none, some, List, [], ◌∷◌, ◌==◌, ltb, leb, if◌then◌else◌, Result, ok, err, ◌>>=◌, ◌>>◌,
  ok_or, reject_if, length, take, drop, length-drop, arith, Bool-cases, inl, inr,
}
use ash.Common.Eq.{bytes_eq, bytes_eq_sound}
use ash.Common.Words.{u64_modulus, checked_add}
use ash.Store.ResultStore.{
  Storage, memory, disk, Content, PendingContent, StoreError, content_too_large, io, invariant,
  read_limit,
}

abbrev pub default_capture_memory_bytes : ℕ
default_capture_memory_bytes = 4 * 1024 * 1024

abbrev pub compare_chunk : ℕ
compare_chunk = 64 * 1024

-- The loop of `equals` over two readers, given as the bytes that are left in them.
unfoldable pub equal_chunks : ℕ → ℕ → List ℕ → List ℕ → Result Bool StoreError
equal_chunks fuel zero left right =
    if not (length left == 0) || not (length right == 0) then err io else ok true
equal_chunks zero (suc remaining) left right = err invariant
equal_chunks (suc fuel) (suc remaining) left right =
    let chunk = min (suc remaining) compare_chunk in
    let rest = equal_chunks fuel (suc remaining - chunk) (drop chunk left) (drop chunk right) in
    if ltb (length left) chunk || ltb (length right) chunk
    then err io
    else if bytes_eq (take chunk left) (take chunk right)
    then rest
    else ok false

module _ (hash : List ℕ → List ℕ) (file : ℕ → Option (List ℕ)) where
  -- `Content::reader`, read to its end.
  abbrev pub reader : Storage → Result (List ℕ) StoreError
  reader (memory bytes) = ok bytes
  reader (disk path) = ok_or (file path) io

  unfoldable pub digest : Content → Result (List ℕ) StoreError
  digest content = elim (content.storage) [
    | memory bytes ↦ ok (hash bytes)
    | disk path ↦ elim (file path) [
      | none ↦ err io
      | some bytes ↦
          if not (ltb (length bytes) u64_modulus)
          then err content_too_large
          else if not (length bytes == content.length)
          then err io
          else ok (hash bytes)
    ]
  ]

  unfoldable pub equal_storage : ℕ → Storage → Storage → Result Bool StoreError
  unfolding equal_chunks
  equal_storage length (memory left) (memory right) = ok (bytes_eq left right)
  equal_storage length left right = do
    l ← reader left
    r ← reader right
    equal_chunks length length l r

  unfoldable pub equals : Content → Content → Result Bool StoreError
  unfolding equal_storage
  equals left right =
      if not (left.length == right.length)
      then ok false
      else equal_storage left.length left.storage right.storage

  -- `prepare_bytes`; `spool` is the file that long content is written to.
  unfoldable pub prepare_bytes : (List ℕ → Option ℕ) → List ℕ → Result PendingContent StoreError
  prepare_bytes spool bytes =
      let with_storage : Storage → PendingContent = λ storage. record {
        content_id = some (hash bytes);
        content = some (record { length = length bytes; storage = storage });
        reservation = none;
      } in
      if leb (length bytes) default_capture_memory_bytes
      then ok (with_storage (memory bytes))
      else do path ← ok_or (spool bytes) io; ok (with_storage (disk path))

  -- `ResultLease::read_all` and `ResultLease::read_range`.
  unfoldable pub read_all : Content → ℕ → Result (List ℕ) StoreError
  read_all content max_bytes = do
    reject_if (ltb max_bytes content.length) (read_limit content.length max_bytes)
    elim (content.storage) [
      | memory bytes ↦ ok bytes
      | disk path ↦ do
        bytes ← ok_or (file path) io
        limit ← ok_or (checked_add u64_modulus content.length 1) content_too_large
        reject_if (not (length (take limit bytes) == content.length)) io
        ok (take limit bytes)
    ]

  unfoldable pub read_range : Content → ℕ → ℕ → ℕ → Result (List ℕ) StoreError
  read_range content offset count max_bytes =
      let start = min offset content.length in
      let actual = min count (content.length - start) in
      do
        reject_if (ltb max_bytes count) (read_limit count max_bytes)
        elim (content.storage) [
          | memory bytes ↦ ok (take actual (drop start bytes))
          | disk path ↦ do
            bytes ← ok_or (file path) io
            reject_if (ltb (length (drop start bytes)) actual) io
            ok (take actual (drop start bytes))
        ]

  -- A content whose storage has the bytes that its length says.
  pub record Has (content : Content) (bytes : List ℕ) : Type 0 where
    pub reads : reader content.storage ≡ ok bytes
    pub measured : content.length ≡ length bytes

bytes_eq-split :
    (k : ℕ) (left right : List ℕ)
    → bytes_eq left right
      ≡ (bytes_eq (take k left) (take k right) && bytes_eq (drop k left) (drop k right))
bytes_eq-split zero left right = refl
bytes_eq-split (suc k) [] [] = refl
bytes_eq-split (suc k) [] (y ∷ right) = refl
bytes_eq-split (suc k) (x ∷ left) [] = refl
bytes_eq-split (suc k) (x ∷ left) (y ∷ right) = ground (arith, bytes_eq-split k left right)

-- With as many rounds as there are bytes, the comparison is that of the bytes.
equal_chunks_lem :
    (fuel remaining : ℕ) (left right : List ℕ)
    → remaining ≤ fuel
    → length left ≡ remaining
    → length right ≡ remaining
    → equal_chunks fuel remaining left right ≡ ok (bytes_eq left right)
unfolding equal_chunks
equal_chunks_lem fuel zero [] [] h l r = refl
equal_chunks_lem fuel zero [] (y ∷ right) h l r = absurd (omega arith)
equal_chunks_lem fuel zero (x ∷ left) right h l r = absurd (omega arith)
equal_chunks_lem zero (suc remaining) left right h l r = absurd (omega arith)
equal_chunks_lem (suc fuel) (suc remaining) left right h l r =
    let chunk = min (suc remaining) compare_chunk in
    let split = bytes_eq-split chunk left right in
    let rest =
      equal_chunks_lem fuel (suc remaining - chunk) (drop chunk left) (drop chunk right)
        (omega arith) (omega (arith, length-drop chunk left))
        (omega (arith, length-drop chunk right)) in
    ground arith

module _ (hash : List ℕ → List ℕ) (file : ℕ → Option (List ℕ)) where
  equal_storage_lem :
      (n : ℕ) (a b : Storage) (left right : List ℕ)
      → reader hash file a ≡ ok left
      → reader hash file b ≡ ok right
      → length left ≡ n
      → length right ≡ n
      → equal_storage hash file n a b ≡ ok (bytes_eq left right)
  unfolding equal_storage
  equal_storage_lem n (memory x) (memory y) left right h k l r = cc
  equal_storage_lem n (memory x) (disk q) left right h k l r =
      let chunks = equal_chunks_lem n n left right (omega arith) l r in ground arith
  equal_storage_lem n (disk p) b left right h k l r =
      let chunks = equal_chunks_lem n n left right (omega arith) l r in ground arith

  unequal_lengths :
      (left right : List ℕ) → ¬ (length left ≡ length right) → bytes_eq left right ≡ false
  unequal_lengths left right h = elim (Bool-cases (bytes_eq left right)) [
    | inl e ↦ absurd (h (ap (λ x. length x) (bytes_eq_sound left right e)))
    | inr e ↦ e
  ]

  digest_storage :
      (n : ℕ) (a : Storage) (bytes : List ℕ)
      → reader hash file a ≡ ok bytes
      → n ≡ length bytes
      → length bytes < u64_modulus
      → digest hash file (record { length = n; storage = a }) ≡ ok (hash bytes)
  unfolding digest
  digest_storage n (memory x) bytes h e l = cc
  digest_storage n (disk p) bytes h e l = ground arith

  -- Contents that can be read, each with as many bytes as its length says, compare equal exactly if
  -- their bytes are the same, wherever they are stored; the comparison by chunks ends without an error.
  pub equals_lem :
      (c d : Content) (left right : List ℕ)
      → Has hash file c left
      → Has hash file d right
      → equals hash file c d ≡ ok (bytes_eq left right)
  unfolding equals equal_storage
  equals_lem c d left right i j = elim (Bool-cases (c.length == d.length)) [
    | inl e ↦
        let same : length left ≡ length right = ground (arith, i.measured, j.measured) in
        rw (e, equals)
          (equal_storage_lem c.length c.storage d.storage left right i.reads j.reads
            (sym i.measured) (omega (arith, i.measured)))
    | inr e ↦
        let other : ¬ (length left ≡ length right) =
          λ same. ground (arith, i.measured, j.measured) in
        rw (e, equals, unequal_lengths left right other) refl
  ]

  pub digest_lem :
      (c : Content) (bytes : List ℕ)
      → Has hash file c bytes
      → length bytes < u64_modulus
      → digest hash file c ≡ ok (hash bytes)
  unfolding digest
  digest_lem c bytes i l = digest_storage c.length c.storage bytes i.reads i.measured l
