-- ===== src/Protocol/Approval/Signing.antt =====
-- The signing bytes of a challenge: their layout, and that they determine the challenge.
use ash.Common.{
  ℕ, suc, ◌+◌, ◌≡◌, refl, ap, sym, ◌∙◌, List, [], ◌∷◌, ◌++◌, foldl, length, length-append,
  length-replicate, drop, take-append, drop-append_add, drop-drop, replicate, append_assoc,
  append-nil, drop_all, ok, arith,
}
use ash.Common.Bytes.{
  to_be_bytes, from_be_bytes-to_be_bytes, length-to_be_bytes, slice, slice-skip, slice-here,
}
use ash.Protocol.Approval.Values.{approval_signing_bytes}
use ash.Protocol.Approval.Challenge.{
  ApprovalChallenge, IsTyped, validate, new, put, signing_blocks, signing_bytes, from_signing_bytes,
}

abbrev pub concat : List (List ℕ) → List ℕ
concat [] = []
concat (x ∷ xs) = x ++ concat xs

-- One `put` at the end of what was written.
put-append :
    (front rest value : List ℕ)
    → put (front ++ rest, length front) value
      ≡ ((front ++ value) ++ drop (length value) rest, length (front ++ value))
unfolding put
put-append front rest value =
    rw (take-append (length front) front rest refl, drop-append_add front rest (length value))
      (rw (append_assoc, length-append) refl)

foldl-put :
    (blocks : List (List ℕ)) (front rest : List ℕ)
    → (foldl put (front ++ rest, length front) blocks).0
      ≡ (front ++ concat blocks) ++ drop (length (concat blocks)) rest
foldl-put [] front rest = rw append-nil
foldl-put (x ∷ xs) front rest =
    ap (λ (s : List ℕ × ℕ). (foldl put s xs).0) (put-append front rest x)
    ∙ foldl-put xs (front ++ x) (drop (length x) rest)
    ∙ simp (drop-drop, length-append, append_assoc)

-- Blocks that fill the array leave nothing of it.
write_all :
    (n : ℕ) (blocks : List (List ℕ))
    → length (concat blocks) ≡ n
    → (foldl put (replicate n 0, 0) blocks).0 ≡ concat blocks
write_all n blocks h =
    foldl-put blocks [] (replicate n 0)
    ∙ rw
        (drop_all {A = ℕ} (length (concat blocks)) (replicate n 0) (h ∙ sym (length-replicate n 0)))
        (append-nil (concat blocks))

length-signing_blocks :
    (c : ApprovalChallenge)
    → IsTyped c
    → length (concat (signing_blocks c)) ≡ approval_signing_bytes
unfolding signing_blocks
length-signing_blocks c t =
    simp (length-append, length-to_be_bytes)
      (omega (arith, t.session_binding.0, t.policy_digest.0, t.action_digest.0, t.nonce.0))

blocks-signing_bytes :
    (c : ApprovalChallenge) → IsTyped c → signing_bytes c ≡ concat (signing_blocks c)
unfolding signing_bytes
blocks-signing_bytes c t =
    write_all approval_signing_bytes (signing_blocks c) (length-signing_blocks c t)

-- For a challenge whose fields have the declared sizes, the signing bytes are the version byte 1, then
-- the session, the capabilities and the expiry as eight bytes in big-endian order, then the session
-- binding, the policy digest, the action digest and the nonce, with nothing between or behind them.
pub signing_bytes-layout :
    (c : ApprovalChallenge)
    → IsTyped c
    → signing_bytes c
      ≡ 1
        ∷ (to_be_bytes 8 c.session_id
            ++ to_be_bytes 8 c.capabilities
            ++ to_be_bytes 8 c.expires_at_millis
            ++ c.session_binding
            ++ c.policy_digest
            ++ c.action_digest
            ++ c.nonce)
unfolding signing_blocks
signing_bytes-layout c t = blocks-signing_bytes c t ∙ simp (append-nil, append_assoc)

module _ (s k e b p h n : List ℕ) (ls : length s ≡ 8) (lk : length k ≡ 8) (le : length e ≡ 8)
    (lb : length b ≡ 16) (lp : length p ≡ 16) (lh : length h ≡ 32) (ln : length n ≡ 16) where
  abbrev all_blocks : List ℕ
  all_blocks = 1 ∷ (s ++ (k ++ (e ++ (b ++ (p ++ (h ++ (n ++ [])))))))

  slice_s : slice 1 8 all_blocks ≡ s
  slice_s = slice-here 8 s _ ls

  slice_k : slice 9 8 all_blocks ≡ k
  slice_k = slice-skip 8 0 8 s _ ls ∙ slice-here 8 k _ lk

  slice_e : slice 17 8 all_blocks ≡ e
  slice_e = slice-skip 8 8 8 s _ ls ∙ slice-skip 8 0 8 k _ lk ∙ slice-here 8 e _ le

  slice_b : slice 25 16 all_blocks ≡ b
  slice_b =
      slice-skip 8 16 16 s _ ls
      ∙ slice-skip 8 8 16 k _ lk
      ∙ slice-skip 8 0 16 e _ le
      ∙ slice-here 16 b _ lb

  skip_integers : (m w : ℕ) → slice (25 + m) w all_blocks ≡ slice m w (b ++ (p ++ (h ++ (n ++ []))))
  skip_integers m w =
      let r : 25 + m ≡ suc (8 + (8 + (8 + m))) = omega arith in
      rw r (
        slice-skip 8 (8 + (8 + m)) w s _ ls
        ∙ slice-skip 8 (8 + m) w k _ lk
        ∙ slice-skip 8 m w e _ le)

  slice_p : slice 41 16 all_blocks ≡ p
  slice_p = skip_integers 16 16 ∙ slice-skip 16 0 16 b _ lb ∙ slice-here 16 p _ lp

  slice_h : slice 57 32 all_blocks ≡ h
  slice_h =
      skip_integers 32 32
      ∙ slice-skip 16 16 32 b _ lb
      ∙ slice-skip 16 0 32 p _ lp
      ∙ slice-here 32 h _ lh

  slice_n : slice 89 16 all_blocks ≡ n
  slice_n =
      skip_integers 64 16
      ∙ slice-skip 16 48 16 b _ lb
      ∙ slice-skip 16 32 16 p _ lp
      ∙ slice-skip 32 0 16 h _ lh
      ∙ slice-here 16 n _ ln

  -- The ranges that the reader takes are the blocks that the writer put there.
  ranges :
      (slice 1 8 all_blocks ≡ s)
      × (slice 9 8 all_blocks ≡ k)
      × (slice 17 8 all_blocks ≡ e)
      × (slice 25 16 all_blocks ≡ b)
      × (slice 41 16 all_blocks ≡ p)
      × (slice 57 32 all_blocks ≡ h)
      × (slice 89 16 all_blocks ≡ n)
  ranges = (slice_s, slice_k, slice_e, slice_b, slice_p, slice_h, slice_n)

new-fields :
    (c : ApprovalChallenge)
    → validate c ≡ ok tt
    → new c.session_id c.capabilities c.expires_at_millis c.session_binding c.policy_digest
        c.action_digest c.nonce
      ≡ ok c
unfolding new
new-fields c v = rw v

-- Every challenge of the declared field sizes that passes validation is read back unchanged from its
-- signing bytes.
pub from_signing_bytes-signing_bytes :
    (c : ApprovalChallenge)
    → IsTyped c
    → validate c ≡ ok tt
    → from_signing_bytes (signing_bytes c) ≡ ok c
unfolding from_signing_bytes signing_blocks
from_signing_bytes-signing_bytes c t v =
    let n8 = λ (x : ℕ). length-to_be_bytes 8 x in
    let (es, ek, ee, eb, ep, eh, en) =
      ranges (to_be_bytes 8 c.session_id) (to_be_bytes 8 c.capabilities)
        (to_be_bytes 8 c.expires_at_millis) c.session_binding c.policy_digest c.action_digest
        c.nonce (n8 c.session_id) (n8 c.capabilities) (n8 c.expires_at_millis) t.session_binding.0
        t.policy_digest.0 t.action_digest.0 t.nonce.0 in
    rw (blocks-signing_bytes c t) (
      rw (es, ek, ee, eb, ep, eh, en)
        (rw
          (
            from_be_bytes-to_be_bytes 8 c.session_id (omega arith),
            from_be_bytes-to_be_bytes 8 c.capabilities (omega arith),
            from_be_bytes-to_be_bytes 8 c.expires_at_millis (omega arith),
          )
          (new-fields c v)))
