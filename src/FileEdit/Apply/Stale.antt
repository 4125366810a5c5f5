-- ===== src/FileEdit/Apply/Stale.antt =====
-- Edits of a text that is not the one their caller has read.
use rdev.Base.{
  ◌≡◌, ◌≢◌, sym, ap, ◌∙◌, true, false, some, none, arith, length, ltb, All, Bool-cases, inl, inr,
  if◌then◌else◌,
}
use rdev.FileEdit.Bytes.{Bytes, same_bytes, hex_encode, hex_decode}
use rdev.FileEdit.Slices.{same_bytes_iff}
use rdev.FileEdit.Lines.{
  EditParams, edited, failed, max_bytes, validate_edit, limit_exceeded, edit_conflict,
}
use rdev.FileEdit.Apply.{digest, apply}
use rdev.FileEdit.Apply.Outcomes.{apply-guards}
use rdev.FileEdit.RoundTrips.{IsByte, hex_decode-hex_encode}

some-injective {ℓ} : {A : Type ℓ} (a b : A) → some a ≡ some b → a ≡ b
some-injective a b h = cc

-- Digests are printed alike only where they are the same.
hex_encode-injective :
    (a b : Bytes) → All IsByte a → All IsByte b → hex_encode a ≡ hex_encode b → a ≡ b
hex_encode-injective a b h k e =
    some-injective a b
      (sym (hex_decode-hex_encode a h) ∙ ap hex_decode e ∙ hex_decode-hex_encode b k)

module _ (sha256 : Bytes → Bytes) (base other : Bytes) (p : EditParams) (out : Bytes) where
  digests_differ :
      All IsByte (sha256 base)
      → All IsByte (sha256 other)
      → sha256 other ≢ sha256 base
      → same_bytes (digest sha256 base) p.base_digest ≡ true
      → same_bytes (digest sha256 other) p.base_digest ≡ false
  unfolding digest
  digests_differ h k ne e =
      elim (Bool-cases (same_bytes (hex_encode (sha256 other)) p.base_digest)) [
        | inr n ↦ n
        | inl y ↦
            let a = (same_bytes_iff (hex_encode (sha256 base)) p.base_digest).0 e in
            let b = (same_bytes_iff (hex_encode (sha256 other)) p.base_digest).0 y in
            absurd (ne (hex_encode-injective (sha256 other) (sha256 base) k h (b ∙ sym a)))
      ]

  refused :
      validate_edit (some p) ≡ none
      → same_bytes (digest sha256 other) p.base_digest ≡ false
      → apply sha256 other p
        ≡ failed (if ltb max_bytes (length other) then limit_exceeded else edit_conflict)
  unfolding apply
  refused valid differ = ground arith

  -- An edit that `apply` makes of one text is refused for every text whose SHA-256 is another: with
  -- the limit's error where that text has more than `max_bytes` bytes, and as a conflict otherwise.
  pub apply_stale :
      All IsByte (sha256 base)
      → All IsByte (sha256 other)
      → sha256 other ≢ sha256 base
      → apply sha256 base p ≡ edited out
      → apply sha256 other p
        ≡ failed (if ltb max_bytes (length other) then limit_exceeded else edit_conflict)
  apply_stale h k ne e =
      let (valid, _, same_digest, _) = apply-guards sha256 base p out e in
      refused valid (digests_differ h k ne same_digest)
