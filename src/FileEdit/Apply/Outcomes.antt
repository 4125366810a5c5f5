-- ===== src/FileEdit/Apply/Outcomes.antt =====
-- What holds of the base and of the result when `Apply` succeeds.
use rdev.Base.{
  ◌≤◌, ◌≡◌, sym, subst, ◌∙◌, true, false, Option, none, some, List, arith, length, All, inl, inr,
  Bool-cases, Option-cases, same,
}
use rdev.FileEdit.Bytes.{Bytes, same_bytes, is_text}
use rdev.FileEdit.Lines.{
  EditParams, edited, bind-edited, max_bytes, validate_kind, validate_edit, size_of,
}
use rdev.FileEdit.Patch.{Splice}
use rdev.FileEdit.Apply.{
  splice_all, spliced_size, sort_splices, apply_search, apply_splices, splices_of, apply_content,
  digest, apply,
}
use rdev.FileEdit.Apply.Splicing.{
  Inside, Ordered, replace_ranges, spliced_size_lem, splice_all-replace_ranges,
}
use rdev.FileEdit.Apply.Inside.{sort_splices-Inside, splices_of-Inside}

-- The size of a replacement's content.
content_bounded :
    (p : EditParams)
    → validate_edit (some p) ≡ none
    → same p.kind "replace" ≡ true
    → size_of p.content ≤ max_bytes
unfolding validate_edit validate_kind
content_bounded p h k = ground arith

apply_content-bounded :
    (content : Option Bytes) (out : Bytes)
    → size_of content ≤ max_bytes
    → apply_content content ≡ edited out
    → length out ≤ max_bytes
unfolding apply_content
apply_content-bounded none out b h = cc
apply_content-bounded (some c) out b h =
    let e : c ≡ out = ground arith in subst (λ (o : Bytes). length o ≤ max_bytes) e b

apply_search-bounded :
    (base : Bytes) (p : EditParams) (out : Bytes)
    → apply_search base p ≡ edited out
    → length out ≤ max_bytes
unfolding apply_search
apply_search-bounded base p out h = ground arith

apply_splices_lem :
    (base : Bytes) (ss : List Splice) (out : Bytes)
    → All (Inside (length base)) ss
    → length base ≤ max_bytes
    → apply_splices base ss ≡ edited out
    → (Ordered 0 (sort_splices ss))
      × (out ≡ replace_ranges base (sort_splices ss))
      × (length out ≤ max_bytes)
unfolding apply_splices
apply_splices_lem base ss out v b h =
    let sorted = sort_splices ss in
    let w = sort_splices-Inside (length base) ss v in
    let (n, e, k) = bind-edited (spliced_size (length base) none sorted) _ h in
    let (o, sum, small) =
      spliced_size_lem base sorted (length base) n none w (omega arith) (omega arith) e in
    let q : splice_all base 0 sorted ≡ out = ground arith in
    (
      o,
      sym q ∙ splice_all-replace_ranges base 0 sorted w o,
      subst (λ (x : Bytes). length x ≤ max_bytes) q (omega (arith, sum, small b)),
    )

module _ (sha256 : Bytes → Bytes) (base : Bytes) (p : EditParams) (out : Bytes) where
  -- What `Apply` has checked when it succeeds.
  pub apply-guards :
      apply sha256 base p ≡ edited out
      → (validate_edit (some p) ≡ none)
        × (length base ≤ max_bytes)
        × (same_bytes (digest sha256 base) p.base_digest ≡ true)
        × (is_text base ≡ true)
  unfolding apply
  apply-guards h = elim (Option-cases (validate_edit (some p))) [
    | inl n ↦ (n, ground arith, ground arith, ground arith)
    | inr (c, e) ↦ ground arith
  ]

  apply-route :
      apply sha256 base p ≡ edited out
      → same p.kind "replace" ≡ false
      → same p.kind "search" ≡ false
      → (ss : List Splice) × (splices_of base p ≡ edited ss) × (apply_splices base ss ≡ edited out)
  unfolding apply
  apply-route h r s =
      let (a, b, c, d) = apply-guards h in
      bind-edited (splices_of base p) (apply_splices base) (ground arith)

  -- When `apply` succeeds on line edits or a patch, the edits are splices that lie inside of the
  -- base and, once sorted, behind each other without overlap, and the result is the base with the
  -- splices made one by one, the last of them first.
  pub apply_in_order :
      apply sha256 base p ≡ edited out
      → same p.kind "replace" ≡ false
      → same p.kind "search" ≡ false
      → (ss : List Splice) × (splices_of base p ≡ edited ss)
        × (All (Inside (length base)) (sort_splices ss))
        × (Ordered 0 (sort_splices ss))
        × (out ≡ replace_ranges base (sort_splices ss))
  apply_in_order h r s =
      let (a, b, c, d) = apply-guards h in
      let (ss, e, k) = apply-route h r s in
      let v = splices_of-Inside base p ss a r s e in
      let (o, q, _) = apply_splices_lem base ss out v b k in
      (ss, e, sort_splices-Inside (length base) ss v, o, q)

  apply-replace :
      apply sha256 base p ≡ edited out
      → same p.kind "replace" ≡ true
      → apply_content p.content ≡ edited out
  unfolding apply
  apply-replace h r = let (a, b, c, d) = apply-guards h in ground arith

  apply-search :
      apply sha256 base p ≡ edited out
      → same p.kind "replace" ≡ false
      → same p.kind "search" ≡ true
      → apply_search base p ≡ edited out
  unfolding apply
  apply-search h r s = let (a, b, c, d) = apply-guards h in ground arith

  -- No result of `apply`, of whatever kind of edit, has more than `max_bytes` bytes.
  pub apply_bounded : apply sha256 base p ≡ edited out → length out ≤ max_bytes
  apply_bounded h =
      let (a, b, c, d) = apply-guards h in
      elim (Bool-cases (same p.kind "replace")) [
        | inl y ↦ apply_content-bounded p.content out (content_bounded p a y) (apply-replace h y)
        | inr n ↦ elim (Bool-cases (same p.kind "search")) [
          | inl y ↦ apply_search-bounded base p out (apply-search h n y)
          | inr m ↦
              let (ss, e, k) = apply-route h n m in
              (apply_splices_lem base ss out (splices_of-Inside base p ss a n m e) b k).2
        ]
      ]
