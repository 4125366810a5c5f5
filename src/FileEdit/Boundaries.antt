-- ===== src/FileEdit/Boundaries.antt =====
-- Where the boundaries of lines lie, and in what order.
use rdev.Base.{
  ℕ, zero, suc, ◌+◌, ◌≤◌, ◌<◌, ◌≡◌, List, [], ◌∷◌, arith, length, get_or, ◌==◌, if-elim,
}
use rdev.FileEdit.Bytes.{Bytes}
use rdev.FileEdit.Lines.{boundaries_from, boundaries}

-- The numbers go up from `low` to `high` at most.
abbrev pub Rising : ℕ → ℕ → List ℕ → Type 0
Rising low high [] = low ≤ high
Rising low high (n ∷ ns) = low ≤ n × Rising n high ns

Rising-le : (low high : ℕ) (ns : List ℕ) → Rising low high ns → low ≤ high
Rising-le low high [] h = h
Rising-le low high (n ∷ ns) h = omega (arith, h.0, Rising-le n high ns h.1)

Rising-weaker : (k low high : ℕ) (ns : List ℕ) → k ≤ low → Rising low high ns → Rising k high ns
Rising-weaker k low high [] e h = omega arith
Rising-weaker k low high (n ∷ ns) e h = (omega (arith, h.0), h.1)

boundaries_from-Rising :
    (last n total : ℕ) (b : Bytes)
    → n + length b ≡ total
    → Rising n total (boundaries_from last n b)
unfolding boundaries_from
boundaries_from-Rising last n total [] e =
    if-elim (Rising n total) (last == n) (λ y. omega arith) (λ m. (omega arith, omega arith))
boundaries_from-Rising last n total (x ∷ xs) e =
    if-elim (Rising n total) (x == 10)
      (λ y. (omega arith, boundaries_from-Rising (suc n) (suc n) total xs (omega arith)))
      (λ m.
        Rising-weaker n (suc n) total (boundaries_from last (suc n) xs) (omega arith)
          (boundaries_from-Rising last (suc n) total xs (omega arith)))

pub boundaries-Rising : (b : Bytes) → Rising 0 (length b) (boundaries b)
unfolding boundaries
boundaries-Rising b = (omega arith, boundaries_from-Rising 0 0 (length b) b (omega arith))

Rising-get :
    (low high : ℕ) (ns : List ℕ) (i : ℕ)
    → Rising low high ns
    → i < length ns
    → (low ≤ get_or ns i 0) × (get_or ns i 0 ≤ high)
Rising-get low high [] i h lt = ground arith
Rising-get low high (n ∷ ns) zero h lt = (h.0, Rising-le n high ns h.1)
Rising-get low high (n ∷ ns) (suc i) h lt =
    let g = Rising-get n high ns i h.1 (omega arith) in (omega (arith, g, h.0), g.1)

-- Two boundaries in their order.
pub Rising-get_le :
    (low high : ℕ) (ns : List ℕ) (i j : ℕ)
    → Rising low high ns
    → i ≤ j
    → j < length ns
    → (get_or ns i 0 ≤ get_or ns j 0) × (get_or ns j 0 ≤ high)
Rising-get_le low high [] i j h le lt = ground arith
Rising-get_le low high (n ∷ ns) zero zero h le lt = (omega arith, Rising-le n high ns h.1)
Rising-get_le low high (n ∷ ns) zero (suc j) h le lt = Rising-get n high ns j h.1 (omega arith)
Rising-get_le low high (n ∷ ns) (suc i) zero h le lt = ground arith
Rising-get_le low high (n ∷ ns) (suc i) (suc j) h le lt =
    Rising-get_le n high ns i j h.1 (omega arith) (omega arith)
