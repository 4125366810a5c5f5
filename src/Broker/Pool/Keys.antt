-- ===== src/Broker/Pool/Keys.antt =====
-- The entries of the pool: each slot stands under its host, once.
use rdev.Base.{
  ◌≡◌, refl, String, inl, inr, true, ◌&&◌, Option, none, some, [], ◌∷◌, arith, same, same_iff, Dict,
  lookup, insert, erase, lookup-insert, lookup-erase, Bool-cases,
}
use rdev.Broker.Pool.{HostSlot, is_idle, older, before, oldest_idle}

abbrev pub Keyed : Dict HostSlot → Type 0
Keyed [] = Unit {0}
Keyed ((k, s) ∷ m) = (s.host ≡ k) × (lookup k m ≡ none) × Keyed m

abbrev pub Every : (HostSlot → Type 0) → Dict HostSlot → Type 0
Every P [] = Unit {0}
Every P ((_, s) ∷ m) = P s × Every P m

abbrev pub Stands : Dict HostSlot → HostSlot → Type 0
Stands m s = lookup s.host m ≡ some s

pub insert-Keyed :
    (k : String) (s : HostSlot) (m : Dict HostSlot) → s.host ≡ k → Keyed m → Keyed (insert k s m)
unfolding insert lookup
insert-Keyed k s [] e h = (e, refl, tt)
insert-Keyed k s ((j, t) ∷ m) e h = elim (Bool-cases (same j k)) [
  | inl y ↦ rw y (ground (arith, same_iff j k))
  | inr n ↦ rw n (
    h.0,
    ground (arith, lookup-insert k j s m, same_iff j k, same_iff k j),
    insert-Keyed k s m e h.2,
  )
]

pub erase-Keyed : (k : String) (m : Dict HostSlot) → Keyed m → Keyed (erase k m)
unfolding erase
erase-Keyed k [] h = tt
erase-Keyed k ((j, t) ∷ m) h = elim (Bool-cases (same j k)) [
  | inl y ↦ rw y (erase-Keyed k m h.2)
  | inr n ↦
      rw n
        (h.0, ground (arith, lookup-erase k j m, same_iff j k, same_iff k j), erase-Keyed k m h.2)
]

pub Every-imp :
    (P Q : HostSlot → Type 0)
    → ((s : HostSlot) → P s → Q s)
    → (m : Dict HostSlot) → Every P m
    → Every Q m
Every-imp P Q f [] h = tt
Every-imp P Q f ((_, s) ∷ m) h = (f s h.0, Every-imp P Q f m h.1)

-- A slot that stands behind another stands under another host.
Stands-cons :
    (k : String) (t s : HostSlot) (m : Dict HostSlot)
    → lookup k m ≡ none
    → Stands m s
    → Stands ((k, t) ∷ m) s
unfolding lookup
Stands-cons k t s m free h = ground (arith, same_iff k s.host)

pub Every-Stands : (m : Dict HostSlot) → Keyed m → Every (Stands m) m
unfolding lookup
Every-Stands [] h = tt
Every-Stands ((k, s) ∷ m) h = (
  ground (arith, same_iff k s.host),
  Every-imp (Stands m) (Stands ((k, s) ∷ m)) (λ t u. Stands-cons k s t m h.1 u) m
      (Every-Stands m h.2),
)

-- What a search finds has whatever idle slots have.
abbrev pub Has : (HostSlot → Type 0) → Option HostSlot → Type 0
Has P none = Unit {0}
Has P (some s) = P s

older-Has :
    (P : HostSlot → Type 0) (o : Option HostSlot) (s : HostSlot)
    → Has P o
    → (is_idle s ≡ true → P s)
    → Has P (older o s)
older-Has P none s h k = elim (Bool-cases (is_idle s)) [ inl y ↦ rw y (k y) | inr n ↦ rw n tt ]
older-Has P (some t) s h k = elim (Bool-cases (is_idle s && before s.idle t.idle)) [
  | inl y ↦ rw y (k (ground arith))
  | inr n ↦ rw n h
]

oldest_idle-Has :
    (P : HostSlot → Type 0) (m : Dict HostSlot) (o : Option HostSlot)
    → Has P o
    → Every (λ s. is_idle s ≡ true → P s) m
    → Has P (oldest_idle o m)
unfolding oldest_idle
oldest_idle-Has P [] o h k = h
oldest_idle-Has P ((_, s) ∷ m) o h k = oldest_idle-Has P m (older o s) (older-Has P o s h k.0) k.1

-- `oldestIdleLocked` finds an idle slot of the entries.
pub oldest_idle_lem :
    (m : Dict HostSlot) → Keyed m → Has (λ s. (is_idle s ≡ true) × Stands m s) (oldest_idle none m)
oldest_idle_lem m h =
    oldest_idle-Has (λ s. (is_idle s ≡ true) × Stands m s) m none tt
      (Every-imp (Stands m) (λ s. is_idle s ≡ true → (is_idle s ≡ true) × Stands m s)
        (λ s st i. (i, st)) m (Every-Stands m h))
