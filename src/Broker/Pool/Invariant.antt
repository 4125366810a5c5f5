-- ===== src/Broker/Pool/Invariant.antt =====
-- The invariant of the host pool: what its slots count, and which of them may be closing.
use rdev.Base.{
  ℕ, zero, suc, ◌+◌, ◌≡◌, refl, subst, String, inl, inr, Bool, true, false, ◌&&◌, Option, none,
  some, List, [], ◌∷◌, arith, same, same_iff, if◌then◌else◌, Dict, lookup, insert, erase,
  lookup-insert, lookup-erase, Bool-cases, Option-cases, ltb, same_refl,
}
use rdev.Broker.Lane.{Lane, is_control}
use rdev.Broker.Pool.{
  HostPool, HostSlot, new_host_pool, busier, lend, retire, retire_found, retire_oldest, oldest_idle,
  is_idle, trim_rounds, trim, live_slots,
}
use rdev.Broker.Pool.Keys.{Keyed, Stands, Has, insert-Keyed, oldest_idle_lem}

-- The leases of a host that are out, and those for control.
abbrev pub held : String → List (String × Lane) → ℕ
held h [] = 0
held h ((k, _) ∷ ls) = (if same k h then 1 else 0) + held h ls

abbrev pub held_controls : String → List (String × Lane) → ℕ
held_controls h [] = 0
held_controls h ((k, l) ∷ ls) = (if same k h && is_control l then 1 else 0) + held_controls h ls

-- What a host with `n` leases, `c` of them for control, has among the entries: a slot that counts
-- them, and until the pool closes one that is closing has none; or nothing, without leases.
abbrev pub SlotOk : Bool → ℕ → ℕ → Option HostSlot → Type 0
SlotOk closed n c none = closed ≡ false → n ≡ 0
SlotOk closed n c (some s) =
    (s.active ≡ n)
    × (s.controls ≡ c)
    × (closed ≡ false → s.closing ≡ true → n ≡ 0)
    × (s.cleaned ≡ true → s.closing ≡ true)

pub record Inv (p : HostPool) : Type 0 where
  pub keyed : Keyed p.entries
  pub slots :
      (h : String)
      → SlotOk p.closed (held h p.leases) (held_controls h p.leases) (lookup h p.entries)

pub new_host_pool-Inv : (limit : ℕ) → Inv (new_host_pool limit)
unfolding new_host_pool lookup
new_host_pool-Inv limit = record { keyed = tt; slots = λ h e. refl }

abbrev pub SameLeases : String → List (String × Lane) → List (String × Lane) → Type 0
SameLeases k ls ls' =
    (h : String)
    → same k h ≡ false
    → (held h ls' ≡ held h ls) × (held_controls h ls' ≡ held_controls h ls)

module _ (closed : Bool) (ls ls' : List (String × Lane)) (m : Dict HostSlot) (k : String)
    (others : SameLeases k ls ls')
    (v : ((h : String) → SlotOk closed (held h ls) (held_controls h ls) (lookup h m))) where
  pub insert-SlotOk :
      (s : HostSlot)
      → SlotOk closed (held k ls') (held_controls k ls') (some s)
      → (h : String) → SlotOk closed (held h ls') (held_controls h ls') (lookup h (insert k s m))
  insert-SlotOk s new h = elim (Bool-cases (same k h)) [
    | inl y ↦
        let e : k ≡ h = (same_iff k h).0 y in
        rw (lookup-insert k h s m, y)
          (subst (λ j. SlotOk closed (held j ls') (held_controls j ls') (some s)) e new)
    | inr n ↦ rw (lookup-insert k h s m, n, (others h n).0, (others h n).1) (v h)
  ]

  pub erase-SlotOk :
      SlotOk closed (held k ls') (held_controls k ls') none
      → (h : String) → SlotOk closed (held h ls') (held_controls h ls') (lookup h (erase k m))
  erase-SlotOk new h = elim (Bool-cases (same k h)) [
    | inl y ↦
        let e : k ≡ h = (same_iff k h).0 y in
        rw (lookup-erase k h m, y)
          (subst (λ j. SlotOk closed (held j ls') (held_controls j ls') none) e new)
    | inr n ↦ rw (lookup-erase k h m, n, (others h n).0, (others h n).1) (v h)
  ]

pub same_leases : (k : String) (ls : List (String × Lane)) → SameLeases k ls ls
same_leases k ls h n = (refl, refl)

-- What an entry of the pool says about its host.
pub slot_lem :
    (p : HostPool) (s : HostSlot) (k : String)
    → Inv p
    → lookup k p.entries ≡ some s
    → SlotOk p.closed (held k p.leases) (held_controls k p.leases) (some s)
slot_lem p s k v e = rw e at (v.slots k)

pub retire-Inv :
    (p : HostPool) (s : HostSlot) (reason : String) (now : ℕ)
    → Stands p.entries s
    → (p.closed ≡ false → s.active ≡ 0)
    → Inv p
    → Inv (retire p s reason now)
unfolding retire
retire-Inv p s reason now st idle v = elim (Bool-cases s.closing) [
  | inl c ↦ rw c v
  | inr c ↦
      let (a, b, d, e) = slot_lem p s s.host v st in
      rw c record {
        keyed = insert-Keyed s.host (record s { closing = true }) p.entries refl v.keyed;
        slots =
            insert-SlotOk p.closed p.leases p.leases p.entries s.host (same_leases s.host p.leases)
              v.slots (record s { closing = true })
              (a, b, λ o y. omega (arith, a, idle o), λ y. refl);
      }
]

retire_found-Inv :
    (p : HostPool) (reason : String) (now : ℕ) (o : Option HostSlot)
    → Has (λ s. (is_idle s ≡ true) × Stands p.entries s) o
    → Inv p
    → Inv (retire_found p reason now o)
retire_found-Inv p reason now none h v = v
retire_found-Inv p reason now (some s) (i, st) v =
    retire-Inv p s reason now st (λ o. ground arith) v

pub retire_oldest-Inv :
    (p : HostPool) (reason : String) (now : ℕ) → Inv p → Inv (retire_oldest p reason now)
unfolding retire_oldest
retire_oldest-Inv p reason now v =
    retire_found-Inv p reason now (oldest_idle none p.entries) (oldest_idle_lem p.entries v.keyed) v

trim_rounds-Inv : (n : ℕ) (p : HostPool) (now : ℕ) → Inv p → Inv (trim_rounds n p now)
unfolding trim_rounds
trim_rounds-Inv zero p now v = v
trim_rounds-Inv (suc n) p now v = elim (Bool-cases (ltb p.limit (suc n))) [
  | inl y ↦ elim (Option-cases (oldest_idle none p.entries)) [
    | inl e ↦ rw (y, e) v
    | inr (s, e) ↦
        rw (y, e)
          (trim_rounds-Inv n (retire_oldest p "capacity_reload" now) now
            (retire_oldest-Inv p "capacity_reload" now v))
  ]
  | inr y ↦ rw y v
]

pub trim-Inv : (p : HostPool) (now : ℕ) → Inv p → Inv (trim p now)
unfolding trim
trim-Inv p now v = trim_rounds-Inv (live_slots p.entries) p now v

-- A slot that is open and counts its leases takes one more.
pub lend-Inv :
    (p : HostPool) (s : HostSlot) (lane : Lane)
    → s.closing ≡ false
    → SlotOk p.closed (held s.host p.leases) (held_controls s.host p.leases) (some s)
    → Inv p
    → Inv (lend p s lane)
lend-Inv p s lane op (a, b, c, d) v = record {
  keyed = insert-Keyed s.host (busier s lane) p.entries refl v.keyed;
  slots =
      insert-SlotOk p.closed p.leases ((s.host, lane) ∷ p.leases) p.entries s.host
        (λ h n. (ground arith, ground arith)) v.slots (busier s lane)
        (
          ground (arith, same_refl s.host),
          ground (arith, same_refl s.host),
          λ o y. ground (arith, op),
          d,
        );
}
