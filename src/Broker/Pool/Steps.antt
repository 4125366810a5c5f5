-- ===== src/Broker/Pool/Steps.antt =====
-- The invariant of the pool at each of its methods.
use rdev.Base.{
  ℕ, ◌+◌, ◌≡◌, refl, ◌∙◌, String, Bool, true, false, not, ◌&&◌, ◌||◌, Option, none, some, List, [],
  ◌∷◌, arith, same, same_iff, if◌then◌else◌, lookup, insert, erase, ltb, leb, length, if-elim,
}
use rdev.Base.Int.{ℤ}
use rdev.Broker.Lane.{Lane, control, exec, bulk, is_control, same_lane}
use rdev.Broker.Pool.{HostPool, HostSlot, new_slot, trim}
use rdev.Broker.Pool.Entry.{take_lease, yields_to_cold, demand_host, try_slot, try_acquire_host}
use rdev.Broker.Pool.Invariant.{
  Inv, SameLeases, held, held_controls, retire_oldest-Inv, trim-Inv, lend-Inv,
}
use rdev.Broker.Pool.Retiring.{trim-Retires}
use rdev.Broker.Pool.Pumping.{own_slot, new_slot_ok}

-- The lease is out.
abbrev pub is_out : String → Lane → List (String × Lane) → Bool
is_out host lane [] = false
is_out host lane ((h, l) ∷ ls) = same h host && same_lane l lane || is_out host lane ls

same_lane-control : (l k : Lane) → same_lane l k ≡ true → is_control l ≡ is_control k
same_lane-control control control h = refl
same_lane-control exec exec h = refl
same_lane-control bulk bulk h = refl
same_lane-control control exec h = cc
same_lane-control control bulk h = cc
same_lane-control exec control h = cc
same_lane-control exec bulk h = cc
same_lane-control bulk control h = cc
same_lane-control bulk exec h = cc

pub take_lease-held :
    (host : String) (lane : Lane) (ls : List (String × Lane))
    → is_out host lane ls ≡ true
    → (held host (take_lease host lane ls) + 1 ≡ held host ls)
      × (held_controls host (take_lease host lane ls) + (if is_control lane then 1 else 0)
          ≡ held_controls host ls)
unfolding take_lease
take_lease-held host lane [] h = ground arith
take_lease-held host lane ((k, l) ∷ ls) h =
    ground (arith, take_lease-held host lane ls, same_lane-control l lane)

pub take_lease-others :
    (host : String) (lane : Lane) (ls : List (String × Lane))
    → SameLeases host ls (take_lease host lane ls)
unfolding take_lease
take_lease-others host lane [] h n = (refl, refl)
take_lease-others host lane ((k, l) ∷ ls) h n =
    ground
      (arith, take_lease-others host lane ls h n, same_iff k host, same_iff k h, same_iff host h)

-- A step that leaves entries, leases and `closed` alone.
pub same-Inv :
    (p q : HostPool)
    → q.entries ≡ p.entries
    → q.leases ≡ p.leases
    → q.closed ≡ p.closed
    → Inv p
    → Inv q
same-Inv p q e l c v = record { keyed = rw e v.keyed; slots = λ h. rw (e, l, c) (v.slots h) }

pub demand_host-Inv :
    (p : HostPool) (host : String) (delta : ℤ) → Inv p → Inv (demand_host p host delta)
unfolding demand_host
demand_host-Inv p host delta v =
    same-Inv p (demand_host p host delta) (ground arith) (ground arith) (ground arith) v

try_slot-Inv :
    (p : HostPool) (host : String) (lane : Lane) (now : ℕ) (o : Option HostSlot)
    → p.closed ≡ false
    → lookup host p.entries ≡ o
    → Inv p
    → Inv (try_slot p host lane now o).1
unfolding try_slot
try_slot-Inv p host lane now none op e v =
    if-elim (λ (r : Bool × HostPool). Inv r.1) (leb p.limit (length p.entries))
      (λ y.
        retire_oldest-Inv (record p { blocked_cold = insert host true p.blocked_cold })
          "capacity_lru" now record { keyed = v.keyed; slots = v.slots })
      (λ n.
        lend-Inv (record p { blocked_cold = erase host p.blocked_cold }) (new_slot host now) lane
          refl (new_slot_ok p host now v op e) record { keyed = v.keyed; slots = v.slots })
try_slot-Inv p host lane now (some s) op e v =
    if-elim (λ (r : Bool × HostPool). Inv r.1) s.closing (λ y. v)
      (λ shut.
        if-elim (λ (r : Bool × HostPool). Inv r.1)
          (not (is_control lane) && ltb p.limit (length p.entries)) (λ y. v)
          (λ n.
            if-elim (λ (r : Bool × HostPool). Inv r.1) (yields_to_cold p s lane) (λ y. v)
              (λ m. lend-Inv p s lane shut (own_slot p s host v e) v)))

pub try_acquire_host-Inv :
    (p : HostPool) (host : String) (lane : Lane) (now : ℕ)
    → Inv p
    → Inv (try_acquire_host p host lane now).1
unfolding try_acquire_host
try_acquire_host-Inv p host lane now v =
    let p' = trim p now in
    if-elim (λ (r : Bool × HostPool). Inv r.1) p.closed (λ y. v)
      (λ n.
        try_slot-Inv p' host lane now (lookup host p'.entries) ((trim-Retires p now v).closed ∙ n)
          refl (trim-Inv p now v))
