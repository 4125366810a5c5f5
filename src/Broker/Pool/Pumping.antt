-- ===== src/Broker/Pool/Pumping.antt =====
-- The invariant of the pool through `pumpLocked`.
use rdev.Base.{
  ℕ, ◌≤◌, ◌≡◌, refl, sym, ◌∙◌, String, inl, inr, false, ◌||◌, Option, none, some, List, [], ◌∷◌,
  arith, same_iff, Dict, lookup, Bool-cases, ltb, leb, length, if-elim,
}
use rdev.Broker.Lane.{Lane}
use rdev.Broker.Scheduler.{Env}
use rdev.Broker.Pool.{
  HostPool, HostSlot, HostWaiter, wait_canceled, new_slot, grant, trim, pump_waiter, pump_queue,
  pump,
}
use rdev.Broker.Pool.Keys.{Keyed}
use rdev.Broker.Pool.Retiring.{trim-Retires}
use rdev.Broker.Pool.Invariant.{
  Inv, SlotOk, held, held_controls, retire_oldest-Inv, trim-Inv, lend-Inv, slot_lem,
}

-- A grant on the entry of the waiter's host, or on a new one.
pub grant-Inv :
    (p : HostPool) (w : HostWaiter) (s : HostSlot)
    → s.closing ≡ false
    → SlotOk p.closed (held s.host p.leases) (held_controls s.host p.leases) (some s)
    → Inv p
    → Inv (grant p w s)
unfolding grant
grant-Inv p w s op ok v =
    let i = lend-Inv p s w.lane op ok v in record { keyed = i.keyed; slots = i.slots }

pub lookup-host :
    (m : Dict HostSlot) (k : String) (s : HostSlot) → Keyed m → lookup k m ≡ some s → s.host ≡ k
unfolding lookup
lookup-host [] k s h e = ground arith
lookup-host ((j, t) ∷ m) k s h e = ground (arith, same_iff j k, lookup-host m k s h.2)

-- The slot that stands under `k`, with its own host in place of `k`.
pub own_slot :
    (p : HostPool) (s : HostSlot) (k : String)
    → Inv p
    → lookup k p.entries ≡ some s
    → SlotOk p.closed (held s.host p.leases) (held_controls s.host p.leases) (some s)
own_slot p s k v e = rw (lookup-host p.entries k s v.keyed e) (slot_lem p s k v e)

held_controls-le : (k : String) (ls : List (String × Lane)) → held_controls k ls ≤ held k ls
held_controls-le k [] = omega arith
held_controls-le k ((j, l) ∷ ls) = ground (arith, held_controls-le k ls)

pub new_slot_ok :
    (p : HostPool) (k : String) (now : ℕ)
    → Inv p
    → p.closed ≡ false
    → lookup k p.entries ≡ none
    → SlotOk p.closed (held k p.leases) (held_controls k p.leases) (some (new_slot k now))
new_slot_ok p k now v open_ e =
    let free = rw e at (v.slots k) in
    (
      sym (free open_),
      ground (arith, free open_, held_controls-le k p.leases),
      λ o y. free open_,
      λ y. ground arith,
    )

module _ (env : Env) where
  pump_waiter-Inv :
      (next : HostPool → HostPool)
      → ((q : HostPool) → q.closed ≡ false → Inv q → Inv (next q))
      → (p : HostPool) (w : HostWaiter) (o : Option HostSlot) → p.closed ≡ false
      → lookup w.host p.entries ≡ o
      → Inv p
      → Inv (pump_waiter env next p w o)
  unfolding pump_waiter grant
  pump_waiter-Inv next ih p w (some s) op e v =
      elim (Bool-cases (s.closing || ltb p.limit (length p.entries))) [
        | inl y ↦ rw y v
        | inr n ↦
            rw n (ih (grant p w s) op (grant-Inv p w s (ground arith) (own_slot p s w.host v e) v))
      ]
  pump_waiter-Inv next ih p w none op e v = elim (Bool-cases (ltb p.limit (length p.entries))) [
    | inl y ↦ rw y v
    | inr n ↦ elim (Bool-cases (leb p.limit (length p.entries))) [
      | inl y ↦ rw (n, y) (retire_oldest-Inv p "capacity_lru" env.now v)
      | inr z ↦
          let s = new_slot w.host env.now in
          rw (n, z)
            (ih (grant p w s) op (grant-Inv p w s refl (new_slot_ok p w.host env.now v op e) v))
    ]
  ]

  pump_queue-Inv :
      (ws : List HostWaiter) (p : HostPool) → p.closed ≡ false → Inv p → Inv (pump_queue env ws p)
  unfolding pump_queue
  pump_queue-Inv [] p op v = record { keyed = v.keyed; slots = v.slots }
  pump_queue-Inv (w ∷ ws) p op v = elim (Bool-cases (env.context_done w.id)) [
    | inl y ↦ rw y (
        pump_queue-Inv ws (record p { answers = (w.id, wait_canceled) ∷ p.answers }) op
          record { keyed = v.keyed; slots = v.slots })
    | inr n ↦ rw n (
        pump_waiter-Inv (λ q. pump_queue env ws q) (λ q o i. pump_queue-Inv ws q o i)
          (record p { queue = w ∷ ws }) w (lookup w.host p.entries) op refl
          record { keyed = v.keyed; slots = v.slots })
  ]

  pub pump-Inv : (p : HostPool) → Inv p → Inv (pump env p)
  unfolding pump
  pump-Inv p v =
      if-elim Inv p.closed (λ y. v)
        (λ n.
          pump_queue-Inv p.queue (trim p env.now) ((trim-Retires p env.now v).closed ∙ n)
            (trim-Inv p env.now v))
