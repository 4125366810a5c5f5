-- ===== src/Broker/Pool/Growing.antt =====
-- The number of hosts with a slot at each method of the pool.
use rdev.Base.{
  ℕ, ◌≤◌, ◌≡◌, refl, String, Bool, true, false, not, ◌&&◌, Option, none, some, [], ◌∷◌, ◌++◌, arith,
  Dict, lookup, insert, erase, ltb, leb, length, if-elim, length-erase-le,
}
use rdev.Base.Int.{ℤ}
use rdev.Broker.Lane.{Lane, is_control}
use rdev.Broker.Scheduler.{Env}
use rdev.Broker.Pool.{
  HostPool, HostSlot, HostWaiter, wait_canceled, new_slot, lend, grant, notify, retire,
  retire_oldest, trim, pump,
}
use rdev.Broker.Pool.Entry.{
  Acquired, take_lease, quieter, give_back, without, is_queued, yields_to_cold, acquire_open,
  enqueue_waiter, acquire, give_up, release_host, refuse_waiters, cleaned_entries, base_cleaned,
  bulk_cleaned_entries, bulk_cleaned, try_slot, try_acquire_host, demand_host, reap_hosts,
  reap_bulk, close_pool,
}
use rdev.Broker.Pool.Keys.{Every-Stands}
use rdev.Broker.Pool.Invariant.{Inv, retire-Inv, trim-Inv}
use rdev.Broker.Pool.Retiring.{retire-Retires, retire_oldest-Retires, trim-Retires}
use rdev.Broker.Pool.Steps.{is_out}
use rdev.Broker.Pool.Sweeps.{reap_entries-keeps, reap_bulk_entries-keeps, retire_all-keeps}
use rdev.Broker.Pool.Leases.{give_back-Inv, cleaned_entries-Inv, bulk_cleaned_entries-Inv}
use rdev.Broker.Pool.Bound.{
  Grows, Grows-refl, Grows-trans, Retires-Grows, length-put, lend-Grows, open-Grows, same-Grows,
  pump-Grows,
}

-- No entry more, at the same limit.
fewer-Grows : (p q : HostPool) → q.limit ≡ p.limit → length q.entries ≤ length p.entries → Grows p q
fewer-Grows p q l e = record { limit = l; reserved = λ n a b. omega (arith, e) }

pub demand_host-Grows :
    (p : HostPool) (host : String) (delta : ℤ) → Grows p (demand_host p host delta)
unfolding demand_host
demand_host-Grows p host delta =
    fewer-Grows p (demand_host p host delta) (ground arith) (ground arith)

try_slot-Grows :
    (p : HostPool) (host : String) (lane : Lane) (now : ℕ) (o : Option HostSlot)
    → lookup host p.entries ≡ o
    → Inv p
    → Grows p (try_slot p host lane now o).1
unfolding try_slot
try_slot-Grows p host lane now none e v =
    let q = record p { blocked_cold = insert host true p.blocked_cold } in
    if-elim (λ (r : Bool × HostPool). Grows p r.1) (leb p.limit (length p.entries))
      (λ y.
        let r =
          retire_oldest-Retires q "capacity_lru" now record { keyed = v.keyed; slots = v.slots } in
        fewer-Grows p (retire_oldest q "capacity_lru" now) r.limit (omega (arith, r.reserved)))
      (λ n.
        let g =
          open-Grows (record p { blocked_cold = erase host p.blocked_cold }) (new_slot host now)
            lane (ground arith) in
        record { limit = g.limit; reserved = g.reserved })
try_slot-Grows p host lane now (some s) e v =
    if-elim (λ (r : Bool × HostPool). Grows p r.1) s.closing (λ y. Grows-refl p)
      (λ shut.
        if-elim (λ (r : Bool × HostPool). Grows p r.1)
          (not (is_control lane) && ltb p.limit (length p.entries)) (λ y. Grows-refl p)
          (λ n.
            if-elim (λ (r : Bool × HostPool). Grows p r.1) (yields_to_cold p s lane)
              (λ y. Grows-refl p) (λ m. lend-Grows p host s lane v.keyed e)))

pub try_acquire_host-Grows :
    (p : HostPool) (host : String) (lane : Lane) (now : ℕ)
    → Inv p
    → Grows p (try_acquire_host p host lane now).1
unfolding try_acquire_host
try_acquire_host-Grows p host lane now v =
    let p' = trim p now in
    if-elim (λ (r : Bool × HostPool). Grows p r.1) p.closed (λ y. Grows-refl p)
      (λ n.
        Grows-trans p p' (try_slot p' host lane now (lookup host p'.entries)).1
          (Retires-Grows p p' (trim-Retires p now v))
          (try_slot-Grows p' host lane now (lookup host p'.entries) refl (trim-Inv p now v)))

-- Both at once: what a loop over the entries keeps.
abbrev Kept : HostPool → HostPool → Type 0
Kept p q = Inv q × Grows p q

pub reap_hosts-Grows :
    (p : HostPool) (now ttl : ℕ) (reason : String) → Inv p → Grows p (reap_hosts p now ttl reason).1
unfolding reap_hosts
reap_hosts-Grows p now ttl reason v =
    (reap_entries-keeps (Kept p) now ttl reason
      (λ q s st z k. (
        retire-Inv q s reason now st (λ o. z) k.0,
        Grows-trans p q (retire q s reason now) k.1
            (Retires-Grows q (retire q s reason now) (retire-Retires q s reason now st)),
      ))
      p.entries p v.keyed (Every-Stands p.entries v.keyed) (v, Grows-refl p)).1

pub reap_bulk-Grows :
    (p : HostPool) (detach : String → Bool) → Inv p → Grows p (reap_bulk p detach).1
unfolding reap_bulk
reap_bulk-Grows p detach v =
    reap_bulk_entries-keeps (λ q. Grows p q) detach
      (λ q s st k.
        let t = record s { bulk_closing = true } in
        Grows-trans p q (record q { entries = insert s.host t q.entries }) k
          (fewer-Grows q (record q { entries = insert s.host t q.entries }) refl
            (omega (arith, length-put q.entries s.host s t st))))
      p.entries p v.keyed (Every-Stands p.entries v.keyed) (Grows-refl p)

pub close_pool-Grows : (p : HostPool) (now : ℕ) → Inv p → Grows p (close_pool p now)
unfolding close_pool
close_pool-Grows p now v =
    retire_all-keeps (λ q. Grows p q) now
      (λ q s c st k.
        Grows-trans p q (retire q s "shutdown" now) k
          (Retires-Grows q (retire q s "shutdown" now) (retire-Retires q s "shutdown" now st)))
      p.entries (record p { closed = true; queue = []; answers = refuse_waiters p.queue p.answers })
      refl v.keyed (Every-Stands p.entries v.keyed) record { limit = refl; reserved = λ n a b. a }

give_back-Grows :
    (p : HostPool) (host : String) (lane : Lane) (now : ℕ) (o : Option HostSlot)
    → lookup host p.entries ≡ o
    → Grows p (give_back (record p { leases = take_lease host lane p.leases }) host lane now o)
give_back-Grows p host lane now none e = record { limit = refl; reserved = λ n a b. a }
give_back-Grows p host lane now (some s) e =
    fewer-Grows p
      (give_back (record p { leases = take_lease host lane p.leases }) host lane now (some s)) refl
      (omega (arith, length-put p.entries host s (quieter s lane now) e))

pub length-cleaned_entries :
    (m : Dict HostSlot) (host : String) (o : Option HostSlot)
    → lookup host m ≡ o
    → length (cleaned_entries m host o) ≤ length m
length-cleaned_entries m host none e = ground arith
length-cleaned_entries m host (some s) e =
    ground (arith, length-put m host s (record s { cleaned = true }) e, length-erase-le host m)

pub length-bulk_cleaned_entries :
    (m : Dict HostSlot) (host : String) (o : Option HostSlot)
    → lookup host m ≡ o
    → length (bulk_cleaned_entries m host o) ≤ length m
length-bulk_cleaned_entries m host none e = ground arith
length-bulk_cleaned_entries m host (some s) e =
    ground
      (arith, length-put m host s (record s { bulk_closing = false }) e, length-erase-le host m)

module _ (env : Env) where
  -- A method that ends with `pumpLocked`.
  then_pump : (p q : HostPool) → Inv q → Grows p q → Grows p (pump env q)
  then_pump p q v g = Grows-trans p q (pump env q) g (pump-Grows env q v)

  then_notify : (p q : HostPool) → Inv q → Grows p q → Grows p (notify (pump env q))
  unfolding notify
  then_notify p q v g =
      let h = then_pump p q v g in record { limit = h.limit; reserved = h.reserved }

  pub release_host-Grows :
      (p : HostPool) (host : String) (lane : Lane)
      → is_out host lane p.leases ≡ true
      → Inv p
      → Grows p (release_host env p host lane)
  unfolding release_host
  release_host-Grows p host lane out v =
      then_notify p
        (give_back (record p { leases = take_lease host lane p.leases }) host lane env.now
          (lookup host p.entries))
        (give_back-Inv p host lane env.now (lookup host p.entries) out refl v)
        (give_back-Grows p host lane env.now (lookup host p.entries) refl)

  pub base_cleaned-Grows :
      (p : HostPool) (host reason : String) (drain_ms : ℕ)
      → ((s : HostSlot) → lookup host p.entries ≡ some s → s.closing ≡ true)
      → Inv p
      → Grows p (base_cleaned env p host reason drain_ms)
  unfolding base_cleaned
  base_cleaned-Grows p host reason drain_ms closing v =
      let i = cleaned_entries-Inv p host (lookup host p.entries) refl closing v in
      then_notify p _ record { keyed = i.keyed; slots = i.slots }
        (fewer-Grows p _ refl (length-cleaned_entries p.entries host (lookup host p.entries) refl))

  pub bulk_cleaned-Grows :
      (p : HostPool) (host : String) → Inv p → Grows p (bulk_cleaned env p host)
  unfolding bulk_cleaned
  bulk_cleaned-Grows p host v =
      let q = record p { entries = bulk_cleaned_entries p.entries host (lookup host p.entries) } in
      then_notify p q (bulk_cleaned_entries-Inv p host (lookup host p.entries) refl v) (
        fewer-Grows p q refl
          (length-bulk_cleaned_entries p.entries host (lookup host p.entries) refl))

  pub give_up-Grows : (p : HostPool) (w : HostWaiter) → Inv p → Grows p (give_up env p w)
  unfolding give_up
  give_up-Grows p w v =
      let q = record p {
        queue = without w.id p.queue;
        answers = (w.id, wait_canceled) ∷ p.answers;
      } in
      if-elim (Grows p) (is_queued w.id p.queue)
        (λ y.
          then_pump p q record { keyed = v.keyed; slots = v.slots }
            record { limit = refl; reserved = λ n a b. a })
        (λ n. Grows-refl p)

  enqueue_waiter-Grows :
      (p : HostPool) (w : HostWaiter) → Inv p → Grows p (enqueue_waiter env p w).1
  enqueue_waiter-Grows p w v =
      let q = record p { queue = p.queue ++ w ∷ [] } in
      if-elim (λ (r : Acquired × HostPool). Grows p r.1) (leb 1024 (length p.queue))
        (λ y. Grows-refl p)
        (λ n.
          then_pump p q record { keyed = v.keyed; slots = v.slots }
            record { limit = refl; reserved = λ n a b. a })

  acquire_open-Grows :
      (p : HostPool) (w : HostWaiter) (o : Option HostSlot)
      → lookup w.host p.entries ≡ o
      → Inv p
      → Grows p (acquire_open env p w o).1
  unfolding grant
  acquire_open-Grows p w none e v = enqueue_waiter-Grows p w v
  acquire_open-Grows p w (some s) e v =
      if-elim (λ (r : Acquired × HostPool). Grows p r.1) (is_control w.lane && not s.closing)
        (λ y.
          same-Grows p p (lend p s w.lane) (grant p w s) refl refl refl refl
            (lend-Grows p w.host s w.lane v.keyed e))
        (λ n. enqueue_waiter-Grows p w v)

  pub acquire-Grows : (p : HostPool) (w : HostWaiter) → Inv p → Grows p (acquire env p w).1
  unfolding acquire
  acquire-Grows p w v =
      if-elim (λ (r : Acquired × HostPool). Grows p r.1) (env.context_done w.id) (λ y. Grows-refl p)
        (λ n.
          if-elim (λ (r : Acquired × HostPool). Grows p r.1) p.closed (λ y. Grows-refl p)
            (λ m. acquire_open-Grows p w (lookup w.host p.entries) refl v))
