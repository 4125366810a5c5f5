-- ===== src/Broker/Pool/Histories.antt =====
-- Histories of the pool: any order of its methods, of the contexts' ends and of the closers' ends.
use rdev.Base.{ℕ, ◌≤◌, ◌≡◌, ◌∙◌, String, Bool, true, false, some, arith, lookup, length}
use rdev.Base.Int.{ℤ}
use rdev.Broker.Lane.{Lane}
use rdev.Broker.Scheduler.{Env}
use rdev.Broker.Pool.{HostPool, HostSlot, HostWaiter, new_host_pool}
use rdev.Broker.Pool.Entry.{
  acquire, give_up, release_host, configure_pool, base_cleaned, bulk_cleaned, try_acquire_host,
  demand_host, reap_hosts, reap_bulk, close_pool,
}
use rdev.Broker.Pool.Invariant.{Inv, new_host_pool-Inv, held, held_controls, slot_lem}
use rdev.Broker.Pool.Steps.{is_out, demand_host-Inv, try_acquire_host-Inv}
use rdev.Broker.Pool.Sweeps.{reap_hosts-Inv, reap_bulk-Inv, close_pool-Inv}
use rdev.Broker.Pool.Leases.{
  acquire-Inv, give_up-Inv, release_host-Inv, configure_pool-Inv, base_cleaned-Inv,
  bulk_cleaned-Inv,
}
use rdev.Broker.Pool.Bound.{Grows, Grows-refl, Grows-trans}
use rdev.Broker.Pool.Growing.{
  acquire-Grows, give_up-Grows, release_host-Grows, base_cleaned-Grows, bulk_cleaned-Grows,
  try_acquire_host-Grows, demand_host-Grows, reap_hosts-Grows, reap_bulk-Grows, close_pool-Grows,
}

-- A release function is called once per lease, and a host's transport is cleaned up behind its slot's
-- retirement.
pub data PoolEvent (p : HostPool) : HostPool → Type 0 where
  acquires : (env : Env) (w : HostWaiter) → PoolEvent p (acquire env p w).1
  gives_up : (env : Env) (w : HostWaiter) → PoolEvent p (give_up env p w)
  releases :
      (env : Env) (host : String) (lane : Lane)
      → is_out host lane p.leases ≡ true
      → PoolEvent p (release_host env p host lane)
  cleans_base :
      (env : Env) (host reason : String) (drain_ms : ℕ)
      → ((s : HostSlot) → lookup host p.entries ≡ some s → s.closing ≡ true)
      → PoolEvent p (base_cleaned env p host reason drain_ms)
  cleans_bulk : (env : Env) (host : String) → PoolEvent p (bulk_cleaned env p host)
  reaps : (now ttl : ℕ) (reason : String) → PoolEvent p (reap_hosts p now ttl reason).1
  reaps_bulk : (detach : String → Bool) → PoolEvent p (reap_bulk p detach).1
  closes : (now : ℕ) → PoolEvent p (close_pool p now)
  demands : (host : String) (delta : ℤ) → PoolEvent p (demand_host p host delta)
  tries : (host : String) (lane : Lane) (now : ℕ) → PoolEvent p (try_acquire_host p host lane now).1

pub PoolEvent-Inv : (p q : HostPool) → PoolEvent p q → Inv p → Inv q
PoolEvent-Inv p q (acquires env w) v = acquire-Inv env p w v
PoolEvent-Inv p q (gives_up env w) v = give_up-Inv env p w v
PoolEvent-Inv p q (releases env host lane out) v = release_host-Inv env p host lane out v
PoolEvent-Inv p q (cleans_base env host reason ms closing) v =
    base_cleaned-Inv env p host reason ms closing v
PoolEvent-Inv p q (cleans_bulk env host) v = bulk_cleaned-Inv env p host v
PoolEvent-Inv p q (reaps now ttl reason) v = reap_hosts-Inv p now ttl reason v
PoolEvent-Inv p q (reaps_bulk detach) v = reap_bulk-Inv p detach v
PoolEvent-Inv p q (closes now) v = close_pool-Inv p now v
PoolEvent-Inv p q (demands host delta) v = demand_host-Inv p host delta v
PoolEvent-Inv p q (tries host lane now) v = try_acquire_host-Inv p host lane now v

PoolEvent-Grows : (p q : HostPool) → PoolEvent p q → Inv p → Grows p q
PoolEvent-Grows p q (acquires env w) v = acquire-Grows env p w v
PoolEvent-Grows p q (gives_up env w) v = give_up-Grows env p w v
PoolEvent-Grows p q (releases env host lane out) v = release_host-Grows env p host lane out v
PoolEvent-Grows p q (cleans_base env host reason ms closing) v =
    base_cleaned-Grows env p host reason ms closing v
PoolEvent-Grows p q (cleans_bulk env host) v = bulk_cleaned-Grows env p host v
PoolEvent-Grows p q (reaps now ttl reason) v = reap_hosts-Grows p now ttl reason v
PoolEvent-Grows p q (reaps_bulk detach) v = reap_bulk-Grows p detach v
PoolEvent-Grows p q (closes now) v = close_pool-Grows p now v
PoolEvent-Grows p q (demands host delta) v = demand_host-Grows p host delta
PoolEvent-Grows p q (tries host lane now) v = try_acquire_host-Grows p host lane now v

-- Any number of events, without a change of the limit.
pub data PoolLater (p : HostPool) : HostPool → Type 0 where
  at_once : PoolLater p p
  one_more : {q r : HostPool} → PoolLater p q → PoolEvent q r → PoolLater p r

-- The pools that there are, their limits changed or not.
pub data PoolReached : HostPool → Type 0 where
  opens : (limit : ℕ) → PoolReached (new_host_pool limit)
  takes : {p q : HostPool} → PoolReached p → PoolEvent p q → PoolReached q
  configures :
      {p : HostPool} (env : Env) (limit : ℕ)
      → PoolReached p
      → PoolReached (configure_pool env p limit)

pub PoolReached-Inv : (p : HostPool) → PoolReached p → Inv p
PoolReached-Inv p (opens limit) = new_host_pool-Inv limit
PoolReached-Inv p (takes {p = q} before e) = PoolEvent-Inv q p e (PoolReached-Inv q before)
PoolReached-Inv p (configures {p = q} env limit before) =
    configure_pool-Inv env q limit (PoolReached-Inv q before)

-- In every pool that is reached, changes of the limit included, the slot of a host counts the
-- leases of the host that are out, and among them those of control requests; and unless the pool
-- is closed a slot that is closing has none. A release gives back a lease that is out, and a
-- transport is cleaned up only for a slot that is closing.
pub slots_count_leases :
    (p : HostPool) (host : String) (s : HostSlot)
    → PoolReached p
    → lookup host p.entries ≡ some s
    → (s.active ≡ held host p.leases)
      × (s.controls ≡ held_controls host p.leases)
      × (p.closed ≡ false → s.closing ≡ true → s.active ≡ 0)
slots_count_leases p host s r e =
    let (a, b, c, d) = slot_lem p s host (PoolReached-Inv p r) e in (a, b, λ o y. a ∙ c o y)

later-Grows : (p q : HostPool) → PoolLater p q → Inv p → Inv q × Grows p q
later-Grows p q at_once v = (v, Grows-refl p)
later-Grows p q (one_more {q = r} before e) v =
    let (i, g) = later-Grows p r before v in
    (PoolEvent-Inv r q e i, Grows-trans p r q g (PoolEvent-Grows r q e i))

-- From a pool that is reached and holds no more hosts than its limit, whatever happens to it
-- without a change of the limit (acquisitions, waiters that give up, releases, ends of cleanups,
-- reaps, `Close`, demands and attempts of the scheduler), the limit stays what it is and the pool
-- still holds no more hosts.
pub reserved_hosts_bounded :
    (p q : HostPool)
    → PoolReached p
    → PoolLater p q
    → length p.entries ≤ p.limit
    → (q.limit ≡ p.limit) × (length q.entries ≤ q.limit)
reserved_hosts_bounded p q r later room =
    let (_, g) = later-Grows p q later (PoolReached-Inv p r) in
    (g.limit, omega (arith, g.limit, g.reserved p.limit room (omega arith)))
