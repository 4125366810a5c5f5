-- ===== src/Broker/Pool/Closed.antt =====
-- A pool behind `Close`.
use rdev.Base.{
  ℕ, ◌≤◌, ◌≡◌, refl, ap, ◌∙◌, String, Bool, true, Option, none, some, List, [], ◌∷◌, arith, if-elim,
  lookup, length,
}
use rdev.Base.Int.{ℤ}
use rdev.Broker.Lane.{Lane}
use rdev.Broker.Scheduler.{Env}
use rdev.Broker.Pool.{HostPool, HostSlot, HostWaiter, wait_canceled, notify, pump, retire}
use rdev.Broker.Pool.Entry.{
  Acquired, take_lease, quieter, give_back, without, is_queued, acquire, give_up, release_host,
  refuse_waiters, base_cleaned, bulk_cleaned_entries, bulk_cleaned, try_acquire_host, demand_host,
  reap_hosts, reap_bulk, close_pool,
}
use rdev.Broker.Pool.Keys.{Every-Stands}
use rdev.Broker.Pool.Invariant.{Inv}
use rdev.Broker.Pool.Retiring.{Retires, retire-Retires}
use rdev.Broker.Pool.Sweeps.{reap_entries-keeps, reap_bulk_entries-keeps, retire_all-keeps}
use rdev.Broker.Pool.Bound.{length-put}
use rdev.Broker.Pool.Growing.{length-cleaned_entries, length-bulk_cleaned_entries}
use rdev.Broker.Pool.Histories.{
  PoolEvent, acquires, gives_up, releases, cleans_base, cleans_bulk, reaps, reaps_bulk, closes,
  demands, tries, PoolEvent-Inv, PoolLater, at_once, one_more, PoolReached, PoolReached-Inv,
}

-- Closed, with no lease and no entry more.
pub record WindsDown (p q : HostPool) : Type 0 where
  pub closed : q.closed ≡ true
  pub leases : length q.leases ≤ length p.leases
  pub entries : length q.entries ≤ length p.entries

WindsDown-refl : (p : HostPool) → p.closed ≡ true → WindsDown p p
WindsDown-refl p c = record { closed = c; leases = omega arith; entries = omega arith }

WindsDown-trans : (p q r : HostPool) → WindsDown p q → WindsDown q r → WindsDown p r
WindsDown-trans p q r a b = record {
  closed = b.closed;
  leases = omega (arith, a.leases, b.leases);
  entries = omega (arith, a.entries, b.entries);
}

Retires-WindsDown : (p q : HostPool) → p.closed ≡ true → Retires p q → WindsDown p q
Retires-WindsDown p q c r = record {
  closed = r.closed ∙ c;
  leases = omega (arith, ap length r.leases);
  entries = omega (arith, r.reserved);
}

length-take_lease :
    (host : String) (lane : Lane) (ls : List (String × Lane))
    → length (take_lease host lane ls) ≤ length ls
unfolding take_lease
length-take_lease host lane [] = omega arith
length-take_lease host lane ((h, l) ∷ ls) = ground (arith, length-take_lease host lane ls)

length-give_back :
    (p : HostPool) (host : String) (lane : Lane) (now : ℕ) (o : Option HostSlot)
    → lookup host p.entries ≡ o
    → p.closed ≡ true
    → WindsDown p (give_back (record p { leases = take_lease host lane p.leases }) host lane now o)
length-give_back p host lane now none e c = record {
  closed = c;
  leases = length-take_lease host lane p.leases;
  entries = omega arith;
}
length-give_back p host lane now (some s) e c = record {
  closed = c;
  leases = length-take_lease host lane p.leases;
  entries = omega (arith, length-put p.entries host s (quieter s lane now) e);
}

-- The pump does nothing in a closed pool.
notify-WindsDown : (env : Env) (p q : HostPool) → WindsDown p q → WindsDown p (notify (pump env q))
unfolding notify pump
notify-WindsDown env p q w =
    if-elim (λ r. WindsDown p (notify r)) q.closed
      (λ y. record { closed = w.closed; leases = w.leases; entries = w.entries })
      (λ n. ground (arith, w.closed))

pump-WindsDown : (env : Env) (p q : HostPool) → WindsDown p q → WindsDown p (pump env q)
unfolding pump
pump-WindsDown env p q w = if-elim (WindsDown p) q.closed (λ y. w) (λ n. ground (arith, w.closed))

acquire-WindsDown :
    (env : Env) (p : HostPool) (w : HostWaiter) → p.closed ≡ true → WindsDown p (acquire env p w).1
unfolding acquire
acquire-WindsDown env p w c =
    if-elim (λ (r : Acquired × HostPool). WindsDown p r.1) (env.context_done w.id)
      (λ y. WindsDown-refl p c)
      (λ n.
        if-elim (λ (r : Acquired × HostPool). WindsDown p r.1) p.closed (λ y. WindsDown-refl p c)
          (λ m. ground (arith, c)))

give_up-WindsDown :
    (env : Env) (p : HostPool) (w : HostWaiter) → p.closed ≡ true → WindsDown p (give_up env p w)
unfolding give_up
give_up-WindsDown env p w c =
    let q = record p {
      queue = without w.id p.queue;
      answers = (w.id, wait_canceled) ∷ p.answers;
    } in
    if-elim (WindsDown p) (is_queued w.id p.queue)
      (λ y.
        pump-WindsDown env p q record { closed = c; leases = omega arith; entries = omega arith })
      (λ n. WindsDown-refl p c)

try_acquire_host-WindsDown :
    (p : HostPool) (host : String) (lane : Lane) (now : ℕ)
    → p.closed ≡ true
    → WindsDown p (try_acquire_host p host lane now).1
unfolding try_acquire_host
try_acquire_host-WindsDown p host lane now c =
    if-elim (λ (r : Bool × HostPool). WindsDown p r.1) p.closed (λ y. WindsDown-refl p c)
      (λ m. ground (arith, c))

reap_bulk-WindsDown :
    (p : HostPool) (detach : String → Bool)
    → p.closed ≡ true
    → Inv p
    → WindsDown p (reap_bulk p detach).1
unfolding reap_bulk
reap_bulk-WindsDown p detach c v =
    reap_bulk_entries-keeps (λ q. WindsDown p q) detach
      (λ q s st k.
        let t = record s { bulk_closing = true } in
        record {
          closed = k.closed;
          leases = k.leases;
          entries = omega (arith, k.entries, length-put q.entries s.host s t st);
        })
      p.entries p v.keyed (Every-Stands p.entries v.keyed) (WindsDown-refl p c)

reap_hosts-WindsDown :
    (p : HostPool) (now ttl : ℕ) (reason : String)
    → p.closed ≡ true
    → Inv p
    → WindsDown p (reap_hosts p now ttl reason).1
unfolding reap_hosts
reap_hosts-WindsDown p now ttl reason c v =
    reap_entries-keeps (λ q. WindsDown p q) now ttl reason
      (λ q s st z k.
        WindsDown-trans p q (retire q s reason now) k
          (Retires-WindsDown q (retire q s reason now) k.closed (retire-Retires q s reason now st)))
      p.entries p v.keyed (Every-Stands p.entries v.keyed) (WindsDown-refl p c)

close_pool-WindsDown : (p : HostPool) (now : ℕ) → Inv p → WindsDown p (close_pool p now)
unfolding close_pool
close_pool-WindsDown p now v =
    retire_all-keeps (λ q. WindsDown p q) now
      (λ q s c st k.
        WindsDown-trans p q (retire q s "shutdown" now) k (
          Retires-WindsDown q (retire q s "shutdown" now) c (retire-Retires q s "shutdown" now st)))
      p.entries (record p { closed = true; queue = []; answers = refuse_waiters p.queue p.answers })
      refl v.keyed (Every-Stands p.entries v.keyed)
      record { closed = refl; leases = omega arith; entries = omega arith }

demand_host-WindsDown :
    (p : HostPool) (host : String) (delta : ℤ)
    → p.closed ≡ true
    → WindsDown p (demand_host p host delta)
unfolding demand_host
demand_host-WindsDown p host delta c = record {
  closed = ground arith;
  leases = ground arith;
  entries = ground arith;
}

PoolEvent-WindsDown : (p q : HostPool) → PoolEvent p q → p.closed ≡ true → Inv p → WindsDown p q
unfolding release_host base_cleaned bulk_cleaned
PoolEvent-WindsDown p q (acquires env w) c v = acquire-WindsDown env p w c
PoolEvent-WindsDown p q (gives_up env w) c v = give_up-WindsDown env p w c
PoolEvent-WindsDown p q (releases env host lane out) c v =
    notify-WindsDown env p
      (give_back (record p { leases = take_lease host lane p.leases }) host lane env.now
        (lookup host p.entries))
      (length-give_back p host lane env.now (lookup host p.entries) refl c)
PoolEvent-WindsDown p q (cleans_base env host reason ms closing) c v =
    notify-WindsDown env p _ record {
      closed = c;
      leases = omega arith;
      entries = length-cleaned_entries p.entries host (lookup host p.entries) refl;
    }
PoolEvent-WindsDown p q (cleans_bulk env host) c v =
    notify-WindsDown env p
      (record p { entries = bulk_cleaned_entries p.entries host (lookup host p.entries) })
      record {
        closed = c;
        leases = omega arith;
        entries = length-bulk_cleaned_entries p.entries host (lookup host p.entries) refl;
      }
PoolEvent-WindsDown p q (reaps now ttl reason) c v = reap_hosts-WindsDown p now ttl reason c v
PoolEvent-WindsDown p q (reaps_bulk detach) c v = reap_bulk-WindsDown p detach c v
PoolEvent-WindsDown p q (closes now) c v = close_pool-WindsDown p now v
PoolEvent-WindsDown p q (demands host delta) c v = demand_host-WindsDown p host delta c
PoolEvent-WindsDown p q (tries host lane now) c v = try_acquire_host-WindsDown p host lane now c

PoolLater-WindsDown :
    (p q : HostPool) → PoolLater p q → p.closed ≡ true → Inv p → Inv q × WindsDown p q
PoolLater-WindsDown p q at_once c v = (v, WindsDown-refl p c)
PoolLater-WindsDown p q (one_more {q = r} before e) c v =
    let (i, w) = PoolLater-WindsDown p r before c v in
    (PoolEvent-Inv r q e i, WindsDown-trans p r q w (PoolEvent-WindsDown r q e w.closed i))

-- From a pool that is reached and closed, whatever happens without a change of the limit, the
-- pool stays closed and has no more leases out and no more slots than before.
pub closed_pool-WindsDown :
    (p q : HostPool) → PoolReached p → p.closed ≡ true → PoolLater p q → WindsDown p q
closed_pool-WindsDown p q r c later = (PoolLater-WindsDown p q later c (PoolReached-Inv p r)).1
