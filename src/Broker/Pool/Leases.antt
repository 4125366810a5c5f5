-- ===== src/Broker/Pool/Leases.antt =====
-- The invariant of the pool at `Acquire`, at a release and behind a closer.
use rdev.Base.{
  ℕ, ◌≡◌, refl, String, inl, inr, true, false, not, ◌&&◌, Option, none, some, [], ◌∷◌, ◌++◌, arith,
  same, same_iff, subst, Dict, lookup, Bool-cases, leb, length, if-elim,
}
use rdev.Broker.Lane.{Lane, is_control}
use rdev.Broker.Scheduler.{Env}
use rdev.Broker.Pool.{HostPool, HostSlot, HostWaiter, wait_canceled, notify, pump}
use rdev.Broker.Pool.Entry.{
  Acquired, take_lease, quieter, give_back, without, is_queued, acquire_open, enqueue_waiter,
  acquire, give_up, release_host, configure_pool, cleaned_entries, base_cleaned,
  bulk_cleaned_entries, bulk_cleaned,
}
use rdev.Broker.Pool.Keys.{insert-Keyed, erase-Keyed}
use rdev.Broker.Pool.Invariant.{
  Inv, SlotOk, same_leases, held, held_controls, slot_lem, insert-SlotOk, erase-SlotOk,
}
use rdev.Broker.Pool.Pumping.{grant-Inv, own_slot, lookup-host, pump-Inv}
use rdev.Broker.Pool.Steps.{is_out, take_lease-held, take_lease-others}

-- Without a slot nothing but the lease goes; the pool has closed then.
take_lease-SlotOk :
    (p : HostPool) (host : String) (lane : Lane)
    → is_out host lane p.leases ≡ true
    → lookup host p.entries ≡ none
    → Inv p
    → (h : String)
    → SlotOk p.closed
        (held h (take_lease host lane p.leases))
        (held_controls h (take_lease host lane p.leases))
        (lookup h p.entries)
take_lease-SlotOk p host lane out e v h = elim (Bool-cases (same host h)) [
  | inl y ↦
      let eh : host ≡ h = (same_iff host h).0 y in
      subst
        (λ j.
          SlotOk p.closed (held j (take_lease host lane p.leases))
            (held_controls j (take_lease host lane p.leases)) (lookup j p.entries))
        eh
        (rw e (λ o.
          omega (arith, (take_lease-held host lane p.leases out).0, (rw e at (v.slots host)) o)))
  | inr n ↦ let (a, b) = take_lease-others host lane p.leases h n in rw (a, b) (v.slots h)
]

pub give_back-Inv :
    (p : HostPool) (host : String) (lane : Lane) (now : ℕ) (o : Option HostSlot)
    → is_out host lane p.leases ≡ true
    → lookup host p.entries ≡ o
    → Inv p
    → Inv (give_back (record p { leases = take_lease host lane p.leases }) host lane now o)
give_back-Inv p host lane now none out e v = record {
  keyed = v.keyed;
  slots = take_lease-SlotOk p host lane out e v;
}
give_back-Inv p host lane now (some s) out e v =
    let (a, b, c, d) = slot_lem p s host v e in
    let (n, m) = take_lease-held host lane p.leases out in
    record {
      keyed =
          insert-Keyed host (quieter s lane now) p.entries (lookup-host p.entries host s v.keyed e)
            v.keyed;
      slots =
          insert-SlotOk p.closed p.leases (take_lease host lane p.leases) p.entries host
            (take_lease-others host lane p.leases) v.slots (quieter s lane now)
            (omega (arith, a, n), ground (arith, b, m), λ o y. omega (arith, c o y, n), d);
    }

pub cleaned_entries-Inv :
    (p : HostPool) (host : String) (o : Option HostSlot)
    → lookup host p.entries ≡ o
    → ((s : HostSlot) → o ≡ some s → s.closing ≡ true)
    → Inv p
    → Inv (record p { entries = cleaned_entries p.entries host o })
cleaned_entries-Inv p host none e closing v = v
cleaned_entries-Inv p host (some s) e closing v =
    let (a, b, c, d) = slot_lem p s host v e in
    if-elim (λ (m : Dict HostSlot). Inv (record p { entries = m })) s.bulk_closing
      (λ y. record {
        keyed =
            insert-Keyed host (record s { cleaned = true }) p.entries
              (lookup-host p.entries host s v.keyed e) v.keyed;
        slots =
            insert-SlotOk p.closed p.leases p.leases p.entries host (same_leases host p.leases)
              v.slots (record s { cleaned = true }) (a, b, c, λ z. closing s refl);
      })
      (λ n. record {
        keyed = erase-Keyed host p.entries v.keyed;
        slots =
            erase-SlotOk p.closed p.leases p.leases p.entries host (same_leases host p.leases)
              v.slots (λ o. c o (closing s refl));
      })

pub bulk_cleaned_entries-Inv :
    (p : HostPool) (host : String) (o : Option HostSlot)
    → lookup host p.entries ≡ o
    → Inv p
    → Inv (record p { entries = bulk_cleaned_entries p.entries host o })
bulk_cleaned_entries-Inv p host none e v = v
bulk_cleaned_entries-Inv p host (some s) e v =
    let (a, b, c, d) = slot_lem p s host v e in
    if-elim (λ (m : Dict HostSlot). Inv (record p { entries = m })) s.cleaned
      (λ y. record {
        keyed = erase-Keyed host p.entries v.keyed;
        slots =
            erase-SlotOk p.closed p.leases p.leases p.entries host (same_leases host p.leases)
              v.slots (λ o. c o (d y));
      })
      (λ n. record {
        keyed =
            insert-Keyed host (record s { bulk_closing = false }) p.entries
              (lookup-host p.entries host s v.keyed e) v.keyed;
        slots =
            insert-SlotOk p.closed p.leases p.leases p.entries host (same_leases host p.leases)
              v.slots (record s { bulk_closing = false }) (a, b, c, d);
      })

module _ (env : Env) where
  notify-pump-Inv : (p : HostPool) → Inv p → Inv (notify (pump env p))
  unfolding notify
  notify-pump-Inv p v = let i = pump-Inv env p v in record { keyed = i.keyed; slots = i.slots }

  pub release_host-Inv :
      (p : HostPool) (host : String) (lane : Lane)
      → is_out host lane p.leases ≡ true
      → Inv p
      → Inv (release_host env p host lane)
  unfolding release_host
  release_host-Inv p host lane out v =
      notify-pump-Inv
        (give_back (record p { leases = take_lease host lane p.leases }) host lane env.now
          (lookup host p.entries))
        (give_back-Inv p host lane env.now (lookup host p.entries) out refl v)

  pub configure_pool-Inv : (p : HostPool) (limit : ℕ) → Inv p → Inv (configure_pool env p limit)
  unfolding configure_pool
  configure_pool-Inv p limit v =
      notify-pump-Inv (record p { limit = limit }) record { keyed = v.keyed; slots = v.slots }

  pub base_cleaned-Inv :
      (p : HostPool) (host reason : String) (drain_ms : ℕ)
      → ((s : HostSlot) → lookup host p.entries ≡ some s → s.closing ≡ true)
      → Inv p
      → Inv (base_cleaned env p host reason drain_ms)
  unfolding base_cleaned
  base_cleaned-Inv p host reason drain_ms closing v =
      let i = cleaned_entries-Inv p host (lookup host p.entries) refl closing v in
      notify-pump-Inv _ record { keyed = i.keyed; slots = i.slots }

  pub bulk_cleaned-Inv : (p : HostPool) (host : String) → Inv p → Inv (bulk_cleaned env p host)
  unfolding bulk_cleaned
  bulk_cleaned-Inv p host v =
      notify-pump-Inv
        (record p { entries = bulk_cleaned_entries p.entries host (lookup host p.entries) })
        (bulk_cleaned_entries-Inv p host (lookup host p.entries) refl v)

  pub give_up-Inv : (p : HostPool) (w : HostWaiter) → Inv p → Inv (give_up env p w)
  unfolding give_up
  give_up-Inv p w v =
      if-elim Inv (is_queued w.id p.queue)
        (λ y.
          pump-Inv env
            (record p { queue = without w.id p.queue; answers = (w.id, wait_canceled) ∷ p.answers })
            record { keyed = v.keyed; slots = v.slots })
        (λ n. v)

  enqueue_waiter-Inv : (p : HostPool) (w : HostWaiter) → Inv p → Inv (enqueue_waiter env p w).1
  enqueue_waiter-Inv p w v =
      if-elim (λ (r : Acquired × HostPool). Inv r.1) (leb 1024 (length p.queue)) (λ y. v)
        (λ n.
          pump-Inv env (record p { queue = p.queue ++ w ∷ [] })
            record { keyed = v.keyed; slots = v.slots })

  acquire_open-Inv :
      (p : HostPool) (w : HostWaiter) (o : Option HostSlot)
      → lookup w.host p.entries ≡ o
      → Inv p
      → Inv (acquire_open env p w o).1
  acquire_open-Inv p w none e v = enqueue_waiter-Inv p w v
  acquire_open-Inv p w (some s) e v =
      if-elim (λ (r : Acquired × HostPool). Inv r.1) (is_control w.lane && not s.closing)
        (λ y. grant-Inv p w s (ground arith) (own_slot p s w.host v e) v)
        (λ n. enqueue_waiter-Inv p w v)

  pub acquire-Inv : (p : HostPool) (w : HostWaiter) → Inv p → Inv (acquire env p w).1
  unfolding acquire
  acquire-Inv p w v =
      if-elim (λ (r : Acquired × HostPool). Inv r.1) (env.context_done w.id) (λ y. v)
        (λ n.
          if-elim (λ (r : Acquired × HostPool). Inv r.1) p.closed (λ y. v)
            (λ m. acquire_open-Inv p w (lookup w.host p.entries) refl v))
