-- ===== src/Broker/Pool/Sweeps.antt =====
-- The loops over the entries of the pool: what keeps a property through them.
use rdev.Base.{
  ℕ, ◌≡◌, ◌≢◌, refl, sym, ◌∙◌, String, Bool, true, not, ◌&&◌, ◌||◌, Option, none, some, [], ◌∷◌,
  arith, same_iff, if◌then◌else◌, Dict, lookup, insert, lookup-insert, ◌==◌, if-elim,
}
use rdev.Broker.Pool.{HostPool, HostSlot, retire}
use rdev.Broker.Pool.Entry.{
  reap_entries, reap_hosts, reap_bulk_entries, reap_bulk, retire_all, close_pool, refuse_waiters,
  idle_for,
}
use rdev.Broker.Pool.Keys.{Keyed, Every, Stands, insert-Keyed, Every-Stands}
use rdev.Broker.Pool.Invariant.{
  Inv, SlotOk, same_leases, held, held_controls, retire-Inv, slot_lem, insert-SlotOk,
}

-- The slots of a list that stand in the entries still do when another one is retired.
retire-Stands :
    (p : HostPool) (s t : HostSlot) (reason : String) (now : ℕ)
    → s.host ≢ t.host
    → Stands p.entries t
    → Stands (retire p s reason now).entries t
unfolding retire
retire-Stands p s t reason now ne st =
    if-elim (λ (q : HostPool). Stands q.entries t) s.closing (λ y. st)
      (λ n. ground (
        arith,
        lookup-insert s.host t.host (record s { closing = true }) p.entries,
        same_iff s.host t.host,
      ))

others-Stands :
    (p q : HostPool) (s : HostSlot) (m : Dict HostSlot)
    → Keyed m
    → lookup s.host m ≡ none
    → ((t : HostSlot) → s.host ≢ t.host → Stands p.entries t → Stands q.entries t)
    → Every (Stands p.entries) m
    → Every (Stands q.entries) m
unfolding lookup
others-Stands p q s [] k free f h = tt
others-Stands p q s ((j, t) ∷ m) k free f h = (
  f t (λ e. ground (arith, k.0, same_iff j s.host)) h.0,
  others-Stands p q s m k.2 (ground arith) f h.1,
)

pub reap_entries-keeps :
    (R : HostPool → Type 0) (now ttl : ℕ) (reason : String)
    → ((q : HostPool) (s : HostSlot)
        → Stands q.entries s
        → s.active ≡ 0
        → R q
        → R (retire q s reason now))
    → (m : Dict HostSlot) (p : HostPool) → Keyed m
    → Every (Stands p.entries) m
    → R p
    → R (reap_entries m p now ttl reason).1
unfolding reap_entries
reap_entries-keeps R now ttl reason keep [] p k h r = r
reap_entries-keeps R now ttl reason keep ((j, s) ∷ m) p k h r =
    let due = not s.closing && not s.bulk_closing && s.active == 0 && idle_for s.idle ttl now in
    let p' = if due then retire p s reason now else p in
    reap_entries-keeps R now ttl reason keep m p' k.2
      (if-elim (λ (q : HostPool). Every (Stands q.entries) m) due
        (λ y.
          others-Stands p (retire p s reason now) s m k.2 (rw k.0 k.1)
            (λ t ne st. retire-Stands p s t reason now ne st) h.1)
        (λ n. h.1))
      (if-elim R due (λ y. keep p s h.0 (ground arith) r) (λ n. r))

pub reap_hosts-Inv :
    (p : HostPool) (now ttl : ℕ) (reason : String) → Inv p → Inv (reap_hosts p now ttl reason).1
unfolding reap_hosts
reap_hosts-Inv p now ttl reason v =
    reap_entries-keeps Inv now ttl reason (λ q s st z i. retire-Inv q s reason now st (λ o. z) i)
      p.entries p v.keyed (Every-Stands p.entries v.keyed) v

-- A slot that takes other flags, with its counts.
put-Inv :
    (p : HostPool) (s t : HostSlot)
    → Stands p.entries s
    → t.host ≡ s.host
    → t.active ≡ s.active
    → t.controls ≡ s.controls
    → t.closing ≡ s.closing
    → (t.cleaned ≡ true → s.closing ≡ true)
    → Inv p
    → Inv (record p { entries = insert s.host t p.entries })
put-Inv p s t st eh ea ec el cl v =
    let (a, b, c, d) = slot_lem p s s.host v st in
    record {
      keyed = insert-Keyed s.host t p.entries eh v.keyed;
      slots =
          insert-SlotOk p.closed p.leases p.leases p.entries s.host (same_leases s.host p.leases)
            v.slots t (ea ∙ a, ec ∙ b, λ o y. c o (sym el ∙ y), λ y. el ∙ cl y);
    }

pub reap_bulk_entries-keeps :
    (R : HostPool → Type 0) (detach : String → Bool)
    → ((q : HostPool) (s : HostSlot)
        → Stands q.entries s
        → R q
        → R (record q { entries = insert s.host (record s { bulk_closing = true }) q.entries }))
    → (m : Dict HostSlot) (p : HostPool) → Keyed m
    → Every (Stands p.entries) m
    → R p
    → R (reap_bulk_entries m p detach).1
unfolding reap_bulk_entries
reap_bulk_entries-keeps R detach keep [] p k h r = r
reap_bulk_entries-keeps R detach keep ((j, s) ∷ m) p k h r =
    let due = not (s.closing || s.bulk_closing) && detach s.host in
    let t = record s { bulk_closing = true } in
    let p₁ = record p { entries = insert s.host t p.entries } in
    let p' = if due then p₁ else p in
    reap_bulk_entries-keeps R detach keep m p' k.2
      (if-elim (λ (q : HostPool). Every (Stands q.entries) m) due
        (λ y.
          others-Stands p p₁ s m k.2 (rw k.0 k.1)
            (λ u ne st.
              ground (arith, lookup-insert s.host u.host t p.entries, same_iff s.host u.host))
            h.1)
        (λ n. h.1))
      (if-elim R due (λ y. keep p s h.0 r) (λ n. r))

pub reap_bulk-Inv : (p : HostPool) (detach : String → Bool) → Inv p → Inv (reap_bulk p detach).1
unfolding reap_bulk
reap_bulk-Inv p detach v =
    reap_bulk_entries-keeps Inv detach
      (λ q s st i.
        put-Inv q s (record s { bulk_closing = true }) st refl refl refl refl
          (λ c. (slot_lem q s s.host i st).3 c) i)
      p.entries p v.keyed (Every-Stands p.entries v.keyed) v

retire-closed :
    (p : HostPool) (s : HostSlot) (reason : String) (now : ℕ)
    → (retire p s reason now).closed ≡ p.closed
unfolding retire
retire-closed p s reason now = ground arith

pub retire_all-keeps :
    (R : HostPool → Type 0) (now : ℕ)
    → ((q : HostPool) (s : HostSlot)
        → q.closed ≡ true
        → Stands q.entries s
        → R q
        → R (retire q s "shutdown" now))
    → (m : Dict HostSlot) (p : HostPool) → p.closed ≡ true
    → Keyed m
    → Every (Stands p.entries) m
    → R p
    → R (retire_all m p now)
unfolding retire_all
retire_all-keeps R now keep [] p c k h r = r
retire_all-keeps R now keep ((j, s) ∷ m) p c k h r =
    retire_all-keeps R now keep m (retire p s "shutdown" now) (retire-closed p s "shutdown" now ∙ c)
      k.2
      (others-Stands p (retire p s "shutdown" now) s m k.2 (rw k.0 k.1)
        (λ t ne st. retire-Stands p s t "shutdown" now ne st) h.1)
      (keep p s c h.0 r)

-- A closed pool asks less of its slots.
closed-SlotOk :
    (closed : Bool) (n c : ℕ) (o : Option HostSlot) → SlotOk closed n c o → SlotOk true n c o
closed-SlotOk closed n c none h = λ y. ground arith
closed-SlotOk closed n c (some s) (a, b, d, e) = (a, b, λ y. ground arith, e)

pub close_pool-Inv : (p : HostPool) (now : ℕ) → Inv p → Inv (close_pool p now)
unfolding close_pool
close_pool-Inv p now v =
    retire_all-keeps Inv now
      (λ q s c st i. retire-Inv q s "shutdown" now st (λ o. ground (arith, c)) i) p.entries
      (record p { closed = true; queue = []; answers = refuse_waiters p.queue p.answers }) refl
      v.keyed (Every-Stands p.entries v.keyed)
      record {
        keyed = v.keyed;
        slots = λ h.
            closed-SlotOk p.closed (held h p.leases) (held_controls h p.leases) (lookup h p.entries)
              (v.slots h);
      }
