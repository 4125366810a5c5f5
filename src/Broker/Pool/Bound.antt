-- ===== src/Broker/Pool/Bound.antt =====
-- How many hosts have a slot, before and behind the pump.
use rdev.Base.{
  ℕ, ◌≤◌, ◌<◌, ◌≡◌, refl, sym, ap, ◌∙◌, String, false, ◌||◌, Option, none, some, List, [], ◌∷◌,
  arith, Dict, lookup, insert, ltb, leb, length, if-elim, length-insert,
}
use rdev.Broker.Lane.{Lane}
use rdev.Broker.Scheduler.{Env}
use rdev.Broker.Pool.{
  HostPool, HostSlot, HostWaiter, wait_canceled, new_slot, busier, lend, grant, retire_oldest, trim,
  pump_waiter, pump_queue, pump,
}
use rdev.Broker.Pool.Keys.{Keyed}
use rdev.Broker.Pool.Invariant.{Inv, trim-Inv}
use rdev.Broker.Pool.Retiring.{Retires, retire_oldest-Retires, trim-Retires}
use rdev.Broker.Pool.Pumping.{grant-Inv, own_slot, new_slot_ok, lookup-host}

-- Whatever bounds the entries of `p` and its limit bounds the entries of `q`.
pub record Grows (p q : HostPool) : Type 0 where
  pub limit : q.limit ≡ p.limit
  pub reserved : (n : ℕ) → length p.entries ≤ n → p.limit ≤ n → length q.entries ≤ n

pub Grows-refl : (p : HostPool) → Grows p p
Grows-refl p = record { limit = refl; reserved = λ n a b. a }

pub Grows-trans : (p q r : HostPool) → Grows p q → Grows q r → Grows p r
Grows-trans p q r a b = record {
  limit = b.limit ∙ a.limit;
  reserved = λ n h k. b.reserved n (a.reserved n h k) (omega (arith, a.limit));
}

pub Retires-Grows : (p q : HostPool) → Retires p q → Grows p q
Retires-Grows p q r = record { limit = r.limit; reserved = λ n a b. omega (arith, r.reserved) }

-- A slot put under a host that has one.
pub length-put :
    (m : Dict HostSlot) (k : String) (s t : HostSlot)
    → lookup k m ≡ some s
    → length (insert k t m) ≡ length m
length-put m k s t e = length-insert k t m ∙ rw e refl

pub lend-Grows :
    (p : HostPool) (k : String) (s : HostSlot) (lane : Lane)
    → Keyed p.entries
    → lookup k p.entries ≡ some s
    → Grows p (lend p s lane)
lend-Grows p k s lane v e = record {
  limit = refl;
  reserved = λ n a b.
      let h : s.host ≡ k = lookup-host p.entries k s v e in
      omega
        (arith, length-put p.entries s.host s (busier s lane) (ap (λ j. lookup j p.entries) h ∙ e));
}

pub open-Grows :
    (p : HostPool) (s : HostSlot) (lane : Lane)
    → length p.entries < p.limit
    → Grows p (lend p s lane)
open-Grows p s lane lt = record {
  limit = refl;
  reserved = λ n a b. ground (arith, length-insert s.host (busier s lane) p.entries);
}

-- Records that differ elsewhere.
pub same-Grows :
    (p p' q q' : HostPool)
    → p'.limit ≡ p.limit
    → p'.entries ≡ p.entries
    → q'.limit ≡ q.limit
    → q'.entries ≡ q.entries
    → Grows p q
    → Grows p' q'
same-Grows p p' q q' a b c d g = record {
  limit = c ∙ g.limit ∙ sym a;
  reserved = λ n h k. rw d (g.reserved n (rw b at h) (rw a at k));
}

module _ (env : Env) where
  pump_waiter-Grows :
      (next : HostPool → HostPool)
      → ((q : HostPool) → q.closed ≡ false → Inv q → Grows q (next q))
      → (p : HostPool) (w : HostWaiter) (o : Option HostSlot) → p.closed ≡ false
      → lookup w.host p.entries ≡ o
      → Inv p
      → Grows p (pump_waiter env next p w o)
  unfolding pump_waiter grant
  pump_waiter-Grows next ih p w (some s) op e v =
      if-elim (Grows p) (s.closing || ltb p.limit (length p.entries)) (λ y. Grows-refl p)
        (λ n.
          Grows-trans p (grant p w s) (next (grant p w s))
            (same-Grows p p (lend p s w.lane) (grant p w s) refl refl refl refl
              (lend-Grows p w.host s w.lane v.keyed e))
            (ih (grant p w s) op (grant-Inv p w s (ground arith) (own_slot p s w.host v e) v)))
  pump_waiter-Grows next ih p w none op e v =
      if-elim (Grows p) (ltb p.limit (length p.entries)) (λ y. Grows-refl p)
        (λ n.
          if-elim (Grows p) (leb p.limit (length p.entries))
            (λ y.
              Retires-Grows p (retire_oldest p "capacity_lru" env.now)
                (retire_oldest-Retires p "capacity_lru" env.now v))
            (λ m.
              let s = new_slot w.host env.now in
              Grows-trans p (grant p w s) (next (grant p w s))
                (same-Grows p p (lend p s w.lane) (grant p w s) refl refl refl refl
                  (open-Grows p s w.lane (ground arith)))
                (ih (grant p w s) op
                  (grant-Inv p w s refl (new_slot_ok p w.host env.now v op e) v))))

  pump_queue-Grows :
      (ws : List HostWaiter) (p : HostPool)
      → p.closed ≡ false
      → Inv p
      → Grows p (pump_queue env ws p)
  unfolding pump_queue
  pump_queue-Grows [] p op v = record { limit = refl; reserved = λ n a b. a }
  pump_queue-Grows (w ∷ ws) p op v =
      let p₁ = record p { answers = (w.id, wait_canceled) ∷ p.answers } in
      let p₂ = record p { queue = w ∷ ws } in
      if-elim (Grows p) (env.context_done w.id)
        (λ y.
          let g = pump_queue-Grows ws p₁ op record { keyed = v.keyed; slots = v.slots } in
          record { limit = g.limit; reserved = g.reserved })
        (λ n.
          let g =
            pump_waiter-Grows (λ q. pump_queue env ws q) (λ q o i. pump_queue-Grows ws q o i) p₂ w
              (lookup w.host p.entries) op refl record { keyed = v.keyed; slots = v.slots } in
          record { limit = g.limit; reserved = g.reserved })

  pub pump-Grows : (p : HostPool) → Inv p → Grows p (pump env p)
  unfolding pump
  pump-Grows p v =
      if-elim (Grows p) p.closed (λ y. Grows-refl p)
        (λ n.
          let r = trim-Retires p env.now v in
          Grows-trans p (trim p env.now) (pump_queue env p.queue (trim p env.now))
            (Retires-Grows p (trim p env.now) r)
            (pump_queue-Grows p.queue (trim p env.now) (r.closed ∙ n) (trim-Inv p env.now v)))
