-- ===== src/Broker/Pool/Retiring.antt =====
-- What the retirement of slots leaves alone.
use rdev.Base.{
  ℕ, zero, suc, ◌≡◌, refl, ◌∙◌, String, inl, inr, true, Option, none, some, length, length-insert,
  Option-cases, ltb, if-elim,
}
use rdev.Broker.Pool.{
  HostPool, HostSlot, retire, retire_found, retire_oldest, oldest_idle, is_idle, trim_rounds, trim,
  live_slots,
}
use rdev.Broker.Pool.Keys.{Stands, Has, oldest_idle_lem}
use rdev.Broker.Pool.Invariant.{Inv, retire_oldest-Inv}

pub record Retires (p q : HostPool) : Type 0 where
  pub closed : q.closed ≡ p.closed
  pub limit : q.limit ≡ p.limit
  pub leases : q.leases ≡ p.leases
  pub queue : q.queue ≡ p.queue
  pub reserved : length q.entries ≡ length p.entries

Retires-refl : (p : HostPool) → Retires p p
Retires-refl p = record {
  closed = refl;
  limit = refl;
  leases = refl;
  queue = refl;
  reserved = refl;
}

Retires-trans : (p q r : HostPool) → Retires p q → Retires q r → Retires p r
Retires-trans p q r a b = record {
  closed = b.closed ∙ a.closed;
  limit = b.limit ∙ a.limit;
  leases = b.leases ∙ a.leases;
  queue = b.queue ∙ a.queue;
  reserved = b.reserved ∙ a.reserved;
}

pub retire-Retires :
    (p : HostPool) (s : HostSlot) (reason : String) (now : ℕ)
    → Stands p.entries s
    → Retires p (retire p s reason now)
unfolding retire
retire-Retires p s reason now st =
    if-elim (Retires p) s.closing (λ y. Retires-refl p)
      (λ n. record {
        closed = refl;
        limit = refl;
        leases = refl;
        queue = refl;
        reserved = length-insert s.host (record s { closing = true }) p.entries ∙ rw st refl;
      })

retire_found-Retires :
    (p : HostPool) (reason : String) (now : ℕ) (o : Option HostSlot)
    → Has (λ s. (is_idle s ≡ true) × Stands p.entries s) o
    → Retires p (retire_found p reason now o)
retire_found-Retires p reason now none h = Retires-refl p
retire_found-Retires p reason now (some s) h = retire-Retires p s reason now h.1

pub retire_oldest-Retires :
    (p : HostPool) (reason : String) (now : ℕ) → Inv p → Retires p (retire_oldest p reason now)
unfolding retire_oldest
retire_oldest-Retires p reason now v =
    retire_found-Retires p reason now (oldest_idle none p.entries)
      (oldest_idle_lem p.entries v.keyed)

trim_rounds-Retires : (n : ℕ) (p : HostPool) (now : ℕ) → Inv p → Retires p (trim_rounds n p now)
unfolding trim_rounds
trim_rounds-Retires zero p now v = Retires-refl p
trim_rounds-Retires (suc n) p now v =
    let p' = retire_oldest p "capacity_reload" now in
    if-elim (Retires p) (ltb p.limit (suc n))
      (λ y. elim (Option-cases (oldest_idle none p.entries)) [
        | inl e ↦ rw e (Retires-refl p)
        | inr (s, e) ↦ rw e (
            Retires-trans p p' (trim_rounds n p' now)
              (retire_oldest-Retires p "capacity_reload" now v)
              (trim_rounds-Retires n p' now (retire_oldest-Inv p "capacity_reload" now v)))
      ])
      (λ y. Retires-refl p)

pub trim-Retires : (p : HostPool) (now : ℕ) → Inv p → Retires p (trim p now)
unfolding trim
trim-Retires p now v = trim_rounds-Retires (live_slots p.entries) p now v
