-- ===== src/Broker/Lease/Histories.antt =====
-- Histories of a lease, against the clients and the calls that they leave open.
use rdev.Base.{
  ℕ, ◌+◌, ◌-◌, ◌≤◌, ◌≡◌, refl, inl, inr, true, Option, none, some, List, [], ◌∷◌, arith,
  Option-cases,
}
use rdev.Broker.Lease.{Lease, new_lease, set_grace, attach, detach, begin, end_, reapable, reap}

-- A call of a method, with the time that it reads.
pub data Call : Type 0 where
  attaches begins ends : Call
  detaches reaps : ℕ → Call
  regraces : ℕ → Call

abbrev pub call : Call → Lease → Lease
call attaches l = attach l
call begins l = begin l
call ends l = end_ l
call (detaches now) l = detach l now
call (reaps now) l = (reap l now).1
call (regraces g) l = set_grace l g

-- The lease behind a history, whose last call comes first.
unfoldable pub after : ℕ → ℕ → List Call → Lease
after grace now [] = new_lease grace now
after grace now (c ∷ cs) = call c (after grace now cs)

-- The clients that are attached, the calls in flight, and since when there has been no client.
abbrev pub open_clients : List Call → ℕ
open_clients [] = 0
open_clients (attaches ∷ cs) = open_clients cs + 1
open_clients (detaches now ∷ cs) = open_clients cs - 1
open_clients (_ ∷ cs) = open_clients cs

abbrev pub open_calls : List Call → ℕ
open_calls [] = 0
open_calls (begins ∷ cs) = open_calls cs + 1
open_calls (ends ∷ cs) = open_calls cs - 1
open_calls (_ ∷ cs) = open_calls cs

-- The time of the last call of `Detach`, or of the creation if no client has ever attached or detached.
abbrev pub idle_since : ℕ → List Call → Option ℕ
idle_since created [] = some created
idle_since created (attaches ∷ cs) = none
idle_since created (detaches now ∷ cs) = some now
idle_since created (_ ∷ cs) = idle_since created cs

abbrev pub grace_of : ℕ → List Call → ℕ
grace_of g [] = g
grace_of g (regraces g' ∷ cs) = g'
grace_of g (_ ∷ cs) = grace_of g cs

pub record Matches (g created : ℕ) (cs : List Call) (l : Lease) : Type 0 where
  pub clients : l.clients ≡ open_clients cs
  pub inflight : l.inflight ≡ open_calls cs
  pub grace : l.grace ≡ grace_of g cs
  pub idle : (t : ℕ) → l.clients ≡ 0 → l.detached_at ≡ some t → idle_since created cs ≡ some t

call-Matches :
    (g created : ℕ) (c : Call) (cs : List Call) (l : Lease)
    → Matches g created cs l
    → Matches g created (c ∷ cs) (call c l)
unfolding attach detach begin end_ reap reapable set_grace
call-Matches g created attaches cs l v = record {
  clients = ground (arith, v.clients);
  inflight = v.inflight;
  grace = v.grace;
  idle = λ t z e. ground arith;
}
call-Matches g created begins cs l v = record {
  clients = v.clients;
  inflight = ground (arith, v.inflight);
  grace = v.grace;
  idle = v.idle;
}
call-Matches g created ends cs l v = record {
  clients = v.clients;
  inflight = ground (arith, v.inflight);
  grace = v.grace;
  idle = v.idle;
}
call-Matches g created (detaches now) cs l v = record {
  clients = ground (arith, v.clients);
  inflight = v.inflight;
  grace = v.grace;
  idle = λ t z e. ground (arith, v.idle t);
}
call-Matches g created (reaps now) cs l v = record {
  clients = ground (arith, v.clients);
  inflight = ground (arith, v.inflight);
  grace = ground (arith, v.grace);
  idle = λ t z e. ground (arith, v.idle t);
}
call-Matches g created (regraces g') cs l v = record {
  clients = v.clients;
  inflight = v.inflight;
  grace = refl;
  idle = v.idle;
}

after-Matches : (g created : ℕ) (cs : List Call) → Matches g created cs (after g created cs)
unfolding after new_lease
after-Matches g created [] = record {
  clients = refl;
  inflight = refl;
  grace = refl;
  idle = λ t z e. e;
}
after-Matches g created (c ∷ cs) =
    call-Matches g created c cs (after g created cs) (after-Matches g created cs)

-- What `reapable` asks of a lease.
reapable_lem :
    (l : Lease) (now : ℕ)
    → reapable l now ≡ true
    → (l.clients ≡ 0)
      × (l.inflight ≡ 0)
      × ((t : ℕ) × (l.detached_at ≡ some t) × (t + l.grace ≤ now))
unfolding reapable
reapable_lem l now e = elim (Option-cases l.detached_at) [
  | inl n ↦ ground arith
  | inr (t, h) ↦ (ground arith, ground arith, (t, h, ground arith))
]

-- When `reap` succeeds on a lease, whatever calls were made of it, every client that attached has
-- detached, every call has ended, and the grace that was set last has passed since the last
-- detach, or since the creation if no client ever attached.
pub reap_when_idle :
    (g created now : ℕ) (cs : List Call)
    → (reap (after g created cs) now).0 ≡ true
    → (open_clients cs ≡ 0)
      × (open_calls cs ≡ 0)
      × ((t : ℕ) × (idle_since created cs ≡ some t) × (t + grace_of g cs ≤ now))
unfolding reap
reap_when_idle g created now cs e =
    let v = after-Matches g created cs in
    let (clients, calls, (t, at, late)) = reapable_lem (after g created cs) now (ground arith) in
    (
      omega (arith, v.clients),
      omega (arith, v.inflight),
      (t, v.idle t clients at, omega (arith, v.grace)),
    )
