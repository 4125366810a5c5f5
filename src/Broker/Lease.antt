-- ===== src/Broker/Lease.antt =====
-- internal/broker/lease.go: when a host's connection may be reaped. A method is one function, with
-- the time that it reads. The zero `time.Time` is `none`.
pub mod Histories
pub mod Tests
use rdev.Base.{
  ℕ, ◌+◌, ◌-◌, Bool, true, false, ◌&&◌, Option, none, some, leb, ltb, ◌==◌, if◌then◌else◌,
}

pub record Lease : Type 0 where
  pub clients : ℕ
  pub inflight : ℕ
  pub detached_at : Option ℕ
  pub grace : ℕ

unfoldable pub new_lease : ℕ → ℕ → Lease
new_lease grace now = record { clients = 0; inflight = 0; detached_at = some now; grace = grace }

unfoldable pub set_grace : Lease → ℕ → Lease
set_grace l grace = record l { grace = grace }

unfoldable pub attach : Lease → Lease
attach l = record l { clients = l.clients + 1; detached_at = none }

unfoldable pub detach : Lease → ℕ → Lease
detach l now =
    let clients' = if ltb 0 l.clients then l.clients - 1 else l.clients in
    record l { clients = clients'; detached_at = if clients' == 0 then some now else l.detached_at }

unfoldable pub begin : Lease → Lease
begin l = record l { inflight = l.inflight + 1 }

unfoldable pub end_ : Lease → Lease
end_ l = record l { inflight = if ltb 0 l.inflight then l.inflight - 1 else l.inflight }

-- `now.Sub(at) >= grace`, with the difference on the other side.
abbrev pub passed : Option ℕ → ℕ → ℕ → Bool
passed none grace now = false
passed (some t) grace now = leb (t + grace) now

unfoldable pub reapable : Lease → ℕ → Bool
reapable l now = l.clients == 0 && l.inflight == 0 && passed l.detached_at l.grace now

-- Whether `Reap` detached the pool, and the lease behind it.
unfoldable pub reap : Lease → ℕ → Bool × Lease
reap l now = if reapable l now then (true, record l { detached_at = none }) else (false, l)
