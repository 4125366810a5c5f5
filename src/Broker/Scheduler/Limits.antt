-- ===== src/Broker/Scheduler/Limits.antt =====
-- The limits of a configuration that `Validate` accepts, and what they leave.
use rdev.Base.{◌≤◌, ◌<◌, ◌≡◌, ◌↔◌, none, arith}
use rdev.Broker.Scheduler.{QosConfig, effective, validate}

-- What the scheduler relies on.
pub record Sane (c : QosConfig) : Type 0 where
  pub rate : 1048576 ≤ c.bulk_bytes_per_second × c.bulk_bytes_per_second ≤ 1073741824
  pub active : 3 ≤ c.max_active × c.max_active ≤ 1024
  pub host : 3 ≤ c.per_host × c.per_host ≤ c.max_active
  pub owner : 2 ≤ c.per_owner × c.per_owner < c.per_host
  pub queued : 8 ≤ c.max_queued × c.max_queued ≤ 4096
  pub owner_queued : 2 ≤ c.per_owner_queued × c.per_owner_queued < c.max_queued

-- `validate` returns no error just when the effective limits are sane: each between its bounds,
-- fewer slots by owner than by host, no more by host than in all, and a shorter queue by owner
-- than in all.
pub validate_iff : (c : QosConfig) → (validate c ≡ none) ↔ Sane (effective c)
unfolding validate
validate_iff c = (
  λ h. record {
    rate = ground arith;
    active = ground arith;
    host = ground arith;
    owner = ground arith;
    queued = ground arith;
    owner_queued = ground arith;
  },
  λ v. ground (arith, v.rate, v.active, v.host, v.owner, v.queued, v.owner_queued),
)

pub effective_idempotent : (c : QosConfig) → effective (effective c) ≡ effective c
unfolding effective
effective_idempotent c = ground arith
