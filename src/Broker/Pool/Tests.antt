-- ===== src/Broker/Pool/Tests.antt =====
-- Tests of the pool at concrete hosts.
use rdev.Broker.Pool.Closed.{WindsDown, closed_pool-WindsDown}
use rdev.Broker.Lane.{control}
use rdev.Broker.Pool.{retire}
use rdev.Broker.Pool.Entry.{close_pool, retire_all, refuse_waiters}
use rdev.Broker.Pool.Histories.{closes}
use rdev.Base.{◌≤◌, ◌≡◌, refl, String, true, false, some, lookup, length, arith, insert}
use rdev.Broker.Lane.{exec}
use rdev.Broker.Pool.{
  HostPool, HostSlot, new_host_pool, new_slot, busier, trim, trim_rounds, live_slots,
}
use rdev.Broker.Pool.Entry.{try_acquire_host, try_slot}
use rdev.Broker.Pool.Invariant.{held, held_controls}
use rdev.Broker.Pool.Histories.{
  PoolReached, opens, takes, tries, PoolLater, at_once, one_more, slots_count_leases,
  reserved_hosts_bounded,
}

abbrev attic : String
attic = "attic"

abbrev barn : String
barn = "barn"

abbrev empty_pool : HostPool
empty_pool = new_host_pool 1

abbrev warm_pool : HostPool
warm_pool = (try_acquire_host empty_pool attic exec 5).1

abbrev warm_slot : HostSlot
warm_slot = busier (new_slot attic 5) exec

warm_pool-Reached : PoolReached warm_pool
warm_pool-Reached = takes (opens 1) (tries attic exec 5)

warm_pool-lookup : lookup attic warm_pool.entries ≡ some warm_slot
unfolding new_host_pool try_acquire_host lookup try_slot trim trim_rounds live_slots insert
warm_pool-lookup = refl

slots_count_leases_example :
    (warm_slot.active ≡ held attic warm_pool.leases)
    × (warm_slot.controls ≡ held_controls attic warm_pool.leases)
    × (warm_pool.closed ≡ false → warm_slot.closing ≡ true → warm_slot.active ≡ 0)
slots_count_leases_example =
    slots_count_leases warm_pool attic warm_slot warm_pool-Reached warm_pool-lookup

abbrev cold_pool : HostPool
cold_pool = (try_acquire_host warm_pool barn exec 6).1

cold_pool-Later : PoolLater warm_pool cold_pool
cold_pool-Later = one_more at_once (tries barn exec 6)

warm_pool-size : length warm_pool.entries ≤ warm_pool.limit
unfolding new_host_pool try_acquire_host lookup try_slot trim trim_rounds live_slots insert
warm_pool-size = omega arith

reserved_hosts_bounded_example :
    (cold_pool.limit ≡ warm_pool.limit) × (length cold_pool.entries ≤ cold_pool.limit)
reserved_hosts_bounded_example =
    reserved_hosts_bounded warm_pool cold_pool warm_pool-Reached cold_pool-Later warm_pool-size

abbrev shut_pool : HostPool
shut_pool = close_pool warm_pool 7

shut_pool-Reached : PoolReached shut_pool
shut_pool-Reached = takes warm_pool-Reached (closes 7)

shut_pool-closed : shut_pool.closed ≡ true
unfolding close_pool retire_all retire refuse_waiters new_host_pool try_acquire_host lookup try_slot
    trim trim_rounds live_slots insert
shut_pool-closed = refl

abbrev later_pool : HostPool
later_pool = (try_acquire_host shut_pool barn control 8).1

closed_pool-WindsDown_example : WindsDown shut_pool later_pool
closed_pool-WindsDown_example =
    closed_pool-WindsDown shut_pool later_pool shut_pool-Reached shut_pool-closed
      (one_more at_once (tries barn control 8))
