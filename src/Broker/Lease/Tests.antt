-- ===== src/Broker/Lease/Tests.antt =====
-- A history of a lease.
use rdev.Base.{ℕ, ◌+◌, ◌≤◌, ◌≡◌, refl, true, some, List, [], ◌∷◌}
use rdev.Broker.Lease.{reap, reapable, new_lease, attach, detach, begin, end_}
use rdev.Broker.Lease.Histories.{
  Call, attaches, begins, ends, detaches, reaps, after, open_clients, open_calls, idle_since,
  grace_of, reap_when_idle,
}

-- A client comes at once, makes a call, goes at 40; a reap at 50 is too early.
abbrev visit : List Call
visit = reaps 50 ∷ detaches 40 ∷ ends ∷ begins ∷ attaches ∷ []

visit_over : (reap (after 30 0 visit) 70).0 ≡ true
unfolding after reap reapable new_lease attach detach begin end_
visit_over = refl

reap_when_idle_example :
    (open_clients visit ≡ 0)
    × (open_calls visit ≡ 0)
    × ((t : ℕ) × (idle_since 0 visit ≡ some t) × (t + grace_of 30 visit ≤ 70))
reap_when_idle_example = reap_when_idle 30 0 70 visit visit_over
