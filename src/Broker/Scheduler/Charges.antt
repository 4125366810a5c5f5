-- ===== src/Broker/Scheduler/Charges.antt =====
-- What a bulk response costs: the time until which the bulk lane waits.
use rdev.Base.{
  ℕ, ◌+◌, ◌*◌, ◌/◌, ◌%◌, ◌<◌, ◌≡◌, refl, sym, ap, ◌∙◌, true, ◌&&◌, ◌||◌, List, ◌∷◌, arith,
}
use rdev.Broker.Lane.{bulk, same_lane}
use rdev.Broker.FairQueue.Removal.{hits}
use rdev.Broker.Scheduler.{Scheduler, ScheduledItem, HostSlots, Env, OwnerStats, QosConfig, change}
use rdev.Broker.Scheduler.Dispatch.{remove_item}
use rdev.Broker.Scheduler.Entry.{Reply, is_observed, payload_of, ready_time, charge, finish}
use rdev.Broker.Scheduler.Tally.{on_lane}
use rdev.Broker.Scheduler.Invariant.{Inv}
use rdev.Broker.Scheduler.Endings.{Runs, remove_item_lem, ended, ended-Keeps, charge_frame}
use rdev.Broker.Scheduler.Frame.{update_stats_frame}
use rdev.Broker.Scheduler.Pacing.{schedule-Waits}

ready_time-small :
    (started payload rate : ℕ)
    → payload * 1000000000 < 9223372036854775808
    → ready_time started payload rate ≡ started + payload * 1000000000 / rate
unfolding ready_time
ready_time-small started payload rate h =
    let e : payload * 1000000000 % 18446744073709551616 ≡ payload * 1000000000 = omega arith in
    rw e (ground arith)

counts_one :
    (x : ScheduledItem) (rs : List ScheduledItem)
    → x.lane ≡ bulk
    → hits (on_lane bulk) (x ∷ rs) ≡ 1 + hits (on_lane bulk) rs
counts_one x rs b = rw (ap (λ l. same_lane l bulk) b) (omega arith)

module _ {P : Type 0} (slots : HostSlots P) (env : Env) (s : Scheduler P) (x : ScheduledItem)
    (started : ℕ) (r : Reply) where
  charge-ready :
      x.lane ≡ bulk
      → r.has_response ≡ true
      → (charge slots env s x started r).bulk_ready
        ≡ ready_time started (payload_of r) s.limits.bulk_bytes_per_second
  unfolding charge
  charge-ready b h =
      let counted = λ (st : OwnerStats). record st {
        bulk_bytes = (st.bulk_bytes + payload_of r) % 18446744073709551616;
      } in
      let e : (same_lane x.lane bulk && (r.has_response || is_observed r.observed)) ≡ true =
        rw (ap (λ l. same_lane l bulk) b, ap (λ y. y || is_observed r.observed) h) refl in
      rw e (
        ap (λ (c : QosConfig). ready_time started (payload_of r) c.bulk_bytes_per_second)
          (update_stats_frame s x.owner counted).1.2)

module _ {P : Type 0} (slots : HostSlots P) (env : Env) (s : Scheduler P) (x : ScheduledItem)
    (started : ℕ) (r : Reply) where
  -- When the run of a bulk item ends with a response that is charged `p` bytes, and `p * 10^9` is
  -- below 2^63, the bulk lane waits until `p * 10^9 / bulk_bytes_per_second` nanoseconds behind the
  -- start of the run. While the clock reads before that time, the end of the run starts no other
  -- bulk item: one bulk item less runs behind it.
  pub finish_paced :
      Inv s
      → Runs x s.running
      → x.lane ≡ bulk
      → r.has_response ≡ true
      → payload_of r * 1000000000 < 9223372036854775808
      → let t = finish slots env s x started r in
        (t.bulk_ready ≡ started + payload_of r * 1000000000 / s.limits.bulk_bytes_per_second)
        × (env.now < t.bulk_ready
            → hits (on_lane bulk) t.running + 1 ≡ hits (on_lane bulk) s.running)
  unfolding finish change
  finish_paced v runs b h small =
      let s₁ = record s {
        cancels = x.id ∷ s.cancels;
        pool = slots.release s.pool x.host x.lane env.now;
      } in
      let (ready, still) =
        schedule-Waits slots env (ended slots env s x started r)
          (ended-Keeps slots env s x started r runs v).0 in
      let charged = charge-ready slots env s₁ x started r b h in
      let same = (charge_frame slots env s₁ x started r).1.1 in
      let one : hits (on_lane bulk) (x ∷ remove_item x.id s.running)
          ≡ 1 + hits (on_lane bulk) (remove_item x.id s.running) =
        counts_one x (remove_item x.id s.running) b in
      let removed = remove_item_lem x s.running runs (on_lane bulk) in
      (
        ready
            ∙ charged
            ∙ ready_time-small started (payload_of r) s.limits.bulk_bytes_per_second small,
        λ early. omega (
          arith,
          still (rw (sym ready) early),
          ap (λ rs. hits (on_lane bulk) (remove_item x.id rs)) same,
          removed,
          one,
        ),
      )
