-- ===== src/Broker/Scheduler/Tally.antt =====
-- The counters of the scheduler against the items that are queued and that run.
use rdev.Base.{
  ◌+◌, ◌≤◌, String, ◌≡◌, refl, ap, ◌∙◌, inl, inr, Bool, true, not, ◌&&◌, List, [], ◌∷◌, arith,
  Bool-cases, if◌then◌else◌, same, same_iff, Dict, insert, lookup, or_else, lookup-insert,
  lookup-erase,
}
use rdev.Base.Int.{ℤ, pos, negsuc}
use rdev.Broker.Lane.{Lane, control, exec, bulk, is_control, same_lane, Lanes, at, put, lanes_of}
use rdev.Broker.FairQueue.Removal.{hits}
use rdev.Broker.Scheduler.{
  Scheduler, SchedulerCount, ScheduledItem, HostSlots, count_of, no_count, adjust_count, settle,
  change, WorkCount, no_work, add_delta,
}

abbrev pub outside_control : (ScheduledItem → Bool) → ScheduledItem → Bool
outside_control m x = m x && not (is_control x.lane)

-- The counter `c` counts the items with `m` among those queued, `qs`, and those running, `rs`.
pub record Agrees (c : SchedulerCount) (m : ScheduledItem → Bool) (qs rs : List ScheduledItem)
    : Type 0 where
  pub active : c.active ≡ hits m rs
  pub queued : c.queued ≡ hits m qs
  pub non_control_active : c.non_control_active ≡ hits (outside_control m) rs
  pub non_control_queued : c.non_control_queued ≡ hits (outside_control m) qs

abbrev pub on_lane : Lane → ScheduledItem → Bool
on_lane l x = same_lane x.lane l

abbrev pub of_owner : String → ScheduledItem → Bool
of_owner o x = same x.owner o

abbrev pub on_host : String → ScheduledItem → Bool
on_host h x = same x.host h

abbrev pub work_of : {P : Type 0} → Scheduler P → String → Lanes WorkCount
work_of s o = or_else (lanes_of no_work) (lookup o s.owner_lanes)

abbrev pub of_owner_on : String → Lane → ScheduledItem → Bool
of_owner_on o l x = same x.owner o && same_lane x.lane l

pub record Works (c : WorkCount) (m : ScheduledItem → Bool) (qs rs : List ScheduledItem)
    : Type 0 where
  pub active : c.active ≡ hits m rs
  pub queued : c.queued ≡ hits m qs

-- Every counter of the scheduler counts the items that it is about.
pub record Consistent {P : Type 0} (s : Scheduler P) (qs rs : List ScheduledItem) : Type 0 where
  pub total : Agrees s.total (λ x. true) qs rs
  pub lanes : (l : Lane) → Agrees (at s.lanes l) (on_lane l) qs rs
  pub owners : (o : String) → Agrees (count_of s.owners o) (of_owner o) qs rs
  pub hosts : (h : String) → Agrees (count_of s.hosts h) (on_host h) qs rs
  pub owner_lanes : (o : String) (l : Lane) → Works (at (work_of s o) l) (of_owner_on o l) qs rs

-- The changes that the scheduler makes: an item is queued, leaves the queue, starts, or ends.
pub data Shift (x : ScheduledItem)
    : ℤ
      → ℤ
      → List ScheduledItem
      → List ScheduledItem
      → List ScheduledItem
      → List ScheduledItem
      → Type 0 where
  joins : (qs rs : List ScheduledItem) → Shift x (pos 0) (pos 1) qs rs (x ∷ qs) rs
  leaves : (qs rs : List ScheduledItem) → Shift x (pos 0) (negsuc 0) (x ∷ qs) rs qs rs
  starts : (qs rs : List ScheduledItem) → Shift x (pos 1) (negsuc 0) (x ∷ qs) rs qs (x ∷ rs)
  ends : (qs rs : List ScheduledItem) → Shift x (negsuc 0) (pos 0) qs (x ∷ rs) qs rs

Agrees-Shift :
    (c : SchedulerCount) (m : ScheduledItem → Bool) (x : ScheduledItem) {a q : ℤ}
    {qs rs qs' rs' : List ScheduledItem}
    → Shift x a q qs rs qs' rs'
    → Agrees c m qs rs
    → Agrees (if m x then adjust_count c x a q else c) m qs' rs'
Agrees-Shift c m x (joins qs rs) g = ground arith
Agrees-Shift c m x (leaves qs rs) g = ground arith
Agrees-Shift c m x (starts qs rs) g = ground arith
Agrees-Shift c m x (ends qs rs) g = ground arith

hits-outside_control :
    (m : ScheduledItem → Bool) (xs : List ScheduledItem) → hits (outside_control m) xs ≤ hits m xs
hits-outside_control m [] = omega arith
hits-outside_control m (x ∷ xs) = ground (arith, hits-outside_control m xs)

Agrees-empty :
    (c : SchedulerCount) (m : ScheduledItem → Bool) (qs rs : List ScheduledItem)
    → Agrees c m qs rs
    → c.active + c.queued ≡ 0
    → c ≡ no_count
Agrees-empty c m qs rs g e = ground (arith, hits-outside_control m qs, hits-outside_control m rs)

count_of-settle :
    (k j : String) (c : SchedulerCount) (m : Dict SchedulerCount)
    → (c.active + c.queued ≡ 0 → c ≡ no_count)
    → count_of (settle k c (insert k c m)) j ≡ (if same k j then c else count_of m j)
count_of-settle k j c m h = ground (arith, lookup-insert k j c m, lookup-erase k j (insert k c m))

pub at-put :
    {A : Type 0} (m : Lanes A) (k l : Lane) (a : A)
    → at (put m k a) l ≡ (if same_lane k l then a else at m l)
at-put m control control a = refl
at-put m control exec a = refl
at-put m control bulk a = refl
at-put m exec control a = refl
at-put m exec exec a = refl
at-put m exec bulk a = refl
at-put m bulk control a = refl
at-put m bulk exec a = refl
at-put m bulk bulk a = refl

pub same_lane-eq : (k l : Lane) → same_lane k l ≡ true → k ≡ l
same_lane-eq control control h = refl
same_lane-eq exec exec h = refl
same_lane-eq bulk bulk h = refl
same_lane-eq control exec h = cc
same_lane-eq control bulk h = cc
same_lane-eq exec control h = cc
same_lane-eq exec bulk h = cc
same_lane-eq bulk control h = cc
same_lane-eq bulk exec h = cc

-- A keyed counter: `c` is the counter of the item's own key, `c₀` that of the key in question.
Agrees-keyed :
    (c c₀ c' : SchedulerCount) (m : ScheduledItem → Bool) (x : ScheduledItem) {a q : ℤ}
    {qs rs qs' rs' : List ScheduledItem}
    → Shift x a q qs rs qs' rs'
    → Agrees c₀ m qs rs
    → (m x ≡ true → c ≡ c₀)
    → c' ≡ (if m x then adjust_count c x a q else c₀)
    → Agrees c' m qs' rs'
Agrees-keyed c c₀ c' m x {a} {q} {qs} {rs} {qs'} {rs'} sh g own e = elim (Bool-cases (m x)) [
  | inl t ↦
      let new : c' ≡ (if m x then adjust_count c₀ x a q else c₀) = e ∙ rw (t, own t) in
      rw new (Agrees-Shift c₀ m x sh g)
  | inr f ↦
      let new : c' ≡ (if m x then adjust_count c₀ x a q else c₀) = e ∙ rw f in
      rw new (Agrees-Shift c₀ m x sh g)
]

Works-Shift :
    (c c' : WorkCount) (m : ScheduledItem → Bool) (x : ScheduledItem) {a q : ℤ}
    {qs rs qs' rs' : List ScheduledItem}
    → Shift x a q qs rs qs' rs'
    → Works c m qs rs
    → c'.active ≡ (if m x then add_delta c.active a else c.active)
    → c'.queued ≡ (if m x then add_delta c.queued q else c.queued)
    → Works c' m qs' rs'
Works-Shift c c' m x (joins qs rs) g e f = ground arith
Works-Shift c c' m x (leaves qs rs) g e f = ground arith
Works-Shift c c' m x (starts qs rs) g e f = ground arith
Works-Shift c c' m x (ends qs rs) g e f = ground arith

hits-of_owner_on :
    (o : String) (l : Lane) (xs : List ScheduledItem)
    → hits (of_owner_on o l) xs ≤ hits (of_owner o) xs
hits-of_owner_on o l [] = omega arith
hits-of_owner_on o l (x ∷ xs) = ground (arith, hits-of_owner_on o l xs)

-- The work of owner `o` on lane `l` when the entry of owner `k` becomes `w`, or goes with its count.
work_of-settle :
    (k o : String) (l : Lane) (c : SchedulerCount) (w : Lanes WorkCount)
    (m : Dict (Lanes WorkCount))
    → (c.active + c.queued ≡ 0 → at w l ≡ no_work)
    → at (or_else (lanes_of no_work) (lookup o (settle k c (insert k w m)))) l
      ≡ (if same k o then at w l else at (or_else (lanes_of no_work) (lookup o m)) l)
work_of-settle k o control c w m h =
    ground (arith, lookup-insert k o w m, lookup-erase k o (insert k w m))
work_of-settle k o exec c w m h =
    ground (arith, lookup-insert k o w m, lookup-erase k o (insert k w m))
work_of-settle k o bulk c w m h =
    ground (arith, lookup-insert k o w m, lookup-erase k o (insert k w m))

-- The entry of the item's owner behind a change, and the work that it states for `o` on `l`.
abbrev changed_work : Lanes WorkCount → ScheduledItem → ℤ → ℤ → Lanes WorkCount
changed_work w x a q = put w x.lane (record {
  active = add_delta (at w x.lane).active a;
  queued = add_delta (at w x.lane).queued q;
})

Works-entry :
    (w w₀ : Lanes WorkCount) (o : String) (l : Lane) (x : ScheduledItem) {a q : ℤ}
    {qs rs qs' rs' : List ScheduledItem}
    → Shift x a q qs rs qs' rs'
    → Works (at w₀ l) (of_owner_on o l) qs rs
    → (same x.owner o ≡ true → w ≡ w₀)
    → Works
        (if same x.owner o then at (changed_work w x a q) l else at w₀ l)
        (of_owner_on o l)
        qs'
        rs'
Works-entry w w₀ o l x {a} {q} sh g own = elim (Bool-cases (same x.owner o)) [
  | inr f ↦ Works-Shift (at w₀ l) _ (of_owner_on o l) x sh g (rw f) (rw f)
  | inl t ↦ elim (Bool-cases (same_lane x.lane l)) [
    | inr f ↦
        let here : at (changed_work w x a q) l ≡ at w₀ l = at-put w x.lane l _ ∙ rw (f, own t) in
        Works-Shift (at w₀ l) _ (of_owner_on o l) x sh g
          (rw (t, f) (ap (λ (c : WorkCount). c.active) here))
          (rw (t, f) (ap (λ (c : WorkCount). c.queued) here))
    | inl e ↦
        let k = same_lane-eq x.lane l e in
        let here = at-put w x.lane l (record {
          active = add_delta (at w x.lane).active a;
          queued = add_delta (at w x.lane).queued q;
        }) in
        let old : at w x.lane ≡ at w₀ l = rw (k, own t) in
        Works-Shift (at w₀ l) _ (of_owner_on o l) x sh g
          (rw (t, e) (ap (λ (c : WorkCount). c.active) here ∙ rw (e, old)))
          (rw (t, e) (ap (λ (c : WorkCount). c.queued) here ∙ rw (e, old)))
  ]
]

Works-empty :
    (o : String) (l : Lane) (c : SchedulerCount) (w : WorkCount) (qs rs : List ScheduledItem)
    → Agrees c (of_owner o) qs rs
    → Works w (of_owner_on o l) qs rs
    → c.active + c.queued ≡ 0
    → w ≡ no_work
Works-empty o l c w qs rs g h z = ground (arith, hits-of_owner_on o l qs, hits-of_owner_on o l rs)

module _ {P : Type 0} (slots : HostSlots P) where
  -- When an item is queued, leaves the queue, starts or ends, and the counters agreed with the
  -- items before, `change` with the differences of that shift makes them agree with the items
  -- after.
  pub change-Consistent :
      (s : Scheduler P) (x : ScheduledItem) {a q : ℤ} {qs rs qs' rs' : List ScheduledItem}
      → Shift x a q qs rs qs' rs'
      → Consistent s qs rs
      → Consistent (change slots s x a q) qs' rs'
  unfolding change
  change-Consistent s x {a} {q} {qs} {rs} {qs'} {rs'} sh v = record {
    total = Agrees-Shift s.total (λ y. true) x sh v.total;
    lanes = λ l.
        Agrees-keyed (at s.lanes x.lane) (at s.lanes l) _ (on_lane l) x sh (v.lanes l)
          (λ e. ap (at s.lanes) (same_lane-eq x.lane l e)) (at-put s.lanes x.lane l _);
    owners = λ o.
        Agrees-keyed (count_of s.owners x.owner) (count_of s.owners o) _ (of_owner o) x sh
          (v.owners o) (λ e. ap (count_of s.owners) ((same_iff x.owner o).0 e))
          (count_of-settle x.owner o _ s.owners (
            own_key s.owners x.owner (of_owner x.owner) (v.owners x.owner)
              ((same_iff x.owner x.owner).1 refl)));
    hosts = λ h.
        Agrees-keyed (count_of s.hosts x.host) (count_of s.hosts h) _ (on_host h) x sh (v.hosts h)
          (λ e. ap (count_of s.hosts) ((same_iff x.host h).0 e))
          (count_of-settle x.host h _ s.hosts (
            own_key s.hosts x.host (on_host x.host) (v.hosts x.host)
              ((same_iff x.host x.host).1 refl)));
    owner_lanes = λ o l.
        let w = work_of s x.owner in
        let entry = λ (k : String).
          Works-entry w (work_of s k) k l x sh (v.owner_lanes k l)
            (λ e. ap (work_of s) ((same_iff x.owner k).0 e)) in
        let mine = (same_iff x.owner x.owner).1 refl in
        let settled =
          work_of-settle x.owner o l (adjust_count (count_of s.owners x.owner) x a q)
            (changed_work w x a q) s.owner_lanes
            (Works-empty x.owner l (adjust_count (count_of s.owners x.owner) x a q)
              (at (changed_work w x a q) l) qs' rs'
              (Agrees-keyed (count_of s.owners x.owner) (count_of s.owners x.owner)
                (adjust_count (count_of s.owners x.owner) x a q) (of_owner x.owner) x sh
                (v.owners x.owner) (λ _. refl) (rw mine))
              (rw mine at (entry x.owner))) in
        rw settled (entry o);
  }
    where
      own_key :
          (m : Dict SchedulerCount) (k : String) (t : ScheduledItem → Bool)
          → Agrees (count_of m k) t qs rs
          → t x ≡ true
          → let c = adjust_count (count_of m k) x a q in c.active + c.queued ≡ 0 → c ≡ no_count
      own_key m k t g e z =
          Agrees-empty _ t qs' rs'
            (Agrees-keyed (count_of m k) (count_of m k) _ t x sh g (λ _. refl) (rw e)) z
