-- ===== src/Broker/Watch/Invariant.antt =====
-- What every method of the hub keeps.
use rdev.Base.{
  ℕ, ◌+◌, ◌-◌, ◌≤◌, ◌≡◌, refl, sym, subst, ap, ◌∙◌, String, true, false, Option, none, some, List,
  [], ◌∷◌, arith, length, All, if◌then◌else◌, if-elim, Bool-cases, Option-cases, inl, inr, Dict,
  lookup, insert, erase, is_some, is_nil, keys, Distinct, contains-keys, keys-insert_old,
  keys-insert_new, erase-Distinct, Values, insert-Values, erase-Values, lookup-Values, sum_by,
  value_or_zero, sum_by-insert, sum_by-erase, append-Distinct,
}
use rdev.Broker.Watch.{
  Channel, WatchHub, new_watch_hub, max_watch_keys, max_watch_subscribers, max_watch_event_bytes,
  watchers_of, has_channel, drop_channel, unsubscribe, take_event, receive, deliver, deliver_to,
}
use rdev.Broker.Watch.Sets.{
  Fits, length-drop_channel, drop_channel-Fits, take_event-Fits, length-take_event, deliver-Fits,
  length-deliver,
}

-- The last events, in the order in which their jobs came.
pub record Recent (order : List String) (latest : Dict (List ℕ)) : Type 0 where
  pub kept : keys latest ≡ order
  pub different : Distinct order
  pub few : length order ≤ max_watch_keys
  pub small : Values (λ bytes. length bytes ≤ max_watch_event_bytes) latest

module _ {E : Type 0} where
  abbrev pub Filled : List (Channel E) → Type 0
  Filled set = 1 ≤ length set × All Fits set

  -- The watchers' sets, by job.
  pub record Sets (n : ℕ) (watchers : Dict (List (Channel E))) : Type 0 where
    pub counted : n ≡ sum_by length watchers
    pub once : Distinct (keys watchers)
    pub filled : Values Filled watchers

  pub record HubInv (h : WatchHub E) : Type 0 where
    pub sets : Sets h.subscribers h.watchers
    pub limited : h.subscribers ≤ max_watch_subscribers
    pub recent : Recent h.order h.latest

  pub new_watch_hub-HubInv : HubInv new_watch_hub
  unfolding new_watch_hub sum_by
  new_watch_hub-HubInv = record {
    sets = record { counted = refl; once = tt; filled = tt };
    limited = omega arith;
    recent = record { kept = refl; different = tt; few = omega arith; small = tt };
  }

  insert-Distinct :
      (k : String) (set : List (Channel E)) (m : Dict (List (Channel E)))
      → Distinct (keys m)
      → Distinct (keys (insert k set m))
  insert-Distinct k set m d = elim (Bool-cases (is_some (lookup k m))) [
    | inl y ↦ subst Distinct (sym (keys-insert_old k set m y)) d
    | inr n ↦
        subst Distinct (sym (keys-insert_new k set m n))
          (append-Distinct k (keys m) d (contains-keys k m ∙ n))
  ]

  -- A job takes another set that is not empty.
  pub put-Sets :
      (n n' : ℕ) (k : String) (set : List (Channel E)) (m : Dict (List (Channel E)))
      → Filled set
      → n' + value_or_zero length (lookup k m) ≡ n + length set
      → Sets n m
      → Sets n' (insert k set m)
  put-Sets n n' k set m f e v = record {
    counted = omega (arith, sum_by-insert length k set m, e, v.counted);
    once = insert-Distinct k set m v.once;
    filled = insert-Values Filled k set m f v.filled;
  }

  erase-Sets :
      (n n' : ℕ) (k : String) (m : Dict (List (Channel E)))
      → n' + value_or_zero length (lookup k m) ≡ n
      → Sets n m
      → Sets n' (erase k m)
  erase-Sets n n' k m e v = record {
    counted = omega (arith, sum_by-erase length k m v.once, e, v.counted);
    once = erase-Distinct k m v.once;
    filled = erase-Values Filled k m v.filled;
  }

  pub watchers_of-Fits :
      (h : WatchHub E) (job : String) → Values Filled h.watchers → All Fits (watchers_of h job)
  watchers_of-Fits h job v = elim (Option-cases (lookup job h.watchers)) [
    | inl n ↦ rw n tt
    | inr (set, e) ↦ rw e (lookup-Values Filled job h.watchers set e v).1
  ]

  pub length-watchers_of :
      (h : WatchHub E) (job : String)
      → length (watchers_of h job) ≡ value_or_zero length (lookup job h.watchers)
  length-watchers_of h job = elim (Option-cases (lookup job h.watchers)) [
    | inl n ↦ rw n refl
    | inr (set, e) ↦ rw e refl
  ]

  nil_length : (set : List (Channel E)) → is_nil set ≡ true → length set ≡ 0
  nil_length [] h = refl
  nil_length (c ∷ cs) h = cc

  length_nil : (set : List (Channel E)) → is_nil set ≡ false → 1 ≤ length set
  length_nil [] h = cc
  length_nil (c ∷ cs) h = omega arith

  unsubscribe-Sets :
      (h : WatchHub E) (job : String) (id : ℕ)
      → has_channel id (watchers_of h job) ≡ true
      → Sets h.subscribers h.watchers
      → (1 ≤ h.subscribers)
        × Sets (h.subscribers - 1) (
            if is_nil (drop_channel id (watchers_of h job))
            then erase job h.watchers
            else insert job (drop_channel id (watchers_of h job)) h.watchers)
  unsubscribe-Sets h job id y v =
      let set = drop_channel id (watchers_of h job) in
      let l = length-drop_channel id (watchers_of h job) y in
      let w = length-watchers_of h job in
      let s = sum_by-erase length job h.watchers v.once in
      let some_in : 1 ≤ h.subscribers = omega (arith, l, w, s, v.counted) in
      (
        some_in,
        if-elim (Sets (h.subscribers - 1)) (is_nil set)
            (λ e.
              erase-Sets h.subscribers (h.subscribers - 1) job h.watchers
                (omega (arith, l, w, some_in, nil_length set e)) v)
            (λ n.
              put-Sets h.subscribers (h.subscribers - 1) job set h.watchers
                (
                  length_nil set n,
                  drop_channel-Fits id (watchers_of h job) (watchers_of-Fits h job v.filled),
                )
                (omega (arith, l, w, some_in)) v),
      )

  pub unsubscribe-HubInv :
      (h : WatchHub E) (job : String) (id : ℕ) → HubInv h → HubInv (unsubscribe h job id)
  unfolding unsubscribe
  unsubscribe-HubInv h job id v =
      if-elim HubInv (has_channel id (watchers_of h job))
        (λ y.
          let (a, s) = unsubscribe-Sets h job id y v.sets in
          record { sets = s; limited = omega (arith, v.limited); recent = v.recent })
        (λ n. v)

  -- A set of as many channels.
  same-Sets :
      (n : ℕ) (k : String) (set set' : List (Channel E)) (m : Dict (List (Channel E)))
      → lookup k m ≡ some set
      → length set' ≡ length set
      → All Fits set'
      → Sets n m
      → Sets n (insert k set' m)
  same-Sets n k set set' m e l f v =
      put-Sets n n k set' m (omega (arith, l, (lookup-Values Filled k m set e v.filled).0), f)
        (omega (arith, l, ap (value_or_zero length) e)) v

  pub receive-HubInv :
      (h : WatchHub E) (job : String) (id : ℕ) → HubInv h → HubInv (receive h job id)
  receive-HubInv h job id v = elim (Option-cases (lookup job h.watchers)) [
    | inl n ↦ rw (receive, n) v
    | inr (set, e) ↦
        rw (receive, e)
          record {
            sets =
                same-Sets h.subscribers job set (take_event id set) h.watchers e
                  (length-take_event id set)
                  (take_event-Fits id set
                    (lookup-Values Filled job h.watchers set e v.sets.filled).1)
                  v.sets;
            limited = v.limited;
            recent = v.recent;
          }
  ]

  pub deliver_to-Sets :
      (n : ℕ) (m : Dict (List (Channel E))) (job : String) (o : Option E)
      (set : Option (List (Channel E)))
      → lookup job m ≡ set
      → Sets n m
      → Sets n (deliver_to m job o set)
  unfolding deliver_to
  deliver_to-Sets n m job none set e v = v
  deliver_to-Sets n m job (some event) none e v = v
  deliver_to-Sets n m job (some event) (some set) e v =
      same-Sets n job set (deliver event set) m e (length-deliver event set)
        (deliver-Fits event set (lookup-Values Filled job m set e v.filled).1) v
