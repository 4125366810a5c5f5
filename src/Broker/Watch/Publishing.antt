-- ===== src/Broker/Watch/Publishing.antt =====
-- The invariant of the hub at `Subscribe` and at `Publish`.
use rdev.Base.{
  ℕ, ◌+◌, ◌≤◌, ◌<◌, ◌≡◌, refl, sym, subst, ap, ◌∙◌, String, false, ◌||◌, Option, none, some, List,
  [], ◌∷◌, ◌++◌, arith, length, ltb, leb, drop, if-elim, length-append, Option-cases, inl, inr,
  Dict, lookup, insert, erase, is_some, get_or, same_iff, keys, contains, Distinct, contains-keys,
  keys-insert_old, keys-insert_new, erase-absent, insert-Values, append-Distinct, lookup-erase,
}
use rdev.Broker.Watch.{
  Wire, Channel, WatchHub, max_watch_keys, max_watch_subscribers, max_watch_event_bytes, buffer,
  watchers_of, remember, decoded, subscribe, publish_data, publish,
}
use rdev.Broker.Watch.Invariant.{
  Recent, HubInv, put-Sets, watchers_of-Fits, length-watchers_of, deliver_to-Sets,
}

-- The first key and its value go.
erase-first :
    (k : String) (v : List ℕ) (m : Dict (List ℕ))
    → Distinct (keys ((k, v) ∷ m))
    → erase k ((k, v) ∷ m) ≡ m
unfolding erase
erase-first k v m d = rw ((same_iff k k).1 refl) (erase-absent k m d.0)

-- A job that is not known comes last.
insert-Recent :
    (order : List String) (latest : Dict (List ℕ)) (job : String) (bytes : List ℕ)
    → is_some (lookup job latest) ≡ false
    → length order < max_watch_keys
    → length bytes ≤ max_watch_event_bytes
    → Recent order latest
    → Recent (order ++ job ∷ []) (insert job bytes latest)
insert-Recent order latest job bytes n room small v = record {
  kept = keys-insert_new job bytes latest n ∙ ap (λ ks. ks ++ job ∷ []) v.kept;
  different =
      append-Distinct job order v.different
        (ap (contains job) (sym v.kept) ∙ contains-keys job latest ∙ n);
  few = omega (arith, length-append order (job ∷ []), v.few);
  small = insert-Values (λ b. length b ≤ max_watch_event_bytes) job bytes latest small v.small;
}

-- The oldest job leaves.
tail-Recent :
    (k : String) (ks : List String) (latest : Dict (List ℕ))
    → Recent (k ∷ ks) latest
    → Recent ks (erase k latest)
tail-Recent k ks [] v = ground (arith, v.kept)
tail-Recent k ks ((j, w) ∷ m) v =
    let e : j ≡ k = ap (λ (xs : List String). get_or xs 0 "") v.kept in
    let t : keys m ≡ ks = ap (drop 1) v.kept in
    let d : Distinct (keys ((j, w) ∷ m)) = subst Distinct (sym v.kept) v.different in
    subst (λ i. Recent ks (erase i ((j, w) ∷ m))) e
      (subst (λ n. Recent ks n) (sym (erase-first j w m d))
        record {
          kept = t;
          different = v.different.1;
          few = omega (arith, v.few);
          small = v.small.1;
        })

remember_full :
    (order : List String) (latest : Dict (List ℕ)) (job : String) (bytes : List ℕ)
    → is_some (lookup job latest) ≡ false
    → max_watch_keys ≤ length order
    → length bytes ≤ max_watch_event_bytes
    → Recent order latest
    → Recent
        (drop 1 (order ++ job ∷ []))
        (insert job bytes (erase (get_or (order ++ job ∷ []) 0 "") latest))
remember_full [] latest job bytes n full small v = ground (arith, full)
remember_full (k ∷ ks) latest job bytes n full small v =
    insert-Recent ks (erase k latest) job bytes (ground (arith, lookup-erase k job latest))
      (omega (arith, v.few)) small (tail-Recent k ks latest v)

module _ {E : Type 0} where
  remember-HubInv :
      (h : WatchHub E) (job : String) (bytes : List ℕ)
      → length bytes ≤ max_watch_event_bytes
      → HubInv h
      → HubInv (remember h job bytes)
  unfolding remember
  remember-HubInv h job bytes small v =
      let order = h.order ++ job ∷ [] in
      let l = length-append h.order (job ∷ []) in
      if-elim HubInv (is_some (lookup job h.latest))
        (λ y. record {
          sets = v.sets;
          limited = v.limited;
          recent = record {
            kept = keys-insert_old job bytes h.latest y ∙ v.recent.kept;
            different = v.recent.different;
            few = v.recent.few;
            small =
                insert-Values (λ b. length b ≤ max_watch_event_bytes) job bytes h.latest small
                  v.recent.small;
          };
        })
        (λ n.
          if-elim HubInv (ltb max_watch_keys (length order))
            (λ y. record {
              sets = v.sets;
              limited = v.limited;
              recent =
                  remember_full h.order h.latest job bytes n (ground (arith, l)) small v.recent;
            })
            (λ m. record {
              sets = v.sets;
              limited = v.limited;
              recent =
                  insert-Recent h.order h.latest job bytes n (ground (arith, l)) small v.recent;
            }))

module _ {E : Type 0} (wire : Wire E) where
  decoded-short : (o : Option (List ℕ)) → length (decoded wire o) ≤ buffer
  decoded-short none = omega arith
  decoded-short (some bytes) = elim (Option-cases (wire.decode bytes)) [
    | inl n ↦ rw (decoded, n) (omega arith)
    | inr (e, q) ↦ rw (decoded, q) (omega arith)
  ]

  pub subscribe-HubInv :
      (h : WatchHub E) (job : String) (id : ℕ) → HubInv h → HubInv (subscribe wire h job id)
  unfolding subscribe
  subscribe-HubInv h job id v =
      let channel : Channel E = record { id = id; events = decoded wire (lookup job h.latest) } in
      if-elim HubInv (ltb 1024 (wire.size job) || leb max_watch_subscribers h.subscribers)
        (λ y. record { sets = v.sets; limited = v.limited; recent = v.recent })
        (λ n. record {
          sets =
              put-Sets h.subscribers (h.subscribers + 1) job (channel ∷ watchers_of h job)
                h.watchers
                (
                  omega arith,
                  (decoded-short (lookup job h.latest), watchers_of-Fits h job v.sets.filled),
                )
                (omega (arith, length-watchers_of h job)) v.sets;
          limited = ground arith;
          recent = v.recent;
        })

  publish_data-HubInv :
      (h : WatchHub E) (job : String) (bytes : List ℕ)
      → length bytes ≤ max_watch_event_bytes
      → HubInv h
      → HubInv (publish_data wire h job bytes)
  unfolding publish_data
  publish_data-HubInv h job bytes small v =
      let i = remember-HubInv h job bytes small v in
      let h' = remember h job bytes in
      record {
        sets =
            deliver_to-Sets h'.subscribers h'.watchers job (wire.decode bytes)
              (lookup job h'.watchers) refl i.sets;
        limited = i.limited;
        recent = i.recent;
      }

  pub publish-HubInv :
      (h : WatchHub E) (job : String) (event : E) → HubInv h → HubInv (publish wire h job event)
  unfolding publish
  publish-HubInv h job event v =
      if-elim HubInv (ltb 1024 (wire.size job)) (λ y. v)
        (λ n. elim (Option-cases (wire.encode event)) [
          | inl e ↦ rw e v
          | inr (bytes, e) ↦ rw e (
              if-elim HubInv (ltb max_watch_event_bytes (length bytes)) (λ y. v)
                (λ m. publish_data-HubInv h job bytes (ground arith) v))
        ])
