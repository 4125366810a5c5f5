-- ===== src/Broker/Watch/Histories.antt =====
-- Histories of the hub, and what a subscriber gets first.
use rdev.Base.{
  ℕ, ◌≤◌, ◌<◌, ◌≡◌, refl, ap, ◌∙◌, String, ◌||◌, Option, none, some, List, [], ◌∷◌, ◌++◌, arith,
  length, ltb, leb, if-elim, Dict, lookup, erase, or_else, is_some, get_or, lookup-insert_self,
}
use rdev.Broker.Watch.{
  Wire, Channel, WatchHub, new_watch_hub, max_watch_keys, max_watch_subscribers,
  max_watch_event_bytes, watchers_of, unsubscribe, receive, remember, deliver, deliver_to, decoded,
  subscribe, publish_data, publish,
}
use rdev.Broker.Watch.Invariant.{HubInv, new_watch_hub-HubInv, unsubscribe-HubInv, receive-HubInv}
use rdev.Broker.Watch.Publishing.{subscribe-HubInv, publish-HubInv}

module _ {E : Type 0} (wire : Wire E) where
  pub data HubReached : WatchHub E → Type 0 where
    opened : HubReached new_watch_hub
    subscribes :
        {h : WatchHub E} (job : String) (id : ℕ)
        → HubReached h
        → HubReached (subscribe wire h job id)
    unsubscribes :
        {h : WatchHub E} (job : String) (id : ℕ) → HubReached h → HubReached (unsubscribe h job id)
    publishes :
        {h : WatchHub E} (job : String) (event : E)
        → HubReached h
        → HubReached (publish wire h job event)
    receives :
        {h : WatchHub E} (job : String) (id : ℕ) → HubReached h → HubReached (receive h job id)

  -- In every hub that is reached, whatever the order of subscriptions, their ends, published
  -- events and receptions, the count of subscribers is the number of channels in all sets and at
  -- most 512, no set is empty, no channel holds more than its buffer of 8, and the last events
  -- are those of at most 1024 different jobs, in the order in which these came, with at most
  -- 65536 bytes each.
  pub HubReached-HubInv : (h : WatchHub E) → HubReached h → HubInv h
  HubReached-HubInv h opened = new_watch_hub-HubInv
  HubReached-HubInv h (subscribes {h = g} job id r) =
      subscribe-HubInv wire g job id (HubReached-HubInv g r)
  HubReached-HubInv h (unsubscribes {h = g} job id r) =
      unsubscribe-HubInv g job id (HubReached-HubInv g r)
  HubReached-HubInv h (publishes {h = g} job event r) =
      publish-HubInv wire g job event (HubReached-HubInv g r)
  HubReached-HubInv h (receives {h = g} job id r) = receive-HubInv g job id (HubReached-HubInv g r)

  remember-latest :
      (h : WatchHub E) (job : String) (bytes : List ℕ)
      → lookup job (remember h job bytes).latest ≡ some bytes
  unfolding remember
  remember-latest h job bytes =
      if-elim (λ (q : WatchHub E). lookup job q.latest ≡ some bytes) (is_some (lookup job h.latest))
        (λ y. lookup-insert_self job bytes h.latest)
        (λ n.
          if-elim (λ (q : WatchHub E). lookup job q.latest ≡ some bytes)
            (ltb max_watch_keys (length (h.order ++ job ∷ [])))
            (λ y. lookup-insert_self job bytes (erase (get_or (h.order ++ job ∷ []) 0 "") h.latest))
            (λ m. lookup-insert_self job bytes h.latest))

  remember-others :
      (h : WatchHub E) (job : String) (bytes : List ℕ)
      → ((remember h job bytes).watchers ≡ h.watchers)
        × ((remember h job bytes).subscribers ≡ h.subscribers)
  unfolding remember
  remember-others h job bytes = (ground arith, ground arith)

  lookup-deliver_to :
      (m : Dict (List (Channel E))) (job : String) (e : E) (o : Option (List (Channel E)))
      → lookup job m ≡ o
      → or_else [] (lookup job (deliver_to m job (some e) o)) ≡ deliver e (or_else [] o)
  unfolding deliver_to deliver
  lookup-deliver_to m job e none q = ap (or_else []) q
  lookup-deliver_to m job e (some set) q =
      ap (or_else []) (lookup-insert_self job (deliver e set) m)

  publish-accepted :
      (h : WatchHub E) (job : String) (event : E) (bytes : List ℕ)
      → wire.size job ≤ 1024
      → wire.encode event ≡ some bytes
      → length bytes ≤ max_watch_event_bytes
      → publish wire h job event ≡ publish_data wire h job bytes
  unfolding publish
  publish-accepted h job event bytes a b c = ground arith

  subscribe-accepted :
      (h : WatchHub E) (job : String) (id : ℕ)
      → wire.size job ≤ 1024
      → h.subscribers < max_watch_subscribers
      → watchers_of (subscribe wire h job id) job
        ≡ record { id = id; events = decoded wire (lookup job h.latest) } ∷ watchers_of h job
  unfolding subscribe
  subscribe-accepted h job id a b =
      let channel : Channel E = record { id = id; events = decoded wire (lookup job h.latest) } in
      if-elim (λ (q : WatchHub E). watchers_of q job ≡ channel ∷ watchers_of h job)
        (ltb 1024 (wire.size job) || leb max_watch_subscribers h.subscribers) (λ y. ground arith)
        (λ n. ap (or_else []) (lookup-insert_self job (channel ∷ watchers_of h job) h.watchers))

  publish_data-watchers :
      (h : WatchHub E) (job : String) (bytes : List ℕ) (e : E)
      → wire.decode bytes ≡ some e
      → watchers_of (publish_data wire h job bytes) job ≡ deliver e (watchers_of h job)
  unfolding publish_data
  publish_data-watchers h job bytes e d =
      let h' = remember h job bytes in
      ap (λ o. or_else [] (lookup job (deliver_to h'.watchers job o (lookup job h'.watchers)))) d
      ∙ lookup-deliver_to h'.watchers job e (lookup job h'.watchers) refl
      ∙ ap (λ m. deliver e (or_else [] (lookup job m))) (remember-others h job bytes).0

  publish_data-others :
      (h : WatchHub E) (job : String) (bytes : List ℕ)
      → (lookup job (publish_data wire h job bytes).latest ≡ some bytes)
        × ((publish_data wire h job bytes).subscribers ≡ h.subscribers)
  unfolding publish_data
  publish_data-others h job bytes = (remember-latest h job bytes, (remember-others h job bytes).1)

  decoded-some :
      (bytes : List ℕ) (e : E) → wire.decode bytes ≡ some e → decoded wire (some bytes) ≡ e ∷ []
  decoded-some bytes e d = ground arith

  -- A channel that subscribes to a job behind an event of it starts with that event as encoded
  -- and decoded, and the channels that were there have got it where their buffers had room, if
  -- the job's name and the encoded event are within their bounds, there are fewer than 512
  -- subscribers and what was encoded decodes.
  pub subscribe-publish :
      (h : WatchHub E) (job : String) (id : ℕ) (event e : E) (bytes : List ℕ)
      → wire.size job ≤ 1024
      → h.subscribers < max_watch_subscribers
      → wire.encode event ≡ some bytes
      → length bytes ≤ max_watch_event_bytes
      → wire.decode bytes ≡ some e
      → watchers_of (subscribe wire (publish wire h job event) job id) job
        ≡ record { id = id; events = e ∷ [] } ∷ deliver e (watchers_of h job)
  subscribe-publish h job id event e bytes a b c f d =
      let g = publish_data wire h job bytes in
      let (l, s) = publish_data-others h job bytes in
      let start : decoded wire (lookup job g.latest) ≡ e ∷ [] =
        ap (decoded wire) l ∙ decoded-some bytes e d in
      ap (λ (q : WatchHub E). watchers_of (subscribe wire q job id) job)
        (publish-accepted h job event bytes a c f)
      ∙ subscribe-accepted g job id a (omega (arith, s, b))
      ∙ ap (λ (es : List E). record { id = id; events = es } ∷ watchers_of g job) start
      ∙ ap (λ cs. record { id = id; events = e ∷ [] } ∷ cs) (publish_data-watchers h job bytes e d)
