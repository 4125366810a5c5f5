-- ===== src/Broker/Watch/Sets.antt =====
-- The sets of channels, one by one.
use rdev.Base.{
  ℕ, suc, ◌+◌, ◌≤◌, ◌≡◌, refl, ap, true, List, [], ◌∷◌, arith, length, ltb, ◌==◌, All, drop,
  if-elim, length-append,
}
use rdev.Broker.Watch.{Channel, has_channel, drop_channel, take_event, deliver, buffer}

module _ {E : Type 0} where
  -- A channel holds no more than its buffer.
  abbrev pub Fits : Channel E → Type 0
  Fits c = length c.events ≤ buffer

  pub length-drop_channel :
      (id : ℕ) (cs : List (Channel E))
      → has_channel id cs ≡ true
      → length (drop_channel id cs) + 1 ≡ length cs
  unfolding has_channel drop_channel
  length-drop_channel id [] h = cc
  length-drop_channel id (c ∷ cs) h = ground (arith, length-drop_channel id cs)

  pub drop_channel-Fits :
      (id : ℕ) (cs : List (Channel E)) → All Fits cs → All Fits (drop_channel id cs)
  unfolding drop_channel
  drop_channel-Fits id [] a = tt
  drop_channel-Fits id (c ∷ cs) a =
      if-elim (All Fits) (c.id == id) (λ y. a.1) (λ n. (a.0, drop_channel-Fits id cs a.1))

  length-drop_one : (es : List E) → length (drop 1 es) ≤ length es
  length-drop_one [] = omega arith
  length-drop_one (e ∷ es) = omega arith

  pub take_event-Fits : (id : ℕ) (cs : List (Channel E)) → All Fits cs → All Fits (take_event id cs)
  unfolding take_event
  take_event-Fits id [] a = tt
  take_event-Fits id (c ∷ cs) a =
      if-elim (All Fits) (c.id == id) (λ y. (omega (arith, a.0, length-drop_one c.events), a.1))
        (λ n. (a.0, take_event-Fits id cs a.1))

  pub length-take_event : (id : ℕ) (cs : List (Channel E)) → length (take_event id cs) ≡ length cs
  unfolding take_event
  length-take_event id [] = refl
  length-take_event id (c ∷ cs) = ground (arith, length-take_event id cs)

  pub deliver-Fits : (e : E) (cs : List (Channel E)) → All Fits cs → All Fits (deliver e cs)
  unfolding deliver
  deliver-Fits e [] a = tt
  deliver-Fits e (c ∷ cs) a = (
    if-elim Fits (ltb (length c.events) buffer)
        (λ y. ground (arith, length-append c.events (e ∷ []))) (λ n. a.0),
    deliver-Fits e cs a.1,
  )

  pub length-deliver : (e : E) (cs : List (Channel E)) → length (deliver e cs) ≡ length cs
  unfolding deliver
  length-deliver e [] = refl
  length-deliver e (c ∷ cs) = ap suc (length-deliver e cs)
