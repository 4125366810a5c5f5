-- ===== src/Broker/FairQueue/Invariant.antt =====
-- The invariant of the fair queue, and its methods.
use rdev.Base.{
  ℕ, zero, suc, ◌+◌, ◌≤◌, ◌<◌, max, String, ◌≡◌, refl, ◌≢◌, inl, inr, Bool, true, false, none, some,
  List, [], ◌∷◌, ◌++◌, arith, length, length-append, append-ne-nil, length-remove_at, get_or,
  lookup, insert, is_some, is_nil, lookup-insert, lookup-erase, erase-insert, contains, Distinct,
  contains-append, contains-get_or, contains-remove_at, remove_at-Distinct, append-Distinct,
  same_iff, same_refl, Bool-cases, Option-cases, leb, ltb, ◌==◌, ◌-◌, ◌%◌, if◌then◌else◌,
}
use rdev.Base.Int.{ℤ}
use rdev.Broker.FairQueue.{
  FairQueue, new_fair_queue, at_least_one, set_weight, enqueue, set_weights_of, set_weights,
  remove_owner, take_item, advance, scan, next_rounds, next_eligible, sift, remove_rounds,
  remove_if, items_of, weight_of, credits_of,
}

at_least_one_pos : (w : ℤ) → 1 ≤ at_least_one w
unfolding at_least_one
at_least_one_pos w = ground arith

pub step_lt : (c n : ℕ) → c < n → (c + 1) % n < n
step_lt c n h = grind arith

module _ {A : Type 0} where
  -- `queued` and `busy`: the owners in `order` are exactly those with items. `weighed` makes the
  -- spending of a credit exact, and `tidy` says that a removed owner leaves nothing behind.
  pub record Inv (q : FairQueue A) : Type 0 where
    pub distinct : Distinct q.order
    pub queued : (o : String) → is_some (lookup o q.queues) ≡ contains o q.order
    pub busy : (o : String) → lookup o q.queues ≢ some []
    pub weighed : (o : String) → contains o q.order ≡ true → 1 ≤ weight_of q o
    pub tidy_weight : (o : String) → contains o q.order ≡ false → lookup o q.weight ≡ none
    pub tidy_credits : (o : String) → contains o q.order ≡ false → lookup o q.credits ≡ none
    pub within : q.cursor < max 1 (length q.order)

  pub new_fair_queue-Inv : Inv (new_fair_queue {A = A})
  unfolding new_fair_queue lookup
  new_fair_queue-Inv = record {
    distinct = tt;
    queued = λ o. refl;
    busy = λ o. ground arith;
    weighed = λ o h. ground arith;
    tidy_weight = λ o h. refl;
    tidy_credits = λ o h. refl;
    within = omega arith;
  }

  set_weight-Inv :
      (q : FairQueue A) (owner : String) (w : ℤ)
      → contains owner q.order ≡ true
      → Inv q
      → Inv (set_weight q owner w)
  unfolding set_weight
  set_weight-Inv q owner w h v = record {
    distinct = ground (arith, v.distinct);
    queued = λ o. ground (arith, v.queued o);
    busy = λ o. ground (arith, v.busy o);
    weighed = λ o m.
        ground
          (arith, v.weighed o, lookup-insert owner o (at_least_one w) q.weight, at_least_one_pos w);
    tidy_weight = λ o m.
        ground (
          arith,
          v.tidy_weight o,
          lookup-insert owner o (at_least_one w) q.weight,
          same_iff owner o,
        );
    tidy_credits = λ o m.
        ground (arith, v.tidy_credits o, lookup-insert owner o 0 q.credits, same_iff owner o);
    within = ground (arith, v.within);
  }

  pub enqueue-Inv :
      (q : FairQueue A) (owner : String) (x : A) (w : ℤ) → Inv q → Inv (enqueue q owner x w)
  unfolding enqueue
  enqueue-Inv q owner x w v = record {
    distinct = ground (arith, v.distinct, v.queued owner, append-Distinct owner q.order v.distinct);
    queued = λ o. ground (
      arith,
      v.queued o,
      v.queued owner,
      contains-append o owner q.order,
      same_iff owner o,
      lookup-insert owner o (items_of q owner ++ x ∷ []) q.queues,
    );
    busy = λ o. ground (
      arith,
      v.busy o,
      lookup-insert owner o (items_of q owner ++ x ∷ []) q.queues,
      append-ne-nil (items_of q owner) x,
    );
    weighed = λ o m. ground (
      arith,
      v.weighed o,
      v.queued owner,
      contains-append o owner q.order,
      same_iff owner o,
      lookup-insert owner o (at_least_one w) q.weight,
      at_least_one_pos w,
    );
    tidy_weight = λ o m. ground (
      arith,
      v.tidy_weight o,
      v.queued owner,
      contains-append o owner q.order,
      same_iff owner o,
      lookup-insert owner o (at_least_one w) q.weight,
    );
    tidy_credits = λ o m. ground (
      arith,
      v.tidy_credits o,
      v.queued owner,
      contains-append o owner q.order,
      same_iff owner o,
      lookup-insert owner o 0 q.credits,
    );
    within = ground (arith, v.within, length-append q.order (owner ∷ []));
  }

  order-set_weight : (q : FairQueue A) (o : String) (w : ℤ) → (set_weight q o w).order ≡ q.order
  unfolding set_weight
  order-set_weight q o w = ground arith

  set_weights_of-Inv :
      (os : List String) (q : FairQueue A) (weights : String → ℤ)
      → ((o : String) → contains o os ≡ true → contains o q.order ≡ true)
      → Inv q
      → Inv (set_weights_of os q weights)
  unfolding set_weights_of
  set_weights_of-Inv [] q weights h v = v
  set_weights_of-Inv (x ∷ os) q weights h v =
      set_weights_of-Inv os _ weights
        (λ o m. rw (order-set_weight q x (weights x)) (h o (ground arith)))
        (set_weight-Inv q x (weights x) (h x (ground (arith, same_refl x))) v)

  pub set_weights-Inv :
      (q : FairQueue A) (weights : String → ℤ) → Inv q → Inv (set_weights q weights)
  unfolding set_weights
  set_weights-Inv q weights v = set_weights_of-Inv q.order q weights (λ o m. m) v

  remove_owner-Inv : (q : FairQueue A) (i : ℕ) → i < length q.order → Inv q → Inv (remove_owner q i)
  unfolding remove_owner
  remove_owner-Inv q i h v = record {
    distinct = remove_at-Distinct q.order i v.distinct h;
    queued = λ o. ground (
      arith,
      v.queued o,
      lookup-erase (get_or q.order i "") o q.queues,
      contains-remove_at o q.order i v.distinct h,
    );
    busy = λ o. ground (arith, v.busy o, lookup-erase (get_or q.order i "") o q.queues);
    weighed = λ o m. ground (
      arith,
      v.weighed o,
      lookup-erase (get_or q.order i "") o q.weight,
      contains-remove_at o q.order i v.distinct h,
    );
    tidy_weight = λ o m. ground (
      arith,
      v.tidy_weight o,
      lookup-erase (get_or q.order i "") o q.weight,
      contains-remove_at o q.order i v.distinct h,
    );
    tidy_credits = λ o m. ground (
      arith,
      v.tidy_credits o,
      lookup-erase (get_or q.order i "") o q.credits,
      contains-remove_at o q.order i v.distinct h,
    );
    within = ground (arith, v.within, length-remove_at q.order i h);
  }

  -- An owner in order may be given other items, and the cursor another place.
  requeue-Inv :
      (q : FairQueue A) (owner : String) (x : A) (xs : List A) (cursor : ℕ)
      → contains owner q.order ≡ true
      → cursor < length q.order
      → Inv q
      → Inv (record q { queues = insert owner (x ∷ xs) q.queues; cursor = cursor })
  requeue-Inv q owner x xs cursor m h v = record {
    distinct = v.distinct;
    queued =
        λ o. ground (arith, v.queued o, same_iff owner o, lookup-insert owner o (x ∷ xs) q.queues);
    busy = λ o. ground (arith, v.busy o, lookup-insert owner o (x ∷ xs) q.queues);
    weighed = v.weighed;
    tidy_weight = v.tidy_weight;
    tidy_credits = v.tidy_credits;
    within = omega arith;
  }

  credit-Inv :
      (q : FairQueue A) (owner : String) (c : ℕ)
      → contains owner q.order ≡ true
      → Inv q
      → Inv (record q { credits = insert owner c q.credits })
  credit-Inv q owner c m v = record {
    distinct = v.distinct;
    queued = v.queued;
    busy = v.busy;
    weighed = v.weighed;
    tidy_weight = v.tidy_weight;
    tidy_credits = λ o n.
        ground (arith, v.tidy_credits o n, same_iff owner o, lookup-insert owner o c q.credits);
    within = v.within;
  }

  pub take_item-Inv :
      (q : FairQueue A) (rest : List A) → q.cursor < length q.order → Inv q → Inv (take_item q rest)
  unfolding take_item
  take_item-Inv q [] h v =
      rw (erase-insert (get_or q.order q.cursor "") [] q.queues, erase-insert)
        (remove_owner-Inv q q.cursor h v)
  take_item-Inv q (x ∷ xs) h v =
      let owner = get_or q.order q.cursor "" in
      let m = contains-get_or q.order q.cursor h in
      let credit =
        if leb (credits_of q (get_or q.order q.cursor "")) 0
        then weight_of q (get_or q.order q.cursor "")
        else credits_of q (get_or q.order q.cursor "") in
      elim (Bool-cases (credit - 1 == 0)) [
        | inl e ↦
            rw e (credit-Inv _ owner _ m (requeue-Inv q owner x xs _ m (step_lt q.cursor _ h) v))
        | inr e ↦ rw e (credit-Inv _ owner _ m (requeue-Inv q owner x xs _ m h v))
      ]

  pub advance-Inv : (q : FairQueue A) → 0 < length q.order → Inv q → Inv (advance q)
  unfolding advance
  advance-Inv q h v = record {
    distinct = v.distinct;
    queued = v.queued;
    busy = v.busy;
    weighed = v.weighed;
    tidy_weight = v.tidy_weight;
    tidy_credits = v.tidy_credits;
    within = omega (arith, v.within, step_lt q.cursor (length q.order));
  }

  -- What `RemoveIf` does with the owner at `i` when `kept` is left.
  pub sifted-Inv :
      (q : FairQueue A) (i : ℕ) (kept : List A)
      → i < length q.order
      → Inv q
      → let q' = record q { queues = insert (get_or q.order i "") kept q.queues } in
        Inv (if is_nil kept then remove_owner q' i else q')
  unfolding remove_owner
  sifted-Inv q i [] h v =
      rw (erase-insert (get_or q.order i "") [] q.queues) (remove_owner-Inv q i h v)
  sifted-Inv q i (x ∷ xs) h v =
      requeue-Inv q _ x xs q.cursor (contains-get_or q.order i h) (omega (arith, v.within)) v

module _ {A S : Type 0} where
  next_rounds-Inv :
      (n : ℕ) (f : S → A → Bool × S) (q : FairQueue A) (s : S)
      → n ≤ length q.order
      → Inv q
      → Inv (next_rounds n f q s).1
  unfolding next_rounds
  next_rounds-Inv zero f q s h v = v
  next_rounds-Inv (suc n) f q s h v =
      elim (Option-cases (scan f s (items_of q (get_or q.order q.cursor ""))).0) [
        | inl e ↦
            rw (e, next_rounds)
              (next_rounds-Inv n f (advance q) _ (omega arith) (advance-Inv q (omega arith) v))
        | inr (found, e) ↦ rw (e, next_rounds) (take_item-Inv q found.1 (omega (arith, v.within)) v)
      ]

  -- The queue stays well formed, whatever the predicate answers.
  pub next_eligible-Inv :
      (f : S → A → Bool × S) (q : FairQueue A) (s : S) → Inv q → Inv (next_eligible f q s).1
  unfolding next_eligible
  next_eligible-Inv f q s v = next_rounds-Inv (length q.order) f q s (omega arith) v

  remove_rounds-Inv :
      (n : ℕ) (f : S → A → Bool × S) (i : ℕ) (q : FairQueue A) (s : S)
      → Inv q
      → Inv (remove_rounds n f i q s).1
  unfolding remove_rounds
  remove_rounds-Inv zero f i q s v = v
  remove_rounds-Inv (suc n) f i q s v =
      let kept = (sift f s (items_of q (get_or q.order i ""))).0 in
      elim (Bool-cases (ltb i (length q.order))) [
        | inl e ↦ rw e (remove_rounds-Inv n f _ _ _ (sifted-Inv q i kept (ground arith) v))
        | inr e ↦ rw e v
      ]

  pub remove_if-Inv :
      (f : S → A → Bool × S) (q : FairQueue A) (s : S) → Inv q → Inv (remove_if f q s).1
  unfolding remove_if
  remove_if-Inv f q s v = remove_rounds-Inv (length q.order) f 0 q s v
