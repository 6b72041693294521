-- ===== src/Subscriptions/TrialLaws.antt =====
-- How a trial that has ended is paid, or is not.
use mall.Base.{ℕ, ◌≡◌, ◌⊎◌, inl, refl, Option, none, some, [], ◌∷◌, ◌++◌, arith}
use mall.Kernel.{Time, Error, Outcome}
use mall.Subscriptions.Plans.{Plan}
use mall.Subscriptions.Life.{
  Subscription, trialing, active, expired, activate, expire, renew, drop_events,
}
use mall.Subscriptions.Billing.{SubscriptionService, BillingWorld, paid, publish_events}
use mall.Subscriptions.Trials.{
  passed, ended, convert_trial, close_trial, closed, closed_if_saved, converted, converted_if_saved,
}

module _ {S P C : Type 0} (svc : SubscriptionService S P C) (clock : ℕ → Time) where
  converted_ok :
      (plan : Plan) (o : Outcome Subscription) (w : BillingWorld S P C)
      → o.1 ≡ none
      → converted svc clock plan o w
        ≡ converted_if_saved svc clock
            (renew svc.add_date (some plan) (clock 1) (clock 2) o.0).0
            (svc.sub_repo.save (renew svc.add_date (some plan) (clock 1) (clock 2) o.0).0 w.subs)
            w
  unfolding converted
  converted_ok plan (s, none) w h = refl
  converted_ok plan (s, some e) w h = absurd (ground (arith, h))

  closed_ok :
      (o : Outcome Subscription) (w : BillingWorld S P C)
      → o.1 ≡ none
      → closed svc o w ≡ closed_if_saved svc o.0 (svc.sub_repo.save o.0 w.subs) w
  unfolding closed
  closed_ok (s, none) w h = refl
  closed_ok (s, some e) w h = absurd (ground (arith, h))

  closed_if_saved_done :
      (s : Subscription) (o : Option Error × S) (w : BillingWorld S P C)
      → o.0 ≡ none
      → ((closed_if_saved svc s o w).0 ≡ ended (drop_events s))
        × ((closed_if_saved svc s o w).1.subs ≡ o.1)
        × ((closed_if_saved svc s o w).1.published ≡ w.published ++ (s ∷ []))
  unfolding closed_if_saved publish_events
  closed_if_saved_done s (none, subs) w h = (refl, refl, refl)
  closed_if_saved_done s (some e, subs) w h = absurd (ground (arith, h))

  expire_open :
      (s : Subscription)
      → (s.status ≡ active) ⊎ (s.status ≡ trialing)
      → ((expire (clock 3) s).1 ≡ none) × ((expire (clock 3) s).0.status ≡ expired)
  unfolding expire
  expire_open s h = ground (arith, h)

  -- A subscription that is closed at its trial's end and saved: it is expired, and listed and
  -- published once.
  close_trial_done :
      (s : Subscription) (w : BillingWorld S P C)
      → (s.status ≡ active) ⊎ (s.status ≡ trialing)
      → (svc.sub_repo.save (expire (clock 3) s).0 w.subs).0 ≡ none
      → let (step, w') = close_trial svc clock s w in
        ((expire (clock 3) s).0.status ≡ expired)
        × (step ≡ ended (drop_events (expire (clock 3) s).0))
        × (w'.subs ≡ (svc.sub_repo.save (expire (clock 3) s).0 w.subs).1)
        × (w'.published ≡ w.published ++ ((expire (clock 3) s).0 ∷ []))
  unfolding close_trial
  close_trial_done s w h saved =
      let (done, status) = expire_open s h in
      let (step, subs, published) =
        closed_if_saved_done (expire (clock 3) s).0
          (svc.sub_repo.save (expire (clock 3) s).0 w.subs) w saved in
      rw (closed_ok (expire (clock 3) s) w done) (status, step, subs, published)

  module _ (plan : Plan) (s : Subscription) (trial : s.status ≡ trialing) where
    -- The subscription once it is activated and renewed.
    abbrev pub renewed : Subscription
    renewed = (renew svc.add_date (some plan) (clock 1) (clock 2) (activate (clock 0) s).0).0

    renewed-status : (renewed.status ≡ active) × ((activate (clock 0) s).1 ≡ none)
    unfolding activate renew
    renewed-status = ground (arith, trial)

    -- A subscription on trial whose charge succeeded, and whose save fails: it is closed, and where
    -- that is saved, it is stored, listed and published as expired, though it was paid.
    pub convert_trial_unsaved :
        (w : BillingWorld S P C) (e : Error) (subs : S)
        → svc.sub_repo.save renewed w.subs ≡ (some e, subs)
        → (svc.sub_repo.save (expire (clock 3) renewed).0 subs).0 ≡ none
        → let (step, w') = convert_trial svc clock plan s paid w in
          ((expire (clock 3) renewed).0.status ≡ expired)
          × (step ≡ ended (drop_events (expire (clock 3) renewed).0))
          × (w'.subs ≡ (svc.sub_repo.save (expire (clock 3) renewed).0 subs).1)
          × (w'.published ≡ w.published ++ ((expire (clock 3) renewed).0 ∷ []))
    unfolding convert_trial converted_if_saved
    convert_trial_unsaved w e subs unsaved saved =
        let (status, done) = renewed-status in
        rw (converted_ok plan (activate (clock 0) s) w done, unsaved)
          (close_trial_done renewed (record w { subs = subs }) (inl status) saved)

    -- A trial whose charge succeeded, and which is saved, is stored and published once as active,
    -- and is not listed as expired.
    pub convert_trial_saved :
        (w : BillingWorld S P C) (subs : S)
        → svc.sub_repo.save renewed w.subs ≡ (none, subs)
        → let (step, w') = convert_trial svc clock plan s paid w in
          (renewed.status ≡ active)
          × (step ≡ passed)
          × (w'.subs ≡ subs)
          × (w'.published ≡ w.published ++ (renewed ∷ []))
    unfolding convert_trial converted_if_saved publish_events
    convert_trial_saved w subs saved =
        let (status, done) = renewed-status in
        rw (converted_ok plan (activate (clock 0) s) w done, saved) (status, refl, refl, refl)
