-- ===== src/Subscriptions/Cycle.antt =====
-- What a billing cycle does with a charge that succeeds and with one that fails.
use mall.Base.{
  ◌≡◌, ◌≢◌, refl, sym, ap, subst, ◌∙◌, ◌⊎◌, inl, inr, none, some, [], ◌∷◌, ◌++◌, arith, ℤ,
  Option-cases, is_empty, false,
}
use mall.Kernel.{KernelId, Time, Error, ok, err, Outcome}
use mall.Subscriptions.Plans.{Plan}
use mall.Subscriptions.Life.{
  Subscription, active, past_due, expired, renew, expire, fail_payment, drop_events, AddDate,
}
use mall.Subscriptions.Billing.{
  SubscriptionService, BillingWorld, BillingCharger, Charge, paid, refused, try_charge,
  store_and_publish, billed, bill, publish_events, handle_billing_cycle,
}

try_charge-paid :
    {C : Type 0} (charge : BillingCharger C) (sub : Subscription) (amount : ℤ) (c c' : C)
    → is_empty sub.payment_token ≡ false
    → charge sub.id sub.user_id amount sub.payment_token c ≡ (none, c')
    → try_charge (some charge) sub amount c ≡ (paid, c')
unfolding try_charge
try_charge-paid charge sub amount c c' t h = rw (t, h) refl

try_charge-refused :
    {C : Type 0} (charge : BillingCharger C) (sub : Subscription) (amount : ℤ) (c c' : C)
    (e : Error)
    → is_empty sub.payment_token ≡ false
    → charge sub.id sub.user_id amount sub.payment_token c ≡ (some e, c')
    → try_charge (some charge) sub amount c ≡ (refused e, c')
unfolding try_charge
try_charge-refused charge sub amount c c' e t h = rw (t, h) refl

renew_billable :
    (add_date : AddDate) (plan : Plan) (now touched : Time) (s : Subscription)
    → (s.status ≡ active) ⊎ (s.status ≡ past_due)
    → ((renew add_date (some plan) now touched s).1 ≡ none)
      × ((renew add_date (some plan) now touched s).0.status ≡ s.status)
      × ((renew add_date (some plan) now touched s).0.current_period_start ≡ now)
unfolding renew
renew_billable add_date plan now touched s billable = ground arith

renew_ok :
    (add_date : AddDate) (plan : Plan) (now touched : Time) (s : Subscription)
    → (renew add_date (some plan) now touched s).1 ≡ none
    → (s.status ≡ active) ⊎ (s.status ≡ past_due)
unfolding renew
renew_ok add_date plan now touched s done = ground arith

renew_unbillable :
    (add_date : AddDate) (plan : Plan) (now touched : Time) (s : Subscription)
    → s.status ≢ active
    → s.status ≢ past_due
    → (e : Error) × ((renew add_date (some plan) now touched s).1 ≡ some e)
renew_unbillable add_date plan now touched s not_active not_due =
    elim (Option-cases (renew add_date (some plan) now touched s).1) [
      | inr refused_renewal ↦ refused_renewal
      | inl done ↦ elim (renew_ok add_date plan now touched s done) [
        | inl a ↦ absurd (not_active a)
        | inr p ↦ absurd (not_due p)
      ]
    ]

billed_refused_active :
    {S P C : Type 0} (svc : SubscriptionService S P C) (e : Error) (plan : Plan)
    (now touched : Time) (s : Subscription)
    → s.status ≡ active
    → ((billed svc (refused e) plan now touched s).1 ≡ none)
      × ((billed svc (refused e) plan now touched s).0.status ≡ past_due)
unfolding billed expire fail_payment
billed_refused_active svc e plan now touched s h = ground arith

billed_refused_due :
    {S P C : Type 0} (svc : SubscriptionService S P C) (e : Error) (plan : Plan)
    (now touched : Time) (s : Subscription)
    → s.status ≡ past_due
    → ((billed svc (refused e) plan now touched s).1 ≡ none)
      × ((billed svc (refused e) plan now touched s).0.status ≡ expired)
unfolding billed expire fail_payment
billed_refused_due svc e plan now touched s h = ground arith

billed_refused_done :
    {S P C : Type 0} (svc : SubscriptionService S P C) (e : Error) (plan : Plan)
    (now touched : Time) (s : Subscription)
    → (s.status ≡ active) ⊎ (s.status ≡ past_due)
    → (billed svc (refused e) plan now touched s).1 ≡ none
billed_refused_done svc e plan now touched s (inl a) =
    (billed_refused_active svc e plan now touched s a).0
billed_refused_done svc e plan now touched s (inr p) =
    (billed_refused_due svc e plan now touched s p).0

module _ {S P C : Type 0} (svc : SubscriptionService S P C) where
  store_and_publish_saved :
      (o : Outcome Subscription) (w : BillingWorld S P C)
      → o.1 ≡ none
      → (svc.sub_repo.save o.0 w.subs).0 ≡ none
      → store_and_publish svc o w ≡ (
        ok (drop_events o.0),
        record w { subs = (svc.sub_repo.save o.0 w.subs).1; published = w.published ++ (o.0 ∷ []) },
      )
  unfolding store_and_publish publish_events
  store_and_publish_saved (sub, none) w done saved = ground (arith, saved)
  store_and_publish_saved (sub, some e) w done saved = absurd (ground (arith, done))

  store_and_publish_error :
      (o : Outcome Subscription) (w : BillingWorld S P C) (e : Error)
      → o.1 ≡ some e
      → store_and_publish svc o w ≡ (err e, w)
  unfolding store_and_publish
  store_and_publish_error (sub, none) w e h = absurd (ground (arith, h))
  store_and_publish_error (sub, some x) w e h = ground (arith, h)

  -- A cycle that ends with `s`, which is stored and published once, and with `outside` after the
  -- charge.
  abbrev pub EndsWith : KernelId → Time → Time → BillingWorld S P C → C → Subscription → Type 0
  EndsWith sub_id now touched w outside s = handle_billing_cycle svc sub_id now touched w ≡ (
    ok (drop_events s),
    record w {
      outside = outside;
      subs = (svc.sub_repo.save s w.subs).1;
      published = w.published ++ (s ∷ []);
    },
  )

  -- A subscription and its plan that are stored, and a charger that is asked, with its answer.
  module _ (sub_id : KernelId) (now touched : Time) (w : BillingWorld S P C) (sub : Subscription)
      (plan : Plan) (charge : BillingCharger C) (c' : C)
      (found : svc.sub_repo.find sub_id w.subs ≡ ok sub)
      (planned : svc.plan_repo.find sub.plan_id w.plans ≡ ok plan)
      (charged : svc.charger ≡ some charge) (token : is_empty sub.payment_token ≡ false) where
    handle-bill : handle_billing_cycle svc sub_id now touched w ≡ bill svc sub plan now touched w
    unfolding handle_billing_cycle
    handle-bill = rw (found, planned) refl

    bill_charged :
        (answer : Charge)
        → try_charge (some charge) sub plan.amount w.outside ≡ (answer, c')
        → handle_billing_cycle svc sub_id now touched w
          ≡ store_and_publish svc
              (billed svc answer plan now touched sub)
              (record w { outside = c' })
    unfolding bill
    bill_charged answer h =
        let answered : try_charge svc.charger sub plan.amount w.outside ≡ (answer, c') =
          subst (λ o. try_charge o sub plan.amount w.outside ≡ (answer, c')) (sym charged) h in
        handle-bill
        ∙ ap
            (λ (o : Charge × C).
              store_and_publish svc (billed svc o.0 plan now touched sub)
                (record w { outside = o.1 }))
            answered

    -- For a stored subscription with a payment token, its stored plan and a charger: a charge that
    -- succeeds renews an active or past due subscription, if the save succeeds: the period starts
    -- anew, and what is stored is published once. The status is as before: one that is past due
    -- stays so.
    pub handle_billing_cycle-paid :
        charge sub.id sub.user_id plan.amount sub.payment_token w.outside ≡ (none, c')
        → (sub.status ≡ active) ⊎ (sub.status ≡ past_due)
        → (svc.sub_repo.save (renew svc.add_date (some plan) now touched sub).0 w.subs).0 ≡ none
        → let s = (renew svc.add_date (some plan) now touched sub).0 in
          EndsWith sub_id now touched w c' s
          × (s.status ≡ sub.status)
          × (s.current_period_start ≡ now)
    unfolding billed
    handle_billing_cycle-paid answer billable saved =
        let (done, same, begun) = renew_billable svc.add_date plan now touched sub billable in
        (
          bill_charged paid (try_charge-paid charge sub plan.amount w.outside c' token answer)
              ∙ store_and_publish_saved (renew svc.add_date (some plan) now touched sub)
                  (record w { outside = c' }) done saved,
          same,
          begun,
        )

    -- For a stored subscription with a payment token, its stored plan and a charger: a charge that
    -- fails makes an active subscription past due, and a past due one expired, if the save
    -- succeeds.
    pub handle_billing_cycle-refused :
        (e : Error)
        → charge sub.id sub.user_id plan.amount sub.payment_token w.outside ≡ (some e, c')
        → (sub.status ≡ active) ⊎ (sub.status ≡ past_due)
        → (svc.sub_repo.save (billed svc (refused e) plan now touched sub).0 w.subs).0 ≡ none
        → let s = (billed svc (refused e) plan now touched sub).0 in
          EndsWith sub_id now touched w c' s
          × (sub.status ≡ active → s.status ≡ past_due)
          × (sub.status ≡ past_due → s.status ≡ expired)
    handle_billing_cycle-refused e answer billable saved = (
      bill_charged (refused e)
            (try_charge-refused charge sub plan.amount w.outside c' e token answer)
          ∙ store_and_publish_saved (billed svc (refused e) plan now touched sub)
              (record w { outside = c' }) (billed_refused_done svc e plan now touched sub billable)
              saved,
      λ a. (billed_refused_active svc e plan now touched sub a).1,
      λ p. (billed_refused_due svc e plan now touched sub p).1,
    )

    -- For a stored subscription with a payment token, its stored plan and a charger whose charge
    -- succeeds: the charge comes before the look at the status. A subscription that is neither
    -- active nor past due is charged, and the cycle returns an error and stores and publishes
    -- nothing.
    pub handle_billing_cycle_lost :
        charge sub.id sub.user_id plan.amount sub.payment_token w.outside ≡ (none, c')
        → sub.status ≢ active
        → sub.status ≢ past_due
        → (e : Error) × (handle_billing_cycle svc sub_id now touched w
            ≡ (err e, record w { outside = c' }))
    unfolding billed
    handle_billing_cycle_lost answer not_active not_due =
        let (e, unrenewed) =
          renew_unbillable svc.add_date plan now touched sub not_active not_due in
        (
          e,
          bill_charged paid (try_charge-paid charge sub plan.amount w.outside c' token answer)
              ∙ store_and_publish_error (renew svc.add_date (some plan) now touched sub)
                  (record w { outside = c' }) e unrenewed,
        )
