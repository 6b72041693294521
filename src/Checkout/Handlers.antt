-- ===== src/Checkout/Handlers.antt =====
-- domain/checkout/payment.go: the registry of payment handlers, and the handler that Negotiate
-- chooses.
use mall.Base.{
  String, ◌≡◌, refl, ap, sym, ◌∙◌, Bool, true, false, not, ◌&&◌, ◌||◌, Bool-cases, ◌⊎◌, inl, inr,
  Option, none, some, List, [], ◌∷◌, if◌then◌else◌, ℤ, pos, ltb_ℤ, is_empty, str_eq, arith, All,
  Option-cases,
}

pub record HandlerSpec : Type 0 where
  pub name : String
  pub provider : String
  pub capabilities : List String
  pub supported_regions : List String
  pub requires_ap2 : Bool
  pub min_amount : ℤ
  pub max_amount : ℤ

abbrev pub spec_of : String → String → List String → List String → Bool → ℤ → HandlerSpec
spec_of name provider capabilities regions requires_ap2 max_amount = record {
  name = name;
  provider = provider;
  capabilities = capabilities;
  supported_regions = regions;
  requires_ap2 = requires_ap2;
  min_amount = pos 0;
  max_amount = max_amount;
}

-- The handlers of `NewPaymentHandlerRegistry`.
abbrev pub new_payment_handler_registry : List HandlerSpec
new_payment_handler_registry =
    spec_of "mock" "mock" ("payment" ∷ []) ("*" ∷ []) false (pos 0)
    ∷ spec_of "stripe" "stripe" ("payment" ∷ "refund" ∷ [])
        ("US" ∷ "CA" ∷ "GB" ∷ "DE" ∷ "FR" ∷ "AU" ∷ []) false (pos 99999900)
    ∷ spec_of "ap2_mandate" "ap2" ("payment" ∷ "autonomous" ∷ []) ("*" ∷ []) true (pos 0)
    ∷ spec_of "shop_pay" "shopify" ("payment" ∷ "wallet" ∷ "express" ∷ [])
        ("US" ∷ "CA" ∷ "GB" ∷ "AU" ∷ []) false (pos 99999900)
    ∷ spec_of "google_pay" "google" ("payment" ∷ "wallet" ∷ "tokenization" ∷ [])
        ("US" ∷ "CA" ∷ "GB" ∷ "DE" ∷ "FR" ∷ "JP" ∷ "AU" ∷ []) false (pos 99999900)
    ∷ spec_of "apple_pay" "apple" ("payment" ∷ "wallet" ∷ "tokenization" ∷ [])
        ("US" ∷ "CA" ∷ "GB" ∷ "FR" ∷ "DE" ∷ "AU" ∷ "JP" ∷ "SG" ∷ []) false (pos 99999900)
    ∷ []

unfoldable pub find_by_name : String → List HandlerSpec → Option HandlerSpec
find_by_name name [] = none
find_by_name name (h ∷ handlers) =
    let rest = find_by_name name handlers in if str_eq h.name name then some h else rest

-- The loop over the regions.
unfoldable pub in_region : String → List String → Bool
in_region region [] = false
in_region region (reg ∷ regs) =
    let rest = in_region region regs in if str_eq reg "*" || str_eq reg region then true else rest

-- The loop over the handlers.
unfoldable pub first_suited : ℤ → String → List HandlerSpec → Option HandlerSpec
unfolding in_region
first_suited amount region [] = none
first_suited amount region (h ∷ handlers) =
    let rest = first_suited amount region handlers in
    if h.requires_ap2
    then rest
    else if ltb_ℤ (pos 0) h.max_amount && ltb_ℤ h.max_amount amount
    then rest
    else if ltb_ℤ (pos 0) h.min_amount && ltb_ℤ amount h.min_amount
    then rest
    else if in_region region h.supported_regions
    then some h
    else rest

abbrev pub or_mock : Option HandlerSpec → List HandlerSpec → Option HandlerSpec
or_mock (some h) handlers = some h
or_mock none handlers = find_by_name "mock" handlers

unfoldable pub negotiate : ℤ → String → String → List HandlerSpec → Option HandlerSpec
unfolding find_by_name
negotiate amount region requested handlers =
    if not (is_empty requested)
    then or_mock (find_by_name requested handlers) handlers
    else or_mock (first_suited amount region handlers) handlers

-- `AP2Verifier.VerifyMandate`
unfoldable pub verify_mandate_token : String → Bool
verify_mandate_token token = not (is_empty token)

-- Without AP2, for the amount and in the region.
abbrev pub suits : ℤ → String → HandlerSpec → Bool
suits amount region h =
    not h.requires_ap2
    && not (ltb_ℤ (pos 0) h.max_amount && ltb_ℤ h.max_amount amount)
    && not (ltb_ℤ (pos 0) h.min_amount && ltb_ℤ amount h.min_amount)
    && in_region region h.supported_regions

-- A handler of the list that meets a test, the first one that does.
abbrev pub IsFirst : (HandlerSpec → Bool) → HandlerSpec → List HandlerSpec → Type 0
IsFirst p h [] = ⊥
IsFirst p h (x ∷ xs) = ((x ≡ h) × (p h ≡ true)) ⊎ ((p x ≡ false) × IsFirst p h xs)

first_suited_step :
    (amount : ℤ) (region : String) (x : HandlerSpec) (xs : List HandlerSpec)
    → first_suited amount region (x ∷ xs)
      ≡ (if suits amount region x then some x else first_suited amount region xs)
unfolding first_suited
first_suited_step amount region x xs = ground arith

first_suited-IsFirst :
    (amount : ℤ) (region : String) (handlers : List HandlerSpec) (h : HandlerSpec)
    → first_suited amount region handlers ≡ some h
    → IsFirst (suits amount region) h handlers
unfolding first_suited
first_suited-IsFirst amount region [] h found = absurd (ground (arith, found))
first_suited-IsFirst amount region (x ∷ xs) h found =
    let step = sym (first_suited_step amount region x xs) ∙ found in
    elim (Bool-cases (suits amount region x)) [
      | inl fits ↦
          let same : x ≡ h = ground (arith, step, fits) in
          inl (same, sym (ap (suits amount region) same) ∙ fits)
      | inr unfit ↦ inr (unfit, first_suited-IsFirst amount region xs h (rw unfit at step))
    ]

first_suited-none :
    (amount : ℤ) (region : String) (handlers : List HandlerSpec)
    → first_suited amount region handlers ≡ none
    → All (λ x. suits amount region x ≡ false) handlers
first_suited-none amount region [] found = tt
first_suited-none amount region (x ∷ xs) found =
    let step = sym (first_suited_step amount region x xs) ∙ found in
    elim (Bool-cases (suits amount region x)) [
      | inl fits ↦ absurd (ground (arith, step, fits))
      | inr unfit ↦ (unfit, first_suited-none amount region xs (rw unfit at step))
    ]

-- With no handler requested, Negotiate returns the first handler of the registry, whatever that is,
-- which needs no AP2, takes the amount and works in the region; where there is none, it returns the
-- handler named mock, or nil where there is no such handler either.
pub negotiate_unrequested :
    (amount : ℤ) (region : String) (handlers : List HandlerSpec)
    → ((h : HandlerSpec) × (negotiate amount region "" handlers ≡ some h)
        × IsFirst (suits amount region) h handlers)
      ⊎ ((negotiate amount region "" handlers ≡ find_by_name "mock" handlers)
          × All (λ x. suits amount region x ≡ false) handlers)
unfolding negotiate
negotiate_unrequested amount region handlers =
    elim (Option-cases (first_suited amount region handlers)) [
      | inl nothing ↦ inr (rw nothing refl, first_suited-none amount region handlers nothing)
      | inr (h, found) ↦ inl (h, rw found refl, first_suited-IsFirst amount region handlers h found)
    ]

-- The registry has mock for every amount and region in the first place, so that without a request
-- nothing else is ever chosen; a request is not compared with the amount and the region.
negotiate_standard :
    (amount : ℤ) (region : String)
    → negotiate amount region "" new_payment_handler_registry
      ≡ find_by_name "mock" new_payment_handler_registry
unfolding negotiate first_suited in_region find_by_name
negotiate_standard amount region = refl

negotiate_requested :
    negotiate (pos 100000000) "BR" "stripe" new_payment_handler_registry
    ≡ find_by_name "stripe" new_payment_handler_registry
unfolding negotiate find_by_name
negotiate_requested = refl
