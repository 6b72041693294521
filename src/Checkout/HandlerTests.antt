-- ===== src/Checkout/HandlerTests.antt =====
-- The theorem on payment handlers at a registry whose first handler takes small amounts only.
use mall.Base.{◌≡◌, refl, false, ◌⊎◌, some, List, [], ◌∷◌, pos, All}
use mall.Checkout.Handlers.{
  HandlerSpec, spec_of, find_by_name, first_suited, in_region, negotiate, suits, IsFirst,
  negotiate_unrequested,
}

abbrev small : HandlerSpec
small = spec_of "small" "shop" [] ("US" ∷ []) false (pos 100)

abbrev large : HandlerSpec
large = spec_of "large" "bank" [] ("DE" ∷ "US" ∷ []) false (pos 0)

abbrev handlers : List HandlerSpec
handlers = small ∷ large ∷ []

negotiate_unrequested_example :
    ((h : HandlerSpec) × (negotiate (pos 101) "US" "" handlers ≡ some h)
      × IsFirst (suits (pos 101) "US") h handlers)
    ⊎ ((negotiate (pos 101) "US" "" handlers ≡ find_by_name "mock" handlers)
        × All (λ x. suits (pos 101) "US" x ≡ false) handlers)
negotiate_unrequested_example = negotiate_unrequested (pos 101) "US" handlers

large_chosen : negotiate (pos 101) "US" "" handlers ≡ some large
unfolding negotiate first_suited in_region
large_chosen = refl
