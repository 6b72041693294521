-- ===== src/Lib.antt =====
-- The commerce core of mall: carts, checkout sessions, orders with their refunds, stock, payment
-- mandates and subscriptions, the distributed transactions between them, the generator of identifiers
-- and the circuit breaker that they run behind; and the parts around it: accounts, the OAuth server
-- with the middleware that reads its tokens, the agent's tasks, discounts, wishlists, reviews and
-- webhooks.
--
-- A cart collects lines (Carts). A checkout takes a snapshot of its lines, collects addresses, a
-- shipping option and a payment handler, is paid through a mandate or through Stripe, and completes
-- (Checkout). An order is made from a completed checkout and moves on to its delivery or its
-- cancellation; a refund takes the payment back over the mandates and restocks the items (Order,
-- Payment, Inventory). A completed checkout is announced; the handlers of that message make the order,
-- or submit a transaction whose branches reserve the stock, verify the payment and make the order, each
-- with a compensation (Sagas), and the mandate of a checkout is paid by such a transaction too. A
-- subscription is charged at the end of each period (Subscriptions). All
-- aggregates are found and saved through repositories and collect events, which the services publish
-- after a save (Kernel).
--
-- The files:
--   Base: Booleans and comparisons, int64 with its wrap-around, lists, decimal texts.
--   Kernel/Errors, Kernel/Entities: domain/kernel/errors.go, id.go, entity.go, aggregate.go.
--   Kernel/Effects, Kernel/Stored: state and errors of a service's method, and its find, change and
--     save; Kernel/StoredLaws what that does over a repository which keeps what it is given, and
--     Kernel/Memory a list that is one.
--   Inventory: domain/inventory/inventory.go (Item) and service.go (Service); Invariant,
--     Reservation, Stock and Race have the theorems.
--   Checkout: domain/checkout/value_objects.go and events.go (Values), checkout.go (Session),
--     service.go, repository.go and defaults.go (Service, Completion), payment.go (Handlers, with its
--     theorem); Machine, Totals, Checks, Payment and Unpaid have the other theorems.
--   Payment: domain/payment/mandate.go, events.go and token_exchange.go (Mandate), service.go
--     (Service); Machine and Stored have the theorems.
--   Carts: domain/cart/cart.go and events.go (Lines, Changes), service.go (Service); LineLaws, Life,
--     Merging and Refinement have the theorems, the last by the table of products of Promise.
--   Order: domain/order/order.go and events.go (Types, Life), service.go (Service), refund.go (Refund),
--     refund_service.go (RefundService); Creation, Machine, Announce and Refunding have the theorems.
--   Subscriptions: domain/subscription/subscription.go and events.go (Plans, Life), service.go (Service,
--     Billing, Trials), application/subscription/billing.go (Due); Machine, Cycle and TrialLaws have the theorems.
--   Ids: domain/kernel/snowflake.go (Snowflake, on the bits of Bits); Order, Sequence and Increase have
--     the theorems.
--   Middleware: interfaces/middleware/circuitbreaker.go (Breaker), with the theorems in BreakerLaws and
--     Recovery; auth.go (UserText, Auth), saga_auth.go, negotiation.go and interfaces/rest/common.go
--     (Auth), with the theorem in Bearer.
--   Sagas: interfaces/rest/saga.go (Handlers), application/payment/dtm_mandate_saga.go and
--     application/order/dtm_saga.go (Branches), infrastructure/checkout/mandate_verifier.go (Mandates),
--     application/order/saga.go and dtm_saga.go (Orders); Numbers, Holding, Undoing and Compensation have
--     the theorems on stock, Covered those on payments, Idempotence those on orders.
--   Oauth: domain/oauth/client.go, code.go and token.go (Values), service.go (Service); Exchange, Once
--     and Rotation have the theorems.
--   Identity: domain/identity/user.go and password_reset.go (User), service.go (Service); Accounts has
--     the theorems.
--   A2a: domain/a2a/task.go, message.go, artifact.go, events.go and errors.go (Task), push_config.go
--     (Skills), service.go (Skills, Service); Life has the theorems.
--   Pricing: domain/kernel/money.go (Money), domain/discount/code.go and service.go (Discount); Bounds has
--     the theorems.
--   Wishlists: domain/wishlist/wishlist.go (Wishlist), service.go (Service); Members and Refinement have
--     the theorems.
--   Reviews: domain/review/review.go (Review), service.go (Service); Moderation has the theorems.
--   Webhooks: domain/order/webhook.go (Webhook), infrastructure/order/webhook.go and retry_worker.go
--     (Delivery); Outcome, Redelivery and Resending have the theorems, the latter two on what Keeping says
--     that every run of the worker keeps.
--
-- Conventions: a Go method on a pointer is a function from the receiver to the changed receiver and its
-- error; a service's method is a function from the storage, and what is published, to its result and the
-- new ones. Names are those of the Go functions. An `int` and an `int64` are integers whose sums wrap
-- around at 64 bits. A time is a natural number, and a method takes the clock readings that it makes, in their
-- order. A repository is a record of two functions; what the theorems ask of it is the record
-- `IsFaithful`, which a list meets.
--
-- Bounds: the loop in which the generator of identifiers waits for the next millisecond runs on fuel, one for
-- each reading of the clock; any fuel above the number of readings up to a later millisecond is enough.
-- A delivery has three attempts, as in the code. All other recursion is on the structure of a list.
--
-- Outside the model: the storage, the publisher, the tax and price services, the mandate verifier of a
-- checkout in general, Stripe, the wallet token validator, the billing charger, the calendar, the client
-- of the DTM server, bcrypt, SHA-256, the JWT library, random readers, the HTTP client, the JSON and
-- the HMAC of a webhook, the regular expression and the lower case of an email and the handlers of the
-- agent's skills are parameters. Logging, tracing, the methods that only read, the remaining REST and MCP interfaces, the other adapters under infrastructure, the
-- rate limiter, which counts in floating point, and the remaining domains are left out.
pub mod Base
pub mod Kernel
pub mod Inventory
pub mod Checkout
pub mod Payment
pub mod Carts
pub mod Order
pub mod Middleware
pub mod Ids
pub mod Subscriptions
pub mod Sagas
pub mod Oauth
pub mod Identity
pub mod A2a
pub mod Pricing
pub mod Wishlists
pub mod Webhooks
pub mod Reviews
