-- ===== src/Sagas/Handlers.antt =====
-- interfaces/rest/saga.go: the handlers that the transaction manager calls. A request's body is
-- decoded by encoding/json, with a value or the text of an error; `text` is an error's `Error()`.
use Prim.Native.String.{◌++◌ as concat}
use mall.Base.{ℕ, suc, String, Option, none, some, not, ◌&&◌, List, [], ◌∷◌, if◌then◌else◌, ℤ}
use mall.Kernel.{KernelId, Time, Error, Result, ok, err, Action, Repository, World}
use mall.Inventory.Item.{InventoryItem}
use mall.Inventory.Service.{reserve, release_reservation, confirm_reservation}
use mall.Payment.Mandate.{Mandate, status_eq, executed, settled}
use mall.Payment.Service as PaymentService
use mall.Checkout.Session.{CheckoutSession}
use mall.Order.Types.{Order}
use mall.Order.Service as OrderService

pub record SagaItem : Type 0 where
  pub product_id : KernelId
  pub quantity : ℤ

pub record SagaReserveReq : Type 0 where
  pub items : List SagaItem

pub record SagaPaymentReq : Type 0 where
  pub mandate_id : KernelId
  pub token : String

pub record SagaOrderCreateReq : Type 0 where
  pub order_id : KernelId
  pub checkout_id : KernelId
  pub user_id : KernelId
  pub cart_id : KernelId

-- A decoded body, or the text of the decoder's error.
pub data Body (A : Type 0) : Type 0 where
  decoded : A → Body A
  malformed : String → Body A

-- The status and the text of a reply.
pub record Reply : Type 0 where
  pub status : ℕ
  pub message : String

abbrev pub write_saga_error : String → Reply
write_saga_error msg = record { status = 409; message = msg }

abbrev pub write_saga_ok : Reply
write_saga_ok = record { status = 200; message = "success" }

-- A handler changes one storage.
abbrev pub Handler : Type 0 → Type 0
Handler S = S → Reply × S

abbrev invalid_request : String → Reply
invalid_request e = write_saga_error (concat "invalid request: " e)

abbrev pub with_body : {A S : Type 0} → Body A → (A → Handler S) → Handler S
with_body (malformed e) f s = (invalid_request e, s)
with_body (decoded a) f s = f a s

module _ (text : Error → String) where
  -- `if _, err := …; err != nil { writeSagaError(w, err.Error()); return }; writeSagaOK(w)`
  abbrev pub reply_to : {A S : Type 0} → Result A × S → Reply × S
  reply_to (ok a, s) = (write_saga_ok, s)
  reply_to (err e, s) = (write_saga_error (text e), s)

  abbrev pub reply_to_all : {S : Type 0} → Option Error × S → Reply × S
  reply_to_all (none, s) = (write_saga_ok, s)
  reply_to_all (some e, s) = (write_saga_error (text e), s)

-- The loop of the three inventory handlers: a call for each item, up to the first error.
unfoldable pub call_each :
    {S : Type 0}
    → (SagaItem → Time → Action S InventoryItem)
    → List SagaItem
    → (ℕ → Time)
    → S
    → Option Error × S
call_each call [] clock s = (none, s)
call_each call (item ∷ items) clock s =
    let (r, s') = call item (clock 0) s in
    elim r [ err e ↦ (some e, s') | ok a ↦ call_each call items (λ n. clock (suc n)) s' ]

module _ {S : Type 0} (repo : Repository S InventoryItem KernelId) where
  abbrev pub reserve_item : SagaItem → Time → Action S InventoryItem
  reserve_item i now = reserve repo i.product_id i.quantity now

  abbrev pub release_item : SagaItem → Time → Action S InventoryItem
  release_item i now = release_reservation repo i.product_id i.quantity now

module _ {S : Type 0} (repo : Repository S InventoryItem KernelId) (text : Error → String) where
  unfoldable pub reserve_inventory : Body SagaReserveReq → (ℕ → Time) → Handler S
  reserve_inventory body clock =
      with_body body (λ req s. reply_to_all text (call_each (reserve_item repo) req.items clock s))

  unfoldable pub release_inventory : Body SagaReserveReq → (ℕ → Time) → Handler S
  release_inventory body clock =
      with_body body (λ req s. reply_to_all text (call_each (release_item repo) req.items clock s))

  unfoldable pub confirm_inventory : Body SagaReserveReq → (ℕ → Time) → Handler S
  confirm_inventory body clock = with_body body (λ req s.
      reply_to_all text (
        call_each (λ i now. confirm_reservation repo i.product_id i.quantity now) req.items clock
          s))

module _ {S : Type 0} (repo : Repository S Mandate KernelId) (text : Error → String) where
  abbrev verify_found : Result Mandate → Reply
  verify_found (err e) = write_saga_error (concat "mandate not found: " (text e))
  verify_found (ok m) =
      if not (status_eq m.status executed) && not (status_eq m.status settled)
      then write_saga_error "mandate not in executed/settled state"
      else write_saga_ok

  -- `GetMandate` only finds.
  unfoldable pub verify_payment : Body SagaPaymentReq → Handler S
  verify_payment body = with_body body (λ req s. (verify_found (repo.find req.mandate_id s), s))

  unfoldable pub cancel_payment : Body SagaPaymentReq → Handler S
  cancel_payment body =
      with_body body (λ req s. reply_to text (PaymentService.cancel_mandate repo req.mandate_id s))

  unfoldable pub execute_mandate : Body SagaPaymentReq → Handler S
  execute_mandate body =
      with_body body
        (λ req s. reply_to text (PaymentService.execute_mandate repo req.mandate_id req.token s))

  unfoldable pub settle_mandate : Body KernelId → Handler S
  settle_mandate body =
      with_body body (λ id s. reply_to text (PaymentService.settle_mandate repo id s))

  unfoldable pub rollback_mandate_settle : Handler S
  rollback_mandate_settle s = (write_saga_ok, s)

module _ {S C : Type 0} (repo : Repository S Order KernelId)
    (find_checkout : KernelId → C → Result CheckoutSession) (text : Error → String) where
  abbrev order_from : Result CheckoutSession → SagaOrderCreateReq → Time → Handler (World S Order)
  order_from (err e) req now w = (write_saga_error (concat "checkout not found: " (text e)), w)
  order_from (ok session) req now w =
      reply_to text (OrderService.create_order repo req.order_id session now w)

  -- `GetCheckout` only finds.
  unfoldable pub create_order : Body SagaOrderCreateReq → C → Time → Handler (World S Order)
  create_order body sessions now =
      with_body body (λ req. order_from (find_checkout req.checkout_id sessions) req now)

  unfoldable pub cancel_order : Body KernelId → Time → Time → Handler (World S Order)
  cancel_order body now touched =
      with_body body (λ id w. reply_to text (OrderService.cancel repo id now touched w))
