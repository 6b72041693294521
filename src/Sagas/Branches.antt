-- ===== src/Sagas/Branches.antt =====
-- application/order/dtm_saga.go and application/payment/dtm_mandate_saga.go: the sagas that are
-- submitted to the DTM server. The client of that server, dtmcli, is a parameter.
use Prim.Native.String.{◌++◌ as concat}
use mall.Base.{
  String, Option, none, some, List, [], ◌∷◌, ◌++◌, if◌then◌else◌, pos, ltb_ℤ, is_empty, decimal,
}
use mall.Kernel.{KernelId, Error}
use mall.Sagas.Handlers.{SagaItem, SagaPaymentReq, SagaOrderCreateReq}

-- What a branch posts.
pub data Payload : Type 0 where
  reserve_payload : List SagaItem → Payload
  mandate_payload : SagaPaymentReq → Payload
  settle_payload : KernelId → Payload
  order_payload : SagaOrderCreateReq → Payload

-- `saga.Add(action, compensation, payload)`
pub record Branch : Type 0 where
  pub action : String
  pub compensation : String
  pub payload : Payload

-- `X-Saga-Secret`, where it is set.
pub record SagaRequest : Type 0 where
  pub dtm_server : String
  pub gid : String
  pub secret : Option String
  pub branches : List Branch

-- `saga.Submit()`
abbrev pub DtmClient : Type 0 → Type 0
DtmClient X = SagaRequest → X → Option Error × X

abbrev secret_header : String → Option String
secret_header secret = if is_empty secret then none else some secret

unfoldable pub mandate_branches : String → SagaPaymentReq → List Branch
mandate_branches cb_url payload =
    (record {
      action = concat cb_url "/api/v1/saga/mandate/execute";
      compensation = concat cb_url "/api/v1/saga/payment/cancel";
      payload = mandate_payload payload;
    })
    ∷ (record {
      action = concat cb_url "/api/v1/saga/mandate/settle";
      compensation = concat cb_url "/api/v1/saga/mandate/rollback";
      payload = settle_payload payload.mandate_id;
    })
    ∷ []

unfoldable pub make_mandate_submit :
    {X : Type 0}
    → DtmClient X
    → String
    → String
    → String
    → String
    → SagaPaymentReq
    → X
    → Option Error × X
make_mandate_submit client secret dtm_server gid cb_url payload = client (record {
  dtm_server = dtm_server;
  gid = gid;
  secret = secret_header secret;
  branches = mandate_branches cb_url payload;
})

pub record DtmMandateSaga (X : Type 0) : Type 0 where
  pub submit_fn : String → String → String → SagaPaymentReq → X → Option Error × X
  pub dtm_server : String
  pub cb_url : String

unfoldable pub execute_saga :
    {X : Type 0} → DtmMandateSaga X → KernelId → String → X → Option Error × X
execute_saga saga mandate_id token =
    saga.submit_fn saga.dtm_server (concat "mt-" (decimal mandate_id)) saga.cb_url
      (record { mandate_id = mandate_id; token = token })

-- A mandate is verified where the checkout has one.
unfoldable pub checkout_branches :
    String → List SagaItem → KernelId → SagaOrderCreateReq → List Branch
checkout_branches cb_url items mandate_id order =
    ((record {
      action = concat cb_url "/api/v1/saga/inventory/reserve";
      compensation = concat cb_url "/api/v1/saga/inventory/release";
      payload = reserve_payload items;
    })
      ∷ [])
    ++ (if ltb_ℤ (pos 0) mandate_id
        then (record {
          action = concat cb_url "/api/v1/saga/payment/verify";
          compensation = concat cb_url "/api/v1/saga/payment/cancel";
          payload = mandate_payload (record { mandate_id = mandate_id; token = "" });
        })
          ∷ []
        else [])
    ++ ((record {
      action = concat cb_url "/api/v1/saga/order/create";
      compensation = concat cb_url "/api/v1/saga/order/cancel";
      payload = order_payload order;
    })
        ∷ [])

unfoldable pub make_submit_saga :
    {X : Type 0}
    → DtmClient X
    → String
    → String
    → String
    → String
    → List SagaItem
    → KernelId
    → SagaOrderCreateReq
    → X
    → Option Error × X
make_submit_saga client secret dtm_server gid cb_url items mandate_id order = client (record {
  dtm_server = dtm_server;
  gid = gid;
  secret = secret_header secret;
  branches = checkout_branches cb_url items mandate_id order;
})
