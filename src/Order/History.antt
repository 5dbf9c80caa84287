-- ===== src/Order/History.antt =====
-- The order service's database over time: every committed transaction of the consumer, the
-- customers and the administrators, in services/order/app/{consumer,services}.py, is a step.
use inventory_management_sys.Prelude.{◌≡◌, [], lookup, Bool, String, Uuid, Datetime}
use inventory_management_sys.Common.Errors.{ok}
use inventory_management_sys.Order.Models.{Order, OrderDb}
use inventory_management_sys.Order.Consumer.{Message, handle}
use inventory_management_sys.Order.Service.{cancel_order, ship_order, deliver_order}
use inventory_management_sys.Order.Checkout.{CreateOrderRequest, Race, create_order}
use inventory_management_sys.Order.Kept.{
  AllValid, handle-AllValid, cancel_order-AllValid, ship_order-AllValid, deliver_order-AllValid,
  create_order-AllValid,
}

-- The tables as the first migration leaves them.
abbrev pub empty : OrderDb
empty = record { orders = []; products = []; outbox = [] }

-- The committed transactions. One that raises is rolled back, and is no step.
pub data Step (s t : OrderDb) : Type 0 where
  handles : (now : Datetime) (message : Message) → handle now message s ≡ ok t → Step s t
  creates :
      (race : Race) (fresh_id user_id : Uuid) (body : CreateOrderRequest) (key : String)
      (result : Order × Bool)
      → create_order race fresh_id user_id body key s ≡ ok (result, t)
      → Step s t
  cancels :
      (now : Datetime) (order_id caller_id : Uuid) (is_admin : Bool) (reason : String)
      → cancel_order now order_id caller_id is_admin reason s ≡ ok t
      → Step s t
  ships : (now : Datetime) (order_id : Uuid) → ship_order now order_id s ≡ ok t → Step s t
  delivers : (now : Datetime) (order_id : Uuid) → deliver_order now order_id s ≡ ok t → Step s t

pub data Reach : OrderDb → Type 0 where
  here : Reach empty
  next : {s t : OrderDb} → Reach s → Step s t → Reach t

Step-AllValid : {s t : OrderDb} → Step s t → AllValid s → AllValid t
Step-AllValid {s} {t} (handles now message e) v = handle-AllValid now message s t v e
Step-AllValid {s} {t} (creates race i u body key result e) v =
    create_order-AllValid race i u body key s result t v e
Step-AllValid {s} {t} (cancels now o caller is_admin reason e) v =
    cancel_order-AllValid now o caller is_admin reason s t v e
Step-AllValid {s} {t} (ships now o e) v = ship_order-AllValid now o s t v e
Step-AllValid {s} {t} (delivers now o e) v = deliver_order-AllValid now o s t v e

empty-AllValid : AllValid empty
unfolding lookup
empty-AllValid o x found = absurd (cc)

-- In every database of the order service that a sequence of committed transactions reaches from
-- the empty tables (events that the consumer handles, checkouts, cancellations, shipments and
-- deliveries, in any order), every order stands under its own id and is valid: its history is a
-- legal path from PENDING to its status, completed_at is set exactly in the terminal statuses, a
-- failure reason stands only in FAILED, and outside CANCELLED the history entered PAID exactly if
-- the status is a paid one.
pub Reach-AllValid : {s : OrderDb} → Reach s → AllValid s
Reach-AllValid here = empty-AllValid
Reach-AllValid (next before step) = Step-AllValid step (Reach-AllValid before)
