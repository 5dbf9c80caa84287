-- ===== src/Order/Tests/History.antt =====
-- A history of the order service in services/order/app: a product is announced, user 7 orders two of
-- it, and the stock is reserved.
use inventory_management_sys.Prelude.{◌≡◌, refl, insert, true, pos}
use inventory_management_sys.Common.Errors.{ok}
use inventory_management_sys.Order.Consumer.{Message, upsert_snapshot, handle}
use inventory_management_sys.Order.Checkout.{Race}
use inventory_management_sys.Order.Kept.{AllValid}
use inventory_management_sys.Order.History.{
  empty, Reach, handles, creates, here, next, Reach-AllValid,
}
use inventory_management_sys.Order.Tests.{db, body, placed, create_ok, reserved_db, reserve_ok}

announced :
    handle 10
      (Message.product_upserted (record {
        product_id = 1;
        sku = "MUG-1";
        name = "Mug";
        price = pos 999;
        currency = "INR";
        is_active = true;
      }))
      empty
    ≡ ok db
unfolding handle upsert_snapshot insert
announced = refl

reserved-Reach : Reach reserved_db
reserved-Reach =
    next
      (next (next here (handles 10 _ announced))
        (creates Race.calm 100 7 body "key-1" (placed, true) create_ok))
      (handles 50 (Message.inventory_reserved 100) reserve_ok)

Reach-AllValid_example : AllValid reserved_db
Reach-AllValid_example = Reach-AllValid reserved-Reach
