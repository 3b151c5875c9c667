-- ===== src/Pricing/Tests.antt =====
-- A cart, one with an item that is sold out, and a weekend with an overnight window.
use smart_food_ops.Prelude.{◌≡◌, refl, true, false, none, some, [], ◌∷◌, ◌++◌, length, nat_eq}
use smart_food_ops.Table.{Table, lookup, insert}
use smart_food_ops.Prelude.Int.{pos, negsuc, ◌+ℤ◌, ◌-ℤ◌, ◌*ℤ◌, ◌/ℤ◌}
use smart_food_ops.Pricing.Rows.{
  Line, PricingConfig, Item, Snapshot, PricedOrder, PricedLine, priced_order,
}
use smart_food_ops.Pricing.Engine.{sellable}
use smart_food_ops.Pricing.Order.{price_order}
use smart_food_ops.Pricing.Cost.{cart_cost}
use smart_food_ops.Pricing.Charge.{agrees_with, price_order-cart_cost}
use smart_food_ops.Pricing.Report.{names_item, unavailable_named}
use smart_food_ops.Prelude.{ℕ, if◌then◌else◌, arith}
use smart_food_ops.Pricing.Hours.{Day, points, text, day_of, is_open_at}
use smart_food_ops.Pricing.Posted.{is_readable, posted, is_open_at-posted}

abbrev pizza : Item
pizza = record {
  id = 1;
  name = 10;
  price_cents = 1000;
  currency = 3;
  available = true;
  modifier_groups =
      record {
        id = 4;
        name = 40;
        options =
            record { id = 5; name = 50; price_delta_cents = negsuc 199 }
            ∷ record { id = 6; name = 60; price_delta_cents = pos 150 }
            ∷ [];
        min_select = 1;
        max_select = 2;
      }
      ∷ [];
}

abbrev cake : Item
cake = record {
  id = 2;
  name = 20;
  price_cents = 500;
  currency = 3;
  available = false;
  modifier_groups = [];
}

abbrev menu : Snapshot
menu = record {
  id = 7;
  name = 70;
  is_open = true;
  open_now = none;
  items = pizza ∷ cake ∷ [];
  missing_item_ids = [];
}

abbrev small_pizza : Line
small_pizza = record { item_id = 1; qty = 2; options = record { group_id = 4; option_id = 5 } ∷ [] }

abbrev one_cake : Line
one_cake = record { item_id = 2; qty = 1; options = [] }

abbrev config : PricingConfig
config = record { delivery_fee_cents = 199; tax_basis_points = 825 }

abbrev small_priced : PricedLine
small_priced = record {
  item_id = 1;
  name = 10;
  qty = 2;
  unit_price_cents = 1000;
  options =
      record {
        group_id = 4;
        group_name = 40;
        option_id = 5;
        name = 50;
        price_delta_cents = negsuc 199;
      }
      ∷ [];
  line_total_cents = pos 1600;
}

abbrev small_order : PricedOrder
small_order = record {
  lines = small_priced ∷ [];
  totals = record {
    subtotal_cents = pos 1600;
    discount_cents = pos 0;
    fee_cents = pos 199;
    tax_cents = pos 132;
    total_cents = pos 1931;
  };
  currency = some 3;
  restaurant_name = 70;
}

priced_small :
    price_order menu (small_pizza ∷ []) (some (pos 1931)) config ≡ priced_order small_order
unfolding price_order lookup insert ◌+ℤ◌ ◌-ℤ◌ ◌*ℤ◌ ◌/ℤ◌
priced_small = refl

price_order-cart_cost_example :
    (cart_cost menu (small_pizza ∷ []) ≡ some (pos 1600))
    × (length small_order.lines ≡ length (small_pizza ∷ []))
    × (pos 1931 ≡ pos 1600 -ℤ pos 0 +ℤ pos 199 +ℤ (pos 1600 *ℤ 825) /ℤ 10000)
    × (agrees_with (some (pos 1931)) (pos 1931) ≡ true)
price_order-cart_cost_example =
    price_order-cart_cost menu (small_pizza ∷ []) (some (pos 1931)) config small_order priced_small

unavailable_named_example :
    names_item 2 (price_order menu ((small_pizza ∷ []) ++ one_cake ∷ []) none config) ≡ true
unfolding sellable
unavailable_named_example =
    unavailable_named menu (small_pizza ∷ []) one_cake [] none config refl refl

-- Saturday from 18:00 to 02:00, and Sunday from 11:00 to 12:00.
abbrev weekend : Table ℕ Day
weekend =
    (
      6,
      points (
          text (some (pos 11) ∷ some (pos 0) ∷ []) ∷ text (some (pos 12) ∷ some (pos 0) ∷ []) ∷ []),
    )
    ∷ []

abbrev saturday : ℕ × Day
saturday = (
  5,
  points (text (some (pos 18) ∷ some (pos 0) ∷ []) ∷ text (some (pos 2) ∷ some (pos 0) ∷ []) ∷ []),
)

-- Sunday at 01:00.
is_open_at-posted_example : is_open_at (some (saturday ∷ weekend)) (some (6, 3600)) ≡ (
    if is_readable (day_of 6 (saturday ∷ weekend))
    then posted (saturday ∷ weekend) 6 3600
    else true)
is_open_at-posted_example = is_open_at-posted saturday weekend 6 3600 (omega arith)

open_after_midnight : is_open_at (some (saturday ∷ weekend)) (some (6, 3600)) ≡ true
unfolding is_open_at lookup
open_after_midnight = refl
