-- ===== src/Pricing/Rows.antt =====
-- libs/smartfood-pricing/smartfood_pricing/models.py and errors.py, and the catalog snapshot that
-- engine.py reads. Identifiers, names and currencies are numbers; an option's price may be negative.
use smart_food_ops.Prelude.{ℕ, Bool, Option, List}
use smart_food_ops.Prelude.Int.{ℤ}

pub record Selection : Type 0 where
  pub group_id : ℕ
  pub option_id : ℕ

pub record Line : Type 0 where
  pub item_id : ℕ
  pub qty : ℕ
  pub options : List Selection

pub record PricingConfig : Type 0 where
  pub delivery_fee_cents : ℕ
  pub tax_basis_points : ℕ

pub record MenuOption : Type 0 where
  pub id : ℕ
  pub name : ℕ
  pub price_delta_cents : ℤ

pub record Group : Type 0 where
  pub id : ℕ
  pub name : ℕ
  pub options : List MenuOption
  pub min_select : ℕ
  pub max_select : ℕ

pub record Item : Type 0 where
  pub id : ℕ
  pub name : ℕ
  pub price_cents : ℕ
  pub currency : ℕ
  pub available : Bool
  pub modifier_groups : List Group

-- `is_open`: the status is "open". `open_now` may be absent.
pub record Snapshot : Type 0 where
  pub id : ℕ
  pub name : ℕ
  pub is_open : Bool
  pub open_now : Option Bool
  pub items : List Item
  pub missing_item_ids : List ℕ

pub record PricedOption : Type 0 where
  pub group_id : ℕ
  pub group_name : ℕ
  pub option_id : ℕ
  pub name : ℕ
  pub price_delta_cents : ℤ

pub record PricedLine : Type 0 where
  pub item_id : ℕ
  pub name : ℕ
  pub qty : ℕ
  pub unit_price_cents : ℕ
  pub options : List PricedOption
  pub line_total_cents : ℤ

pub record Totals : Type 0 where
  pub subtotal_cents : ℤ
  pub discount_cents : ℤ
  pub fee_cents : ℤ
  pub tax_cents : ℤ
  pub total_cents : ℤ

-- `currency` is none for the default "USD".
pub record PricedOrder : Type 0 where
  pub lines : List PricedLine
  pub totals : Totals
  pub currency : Option ℕ
  pub restaurant_name : ℕ

-- With the group's name and its bound.
pub data Issue : Type 0 where
  duplicate_option : ℕ → Issue
  too_few : ℕ → ℕ → Issue
  too_many : ℕ → ℕ → Issue

-- An issue of one line, by its index, or of the request that has none.
pub data Violation : Type 0 where
  line_required : Violation
  line_violation : ℕ → Issue → Violation

pub data Answer : Type 0 where
  priced_order : PricedOrder → Answer
  restaurant_closed : ℕ → Answer
  item_unavailable : List ℕ → Answer
  invalid_selection : List Violation → Answer
  price_changed : ℤ → Answer
