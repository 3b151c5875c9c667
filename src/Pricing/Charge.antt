-- ===== src/Pricing/Charge.antt =====
-- libs/smartfood-pricing/smartfood_pricing/engine.py charges what the menu says, for every line.
use smart_food_ops.Prelude.{
  ℕ, suc, ◌≡◌, refl, Bool, true, false, ◌&&◌, Option, none, some, List, [], ◌∷◌, arith, nat_eq,
  length, Option-cases, inl, inr, ◌⊎◌,
}
use smart_food_ops.Prelude.Int.{ℤ, pos, ◌+ℤ◌, ◌-ℤ◌, ◌*ℤ◌, ◌/ℤ◌, int_beq}
use smart_food_ops.Pricing.Rows.{
  Line, PricingConfig, Item, Snapshot, PricedOption, PricedOrder, priced_order,
}
use smart_food_ops.Pricing.Engine.{
  Picked, Selected, selected, structural_drift, selection_issue, select_options, LineResult, priced,
  price_line, Inspected, sellable, record_line, inspect_lines,
}
use smart_food_ops.Pricing.Order.{
  sum_lines, totals_of, drifted, is_empty, price_inspected, price_order,
}
use smart_food_ops.Pricing.Cost.{
  plus, deltas, line_cost, cart_cost, is_selected, select_options-deltas,
}

abbrev line_total_of : LineResult → Option ℤ
line_total_of (priced p) = some p.line_total_cents
line_total_of _ = none

abbrev is_priced : LineResult → Bool
is_priced (priced p) = true
is_priced _ = false

abbrev with_extra : Line → Item → Option ℤ → Option ℤ
with_extra line item none = none
with_extra line item (some extra) = some ((pos item.price_cents +ℤ extra) *ℤ line.qty)

selected-cases :
    (s : Selected)
    → ((chosen : List PricedOption) × (picked : Picked) × (s ≡ selected chosen picked))
      ⊎ (is_selected s ≡ false)
selected-cases (selected chosen picked) = inl (chosen, picked, refl)
selected-cases structural_drift = inr refl
selected-cases (selection_issue issue) = inr refl

price_line_total :
    (line : Line) (item : Item)
    → is_priced (price_line line item) ≡ true
    → line_total_of (price_line line item)
      ≡ with_extra line item (deltas item.modifier_groups line.options)
unfolding price_line
price_line_total line item h =
    let s = select_options item.modifier_groups line.options [] in
    elim (selected-cases s) [
      | inl (chosen, picked, e) ↦
          ground (arith, e, h, select_options-deltas item.modifier_groups line.options [])
      | inr failed ↦ ground (arith, failed, h)
    ]

abbrev pub is_clean : Inspected → Bool
is_clean inspected = is_empty inspected.unavailable && is_empty inspected.violations

is_clean-record_line :
    (index : ℕ) (line : Line) (item : Item) (r : LineResult) (rest : Inspected)
    → is_clean (record_line index line item r rest) ≡ true
    → is_priced r && is_clean rest ≡ true
unfolding record_line
is_clean-record_line index line item r rest h = ground arith

sum_lines-record_line :
    (index : ℕ) (line : Line) (item : Item) (r : LineResult) (rest : Inspected)
    → is_priced r ≡ true
    → some (sum_lines (record_line index line item r rest).lines)
      ≡ plus (line_total_of r) (some (sum_lines rest.lines))
unfolding record_line sum_lines
sum_lines-record_line index line item r rest h = ground arith

length-record_line :
    (index : ℕ) (line : Line) (item : Item) (r : LineResult) (rest : Inspected)
    → is_priced r ≡ true
    → length (record_line index line item r rest).lines ≡ suc (length rest.lines)
unfolding record_line
length-record_line index line item r rest h = ground arith

inspect_lines-cost :
    (snapshot : Snapshot) (index : ℕ) (lines : List Line)
    → is_clean (inspect_lines snapshot index lines) ≡ true
    → (cart_cost snapshot lines ≡ some (sum_lines (inspect_lines snapshot index lines).lines))
      × (length (inspect_lines snapshot index lines).lines ≡ length lines)
unfolding cart_cost line_cost inspect_lines sum_lines
inspect_lines-cost snapshot index [] clean = (refl, refl)
inspect_lines-cost snapshot index (line ∷ rest) clean =
    let later = inspect_lines snapshot (suc index) rest in
    elim (Option-cases (sellable snapshot line.item_id)) [
      | inl gone ↦ ground (arith, gone, clean)
      | inr (item, found) ↦
          let r = price_line line item in
          ground (
            arith,
            found,
            clean,
            inspect_lines-cost snapshot (suc index) rest,
            is_clean-record_line index line item r later,
            sum_lines-record_line index line item r later,
            length-record_line index line item r later,
            price_line_total line item,
          )
    ]

abbrev pub agrees_with : Option ℤ → ℤ → Bool
agrees_with none total = true
agrees_with (some expected) total = int_beq expected total

price_order_inspected :
    (snapshot : Snapshot) (lines : List Line) (expected : Option ℤ) (config : PricingConfig)
    (o : PricedOrder)
    → price_order snapshot lines expected config ≡ priced_order o
    → price_inspected snapshot (inspect_lines snapshot 0 lines) expected config ≡ priced_order o
unfolding price_order
price_order_inspected snapshot lines expected config o e = ground arith

price_inspected-is_clean :
    (snapshot : Snapshot) (inspected : Inspected) (expected : Option ℤ) (config : PricingConfig)
    (o : PricedOrder)
    → price_inspected snapshot inspected expected config ≡ priced_order o
    → is_clean inspected ≡ true
unfolding price_inspected
price_inspected-is_clean snapshot inspected expected config o e = ground arith

price_inspected_order :
    (snapshot : Snapshot) (inspected : Inspected) (expected : Option ℤ) (config : PricingConfig)
    (o : PricedOrder)
    → price_inspected snapshot inspected expected config ≡ priced_order o
    → (o.lines ≡ inspected.lines)
      × (o.totals ≡ totals_of config inspected.lines)
      × (drifted expected (totals_of config inspected.lines).total_cents ≡ false)
unfolding price_inspected
price_inspected_order snapshot inspected expected config o e = ground arith

agrees_with-drifted :
    (expected : Option ℤ) (total : ℤ)
    → drifted expected total ≡ false
    → agrees_with expected total ≡ true
agrees_with-drifted expected total h = ground arith

-- A priced order has a line for each line of the cart, none dropped; its subtotal is the cart's
-- cost, as the menu gives it; its total adds the fee and the tax, rounded down; and it is the total
-- that the client expected, when the client named one.
pub price_order-cart_cost :
    (snapshot : Snapshot) (lines : List Line) (expected : Option ℤ) (config : PricingConfig)
    (o : PricedOrder)
    → price_order snapshot lines expected config ≡ priced_order o
    → (cart_cost snapshot lines ≡ some o.totals.subtotal_cents)
      × (length o.lines ≡ length lines)
      × (o.totals.total_cents
          ≡ o.totals.subtotal_cents
            -ℤ pos 0
            +ℤ pos config.delivery_fee_cents
            +ℤ (o.totals.subtotal_cents *ℤ config.tax_basis_points) /ℤ 10000)
      × (agrees_with expected o.totals.total_cents ≡ true)
unfolding totals_of
price_order-cart_cost snapshot lines expected config o e =
    let I = inspect_lines snapshot 0 lines in
    let inspected = price_order_inspected snapshot lines expected config o e in
    let (charged, kept) =
      inspect_lines-cost snapshot 0 lines
        (price_inspected-is_clean snapshot I expected config o inspected) in
    let (same_lines, same_totals, drift) =
      price_inspected_order snapshot I expected config o inspected in
    rw (same_lines, same_totals)
      (
        charged,
        kept,
        refl,
        agrees_with-drifted expected (totals_of config I.lines).total_cents drift,
      )
