-- ===== src/Pricing/Order.antt =====
-- libs/smartfood-pricing/smartfood_pricing/engine.py: `price_order` over the inspected lines.
use smart_food_ops.Prelude.{
  ℕ, Bool, true, false, ◌||◌, not, Option, none, some, List, [], ◌∷◌, ltb, nat_beq, if◌then◌else◌,
}
use smart_food_ops.Prelude.Int.{ℤ, pos, ◌+ℤ◌, ◌-ℤ◌, ◌*ℤ◌, ◌/ℤ◌, int_beq}
use smart_food_ops.Pricing.Rows.{
  Line, PricingConfig, Snapshot, PricedLine, Totals, line_required, Answer, priced_order,
  restaurant_closed, item_unavailable, invalid_selection, price_changed,
}
use smart_food_ops.Pricing.Engine.{inspect_lines, Inspected}

abbrev pub is_closed : Snapshot → Bool
is_closed snapshot =
    not snapshot.is_open || elim snapshot.open_now [ some false ↦ true | _ ↦ false ]

-- `sorted` of a set: ascending, each once.
unfoldable pub insert_id : ℕ → List ℕ → List ℕ
insert_id n [] = n ∷ []
insert_id n (m ∷ rest) =
    if ltb n m then n ∷ m ∷ rest else if nat_beq n m then m ∷ rest else m ∷ insert_id n rest

unfoldable pub sorted_ids : List ℕ → List ℕ
unfolding insert_id
sorted_ids [] = []
sorted_ids (n ∷ rest) = insert_id n (sorted_ids rest)

unfoldable pub sum_lines : List PricedLine → ℤ
sum_lines [] = pos 0
sum_lines (p ∷ rest) = p.line_total_cents +ℤ sum_lines rest

unfoldable pub totals_of : PricingConfig → List PricedLine → Totals
unfolding sum_lines
totals_of config lines =
    let subtotal = sum_lines lines in
    let fee = pos config.delivery_fee_cents in
    let tax = (subtotal *ℤ config.tax_basis_points) /ℤ 10000 in
    record {
      subtotal_cents = subtotal;
      discount_cents = pos 0;
      fee_cents = fee;
      tax_cents = tax;
      total_cents = subtotal -ℤ pos 0 +ℤ fee +ℤ tax;
    }

abbrev pub drifted : Option ℤ → ℤ → Bool
drifted none total = false
drifted (some expected) total = not (int_beq expected total)

abbrev pub is_empty : {A : Type 0} → List A → Bool
is_empty [] = true
is_empty (_ ∷ _) = false

unfoldable pub price_inspected : Snapshot → Inspected → Option ℤ → PricingConfig → Answer
unfolding sorted_ids totals_of
price_inspected snapshot inspected expected config =
    if not (is_empty inspected.unavailable)
    then item_unavailable (sorted_ids inspected.unavailable)
    else if not (is_empty inspected.violations)
    then invalid_selection inspected.violations
    else (let totals = totals_of config inspected.lines in
        if drifted expected totals.total_cents
        then price_changed totals.total_cents
        else priced_order (record {
          lines = inspected.lines;
          totals = totals;
          currency = inspected.currency;
          restaurant_name = snapshot.name;
        }))

unfoldable pub price_order : Snapshot → List Line → Option ℤ → PricingConfig → Answer
unfolding price_inspected inspect_lines
price_order snapshot lines expected config =
    if is_closed snapshot
    then restaurant_closed snapshot.id
    else if is_empty lines
    then invalid_selection (line_required ∷ [])
    else price_inspected snapshot (inspect_lines snapshot 0 lines) expected config
