-- ===== src/Pricing/Report.antt =====
-- What libs/smartfood-pricing/smartfood_pricing/engine.py answers to a cart that cannot be sold.
use smart_food_ops.Prelude.{
  ℕ, suc, ◌≡◌, refl, Bool, true, false, ◌||◌, Option, none, List, [], ◌∷◌, ◌++◌, nat_beq,
  nat_beq_iff, nat_beq_refl, arith, Option-cases, inl, inr,
}
use smart_food_ops.Prelude.Int.{ℤ}
use smart_food_ops.Pricing.Rows.{Line, PricingConfig, Item, Snapshot, Answer, item_unavailable}
use smart_food_ops.Pricing.Engine.{
  is_member, LineResult, price_line, Inspected, sellable, record_line, inspect_lines,
}
use smart_food_ops.Pricing.Order.{
  is_closed, insert_id, sorted_ids, is_empty, price_inspected, price_order,
}

abbrev pub names_item : ℕ → Answer → Bool
names_item id (item_unavailable ids) = is_member id ids
names_item id _ = false

is_member-insert_id :
    (n m : ℕ) (ids : List ℕ) → is_member n (insert_id m ids) ≡ (nat_beq m n || is_member n ids)
unfolding is_member insert_id
is_member-insert_id n m [] = ground arith
is_member-insert_id n m (k ∷ ids) = ground (arith, is_member-insert_id n m ids, nat_beq_iff m k)

is_member-sorted_ids : (n : ℕ) (ids : List ℕ) → is_member n (sorted_ids ids) ≡ is_member n ids
unfolding is_member sorted_ids
is_member-sorted_ids n [] = refl
is_member-sorted_ids n (m ∷ ids) =
    ground (arith, is_member-insert_id n m (sorted_ids ids), is_member-sorted_ids n ids)

is_member-record_line :
    (n index : ℕ) (line : Line) (item : Item) (r : LineResult) (rest : Inspected)
    → is_member n rest.unavailable ≡ true
    → is_member n (record_line index line item r rest).unavailable ≡ true
unfolding is_member record_line
is_member-record_line n index line item r rest h = ground arith

inspect_lines-unavailable :
    (snapshot : Snapshot) (index : ℕ) (before : List Line) (line : Line) (after : List Line)
    → sellable snapshot line.item_id ≡ none
    → is_member line.item_id (inspect_lines snapshot index (before ++ line ∷ after)).unavailable
      ≡ true
unfolding is_member inspect_lines
inspect_lines-unavailable snapshot index [] line after gone =
    ground (arith, gone, nat_beq_refl line.item_id)
inspect_lines-unavailable snapshot index (first ∷ before) line after gone =
    let later = inspect_lines snapshot (suc index) (before ++ line ∷ after) in
    let named = inspect_lines-unavailable snapshot (suc index) before line after gone in
    elim (Option-cases (sellable snapshot first.item_id)) [
      | inl absent ↦ ground (arith, absent, named)
      | inr (item, found) ↦ ground (
        arith,
        found,
        named,
        is_member-record_line line.item_id index first item (price_line first item) later,
      )
    ]

price_inspected-unavailable :
    (snapshot : Snapshot) (inspected : Inspected) (expected : Option ℤ) (config : PricingConfig)
    (id : ℕ)
    → is_member id inspected.unavailable ≡ true
    → names_item id (price_inspected snapshot inspected expected config) ≡ true
unfolding is_member price_inspected
price_inspected-unavailable snapshot inspected expected config id h =
    ground (arith, h, is_member-sorted_ids id inspected.unavailable)

is_empty-append :
    (before : List Line) (line : Line) (after : List Line)
    → is_empty (before ++ line ∷ after) ≡ false
is_empty-append [] line after = refl
is_empty-append (first ∷ before) line after = refl

-- While the restaurant is open, each line of a cart whose item is unknown, missing or unavailable
-- has its item named in an item-unavailable answer, whatever else is wrong with the cart, and
-- whatever total the client expected.
pub unavailable_named :
    (snapshot : Snapshot) (before : List Line) (line : Line) (after : List Line)
    (expected : Option ℤ) (config : PricingConfig)
    → is_closed snapshot ≡ false
    → sellable snapshot line.item_id ≡ none
    → names_item line.item_id (price_order snapshot (before ++ line ∷ after) expected config) ≡ true
unfolding price_order
unavailable_named snapshot before line after expected config is_open gone =
    rw (is_open, is_empty-append before line after)
      (price_inspected-unavailable snapshot (inspect_lines snapshot 0 (before ++ line ∷ after))
        expected config line.item_id (inspect_lines-unavailable snapshot 0 before line after gone))
