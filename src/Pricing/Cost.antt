-- ===== src/Pricing/Cost.antt =====
-- A cart's cost, written from the menu alone, and that
-- libs/smartfood-pricing/smartfood_pricing/engine.py charges it.
use smart_food_ops.Prelude.{
  ◌≡◌, refl, Bool, true, false, Option, none, some, List, [], ◌∷◌, arith, nat_eq, Option-cases, inl,
  inr,
}
use smart_food_ops.Prelude.Int.{ℤ, pos, ◌+ℤ◌, ◌*ℤ◌}
use smart_food_ops.Table.{insert}
use smart_food_ops.Pricing.Rows.{Selection, Line, Group, Snapshot, PricedOption}
use smart_food_ops.Pricing.Engine.{
  group_by_id, option_by_id, Picked, picked_in, Selected, selected, priced_option, keep_option,
  select_options, sum_deltas, sellable,
}

abbrev pub plus : Option ℤ → Option ℤ → Option ℤ
plus (some a) (some b) = some (a +ℤ b)
plus _ _ = none

abbrev pub delta : List Group → Selection → Option ℤ
delta groups selection = elim (group_by_id selection.group_id groups) [
  | none ↦ none
  | some group ↦ elim (option_by_id selection.option_id group.options) [
    | none ↦ none
    | some o ↦ some o.price_delta_cents
  ]
]

unfoldable pub deltas : List Group → List Selection → Option ℤ
deltas groups [] = some (pos 0)
deltas groups (selection ∷ rest) = plus (delta groups selection) (deltas groups rest)

-- (price + the options' prices) × quantity, of an item that can be sold.
unfoldable pub line_cost : Snapshot → Line → Option ℤ
unfolding deltas
line_cost snapshot line = elim (sellable snapshot line.item_id) [
  | none ↦ none
  | some item ↦ elim (deltas item.modifier_groups line.options) [
    | none ↦ none
    | some extra ↦ some ((pos item.price_cents +ℤ extra) *ℤ line.qty)
  ]
]

unfoldable pub cart_cost : Snapshot → List Line → Option ℤ
unfolding line_cost
cart_cost snapshot [] = some (pos 0)
cart_cost snapshot (line ∷ rest) = plus (line_cost snapshot line) (cart_cost snapshot rest)

abbrev pub chosen_cost : Selected → Option ℤ
chosen_cost (selected chosen picked) = some (sum_deltas chosen)
chosen_cost _ = none

abbrev pub is_selected : Selected → Bool
is_selected (selected chosen picked) = true
is_selected _ = false

chosen_cost-keep_option :
    (o : PricedOption) (s : Selected)
    → is_selected s ≡ true
    → chosen_cost (keep_option o s) ≡ plus (some o.price_delta_cents) (chosen_cost s)
unfolding keep_option sum_deltas
chosen_cost-keep_option o s h = ground arith

is_selected-keep_option :
    (o : PricedOption) (s : Selected) → is_selected (keep_option o s) ≡ is_selected s
unfolding keep_option
is_selected-keep_option o s = ground arith

pub select_options-deltas :
    (groups : List Group) (selections : List Selection) (picked : Picked)
    → is_selected (select_options groups selections picked) ≡ true
    → deltas groups selections ≡ chosen_cost (select_options groups selections picked)
unfolding deltas select_options sum_deltas
select_options-deltas groups [] picked h = refl
select_options-deltas groups (selection ∷ rest) picked h =
    elim (Option-cases (group_by_id selection.group_id groups)) [
      | inl gone ↦ ground (arith, gone, h)
      | inr (group, known) ↦ elim (Option-cases (option_by_id selection.option_id group.options)) [
        | inl gone ↦ ground (arith, known, gone, h)
        | inr (o, offered) ↦
            let already = picked_in group.id picked in
            let next = insert group.id (selection.option_id ∷ already) picked in
            ground (
              arith,
              known,
              offered,
              h,
              select_options-deltas groups rest next,
              chosen_cost-keep_option (priced_option group o) (select_options groups rest next),
              is_selected-keep_option (priced_option group o) (select_options groups rest next),
            )
      ]
    ]
