-- ===== src/Pricing/Engine.antt =====
-- libs/smartfood-pricing/smartfood_pricing/engine.py: `price_order` and `_price_line`. What the
-- loops accumulate is what the recursions return.
use smart_food_ops.Prelude.{
  ℕ, suc, Bool, false, ◌||◌, not, Option, none, some, List, [], ◌∷◌, ltb, nat_beq, nat_eq, length,
  if◌then◌else◌,
}
use smart_food_ops.Prelude.Int.{ℤ, pos, ◌+ℤ◌, ◌*ℤ◌}
use smart_food_ops.Table.{Table, lookup, insert}
use smart_food_ops.Pricing.Rows.{
  Selection, Line, MenuOption, Group, Item, Snapshot, PricedOption, PricedLine, Issue,
  duplicate_option, too_few, too_many, Violation, line_violation,
}

-- A dict made from a list: the last entry of a key is the one that stays.
unfoldable pub item_by_id : ℕ → List Item → Option Item
item_by_id id [] = none
item_by_id id (item ∷ rest) = elim (item_by_id id rest) [
  | some later ↦ some later
  | none ↦ if nat_beq item.id id then some item else none
]

unfoldable pub group_by_id : ℕ → List Group → Option Group
group_by_id id [] = none
group_by_id id (group ∷ rest) = elim (group_by_id id rest) [
  | some later ↦ some later
  | none ↦ if nat_beq group.id id then some group else none
]

-- `next(...)`: the first option of the id.
unfoldable pub option_by_id : ℕ → List MenuOption → Option MenuOption
option_by_id id [] = none
option_by_id id (o ∷ rest) = if nat_beq o.id id then some o else option_by_id id rest

unfoldable pub is_member : ℕ → List ℕ → Bool
is_member n [] = false
is_member n (m ∷ rest) = nat_beq m n || is_member n rest

-- `picked_per_group`
abbrev pub Picked : Type 0
Picked = Table ℕ (List ℕ)

abbrev pub picked_in : ℕ → Picked → List ℕ
picked_in group_id picked = elim (lookup group_id picked) [ none ↦ [] | some already ↦ already ]

pub data Selected : Type 0 where
  selected : List PricedOption → Picked → Selected
  structural_drift : Selected
  selection_issue : Issue → Selected

abbrev pub priced_option : Group → MenuOption → PricedOption
priced_option group o = record {
  group_id = group.id;
  group_name = group.name;
  option_id = o.id;
  name = o.name;
  price_delta_cents = o.price_delta_cents;
}

unfoldable pub keep_option : PricedOption → Selected → Selected
keep_option o (selected chosen picked) = selected (o ∷ chosen) picked
keep_option o structural_drift = structural_drift
keep_option o (selection_issue issue) = selection_issue issue

-- The loop over `line.options`.
unfoldable pub select_options : List Group → List Selection → Picked → Selected
unfolding group_by_id option_by_id is_member keep_option
select_options groups [] picked = selected [] picked
select_options groups (selection ∷ rest) picked = elim (group_by_id selection.group_id groups) [
  | none ↦ structural_drift
  | some group ↦ elim (option_by_id selection.option_id group.options) [
    | none ↦ structural_drift
    | some o ↦
        let already = picked_in group.id picked in
        let others =
          select_options groups rest (insert group.id (selection.option_id ∷ already) picked) in
        if is_member selection.option_id already
        then selection_issue (duplicate_option group.name)
        else keep_option (priced_option group o) others
  ]
]

-- The loop over `item["modifier_groups"]`: the first bound that is broken.
unfoldable pub bounds_issue : List Group → Picked → Option Issue
bounds_issue [] picked = none
bounds_issue (group ∷ rest) picked =
    let count = length (picked_in group.id picked) in
    if ltb count group.min_select
    then some (too_few group.name group.min_select)
    else if ltb group.max_select count
    then some (too_many group.name group.max_select)
    else bounds_issue rest picked

unfoldable pub sum_deltas : List PricedOption → ℤ
sum_deltas [] = pos 0
sum_deltas (o ∷ rest) = o.price_delta_cents +ℤ sum_deltas rest

pub data LineResult : Type 0 where
  priced : PricedLine → LineResult
  unavailable_line : LineResult
  line_issue : Issue → LineResult

abbrev pub priced_line : Line → Item → List PricedOption → PricedLine
priced_line line item chosen = record {
  item_id = line.item_id;
  name = item.name;
  qty = line.qty;
  unit_price_cents = item.price_cents;
  options = chosen;
  line_total_cents = (pos item.price_cents +ℤ sum_deltas chosen) *ℤ line.qty;
}

-- `_price_line`
unfoldable pub price_line : Line → Item → LineResult
unfolding select_options bounds_issue sum_deltas
price_line line item = elim (select_options item.modifier_groups line.options []) [
  | structural_drift ↦ unavailable_line
  | selection_issue issue ↦ line_issue issue
  | selected chosen picked ↦ elim (bounds_issue item.modifier_groups picked) [
    | some issue ↦ line_issue issue
    | none ↦ priced (priced_line line item chosen)
  ]
]

-- What the loop over the lines leaves behind.
pub record Inspected : Type 0 where
  pub unavailable : List ℕ
  pub violations : List Violation
  pub lines : List PricedLine
  pub currency : Option ℕ

-- `by_id`, `missing` and the item's own flag.
unfoldable pub sellable : Snapshot → ℕ → Option Item
unfolding item_by_id is_member
sellable snapshot item_id = elim (item_by_id item_id snapshot.items) [
  | none ↦ none
  | some item ↦
      if is_member item_id snapshot.missing_item_ids || not item.available then none else some item
]

abbrev pub or_else : Option ℕ → ℕ → Option ℕ
or_else none currency = some currency
or_else (some later) currency = some later

unfoldable pub record_line : ℕ → Line → Item → LineResult → Inspected → Inspected
record_line index line item (priced p) rest = record rest {
  lines = p ∷ rest.lines;
  currency = or_else rest.currency item.currency;
}
record_line index line item unavailable_line rest = record rest {
  unavailable = line.item_id ∷ rest.unavailable;
}
record_line index line item (line_issue issue) rest = record rest {
  violations = line_violation index issue ∷ rest.violations;
}

unfoldable pub inspect_lines : Snapshot → ℕ → List Line → Inspected
unfolding sellable price_line record_line
inspect_lines snapshot index [] = record {
  unavailable = [];
  violations = [];
  lines = [];
  currency = none;
}
inspect_lines snapshot index (line ∷ rest) =
    let later = inspect_lines snapshot (suc index) rest in
    elim (sellable snapshot line.item_id) [
      | none ↦ record later { unavailable = line.item_id ∷ later.unavailable }
      | some item ↦ record_line index line item (price_line line item) later
    ]
