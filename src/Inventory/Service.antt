-- ===== src/Inventory/Service.antt =====
-- services/inventory/inventory/domain/service.py, and the provisioning handler of consumers.py.
use smart_food_ops.Prelude.{
  ℕ, suc, ◌+◌, Bool, true, false, Option, none, some, List, [], ◌∷◌, ◌++◌, ltb, leb, nat_beq,
  nat_eq, pair_eq, if◌then◌else◌,
}
use smart_food_ops.Table.{lookup, insert}
use smart_food_ops.Inventory.Rows.{
  ReservationStatus, ReservationLine, Reservation, Reason, expired_reason, other_reason, World,
  stock_adjusted, stock_reserved, reservation_released, reservation_consumed,
}
use smart_food_ops.Inventory.Repo.{
  Stock, Loads, update_stock, insert_stock, decrement_stock, increment_stock, insert_load,
  set_load_capacity, occupy_slot, free_slot, finish_reservation, overdue_reservations,
}

-- The arguments of `InventoryService.__init__`.
pub record Config : Type 0 where
  pub default_capacity : ℕ
  pub reservation_ttl_seconds : ℕ

-- `get_capacity` and `load`
abbrev pub get_capacity : ℕ → World → Option ℕ
get_capacity restaurant_id w = elim (lookup restaurant_id w.loads) [
  | none ↦ none
  | some load ↦ some load.capacity
]

abbrev pub load : ℕ → World → Option (ℕ × ℕ)
load restaurant_id w = elim (lookup restaurant_id w.loads) [
  | none ↦ none
  | some row ↦ some (row.active, row.capacity)
]

-- An absolute set, by update or else by insert.
unfoldable pub set_stock : ℕ → ℕ → ℕ → World → World
set_stock restaurant_id item_id available w =
    let (updated, stock) = update_stock restaurant_id item_id available w.stock in
    let (created, stock') = insert_stock restaurant_id item_id available w.stock in
    let raced = (update_stock restaurant_id item_id available w.stock).1 in
    record w {
      stock = if updated then stock else if created then stock' else raced;
      outbox = w.outbox ++ stock_adjusted restaurant_id item_id available ∷ [];
    }

unfoldable pub set_capacity : ℕ → ℕ → World → World
set_capacity restaurant_id capacity w =
    let (updated, loads) = set_load_capacity restaurant_id capacity w.loads in
    let (created, loads') = insert_load restaurant_id capacity w.loads in
    let raced = (set_load_capacity restaurant_id capacity w.loads).1 in
    record w { loads = if updated then loads else if created then loads' else raced }

-- The result of `reserve`: the reservation and whether this call created it, or an exception.
pub data ReserveResult : Type 0 where
  reserved : Reservation → Bool → ReserveResult
  at_capacity : ReserveResult
  insufficient_stock : List ℕ → ReserveResult

abbrev pub ensure_load_row : Config → ℕ → Loads → Loads
ensure_load_row cfg restaurant_id loads = elim (lookup restaurant_id loads) [
  | none ↦ (insert_load restaurant_id cfg.default_capacity loads).1
  | some _ ↦ loads
]

-- `by_id.get(item_id, 0)`
abbrev pub available_of : Option ℕ → ℕ
available_of none = 0
available_of (some available) = available

unfoldable pub insert_sorted : ℕ → List ℕ → List ℕ
insert_sorted item_id [] = item_id ∷ []
insert_sorted item_id (other ∷ rest) =
    if leb item_id other then item_id ∷ other ∷ rest else other ∷ insert_sorted item_id rest

-- The lines that the stock as read does not cover, by item, sorted.
unfoldable pub short_items : ℕ → List ReservationLine → Stock → List ℕ
unfolding insert_sorted
short_items restaurant_id [] stock = []
short_items restaurant_id (line ∷ lines) stock =
    let rest = short_items restaurant_id lines stock in
    if ltb (available_of (lookup (restaurant_id, line.item_id) stock)) line.qty
    then insert_sorted line.item_id rest
    else rest

-- The loop of conditional decrements: the stock after it, or the item at which it lost.
pub data Decremented : Type 0 where
  taken : Stock → Decremented
  lost : ℕ → Decremented

unfoldable pub decrement_all : ℕ → List ReservationLine → Stock → Decremented
decrement_all restaurant_id [] stock = taken stock
decrement_all restaurant_id (line ∷ lines) stock =
    let (enough, stock') = decrement_stock restaurant_id line.item_id line.qty stock in
    let rest = decrement_all restaurant_id lines stock' in
    if enough then rest else lost line.item_id

-- `ttl_seconds or self._ttl`
abbrev pub effective_ttl : Config → Option ℕ → ℕ
effective_ttl cfg none = cfg.reservation_ttl_seconds
effective_ttl cfg (some ttl) = if nat_beq ttl 0 then cfg.reservation_ttl_seconds else ttl

unfoldable pub reserve :
    Config → ℕ → ℕ → ℕ → List ReservationLine → Option ℕ → World → ReserveResult × World
reserve cfg now order_id restaurant_id lines ttl_seconds w = elim (lookup order_id w.reservations) [
  | some existing ↦ (reserved existing false, w)
  | none ↦
      let (occupied, loads) =
        occupy_slot restaurant_id (ensure_load_row cfg restaurant_id w.loads) in
      let row : Reservation = record {
        restaurant_id = restaurant_id;
        lines = lines;
        status = ReservationStatus.active;
        expires_at = now + effective_ttl cfg ttl_seconds;
      } in
      if occupied
      then elim (short_items restaurant_id lines w.stock) [
        | item ∷ items ↦ (insufficient_stock (item ∷ items), w)
        | [] ↦ elim (decrement_all restaurant_id lines w.stock) [
          | lost item ↦ (insufficient_stock (item ∷ []), w)
          | taken stock ↦ (
            reserved row true,
            record w {
              stock = stock;
              loads = loads;
              reservations = insert order_id row w.reservations;
              outbox = w.outbox ++ stock_reserved order_id restaurant_id lines ∷ [];
            },
          )
        ]
      ]
      else (at_capacity, w)
]

-- The loop of `release`: a vanished stock row is skipped.
unfoldable pub restore_all : ℕ → List ReservationLine → Stock → Stock
restore_all restaurant_id [] stock = stock
restore_all restaurant_id (line ∷ lines) stock =
    restore_all restaurant_id lines (increment_stock restaurant_id line.item_id line.qty stock).1

abbrev pub release_target : Reason → ReservationStatus
release_target expired_reason = ReservationStatus.expired
release_target (other_reason _) = ReservationStatus.released

unfoldable pub release : ℕ → Reason → World → Bool × World
release order_id reason w =
    let target = release_target reason in
    let (finished, reservations) = finish_reservation order_id target w.reservations in
    elim (lookup order_id w.reservations) [
      | none ↦ (false, w)
      | some row ↦
          if finished
          then (
            true,
            record w {
              stock = restore_all row.restaurant_id row.lines w.stock;
              loads = free_slot row.restaurant_id w.loads;
              reservations = reservations;
              outbox =
                  w.outbox
                  ++ reservation_released order_id row.restaurant_id row.lines target reason ∷ [];
            },
          )
          else (false, w)
    ]

unfoldable pub commit : ℕ → World → Bool × World
commit order_id w =
    let (finished, reservations) =
      finish_reservation order_id ReservationStatus.consumed w.reservations in
    elim (lookup order_id w.reservations) [
      | none ↦ (false, w)
      | some row ↦
          if finished
          then (
            true,
            record w {
              loads = free_slot row.restaurant_id w.loads;
              reservations = reservations;
              outbox = w.outbox ++ reservation_consumed order_id row.restaurant_id row.lines ∷ [];
            },
          )
          else (false, w)
    ]

-- The reaper's loop over the ids that it read, and how many of them it expired.
unfoldable pub expire_each : List ℕ → World → ℕ × World
expire_each [] w = (0, w)
expire_each (order_id ∷ overdue) w =
    let (done, w') = release order_id expired_reason w in
    let (expired, w'') = expire_each overdue w' in (if done then suc expired else expired, w'')

unfoldable pub expire_overdue : ℕ → World → ℕ × World
unfolding expire_each overdue_reservations
expire_overdue now w = expire_each (overdue_reservations 100 now w.reservations) w

-- `StockProvisioningHandler.handle`, from the parsed payload on.
-- Items with a row when the handler read the stock are skipped.
unfoldable pub provision_items : ℕ → Stock → List ℕ → Stock → Stock
provision_items restaurant_id known [] stock = stock
provision_items restaurant_id known (item_id ∷ items) stock =
    let stock' : Stock = elim (lookup (restaurant_id, item_id) known) [
      | none ↦ (insert_stock restaurant_id item_id 0 stock).1
      | some _ ↦ stock
    ] in
    provision_items restaurant_id known items stock'

unfoldable pub provision : Config → Bool → ℕ → List ℕ → World → World
unfolding provision_items
provision cfg is_brand restaurant_id items w = if is_brand then w else record w {
  stock = provision_items restaurant_id w.stock items w.stock;
  loads = ensure_load_row cfg restaurant_id w.loads;
}
