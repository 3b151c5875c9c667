-- ===== src/Inventory/Rows.antt =====
-- services/inventory/inventory/db.py and domain/models.py: the tables and the values. Identifiers
-- are only compared and ordered, so they are numbers; `updated_at` and `created_at` are never read.
use smart_food_ops.Prelude.{ℕ, Bool, true, false, List}
use smart_food_ops.Table.{Table}

pub data ReservationStatus : Type 0 where
  active released consumed expired : ReservationStatus

abbrev pub is_active : ReservationStatus → Bool
is_active active = true
is_active _ = false

pub record ReservationLine : Type 0 where
  pub item_id : ℕ
  pub qty : ℕ

pub record Reservation : Type 0 where
  pub restaurant_id : ℕ
  pub lines : List ReservationLine
  pub status : ReservationStatus
  pub expires_at : ℕ

pub record Load : Type 0 where
  pub active : ℕ
  pub capacity : ℕ

-- The reason text of a release: the reaper's, or any other.
pub data Reason : Type 0 where
  expired_reason : Reason
  other_reason : ℕ → Reason

pub data Event : Type 0 where
  stock_adjusted : ℕ → ℕ → ℕ → Event
  stock_reserved : ℕ → ℕ → List ReservationLine → Event
  reservation_released : ℕ → ℕ → List ReservationLine → ReservationStatus → Reason → Event
  reservation_consumed : ℕ → ℕ → List ReservationLine → Event

-- Stock is keyed by (restaurant, item).
pub record World : Type 0 where
  pub stock : Table (ℕ × ℕ) ℕ
  pub loads : Table ℕ Load
  pub reservations : Table ℕ Reservation
  pub outbox : List Event
