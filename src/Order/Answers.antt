-- ===== src/Order/Answers.antt =====
-- What `request_cancel` of services/order/order/domain/service.py answers, against what the order's
-- life makes of it later.
use smart_food_ops.Prelude.{
  ℕ, ◌≡◌, refl, subst, Bool, true, false, ◌&&◌, not, Option, none, some, List, arith, nat_eq,
}
use smart_food_ops.Table.{lookup}
use smart_food_ops.Order.Rows.{cancelling, status_beq, CancelReason, Order, World}
use smart_food_ops.Order.Transitions.{begin_cancel_from}
use smart_food_ops.Order.Activities.{try_begin_cancel}
use smart_food_ops.Order.Placement.{
  CancelOutcome, cancel_submitted, cancel_already_done, not_cancellable, order_not_found,
  saga_unavailable, assertion_failed, Signalled, signal_sent, signal_gone, signal_failed,
  is_cancelled_family, is_cancellable, classified, reread, reread_row, signal_cancel, cancel_row,
  get_order, request_cancel,
}
use smart_food_ops.Order.Sound.{IsSound, is_later, is_later_trans}
use smart_food_ops.Order.History.{Call, serve, serve_later, serve-IsSound}

abbrev is_ending : Option Order → Bool
is_ending none = false
is_ending (some row) = is_cancelled_family row.status

abbrev is_out : Option Order → Bool
is_out none = false
is_out (some row) = not (status_beq row.status cancelling) && not (is_cancellable row.status)

-- The world bears an answer out: an order that is said to be cancelled is in the unwind or past
-- it, and of one that is said not to be cancellable the saga's own guard refuses a cancel.
abbrev pub bears_out : ℕ → ℕ → CancelReason → CancelOutcome → World → Bool
bears_out now o reason (cancel_already_done _) w = is_ending (lookup o w.orders)
bears_out now o reason (not_cancellable _) w = not (try_begin_cancel now reason o w).0
bears_out now o reason _ w = true

begin_out :
    (now o : ℕ) (reason : CancelReason) (w : World)
    → is_out (lookup o w.orders) ≡ true
    → not (try_begin_cancel now reason o w).0 ≡ true
unfolding try_begin_cancel begin_cancel_from
begin_out now o reason w out = ground arith

out_later :
    (row : Order) (after : Option Order)
    → is_later (some row) after ≡ true
    → is_out (some row) ≡ true
    → is_out after ≡ true
out_later row after later out = ground arith

ending_later :
    (row : Order) (after : Option Order)
    → is_later (some row) after ≡ true
    → is_cancelled_family row.status ≡ true
    → is_ending after ≡ true
ending_later row after later ending = ground arith

borne_by_row :
    (now o : ℕ) (reason : CancelReason) (row : Order) (w : World) (answer : CancelOutcome)
    → is_later (some row) (lookup o w.orders) ≡ true
    → classified row.status ≡ some answer
    → bears_out now o reason answer w ≡ true
borne_by_row now o reason row w (cancel_already_done status) later said =
    ending_later row (lookup o w.orders) later (ground arith)
borne_by_row now o reason row w (not_cancellable status) later said =
    begin_out now o reason w (out_later row (lookup o w.orders) later (ground arith))
borne_by_row now o reason row w (cancel_submitted status) later said = refl
borne_by_row now o reason row w order_not_found later said = refl
borne_by_row now o reason row w saga_unavailable later said = refl
borne_by_row now o reason row w assertion_failed later said = refl

get_order_found :
    (user_id o : ℕ) (w : World) (row : Order)
    → get_order user_id o w ≡ some row
    → lookup o w.orders ≡ some row
get_order_found user_id o w row got = ground arith

reread_borne :
    (now o : ℕ) (reason : CancelReason) (row : Order) (w : World) (said : Option CancelOutcome)
    → is_later (some row) (lookup o w.orders) ≡ true
    → classified row.status ≡ said
    → bears_out now o reason (reread said) w ≡ true
reread_borne now o reason row w none later eq = refl
reread_borne now o reason row w (some answer) later eq =
    borne_by_row now o reason row w answer later eq

-- A row that was read, of an order whose life goes on.
got_later :
    (user_id o : ℕ) (w : World) (row : Order) (after : Option Order)
    → get_order user_id o w ≡ some row
    → is_later (lookup o w.orders) after ≡ true
    → is_later (some row) after ≡ true
got_later user_id o w row after got later =
    subst (λ found. is_later found after ≡ true) (get_order_found user_id o w row got) later

reread_row-borne :
    (now user_id o : ℕ) (reason : CancelReason) (w end : World) (row : Option Order)
    → get_order user_id o w ≡ row
    → is_later (lookup o w.orders) (lookup o end.orders) ≡ true
    → bears_out now o reason (reread_row row) end ≡ true
reread_row-borne now user_id o reason w end none got later = refl
reread_row-borne now user_id o reason w end (some row) got later =
    reread_borne now o reason row end (classified row.status)
      (got_later user_id o w row (lookup o end.orders) got later) refl

signal_cancel-borne :
    (signalled : Signalled) (now o : ℕ) (reason : CancelReason) (row : Order) (again : Option Order)
    (end : World) (said : Option CancelOutcome)
    → is_later (some row) (lookup o end.orders) ≡ true
    → bears_out now o reason (reread_row again) end ≡ true
    → classified row.status ≡ said
    → bears_out now o reason (signal_cancel signalled again row.status said).0 end ≡ true
signal_cancel-borne signalled now o reason row again end (some answer) later borne eq =
    borne_by_row now o reason row end answer later eq
signal_cancel-borne signal_sent now o reason row again end none later borne eq = refl
signal_cancel-borne signal_gone now o reason row again end none later borne eq = borne
signal_cancel-borne signal_failed now o reason row again end none later borne eq = refl

cancel_row-borne :
    (signalled : Signalled) (now user_id o : ℕ) (reason : CancelReason) (w end : World)
    (again row : Option Order)
    → get_order user_id o w ≡ row
    → is_later (lookup o w.orders) (lookup o end.orders) ≡ true
    → bears_out now o reason (reread_row again) end ≡ true
    → bears_out now o reason (cancel_row signalled again row).0 end ≡ true
cancel_row-borne signalled now user_id o reason w end again none got later borne = refl
cancel_row-borne signalled now user_id o reason w end again (some row) got later borne =
    signal_cancel-borne signalled now o reason row again end (classified row.status)
      (got_later user_id o w row (lookup o end.orders) got later) borne refl

-- However the signal meets the workflow and whatever was committed before the order is read again
-- and after the answer: when a cancel is answered as already done, the order is from then on in the
-- unwind, cancelled or refunded; when it is answered as not cancellable, the kitchen's guard refuses
-- every cancel from then on.
pub request_cancel_stands :
    (between since : List (ℕ × Call)) (signalled : Signalled) (now user_id o : ℕ)
    (reason : CancelReason) (w : World)
    → IsSound w
    → let after = serve between w in
      bears_out now o reason (request_cancel user_id o signalled w after).0 (serve since after)
      ≡ true
unfolding request_cancel
request_cancel_stands between since signalled now user_id o reason w s =
    let after = serve between w in
    let end = serve since after in
    let since_after = serve_later since after o (serve-IsSound between w s) in
    let since_before =
      is_later_trans (lookup o w.orders) (lookup o after.orders) (lookup o end.orders)
        (serve_later between w o s) since_after in
    cancel_row-borne signalled now user_id o reason w end (get_order user_id o after)
      (get_order user_id o w) refl since_before
      (reread_row-borne now user_id o reason after end (get_order user_id o after) refl since_after)
