-- ===== src/Order/Life.antt =====
-- What holds of an order through its whole life.
use smart_food_ops.Prelude.{ℕ, ◌≡◌, refl, subst, true, Option, some, List, nat_eq, arith, ◌⊎◌}
use smart_food_ops.Table.{lookup}
use smart_food_ops.Order.Rows.{settled, cancelled, Order, Cancellation, World}
use smart_food_ops.Order.Graph.{is_timely}
use smart_food_ops.Order.Sound.{is_sound, IsSound, is_later, keeps_stamps}
use smart_food_ops.Order.History.{Call, serve, fresh, serve-IsSound, serve_later, status_in}

-- After any calls from an empty database: every order has the milestones of its status and none
-- that it has not reached (an order in the unwind was never picked up), and it has a cancellation
-- with a reason exactly when it is cancelling or cancelled.
pub history-IsSound : (calls : List (ℕ × Call)) → IsSound (serve calls fresh)
unfolding fresh IsSound lookup
history-IsSound calls = serve-IsSound calls fresh (λ o. refl)

-- From any sound database, whatever is called, a milestone once stamped keeps its time.
pub stamped_once :
    (calls : List (ℕ × Call)) (w : World) (o : ℕ) (row row' : Order)
    → IsSound w
    → lookup o w.orders ≡ some row
    → lookup o (serve calls w).orders ≡ some row'
    → keeps_stamps row.milestones row'.milestones ≡ true
stamped_once calls w o row row' s found later = ground (arith, serve_later calls w o s)

ended_stays :
    (row : Order) (after : Option Order) (cancellation : Option Cancellation)
    → is_later (some row) after ≡ true
    → is_sound after cancellation ≡ true
    → (row.status ≡ settled) ⊎ (row.status ≡ cancelled)
    → status_in after ≡ some row.status
unfolding is_timely
ended_stays row after cancellation later sound ended = ground arith

-- From any sound database, a settled order stays settled and a cancelled one stays cancelled.
ended_orders_stay :
    (calls : List (ℕ × Call)) (w : World) (o : ℕ) (row : Order)
    → IsSound w
    → lookup o w.orders ≡ some row
    → (row.status ≡ settled) ⊎ (row.status ≡ cancelled)
    → status_in (lookup o (serve calls w).orders) ≡ some row.status
unfolding IsSound
ended_orders_stay calls w o row s found ended =
    ended_stays row _ (lookup o (serve calls w).cancellations)
      (subst (λ before. is_later before (lookup o (serve calls w).orders) ≡ true) found
        (serve_later calls w o s))
      (serve-IsSound calls w s o) ended
