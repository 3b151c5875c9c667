-- ===== src/Order/CascadeTests.antt =====
-- A cascade with a deadline of 30 seconds: a missed offer, a city without riders, a pickup in time.
use smart_food_ops.Prelude.{
  ℕ, ◌+◌, ◌≤◌, ◌≡◌, refl, none, some, Option, [], ◌∷◌, arith, if◌then◌else◌, nat_beq,
}
use smart_food_ops.Order.Cascade.{
  DeliveryInput, Round, made_offer, found_nobody, offer_revoked, stall_revoked, Cascade, starts,
  assign, run_delivery, delivered, mark_picked_up, mark_delivered, finds, expires, records,
}
use smart_food_ops.Order.Attempts.{IsSlot, assign_ends}
use smart_food_ops.Order.Custody.{Ends, custody, nobody, assign-Ends}

abbrev input : DeliveryInput
input = record {
  offer_first_timeout = 15;
  offer_next_timeout = 12;
  no_candidates_retry = 10;
  pickup_timeout = 60;
  no_rider_deadline = 30;
}

abbrev missed : Round
missed = record {
  find_takes = 0;
  find = made_offer 90 5;
  accepted = none;
  expire_takes = 0;
  expire = offer_revoked;
  record_takes = 0;
  picked_up = none;
  stall_takes = 0;
  stall = stall_revoked;
}

abbrev rounds : ℕ → Round
rounds attempt =
    if nat_beq attempt 1
    then missed
    else if nat_beq attempt 2
    then record missed { find = found_nobody }
    else record missed { find = made_offer 91 6; accepted = some (3, 6); picked_up = some 20 }

abbrev ending : Cascade
ending = record {
  now = 48;
  attempt = 3;
  exclude = [];
  log =
      finds 1 [] (made_offer 90 5)
      ∷ expires 90 5 offer_revoked
      ∷ finds 2 (5 ∷ []) found_nobody
      ∷ finds 3 [] (made_offer 91 6)
      ∷ records 6
      ∷ [];
}

third_offer_is_taken : assign 4 input rounds 30 (starts 0) ≡ some (some 6, ending)
unfolding assign
third_offer_is_taken = refl

third_rider_delivers :
    run_delivery 4 input rounds 0 ≡ some (delivered, mark_picked_up ∷ mark_delivered ∷ [])
unfolding run_delivery assign
third_rider_delivers = refl

ten_seconds : IsSlot 10 input
ten_seconds = record {
  first = omega arith;
  next = omega arith;
  retry = omega arith;
  pickup = omega arith;
}

assign_ends_example :
    (result : Option ℕ × Cascade) × (assign 4 input rounds 30 (starts 0) ≡ some result)
    × (result.1.attempt ≤ 0 + 3)
assign_ends_example = assign_ends input 10 ten_seconds rounds 30 3 (starts 0) (omega arith)

start_is_free : custody nobody [] ≡ some nobody
unfolding custody
start_is_free = refl

assign-Ends_example : Ends (some 6, ending)
assign-Ends_example =
    assign-Ends 4 input rounds 30 (starts 0) (some 6, ending) start_is_free third_offer_is_taken
