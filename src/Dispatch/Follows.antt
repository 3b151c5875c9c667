-- ===== src/Dispatch/Follows.antt =====
-- What a later row of a delivery keeps of an earlier one, for the writes of `DeliveryStore` in
-- services/dispatch/dispatch/adapters/rider_store.py.
use smart_food_ops.Prelude.{
  ℕ, ◌≡◌, refl, sym, ap, ◌∙◌, subst, Bool, true, false, Option, none, some, nat_eq, nat_beq,
  nat_beq_iff, if◌then◌else◌, Bool-cases, inl, inr,
}
use smart_food_ops.Table.{lookup, insert, lookup-insert, lookup-insert_self, updated}
use smart_food_ops.Dispatch.Rows.{DeliveryState, delivered, cancelled, Delivery}
use smart_food_ops.Dispatch.Store.{Deliveries}
use smart_food_ops.Dispatch.Taps.{is_carried}

abbrev pub is_ended : DeliveryState → Bool
is_ended delivered = true
is_ended cancelled = true
is_ended _ = false

-- A courier who has the food keeps the job, and an ended delivery is never written again.
pub record Follows (d d' : Delivery) : Type 0 where
  pub carried :
      is_carried d.state ≡ true
      → (is_carried d'.state ≡ true) × (d'.rider_id ≡ d.rider_id) × (d'.offer_id ≡ d.offer_id)
  pub ended : is_ended d.state ≡ true → d' ≡ d

abbrev pub Later : Option Delivery → Option Delivery → Type 0
Later none after = Unit
Later (some d) after = (d' : Delivery) × (after ≡ some d') × Follows d d'

pub Follows-refl : (d : Delivery) → Follows d d
Follows-refl d = record { carried = λ h. (h, refl, refl); ended = λ h. refl }

pub Later-refl : (before : Option Delivery) → Later before before
Later-refl none = tt
Later-refl (some d) = (d, refl, Follows-refl d)

Follows-trans : (a b c : Delivery) → Follows a b → Follows b c → Follows a c
Follows-trans a b c f g = record {
  carried = λ h.
      let (h', rider, offer) = f.carried h in
      let (h'', rider', offer') = g.carried h' in (h'', rider' ∙ rider, offer' ∙ offer);
  ended = λ h. g.ended (subst (λ d. is_ended d.state ≡ true) (sym (f.ended h)) h) ∙ f.ended h;
}

pub Later-trans : (a b c : Option Delivery) → Later a b → Later b c → Later a c
Later-trans none b c f g = tt
Later-trans (some d) b c (d', eq, f) g =
    let (d'', eq', f') = subst (λ o. Later o c) eq g in (d'', eq', Follows-trans d d' d'' f f')

pub updated-Later :
    (cond : Delivery → Bool) (f : Delivery → Delivery) (before : Option Delivery)
    → ((d : Delivery) → cond d ≡ true → Follows d (f d))
    → Later before (updated cond f before)
updated-Later cond f none follows = tt
updated-Later cond f (some d) follows = elim (Bool-cases (cond d)) [
  | inl met ↦ (f d, rw met refl, follows d met)
  | inr unmet ↦ (d, rw unmet refl, Follows-refl d)
]

pub at_key-Later :
    (same : Bool) (before written : Option Delivery)
    → Later before written
    → Later before (if same then written else before)
at_key-Later true before written later = later
at_key-Later false before written later = Later-refl before

pub insert-Later :
    (order_id o : ℕ) (row : Delivery) (t : Deliveries)
    → Later (lookup order_id t) (some row)
    → Later (lookup o t) (lookup o (insert order_id row t))
insert-Later order_id o row t later = elim (Bool-cases (nat_beq order_id o)) [
  | inl same ↦
      subst (λ j. Later (lookup j t) (lookup j (insert order_id row t)))
        ((nat_beq_iff order_id o).0 same)
        (subst (Later (lookup order_id t)) (sym (lookup-insert_self order_id row t)) later)
  | inr other ↦
      subst (Later (lookup o t))
        (sym (lookup-insert order_id o row t ∙ ap (λ b. if b then some row else lookup o t) other))
        (Later-refl (lookup o t))
]
