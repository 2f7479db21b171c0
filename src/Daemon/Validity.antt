-- ===== src/Daemon/Validity.antt =====
-- `ValidateOrder` of src/daemon.cpp: what holds of the orders that it lets through.
use democrit.Base.{
  ℕ, ◌≡◌, refl, inl, inr, Bool, true, false, not, ◌||◌, Bool-cases, [], ◌∷◌, All, Text, Dict, has,
  Outcome, ok, pure, Exec, >>=-eq-ok, if◌then◌else◌,
}
use mathlib.Core.Path.{subst}
use democrit.Proto.{Order, asset_of}
use democrit.Env.{Env}
use democrit.Daemon.{has_valid_units, can_trade, validate_order, valid_orders}

-- Every order of a map by id has the property.
abbrev pub EachOrder : (Order → Type 0) → Dict ℕ Order → Type 0
EachOrder P os = All (λ e. P e.1) os

module _ {W : Type 0} (env : Env W) where
  validate_order-tests :
      (account : Text) (o : Order) (w w' : W)
      → validate_order env account o w ≡ (ok true, w')
      → (not (has_valid_units o) || not (has o.price_sat)) ≡ false
  unfolding validate_order
  validate_order-tests account o w w' e =
      elim (Bool-cases (not (has_valid_units o) || not (has o.price_sat))) [
        | inr passed ↦ passed
        | inl failed ↦
            let refused : ◌≡◌ {A = Outcome Bool × W} (ok false, w) (ok true, w') = rw failed at e in
            cc refused
      ]

  both_tests : (a b : Bool) → (not a || not b) ≡ false → (a ≡ true) × (b ≡ true)
  both_tests true true h = (refl, refl)
  both_tests true false h = cc h
  both_tests false b h = cc h

  -- An order that is let through has sensible units and a price.
  pub validate_order-accepts :
      (account : Text) (o : Order) (w w' : W)
      → validate_order env account o w ≡ (ok true, w')
      → (has_valid_units o ≡ true) × (has o.price_sat ≡ true)
  validate_order-accepts account o w w' e =
      both_tests (has_valid_units o) (has o.price_sat) (validate_order-tests account o w w' e)

  only_true :
      (b : Bool) (m : Exec W Bool) (w w' : W)
      → (if b then m else pure false) w ≡ (ok true, w')
      → m w ≡ (ok true, w')
  only_true true m w w' e = e
  only_true false m w w' e = cc e

  -- The last test has been passed, in some state of the world.
  pub validate_order-can_trade :
      (account : Text) (o : Order) (w w' : W)
      → validate_order env account o w ≡ (ok true, w')
      → (w1 : W) × (can_trade env account o w1 ≡ (ok true, w'))
  unfolding validate_order
  validate_order-can_trade account o w w' e =
      let asked = rw (validate_order-tests account o w w' e) at e in
      let (known, w1, _, traded) = >>=-eq-ok (env.is_asset (asset_of o)) _ w asked in
      (w1, only_true known (can_trade env account o) w1 w' traded)

  module _ (P : Order → Type 0) (account : Text) where
    keep_valid-EachOrder :
        (id : ℕ) (o : Order) (valid : Bool) (rest : Dict ℕ Order)
        → (valid ≡ true → P o)
        → EachOrder P rest
        → EachOrder P (if valid then (id, o) ∷ rest else rest)
    keep_valid-EachOrder id o true rest h hs = (h refl, hs)
    keep_valid-EachOrder id o false rest h hs = hs

    pub valid_orders-EachOrder :
        ((o : Order) (w w' : W) → validate_order env account o w ≡ (ok true, w') → P o)
        → (os : Dict ℕ Order) (w w' : W) {kept : Dict ℕ Order}
        → valid_orders env account os w ≡ (ok kept, w')
        → EachOrder P kept
    unfolding valid_orders
    valid_orders-EachOrder accepted [] w w' {kept} e =
        let same : [] ≡ kept = cc e in subst (EachOrder P) same tt
    valid_orders-EachOrder accepted ((id, o) ∷ os) w w' {kept} e =
        let (valid, w1, validated, e1) = >>=-eq-ok (validate_order env account o) _ w e in
        let (rest, w2, others, e2) = >>=-eq-ok (valid_orders env account os) _ w1 e1 in
        let same : (if valid then (id, o) ∷ rest else rest) ≡ kept = cc e2 in
        subst (EachOrder P) same (
          keep_valid-EachOrder id o valid rest
            (λ passed.
              accepted o w w1
                (subst (λ b. validate_order env account o w ≡ (ok b, w1)) passed validated))
            (valid_orders-EachOrder accepted os w1 w2 others))
