-- ===== src/Trade/Life.antt =====
-- The life of a trade: what its methods may change, and the phases that it can go through.
pub mod Replying
pub mod Talking
pub mod Turns
pub mod Updating
use democrit.Base.{
  ℕ, ◌≡◌, ◌⊎◌, inl, inr, refl, sym, ap, ◌∙◌, Bool, true, false, not, ◌||◌, Option, none, some,
  arith, Text, has, value_or, List, [], str_eq, codes, leb, ◌+◌, Exec, pure, ◌>>=◌, ◌>>◌,
  if◌then◌else◌, Bool-cases, Option-cases,
}
use mathlib.Core.Bool.{false≢true}
use democrit.Json.{Json}
use democrit.Proto.{
  Order, OrderType, TradePhase, initiated, pending, success, failed, abandoned, SellerData,
  TradeState, ProcessingMessage, phase_of, is_initiated, is_pending, is_ask, is_maker,
}
use democrit.Env.{Env}
use democrit.Trade.{
  handle_message, merge_seller_data, merge_psbt, merge_data, merge_their_psbt, get_order_type,
  get_role,
}
use democrit.Trade.Wallet.{Local, lift, create_seller_data}
use democrit.Trade.Reply.{
  Next, return_with, go_on, seller_sign, buyer_construct, sign_our_part, broadcast, share,
  reply_after, has_reply,
}
use democrit.Trade.Update.{note_conflict, update_pending, update, timed_out}
use democrit.Trade.Steps.{
  Relation, Leaves, Leaves-pure, Leaves-or_die, Leaves-lift_only, Leaves-lift, Leaves-bind-or_die,
  Leaves-check, Leaves-get, Leaves-if, Leaves-option, Leaves-set, Leaves-set-pure, Leaves-bind,
  Leaves-lift_then, Leaves-set_then,
}

-- What is never changed, and what is never replaced once it is there.
pub record Kept (t u : TradeState) : Type 0 where
  pub order : u.order ≡ t.order
  pub units : u.units ≡ t.units
  pub counterparty : u.counterparty ≡ t.counterparty
  pub start_time : u.start_time ≡ t.start_time
  pub seller_data : has t.seller_data ≡ true → u.seller_data ≡ t.seller_data
  pub our_psbt : has t.our_psbt ≡ true → u.our_psbt ≡ t.our_psbt
  pub their_psbt : has t.their_psbt ≡ true → u.their_psbt ≡ t.their_psbt

pub Kept-refl : (t : TradeState) → Kept t t
Kept-refl t = record {
  order = refl;
  units = refl;
  counterparty = refl;
  start_time = refl;
  seller_data = λ _. refl;
  our_psbt = λ _. refl;
  their_psbt = λ _. refl;
}

kept_option {ℓ} :
    {A : Type ℓ} (a b c : Option A)
    → (has a ≡ true → b ≡ a)
    → (has b ≡ true → c ≡ b)
    → has a ≡ true
    → c ≡ a
kept_option a b c p q h = q (rw (p h) h) ∙ p h

pub Kept-trans : (t u v : TradeState) → Kept t u → Kept u v → Kept t v
Kept-trans t u v p q = record {
  order = q.order ∙ p.order;
  units = q.units ∙ p.units;
  counterparty = q.counterparty ∙ p.counterparty;
  start_time = q.start_time ∙ p.start_time;
  seller_data = kept_option _ _ _ p.seller_data q.seller_data;
  our_psbt = kept_option _ _ _ p.our_psbt q.our_psbt;
  their_psbt = kept_option _ _ _ p.their_psbt q.their_psbt;
}

-- The changes of phase. A trade is pending only with our signed PSBT in it.
pub data Edge (t u : TradeState) : Type 0 where
  stays : phase_of u ≡ phase_of t → Edge t u
  shares : phase_of t ≡ initiated → phase_of u ≡ pending → has u.our_psbt ≡ true → Edge t u
  times_out : phase_of t ≡ initiated → phase_of u ≡ abandoned → Edge t u
  confirms : phase_of t ≡ pending → phase_of u ≡ success → Edge t u
  fails : phase_of t ≡ pending → phase_of u ≡ failed → Edge t u

-- A step of a trade's life.
abbrev pub Evolves : Relation
Evolves t u = Kept t u × Edge t u

-- Work on the trade that leaves its phase.
abbrev pub Works : Relation
Works t u = Kept t u × (phase_of u ≡ phase_of t)

pub Works-refl : (t : TradeState) → Works t t
Works-refl t = (Kept-refl t, refl)

pub Works-Evolves : (t u : TradeState) → Works t u → Evolves t u
Works-Evolves t u w = (w.0, stays w.1)

pub Works-trans : (t u v : TradeState) → Works t u → Works u v → Works t v
Works-trans t u v p q = (Kept-trans t u v p.0 q.0, q.1 ∙ p.1)

Edge-after : (t u v : TradeState) → phase_of u ≡ phase_of t → Edge u v → Edge t v
Edge-after t u v p (stays e) = stays (e ∙ p)
Edge-after t u v p (shares e f g) = shares (sym p ∙ e) f g
Edge-after t u v p (times_out e f) = times_out (sym p ∙ e) f
Edge-after t u v p (confirms e f) = confirms (sym p ∙ e) f
Edge-after t u v p (fails e f) = fails (sym p ∙ e) f

pub Works-then-Evolves : (t u v : TradeState) → Works t u → Evolves u v → Evolves t v
Works-then-Evolves t u v p q = (Kept-trans t u v p.0 q.0, Edge-after t u v p.1 q.1)

-- Writing a field that is not there yet.
pub absent {ℓ κ} : {A : Type ℓ} {P : Type κ} (o : Option A) → has o ≡ false → has o ≡ true → P
absent o e h = absurd (false≢true (sym e ∙ h))

pub write_seller_data :
    (sd : SellerData) (t : TradeState)
    → has t.seller_data ≡ false
    → Works t (record t { seller_data = some sd })
write_seller_data sd t e = (
  record {
    order = refl;
    units = refl;
    counterparty = refl;
    start_time = refl;
    seller_data = absent t.seller_data e;
    our_psbt = λ _. refl;
    their_psbt = λ _. refl;
  },
  refl,
)

pub write_our_psbt :
    (psbt : Text) (t : TradeState)
    → has t.our_psbt ≡ false
    → Works t (record t { our_psbt = some psbt })
write_our_psbt psbt t e = (
  record {
    order = refl;
    units = refl;
    counterparty = refl;
    start_time = refl;
    seller_data = λ _. refl;
    our_psbt = absent t.our_psbt e;
    their_psbt = λ _. refl;
  },
  refl,
)

pub write_their_psbt :
    (psbt : Text) (t : TradeState)
    → has t.their_psbt ≡ false
    → Works t (record t { their_psbt = some psbt })
write_their_psbt psbt t e = (
  record {
    order = refl;
    units = refl;
    counterparty = refl;
    start_time = refl;
    seller_data = λ _. refl;
    our_psbt = λ _. refl;
    their_psbt = absent t.their_psbt e;
  },
  refl,
)

pub Works-if :
    (t u v : TradeState) (b : Bool)
    → (b ≡ true → Works t u)
    → (b ≡ false → Works t v)
    → Works t (if b then u else v)
Works-if t u v true p q = p refl
Works-if t u v false p q = q refl

merge_seller_data-Works :
    (account : Text) (sd : SellerData) (t : TradeState) → Works t (merge_seller_data account sd t)
unfolding merge_seller_data
merge_seller_data-Works account sd t =
    Works-if t t _ (is_ask (get_order_type account t)) (λ _. Works-refl t)
      λ _.
        Works-if t t _ (has t.seller_data) (λ _. Works-refl t)
          λ free.
            Works-if t t _
              (not (has sd.name_address) || not (has sd.chi_address) || has sd.name_output)
              (λ _. Works-refl t)
              λ _.
                Works-if t t _ (str_eq (value_or [] sd.name_address) (value_or [] sd.chi_address))
                  (λ _. Works-refl t) λ _. write_seller_data sd t free

merge_psbt-Works : (psbt : Text) (t : TradeState) → Works t (merge_psbt psbt t)
unfolding merge_psbt
merge_psbt-Works psbt t =
    Works-if t t _ (has t.their_psbt) (λ _. Works-refl t) λ free. write_their_psbt psbt t free

merge_data-Works :
    (account : Text) (sd : Option SellerData) (t : TradeState) → Works t (merge_data account sd t)
unfolding merge_data
merge_data-Works account none t = Works-refl t
merge_data-Works account (some sd) t = merge_seller_data-Works account sd t

merge_their_psbt-Works : (psbt : Option Text) (t : TradeState) → Works t (merge_their_psbt psbt t)
unfolding merge_their_psbt
merge_their_psbt-Works none t = Works-refl t
merge_their_psbt-Works (some psbt) t = merge_psbt-Works psbt t

-- A message leaves the phase of a trade, and what identifies it, and replaces nothing that was there:
-- seller data and the counterparty's PSBT are taken once.
pub handle_message-Works :
    (account : Text) (msg : ProcessingMessage) (t : TradeState)
    → Works t (handle_message account msg t)
unfolding handle_message
handle_message-Works account msg t =
    Works-if t _ t (is_initiated (phase_of t))
      (λ _.
        Works-trans t _ _ (merge_data-Works account msg.seller_data t)
          (merge_their_psbt-Works msg.psbt (merge_data account msg.seller_data t)))
      (λ _. Works-refl t)

pub is_initiated-eq : (p : TradePhase) → not (is_initiated p) ≡ false → p ≡ initiated
is_initiated-eq initiated h = refl
is_initiated-eq _ h = cc

pub is_initiated-true : (p : TradePhase) → is_initiated p ≡ true → p ≡ initiated
is_initiated-true initiated h = refl
is_initiated-true _ h = cc

pub is_pending-true : (p : TradePhase) → is_pending p ≡ true → p ≡ pending
is_pending-true pending h = refl
is_pending-true _ h = cc

pub conflict_change : (t : TradeState) (h : Option ℕ) → Evolves t (record t { conflict_height = h })
conflict_change t h = (
  record {
    order = refl;
    units = refl;
    counterparty = refl;
    start_time = refl;
    seller_data = λ _. refl;
    our_psbt = λ _. refl;
    their_psbt = λ _. refl;
  },
  stays refl,
)

pub phase_change : (t : TradeState) (p : Option TradePhase) → Kept t (record t { phase = p })
phase_change t p = record {
  order = refl;
  units = refl;
  counterparty = refl;
  start_time = refl;
  seller_data = λ _. refl;
  our_psbt = λ _. refl;
  their_psbt = λ _. refl;
}
