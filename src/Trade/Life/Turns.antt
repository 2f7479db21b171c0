-- ===== src/Trade/Life/Turns.antt =====
-- How many messages a trade sends, whatever is done with it and whatever it is told: src/trades.cpp, the calls
-- that `TradeManager` makes of a trade.
use democrit.Base.{
  ℕ, ◌+◌, ◌≤◌, ◌≡◌, refl, sym, ap, ◌∙◌, Bool, true, false, not, ◌&&◌, Option, none, some, arith,
  Text, has, Outcome, ok, rpc_error, fatal,
}
use mathlib.Core.Bool.{false≢true}
use democrit.Proto.{
  TradeState, ProcessingMessage, OrderType, ask, bid, Role, maker, taker, initiated, pending,
  phase_of, is_initiated, is_ask, is_maker,
}
use democrit.Env.{Env}
use democrit.Trade.{get_order_type, get_role, handle_message}
use democrit.Trade.Wallet.{Local}
use democrit.Trade.Reply.{has_reply}
use democrit.Trade.Update.{update}
use democrit.Trade.Life.{
  Kept, Edge, stays, shares, times_out, confirms, fails, Evolves, Works-Evolves,
  handle_message-Works,
}
use democrit.Trade.Results.{Told}
use democrit.Trade.Life.Replying.{has_reply-Evolves}
use democrit.Trade.Life.Updating.{update-Evolves}
use democrit.Trade.Life.Talking.{
  Spoke, gives_addresses, offers, signs, Replied, has_reply-Tells, get_role-Kept,
  get_order_type-Kept,
}

abbrev one_if : Bool → ℕ
one_if true = 1
one_if false = 0

one_if_mono : (a b : Bool) → (b ≡ true → a ≡ true) → one_if b ≤ one_if a
one_if_mono a true h = rw (h refl) (omega arith)
one_if_mono a false h = omega arith

one_if-bound : (b : Bool) → one_if b ≤ 1
one_if-bound true = omega arith
one_if-bound false = omega arith

and_true_mono : (a b c : Bool) → (c ≡ true → b ≡ true) → (a && c) ≡ true → (a && b) ≡ true
and_true_mono true b c h e = h e
and_true_mono false b c h e = e

and_mono : (a b c : Bool) → (c ≡ true → b ≡ true) → one_if (a && c) ≤ one_if (a && b)
and_mono a b c h = one_if_mono (a && b) (a && c) (and_true_mono a b c h)

still_absent :
    {A : Type 0} (a b : Option A) → (has a ≡ true → b ≡ a) → not (has b) ≡ true → not (has a) ≡ true
still_absent none b keeps h = refl
still_absent (some a) b keeps h = sym (ap (λ o. not (has o)) (keeps refl)) ∙ h

is_initiated-Edge :
    (t u : TradeState)
    → Edge t u
    → is_initiated (phase_of u) ≡ true
    → is_initiated (phase_of t) ≡ true
is_initiated-Edge t u (stays e) h = sym (ap is_initiated e) ∙ h
is_initiated-Edge t u (shares before after _) h = ap is_initiated before
is_initiated-Edge t u (times_out before after) h = ap is_initiated before
is_initiated-Edge t u (confirms before after) h =
    absurd (false≢true (sym (ap is_initiated after) ∙ h))
is_initiated-Edge t u (fails before after) h = absurd (false≢true (sym (ap is_initiated after) ∙ h))

abbrev said : Outcome (Option ProcessingMessage) → ℕ
said (ok (some _)) = 1
said (ok none) = 0
said rpc_error = 0
said fatal = 0

module _ {W : Type 0} (env : Env W) (account : Text) where
  -- What happens to a trade and around it, with the number of replies that it gives: messages come in, it is
  -- asked for its reply, it is updated, and the world moves on.
  pub data Talk : ℕ → Local W → Local W → Type 0 where
    silent : (l : Local W) → Talk 0 l l
    hears :
        (msg : ProcessingMessage) (l l' : Local W) (n : ℕ)
        → Talk n (record l { pb = handle_message account msg l.pb }) l'
        → Talk n l l'
    asked :
        (l l' : Local W) (n : ℕ)
        → Talk n (has_reply env account l).1 l'
        → Talk (said (has_reply env account l).0 + n) l l'
    updated : (l l' : Local W) (n : ℕ) → Talk n (update env l).1 l' → Talk n l l'
    passes : (w : W) (l l' : Local W) (n : ℕ) → Talk n (record l { world = w }) l' → Talk n l l'

  -- The most that a side has to say.
  abbrev pub turns : OrderType → Role → ℕ
  turns ask taker = 2
  turns _ _ = 1

  -- The replies that a trade may still give: the seller's addresses, the maker's unsigned transaction as buyer,
  -- and the taker's signature.
  abbrev left_to_say : OrderType → Role → TradeState → ℕ
  left_to_say o r t =
      one_if (is_ask o && not (has t.seller_data))
      + (one_if (not (is_ask o) && (is_maker r && not (has t.our_psbt)))
          + one_if (not (is_maker r) && is_initiated (phase_of t)))

  left_to_say-turns : (o : OrderType) (r : Role) (t : TradeState) → left_to_say o r t ≤ turns o r
  left_to_say-turns ask maker t = let a = one_if-bound (not (has t.seller_data)) in omega (arith, a)
  left_to_say-turns ask taker t =
      let a = one_if-bound (not (has t.seller_data)) in
      let c = one_if-bound (is_initiated (phase_of t)) in omega (arith, a, c)
  left_to_say-turns bid maker t = let b = one_if-bound (not (has t.our_psbt)) in omega (arith, b)
  left_to_say-turns bid taker t =
      let c = one_if-bound (is_initiated (phase_of t)) in omega (arith, c)

  -- Nothing is to be said again.
  left_to_say-Evolves :
      (o : OrderType) (r : Role) (t u : TradeState)
      → Evolves t u
      → left_to_say o r u ≤ left_to_say o r t
  left_to_say-Evolves o r t u (k, edge) =
      let a = and_mono (is_ask o) _ _ (still_absent t.seller_data u.seller_data k.seller_data) in
      let b =
        and_mono (not (is_ask o)) _ _
          (and_true_mono (is_maker r) _ _ (still_absent t.our_psbt u.our_psbt k.our_psbt)) in
      let c = and_mono (not (is_maker r)) _ _ (is_initiated-Edge t u edge) in omega (arith, a, b, c)

  after_addresses :
      (o : OrderType) (r : Role) (t u : TradeState)
      → Evolves t u
      → is_ask o ≡ true
      → has t.seller_data ≡ false
      → has u.seller_data ≡ true
      → 1 + left_to_say o r u ≤ left_to_say o r t
  after_addresses ask r t u (k, edge) sells free there =
      let c = and_mono (not (is_maker r)) _ _ (is_initiated-Edge t u edge) in
      rw (free, there) (omega (arith, c))
  after_addresses bid r t u e sells free there = cc

  after_offer :
      (o : OrderType) (r : Role) (t u : TradeState)
      → is_ask o ≡ false
      → is_maker r ≡ true
      → has t.our_psbt ≡ false
      → has u.our_psbt ≡ true
      → 1 + left_to_say o r u ≤ left_to_say o r t
  after_offer bid maker t u buys makes free there = rw (free, there) (omega arith)
  after_offer ask _ t u buys makes free there = cc
  after_offer bid taker t u buys makes free there = cc

  after_signature :
      (o : OrderType) (r : Role) (t u : TradeState)
      → Kept t u
      → is_maker r ≡ false
      → phase_of t ≡ initiated
      → phase_of u ≡ pending
      → 1 + left_to_say o r u ≤ left_to_say o r t
  after_signature o taker t u k takes start over =
      let a = and_mono (is_ask o) _ _ (still_absent t.seller_data u.seller_data k.seller_data) in
      let b =
        and_mono (not (is_ask o)) _ _
          (and_true_mono false _ _ (still_absent t.our_psbt u.our_psbt k.our_psbt)) in
      rw (start, over) (omega (arith, a, b))
  after_signature o maker t u k takes start over = cc

  left_to_say-Spoke :
      (t u : TradeState)
      → Evolves t u
      → Spoke account t u
      → 1 + left_to_say (get_order_type account t) (get_role account t) u
        ≤ left_to_say (get_order_type account t) (get_role account t) t
  left_to_say-Spoke t u e (gives_addresses sells free there) =
      after_addresses _ _ t u e sells free there
  left_to_say-Spoke t u e (offers buys makes free there) = after_offer _ _ t u buys makes free there
  left_to_say-Spoke t u e (signs takes start over) = after_signature _ _ t u e.0 takes start over

  said-left_to_say :
      (reply : Outcome (Option ProcessingMessage)) (t u : TradeState)
      → Evolves t u
      → Told (Replied account t) reply u
      → said reply + left_to_say (get_order_type account t) (get_role account t) u
        ≤ left_to_say (get_order_type account t) (get_role account t) t
  said-left_to_say (ok (some _)) t u e spoke = left_to_say-Spoke t u e spoke
  said-left_to_say (ok none) t u e spoke =
      let less = left_to_say-Evolves (get_order_type account t) (get_role account t) t u e in
      omega (arith, less)
  said-left_to_say rpc_error t u e spoke =
      let less = left_to_say-Evolves (get_order_type account t) (get_role account t) t u e in
      omega (arith, less)
  said-left_to_say fatal t u e spoke =
      let less = left_to_say-Evolves (get_order_type account t) (get_role account t) t u e in
      omega (arith, less)

  -- What is left to say, from the side that the trade is on.
  abbrev left : TradeState → ℕ
  left t = left_to_say (get_order_type account t) (get_role account t) t

  left-side :
      (t u : TradeState)
      → Kept t u
      → left_to_say (get_order_type account t) (get_role account t) u ≡ left u
  left-side t u k = rw (get_order_type-Kept account t u k, get_role-Kept account t u k) refl

  left-Evolves : (t u : TradeState) → Evolves t u → left u ≤ left t
  left-Evolves t u e =
      let same = left-side t u e.0 in
      let less = left_to_say-Evolves (get_order_type account t) (get_role account t) t u e in
      omega (arith, same, less)

  Talk-left : {n : ℕ} {l l' : Local W} → Talk n l l' → n ≤ left l.pb
  Talk-left (silent l) = omega arith
  Talk-left (hears msg l l' n rest) =
      let later = Talk-left rest in
      let less = left-Evolves l.pb _ (Works-Evolves _ _ (handle_message-Works account msg l.pb)) in
      omega (arith, later, less)
  Talk-left (asked l l' n rest) =
      let later = Talk-left rest in
      let evolves = has_reply-Evolves env account l in
      let same = left-side l.pb _ evolves.0 in
      let less =
        said-left_to_say (has_reply env account l).0 l.pb _ evolves
          ((has_reply-Tells account env l.pb).at l refl) in
      omega (arith, later, same, less)
  Talk-left (updated l l' n rest) =
      let later = Talk-left rest in
      let less = left-Evolves l.pb _ (update-Evolves env l) in omega (arith, later, less)
  Talk-left (passes w l l' n rest) = Talk-left rest

  -- Whatever messages arrive, however often a trade is asked for its reply and updated, whatever the wallet and
  -- the node answer and however the calls end: a trade gives at most two replies as the selling taker, and at
  -- most one on any other side.
  pub Talk-turns :
      (n : ℕ) (l l' : Local W)
      → Talk n l l'
      → n ≤ turns (get_order_type account l.pb) (get_role account l.pb)
  Talk-turns n l l' talk =
      let most = Talk-left talk in
      let bound = left_to_say-turns (get_order_type account l.pb) (get_role account l.pb) l.pb in
      omega (arith, most, bound)
