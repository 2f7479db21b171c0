-- ===== src/Trade/Life/Replying.antt =====
-- What `has_reply` and its parts leave of a trade, however they end.
use democrit.Base.{
  ◌≡◌, refl, ap, ◌∙◌, Bool, true, false, not, ◌||◌, none, some, Text, has, pure, if◌then◌else◌,
}
use democrit.Proto.{initiated, pending, TradeState, phase_of, is_initiated, is_ask, is_maker}
use democrit.Env.{Env}
use democrit.Trade.{get_order_type, get_role}
use democrit.Trade.Wallet.{Local, create_seller_data}
use democrit.Trade.Reply.{
  Next, return_with, go_on, seller_sign, buyer_construct, sign_our_part, broadcast, share,
  reply_after, has_reply,
}
use democrit.Trade.Steps.{
  Leaves, Leaves-pure, Leaves-lift, Leaves-bind-or_die, Leaves-check, Leaves-get, Leaves-if,
  Leaves-option, Leaves-set-pure, Leaves-bind, Leaves-lift_then, Leaves-set_then,
}
use democrit.Trade.Life.{
  Works, Evolves, Works-refl, Works-Evolves, Works-then-Evolves, write_seller_data, write_our_psbt,
  phase_change, shares, is_initiated-eq,
}

pure_either :
    {W A : Type 0} (b : Bool) (x y : A) (l : Local W)
    → ((if b then pure x else pure y) l).1.pb ≡ l.pb
pure_either true x y l = refl
pure_either false x y l = refl

or_false : (a b : Bool) → (a || b) ≡ false → b ≡ false
or_false true b h = cc
or_false false b h = h

module _ {W : Type 0} (env : Env W) (account : Text) where
  pub create_seller_data-Works : (t : TradeState) → Leaves Works t (create_seller_data env account)
  unfolding create_seller_data
  create_seller_data-Works t =
      let rest = Works-refl t in
      Leaves-get _ (
        Leaves-if (not (is_ask (get_order_type account t)) || has t.seller_data) _ _
          (λ _. Leaves-pure false rest)
          λ free. Leaves-lift rest _ _ λ out. Leaves-lift rest _ _ λ locked.
            Leaves-if (not locked) _ _ (λ _. Leaves-pure false rest)
              λ _. Leaves-lift rest _ _ λ a.
                Leaves-lift rest _ _
                  λ c. Leaves-set-pure _ true (write_seller_data _ t (or_false _ _ free)))

  seller_sign-Works :
      (t : TradeState) (theirs : Text)
      → has t.our_psbt ≡ false
      → Leaves Works t (seller_sign env account t theirs)
  unfolding seller_sign
  seller_sign-Works t theirs free =
      let rest = Works-refl t in
      Leaves-lift rest _ _ λ good.
        Leaves-if (not good) _ _ (λ _. Leaves-pure _ rest)
          λ _. Leaves-lift rest _ _ λ signed. Leaves-lift rest _ _ λ signature_good.
            Leaves-if (not signature_good) _ _ (λ _. Leaves-pure _ rest)
              λ _.
                Leaves-if (if is_maker (get_role account t) then not signed.1 else signed.1) _ _
                  (λ _. Leaves-pure _ rest) λ _. Leaves-set-pure _ go_on (write_our_psbt _ t free)

  buyer_construct-Works :
      (t : TradeState) → has t.our_psbt ≡ false → Leaves Works t (buyer_construct env account t)
  unfolding buyer_construct
  buyer_construct-Works t free =
      let rest = Works-refl t in
      Leaves-lift rest _ _ λ found.
        Leaves-option found _ _ (λ _. Leaves-pure _ rest)
          λ name_in _. Leaves-lift rest _ _ λ unsigned. Leaves-lift rest _ _ λ signed.
            Leaves-lift rest _ _ λ good.
              Leaves-if (not good) _ _ (λ _. Leaves-lift_then rest _ _ (Leaves-pure _ rest))
                λ _. Leaves-check rest _ _ λ _.
                  Leaves-set_then _ _ (write_our_psbt signed.0 t free)
                    (pure_either (is_maker (get_role account t)) _ _)

  pub sign_our_part-Works : (t : TradeState) → Leaves Works t (sign_our_part env account)
  unfolding sign_our_part
  sign_our_part-Works t =
      let rest = Works-refl t in
      Leaves-get _ (
        Leaves-if (is_ask (get_order_type account t)) _ _
          (λ _.
            Leaves-option t.their_psbt _ _ (λ _. Leaves-pure _ rest)
              λ theirs _.
                Leaves-if (has t.our_psbt) _ _ (λ _. Leaves-pure _ rest)
                  λ free. seller_sign-Works t theirs free)
          (λ _.
            Leaves-if (has t.our_psbt) _ _ (λ _. Leaves-pure _ rest)
              λ free. buyer_construct-Works t free))

  goes_pending :
      (t : TradeState) (ours : Text)
      → phase_of t ≡ initiated
      → t.our_psbt ≡ some ours
      → Evolves t (record t { phase = some pending })
  goes_pending t ours start signed =
      (phase_change t (some pending), shares start refl (ap has signed))

  broadcast-Evolves :
      (t : TradeState) (ours theirs : Text)
      → phase_of t ≡ initiated
      → t.our_psbt ≡ some ours
      → Leaves Evolves t (broadcast env account t ours theirs)
  unfolding broadcast
  broadcast-Evolves t ours theirs start signed =
      let rest = Works-Evolves t t (Works-refl t) in
      Leaves-lift rest _ _ λ psbt. Leaves-lift rest _ _ λ finalised. Leaves-check rest _ _ λ _.
        Leaves-bind-or_die rest _ _ λ complete _.
          Leaves-if (not complete) _ _ (λ _. Leaves-pure _ rest)
            λ _. Leaves-bind-or_die rest _ _ λ hex _.
              Leaves-lift_then rest _ _ (Leaves-set-pure _ none (goes_pending t ours start signed))

  share-Evolves : (t : TradeState) → phase_of t ≡ initiated → Leaves Evolves t (share env account)
  unfolding share
  share-Evolves t start =
      let rest = Works-Evolves t t (Works-refl t) in
      Leaves-get _ (
        Leaves-bind-or_die rest _ _ λ ours signed.
          Leaves-if (is_maker (get_role account t)) _ _
            (λ _.
              Leaves-option t.their_psbt _ _ (λ _. Leaves-pure _ rest)
                λ theirs _. broadcast-Evolves t ours theirs start signed)
            (λ _. Leaves-set-pure _ _ (goes_pending t ours start signed)))

  reply_after-Evolves :
      (next : Next) (t : TradeState)
      → phase_of t ≡ initiated
      → Leaves Evolves t (reply_after env account next)
  unfolding reply_after
  reply_after-Evolves (return_with reply) t start =
      Leaves-pure reply (Works-Evolves t t (Works-refl t))
  reply_after-Evolves go_on t start = share-Evolves t start

  has_reply-Leaves : (t : TradeState) → Leaves Evolves t (has_reply env account)
  unfolding has_reply
  has_reply-Leaves t =
      let still = λ (u : TradeState). Works-Evolves u u (Works-refl u) in
      Leaves-get _ (
        Leaves-if (not (is_initiated (phase_of t))) _ _ (λ _. Leaves-pure none (still t))
          λ begun.
            Leaves-bind Works Evolves Evolves t (Works-Evolves t) (Works-then-Evolves t) _ _
              (create_seller_data-Works t)
              λ created u worked. Leaves-get _ (
                Leaves-if created _ _ (λ _. Leaves-pure _ (still u))
                  λ _.
                    Leaves-if (not (has u.seller_data)) _ _ (λ _. Leaves-pure none (still u))
                      λ _.
                        Leaves-bind Works Evolves Evolves u (Works-Evolves u) (Works-then-Evolves u)
                          _ _ (sign_our_part-Works u)
                          λ next v signed.
                            reply_after-Evolves next v
                              (signed.1 ∙ (worked.1 ∙ is_initiated-eq (phase_of t) begun))))

  -- Whatever the wallet and the node answer, and however `HasReply` ends: what identifies the trade
  -- is kept, and what was written once stays; the phase stays or changes along an edge of `Edge`, where
  -- a trade that gets pending had been initiated and has our PSBT.
  pub has_reply-Evolves : (l : Local W) → Evolves l.pb (has_reply env account l).1.pb
  has_reply-Evolves l = (has_reply-Leaves l.pb).at l refl
