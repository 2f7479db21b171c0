-- ===== src/Trade/Life/Talking.antt =====
-- What a reply of `Trade::HasReply` of src/trades.cpp says of the trade that gives it.
use democrit.Base.{
  ◌≡◌, refl, sym, ap, ◌∙◌, Bool, true, false, not, ◌||◌, Option, none, some, Text, has,
  if◌then◌else◌, str_eq,
}
use democrit.Trade.Results.{
  Post, Tells, Tells-pure, Tells-if, Tells-option, Tells-check, Tells-or_die, Tells-get, Tells-set,
  Tells-bind, Tells-lift, Tells-lift_then, Tells-Leaves, Tells-map,
}
use democrit.Proto.{
  TradeState, ProcessingMessage, maker, taker, initiated, pending, phase_of, is_initiated, is_ask,
  is_maker, account_of,
}
use democrit.Env.{Env}
use democrit.Trade.{get_order_type, get_role}
use democrit.Trade.Wallet.{create_seller_data}
use democrit.Trade.Reply.{
  Next, return_with, go_on, seller_sign, buyer_construct, sign_our_part, broadcast, share,
  reply_after, has_reply,
}
use democrit.Trade.Life.{Kept, Works, is_initiated-eq}
use democrit.Trade.Life.Replying.{create_seller_data-Works, sign_our_part-Works}

or_false_left : (a b : Bool) → (not a || b) ≡ false → a ≡ true
or_false_left true b h = refl
or_false_left false b h = cc

or_false_right : (a b : Bool) → (a || b) ≡ false → b ≡ false
or_false_right true b h = cc
or_false_right false b h = h

module _ (account : Text) where
  -- What a reply needs of the trade before and after it.
  pub data Spoke (t u : TradeState) : Type 0 where
    gives_addresses :
        is_ask (get_order_type account t) ≡ true
        → has t.seller_data ≡ false
        → has u.seller_data ≡ true
        → Spoke t u
    offers :
        is_ask (get_order_type account t) ≡ false
        → is_maker (get_role account t) ≡ true
        → has t.our_psbt ≡ false
        → has u.our_psbt ≡ true
        → Spoke t u
    signs :
        is_maker (get_role account t) ≡ false
        → phase_of t ≡ initiated
        → phase_of u ≡ pending
        → Spoke t u

  abbrev pub Replied : TradeState → Post (Option ProcessingMessage)
  Replied t none u = Unit
  Replied t (some _) u = Spoke t u

  abbrev NextSays : TradeState → Post Next
  NextSays t (return_with reply) u = Replied t reply u
  NextSays t go_on u = Unit

  module _ {W : Type 0} (env : Env W) where
    create_seller_data-Tells :
        (t : TradeState)
        → Tells (λ created u. created ≡ true → Spoke t u) t (create_seller_data env account)
    unfolding create_seller_data
    create_seller_data-Tells t = Tells-get _ (
        Tells-if (not (is_ask (get_order_type account t)) || has t.seller_data) _ _
          (λ _. Tells-pure false λ h. cc h)
          λ free. Tells-lift _ _ λ out. Tells-lift _ _ λ locked.
            Tells-if (not locked) _ _ (λ _. Tells-pure false λ h. cc h)
              λ _. Tells-lift _ _ λ a. Tells-lift _ _ λ c. Tells-set _ _ (
                Tells-pure true
                  λ _. gives_addresses (or_false_left _ _ free) (or_false_right _ _ free) refl))

    seller_sign-Tells :
        (t : TradeState) (theirs : Text) → Tells (NextSays t) t (seller_sign env account t theirs)
    unfolding seller_sign
    seller_sign-Tells t theirs = Tells-lift _ _ λ good.
        Tells-if (not good) _ _ (λ _. Tells-pure _ tt)
          λ _. Tells-lift _ _ λ signed. Tells-lift _ _ λ signature_good.
            Tells-if (not signature_good) _ _ (λ _. Tells-pure _ tt)
              λ _.
                Tells-if (if is_maker (get_role account t) then not signed.1 else signed.1) _ _
                  (λ _. Tells-pure _ tt) λ _. Tells-set _ _ (Tells-pure go_on tt)

    buyer_construct-Tells :
        (t : TradeState)
        → is_ask (get_order_type account t) ≡ false
        → has t.our_psbt ≡ false
        → Tells (NextSays t) t (buyer_construct env account t)
    unfolding buyer_construct
    buyer_construct-Tells t buys free = Tells-lift _ _ λ found.
        Tells-option found _ _ (Tells-pure _ tt) λ name_in. Tells-lift _ _ λ unsigned.
          Tells-lift _ _ λ signed. Tells-lift _ _ λ good.
            Tells-if (not good) _ _ (λ _. Tells-lift_then _ _ (Tells-pure _ tt))
              λ _. Tells-check _ _ (
                Tells-set _ _ (
                  Tells-if (is_maker (get_role account t)) _ _
                    (λ makes. Tells-pure _ (offers buys makes free refl)) (λ _. Tells-pure _ tt)))

    sign_our_part-Tells : (t : TradeState) → Tells (NextSays t) t (sign_our_part env account)
    unfolding sign_our_part
    sign_our_part-Tells t = Tells-get _ (
        Tells-if (is_ask (get_order_type account t)) _ _
          (λ _. Tells-option t.their_psbt _ _ (Tells-pure _ tt) λ theirs.
            Tells-if (has t.our_psbt) _ _ (λ _. Tells-pure _ tt) λ _. seller_sign-Tells t theirs)
          (λ buys.
            Tells-if (has t.our_psbt) _ _ (λ _. Tells-pure _ tt)
              λ free. buyer_construct-Tells t buys free))

    broadcast-Tells :
        (t v : TradeState) (ours theirs : Text)
        → Tells (Replied t) v (broadcast env account v ours theirs)
    unfolding broadcast
    broadcast-Tells t v ours theirs = Tells-lift _ _ λ psbt. Tells-lift _ _ λ finalised.
        Tells-check _ _ (
          Tells-or_die _ _ λ complete.
            Tells-if (not complete) _ _ (λ _. Tells-pure _ tt)
              λ _. Tells-or_die _ _ λ hex. Tells-lift_then _ _ (Tells-set _ _ (Tells-pure _ tt)))

    share-Tells :
        (t : TradeState) → phase_of t ≡ initiated → Tells (Replied t) t (share env account)
    unfolding share
    share-Tells t start = Tells-get _ (
        Tells-or_die _ _ λ ours.
          Tells-if (is_maker (get_role account t)) _ _
            (λ _.
              Tells-option t.their_psbt _ _ (Tells-pure _ tt)
                λ theirs. broadcast-Tells t t ours theirs)
            (λ takes. Tells-set _ _ (Tells-pure _ (signs takes start refl))))

  pub get_role-Kept : (t u : TradeState) → Kept t u → get_role account u ≡ get_role account t
  unfolding get_role
  get_role-Kept t u k = ap (λ o. if str_eq (account_of o) account then maker else taker) k.order

  pub get_order_type-Kept :
      (t u : TradeState) → Kept t u → get_order_type account u ≡ get_order_type account t
  unfolding get_order_type
  get_order_type-Kept t u k = rw (get_role-Kept t u k, k.order) refl

  absent_before :
      {A : Type 0} (a b : Option A) → (has a ≡ true → b ≡ a) → has b ≡ false → has a ≡ false
  absent_before none b keeps h = refl
  absent_before (some a) b keeps h = sym (ap has (keeps refl)) ∙ h

  Spoke-after : (t u v : TradeState) → Works t u → Spoke u v → Spoke t v
  Spoke-after t u v (k, phase) (gives_addresses sells free there) =
      gives_addresses (ap is_ask (sym (get_order_type-Kept t u k)) ∙ sells)
        (absent_before t.seller_data u.seller_data k.seller_data free) there
  Spoke-after t u v (k, phase) (offers buys makes free there) =
      offers (ap is_ask (sym (get_order_type-Kept t u k)) ∙ buys)
        (ap is_maker (sym (get_role-Kept t u k)) ∙ makes)
        (absent_before t.our_psbt u.our_psbt k.our_psbt free) there
  Spoke-after t u v (k, phase) (signs takes start over) =
      signs (ap is_maker (sym (get_role-Kept t u k)) ∙ takes) (sym phase ∙ start) over

  Replied-after :
      (t u v : TradeState) (reply : Option ProcessingMessage)
      → Works t u
      → Replied u reply v
      → Replied t reply v
  Replied-after t u v none w h = tt
  Replied-after t u v (some _) w h = Spoke-after t u v w h

  module _ {W : Type 0} (env : Env W) where
    reply_after-Tells :
        (next : Next) (t u v : TradeState)
        → phase_of v ≡ initiated
        → Works u v
        → NextSays u next v
        → Tells (Replied u) v (reply_after env account next)
    unfolding reply_after
    reply_after-Tells (return_with reply) t u v start w h = Tells-pure reply h
    reply_after-Tells go_on t u v start w h =
        Tells-map _ _ (λ reply z. Replied-after u v z reply w) (share-Tells env v start)

    pub has_reply-Tells : (t : TradeState) → Tells (Replied t) t (has_reply env account)
    unfolding has_reply
    has_reply-Tells t = Tells-get _ (
        Tells-if (not (is_initiated (phase_of t))) _ _ (λ _. Tells-pure none tt)
          λ begun.
            Tells-bind _ _ _
              (Tells-Leaves (create_seller_data-Works env account t)
                (create_seller_data-Tells env t))
              λ created u (worked, spoke). Tells-get _ (
                Tells-if created _ _ (λ new. Tells-pure _ (spoke new))
                  λ _.
                    Tells-if (not (has u.seller_data)) _ _ (λ _. Tells-pure none tt)
                      λ _.
                        Tells-map _ _ (λ reply z. Replied-after t u z reply worked)
                          (Tells-bind _ _ _
                            (Tells-Leaves (sign_our_part-Works env account u)
                              (sign_our_part-Tells env u))
                            λ next v (signed, says).
                              reply_after-Tells next t u v
                                (signed.1 ∙ (worked.1 ∙ is_initiated-eq (phase_of t) begun)) signed
                                says)))
