-- ===== src/Trade/Reply.antt =====
-- src/trades.cpp, `Trade::HasReply`: what we do when it may be our turn. The result is the reply to
-- send, if there is one.
use democrit.Base.{
  not, Option, none, some, [], ◌∷◌, Text, codes, if◌then◌else◌, has, Exec, pure, or_die, check,
  and_then, ◌>>=◌, ◌>>◌,
}
use democrit.Json.{str, arr, of_list, member, is_object, as_str, as_bool}
use democrit.Proto.{
  SellerData, TradeState, ProcessingMessage, pending, phase_of, seller_data_of, is_ask, is_maker,
  is_initiated,
}
use democrit.Env.{Env}
use democrit.Checker.{
  check_for_buyer_trade, check_for_buyer_signature, check_for_seller_outputs,
  check_for_seller_signature,
}
use democrit.Trade.{get_order_type, get_role, build_trade_checker, init_processing_message}
use democrit.Trade.Wallet.{
  Local, lift, get_pb, set_pb, create_seller_data, construct_transaction, sign_psbt,
  unlock_psbt_inputs,
}

-- A part of the method returns from it, or goes on.
pub data Next : Type 0 where
  return_with : Option ProcessingMessage → Next
  go_on : Next

abbrev pub with_seller_data : SellerData → ProcessingMessage → ProcessingMessage
with_seller_data sd msg = record msg { seller_data = some (record sd { name_output = none }) }

abbrev pub with_psbt : Text → ProcessingMessage → ProcessingMessage
with_psbt psbt msg = record msg { psbt = some psbt }

module _ {W : Type 0} (env : Env W) (account : Text) where
  open env use {combine_psbt, finalize_psbt, send_raw_transaction}

  -- The seller signs the PSBT of the buyer, after the check of its outputs; the maker's signature
  -- completes the transaction, and the taker's does not.
  unfoldable pub seller_sign : TradeState → Text → Exec (Local W) Next
  unfolding sign_psbt build_trade_checker get_role
  seller_sign t theirs = do
    outputs_good ←
        lift
          (check_for_seller_outputs env (build_trade_checker account t) theirs (seller_data_of t))
    if not outputs_good then pure (return_with none) else do
      signed ← lift (sign_psbt env theirs)
      let (psbt, complete) = signed
      signature_good ← lift (check_for_seller_signature env theirs psbt (seller_data_of t))
      if not signature_good
          then pure (return_with none)
          else if (if is_maker (get_role account t) then not complete else complete)
          then pure (return_with none)
          else do set_pb (record t { our_psbt = some psbt }); pure go_on

  -- The buyer constructs and signs the transaction; as the maker, it shares the unsigned one.
  unfoldable pub buyer_construct : TradeState → Exec (Local W) Next
  unfolding sign_psbt build_trade_checker get_role construct_transaction unlock_psbt_inputs
      init_processing_message
  buyer_construct t = do
    checked_trade ← lift (check_for_buyer_trade env (build_trade_checker account t))
    elim checked_trade [
      | none ↦ pure (return_with none)
      | some name_in ↦ do
        unsigned ←
            lift (construct_transaction env account t (build_trade_checker account t) name_in)
        signed ← lift (sign_psbt env unsigned)
        let (psbt, complete) = signed
        signature_good ← lift (check_for_buyer_signature env unsigned psbt)
        if not signature_good
            then (do lift (unlock_psbt_inputs env psbt); pure (return_with none))
            else do
              check (not complete)
              set_pb (record t { our_psbt = some psbt })
              if is_maker (get_role account t)
                  then pure (return_with (some (with_psbt unsigned (init_processing_message t))))
                  else pure go_on
    ]

  -- Our part of the signing, for the side that we are on.
  unfoldable pub sign_our_part : Exec (Local W) Next
  unfolding seller_sign buyer_construct get_order_type
  sign_our_part = do
    t ← get_pb
    if is_ask (get_order_type account t)
        then elim t.their_psbt [
          | none ↦ pure (return_with none)
          | some theirs ↦ if has t.our_psbt then pure go_on else seller_sign t theirs
        ]
        else if has t.our_psbt
        then pure go_on
        else buyer_construct t

  -- The maker's transaction with all signatures.
  unfoldable pub final_psbt : TradeState → Text → Text → Exec W Text
  unfolding get_order_type
  final_psbt t ours theirs =
      if is_ask (get_order_type account t)
      then pure ours
      else combine_psbt (arr (of_list (str theirs ∷ str ours ∷ [])))

  -- The maker broadcasts the transaction once it is complete.
  unfoldable pub broadcast : TradeState → Text → Text → Exec (Local W) (Option ProcessingMessage)
  unfolding final_psbt member
  broadcast t ours theirs = do
    psbt ← lift (final_psbt t ours theirs)
    finalised ← lift (finalize_psbt psbt)
    check (is_object finalised)
    complete ← or_die (and_then (member (codes "complete") finalised) as_bool)
    if not complete then pure none else do
      hex ← or_die (and_then (member (codes "hex") finalised) as_str)
      lift (send_raw_transaction hex)
      set_pb (record t { phase = some pending })
      pure none

  -- The taker shares its signature; the maker waits for the other one.
  unfoldable pub share : Exec (Local W) (Option ProcessingMessage)
  unfolding broadcast get_role init_processing_message
  share = do
    t ← get_pb
    ours ← or_die t.our_psbt
    if is_maker (get_role account t)
        then elim t.their_psbt [ none ↦ pure none | some theirs ↦ broadcast t ours theirs ]
        else do
          set_pb (record t { phase = some pending })
          pure (some (with_psbt ours (init_processing_message t)))

  unfoldable pub reply_after : Next → Exec (Local W) (Option ProcessingMessage)
  unfolding share
  reply_after (return_with reply) = pure reply
  reply_after go_on = share

  unfoldable pub has_reply : Exec (Local W) (Option ProcessingMessage)
  unfolding create_seller_data sign_our_part reply_after init_processing_message
  has_reply = do
    start ← get_pb
    if not (is_initiated (phase_of start)) then pure none else do
      created ← create_seller_data env account
      t ← get_pb
      if created
          then pure (some (with_seller_data (seller_data_of t) (init_processing_message t)))
          else if not (has t.seller_data)
          then pure none
          else do next ← sign_our_part; reply_after next
