-- ===== src/Tests/World.antt =====
-- A concrete world for the tests: its state counts the addresses that the wallet has given out.
use democrit.Base.{
  ℕ, zero, suc, ◌+◌, true, false, Option, none, some, List, [], ◌∷◌, ◌++◌, Text, codes, decimal,
  str_eq, ℤ, pos, ok, rpc_error, Outcome, if◌then◌else◌,
}
use democrit.Json.{
  Json, null, bool_val, int_val, str, arr, obj, Fields, field, end, of_list, empty_object,
}
use democrit.Proto.{Order, ask, SellerData, TradeState, initiated, ProcessingMessage}
use democrit.Env.{Env}
use democrit.Checker.Decoded.{TradeChecker}
use democrit.TradeManager.{Manager}

abbrev pub input_of : Text → ℕ → Json
input_of txid n = obj (field (codes "txid") (str txid) (field (codes "vout") (int_val (pos n)) end))

abbrev name_op : Json
name_op = obj (
    field (codes "name") (str (codes "p/alice")) (
      field (codes "name_encoding") (str (codes "utf8")) (
        field (codes "op") (str (codes "name_update")) (
          field (codes "value") (str (codes "move"))
            (field (codes "value_encoding") (str (codes "utf8")) end)))))

abbrev name_script : Json
name_script =
    obj (field (codes "address") (str (codes "addr0")) (field (codes "nameOp") name_op end))

abbrev chi_script : Json
chi_script = obj (field (codes "address") (str (codes "addr1")) end)

abbrev output_of : Json → ℕ → Json
output_of script n =
    obj (field (codes "scriptPubKey") script (field (codes "value") (int_val (pos n)) end))

-- A transaction of two inputs: the name and the payment.
abbrev tx : Json
tx = obj (
    field (codes "btxid") (str (codes "btx")) (
      field (codes "vin")
        (arr (of_list (input_of (codes "name") 0 ∷ input_of (codes "coin") 1 ∷ [])))
        (field (codes "vout")
          (arr (of_list (output_of chi_script 20 ∷ output_of name_script 1 ∷ []))) end)))

abbrev signature : Text → Json
signature by = obj (field (codes "sig") (str by) end)

abbrev psbt : Json → Json → Json
psbt first second =
    obj (field (codes "inputs") (arr (of_list (first ∷ second ∷ []))) (field (codes "tx") tx end))

abbrev decode : Text → Option Json
decode t =
    if str_eq t (codes "unsigned")
    then some (psbt empty_object empty_object)
    else if str_eq t (codes "by-seller")
    then some (psbt (signature (codes "s")) empty_object)
    else if str_eq t (codes "by-buyer")
    then some (psbt empty_object (signature (codes "b")))
    else none

abbrev answer : {A : Type 0} → Option A → ℕ → Outcome A × ℕ
answer none w = (rpc_error, w)
answer (some a) w = (ok a, w)

abbrev pub parent_of : ℕ → Option ℕ
parent_of zero = none
parent_of (suc b) = some b

abbrev pub header_of : ℕ → Fields
header_of zero = end
header_of (suc b) = field (codes "previousblockhash") (str (b ∷ [])) end

abbrev hash_of : Text → Option ℕ
hash_of (b ∷ []) = some b
hash_of _ = none

abbrev header : Text → ℕ → Outcome Json × ℕ
header (b ∷ []) w = (ok (obj (header_of b)), w)
header _ w = (rpc_error, w)

abbrev amount : Json → Option ℤ
amount (int_val z) = some z
amount _ = none

abbrev named_psbt : Text → Json
named_psbt t = obj (field (codes "complete") (bool_val true) (field (codes "psbt") (str t) end))

abbrev status : Json
status = obj (
    field (codes "height") (int_val (pos 10))
      (field (codes "data") (obj (field (codes "state") (str (codes "unknown")) end)) end))

abbrev pub env0 : Env ℕ
env0 = record {
  get_new_address = λ w. (ok (codes "addr" ++ decimal w), w + 1);
  name_show = λ _ w. (ok (input_of (codes "name") 0), w);
  get_tx_out = λ _ _ w. (ok null, w);
  get_block_header = header;
  decode_psbt = λ t w. answer (decode t) w;
  wallet_create_funded_psbt = λ _ _ _ _ w. (ok (named_psbt (codes "paid")), w);
  create_psbt = λ _ _ w. (ok (codes "raw"), w);
  name_psbt = λ _ _ _ w. (ok (named_psbt (codes "named")), w);
  join_psbts = λ _ w. (ok (codes "unsigned"), w);
  wallet_process_psbt = λ _ w. (ok (named_psbt (codes "by-buyer")), w);
  combine_psbt = λ _ w. (ok (codes "combined"), w);
  finalize_psbt = λ _ w. (ok (named_psbt (codes "final")), w);
  send_raw_transaction = λ _ w. (ok (codes "txid"), w);
  lock_unspent = λ _ _ w. (ok true, w);
  check_trade = λ _ w. (ok status, w);
  game_id = codes "game";
  is_asset = λ _ w. (ok true, w);
  can_sell = λ _ _ _ w. (ok (some 5), w);
  can_buy = λ _ _ _ w. (ok true, w);
  transfer_move = λ _ _ _ _. empty_object;
  validate = λ _. record { answer = λ _ _. ok true; moved_from = λ o. o };
  current_time = λ w. (ok 1000, w);
  hash_from_hex = hash_of;
  hash_to_hex = λ b. b ∷ [];
  write_string = λ _. codes "move";
  amount_to_json = int_val;
  amount_from_json = amount;
  confirmations = 10;
  feerate_wo_names = 1000;
  trade_timeout_ms = 60000;
}

abbrev pub alice : Text
alice = codes "alice"

abbrev pub bob : Text
bob = codes "bob"

-- Alice sells up to five units for ten each.
abbrev pub stored_order : Order
stored_order = record {
  account = none;
  id = none;
  asset = some (codes "gold");
  min_units = some 1;
  max_units = 5;
  order_type = some ask;
  price_sat = some 10;
  locked = false;
}

abbrev pub alice_order : Order
alice_order = record stored_order { account = some alice; id = some 7 }

abbrev pub trade_of : Text → TradeState
trade_of counterparty = record {
  order = alice_order;
  units = 2;
  counterparty = counterparty;
  start_time = 1000;
  phase = some initiated;
  seller_data = none;
  our_psbt = none;
  their_psbt = none;
  conflict_height = none;
}

abbrev pub checker0 : TradeChecker
checker0 = record {
  buyer = bob;
  seller = alice;
  asset = codes "gold";
  price = pos 10;
  units = pos 2;
}

abbrev pub sale : SellerData
sale = record {
  name_address = some (codes "addr0");
  chi_address = some (codes "addr1");
  name_output = some (record { hash = codes "name"; n = 0 });
}

-- The node of an account with some trades, and one own order under the id 7.
abbrev pub node_of : Text → List TradeState → Manager ℕ
node_of account ts = record {
  node = record {
    state = record {
      account = account;
      own_orders = (7, stored_order) ∷ [];
      next_free_id = 8;
      trades = ts;
      trade_archive = [];
    };
    sent = [];
  };
  world = 0;
}

abbrev pub takes_two : ProcessingMessage
takes_two = record {
  counterparty = some bob;
  identifier = codes "alice" ++ (codes "\n" ++ codes "7");
  taking_order = some (record { id = 7; units = 2 });
  seller_data = none;
  psbt = none;
}
