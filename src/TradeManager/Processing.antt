-- ===== src/TradeManager/Processing.antt =====
-- What a message of a counterparty does to the trades.
use democrit.Base.{◌≡◌, refl, true, false, inl, inr, ◌⊎◌, Bool-cases, List, [], ◌∷◌, Text}
use democrit.Proto.{TradeState, ProcessingMessage}
use democrit.Env.{Env}
use democrit.Trade.{matches, handle_message}
use democrit.Trade.Life.{Evolves, Works-then-Evolves, handle_message-Works}
use democrit.Trade.Life.Replying.{has_reply-Evolves}
use democrit.TradeManager.{process_trade, process_trades}

-- The first trade that the message names has taken an edge of its life; the others are as before.
abbrev pub Touched : ProcessingMessage → List TradeState → List TradeState → Type 0
Touched msg [] us = us ≡ []
Touched msg (t ∷ ts) [] = ⊥
Touched msg (t ∷ ts) (u ∷ us) =
    ((matches t msg ≡ true) × Evolves t u × (us ≡ ts))
    ⊎ ((matches t msg ≡ false) × (u ≡ t) × Touched msg ts us)

process_trade-Evolves :
    {W : Type 0} (env : Env W) (account : Text) (msg : ProcessingMessage) (t : TradeState) (w : W)
    → Evolves t (process_trade env account msg t w).1.pb
unfolding process_trade
process_trade-Evolves env account msg t w =
    Works-then-Evolves t (handle_message account msg t) _ (handle_message-Works account msg t)
      (has_reply-Evolves env account _)

-- Whatever the world answers, and also if a call throws: a message works on the first trade that it
-- names, and on no other.
pub process_trades-Touched :
    {W : Type 0} (env : Env W) (account : Text) (msg : ProcessingMessage) (ts : List TradeState)
    (w : W)
    → Touched msg ts (process_trades env account msg ts w).1
unfolding process_trades
process_trades-Touched env account msg [] w = refl
process_trades-Touched env account msg (t ∷ ts) w = elim (Bool-cases (matches t msg)) [
  | inl named ↦ rw named (inl (named, process_trade-Evolves env account msg t w, refl))
  | inr other ↦ rw other (inr (other, refl, process_trades-Touched env account msg ts w))
]
