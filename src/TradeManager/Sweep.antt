-- ===== src/TradeManager/Sweep.antt =====
-- The loop of `UpdateAndArchiveTrades`: where each trade of the state goes.
use democrit.Base.{
  ◌≡◌, true, false, inl, inr, Bool-cases, List, [], ◌∷◌, Text, Outcome, ok, rpc_error, fatal,
}
use democrit.Proto.{TradeState}
use democrit.Env.{Env}
use democrit.Trade.{is_finalised, get_public_info}
use democrit.Trade.Update.{update}
use democrit.Trade.Wallet.{Local}
use democrit.Trade.Life.{Evolves}
use democrit.Trade.Life.Updating.{update-Evolves}
use democrit.TradeManager.{Swept, nothing_swept, put_swept, sweep_on, sweep}

-- Every trade, in order, has taken an edge of its life, and stands among the active ones if it is
-- not over, and otherwise among the finalised ones, with its public data in the archive.
pub data Splits (account : Text) : List TradeState → Swept → Type 0 where
  all_swept : {left : List TradeState} → Splits account [] (nothing_swept left)
  goes_on :
      {ts : List TradeState} {s : Swept} {t u : TradeState} {left : List TradeState}
      → Evolves t u
      → is_finalised u ≡ false
      → Splits account ts s
      → Splits account (t ∷ ts) (record s { active = u ∷ s.active; left = left })
  is_over :
      {ts : List TradeState} {s : Swept} {t u : TradeState} {left : List TradeState}
      → Evolves t u
      → is_finalised u ≡ true
      → Splits account ts s
      → Splits account (t ∷ ts) (record s {
        finalised = u ∷ s.finalised;
        archived = get_public_info account u ∷ s.archived;
        left = left;
      })

put_swept-Splits :
    (account : Text) (t u : TradeState) (ts : List TradeState) (s : Swept)
    → Evolves t u
    → Splits account ts s
    → Splits account (t ∷ ts) (put_swept account u s)
unfolding put_swept
put_swept-Splits account t u ts s e h = elim (Bool-cases (is_finalised u)) [
  | inl over ↦ rw over (is_over e over h)
  | inr active ↦ rw active (goes_on e active h)
]

sweep_on-Splits :
    {W : Type 0} (account : Text) (t : TradeState) (r : Outcome (Unit {0})) (l : Local W)
    (ts : List TradeState) (rest : Outcome (Unit {0}) × Swept × W)
    → Evolves t l.pb
    → (rest.0 ≡ ok tt → Splits account ts rest.1)
    → (sweep_on account r l ts rest).0 ≡ ok tt
    → Splits account (t ∷ ts) (sweep_on account r l ts rest).1
unfolding sweep_on
sweep_on-Splits account t (ok _) l ts (r, s, w) e h done =
    put_swept-Splits account t l.pb ts s e (h done)
sweep_on-Splits account t rpc_error l ts rest e h done = cc
sweep_on-Splits account t fatal l ts rest e h done = cc

-- Whatever the world answers: if no update of a trade throws, the loop loses no trade.
pub sweep-Splits :
    {W : Type 0} (env : Env W) (account : Text) (ts : List TradeState) (w : W)
    → (sweep env account ts w).0 ≡ ok tt
    → Splits account ts (sweep env account ts w).1
unfolding sweep
sweep-Splits env account [] w done = all_swept
sweep-Splits env account (t ∷ ts) w done =
    let l : Local _ = record { pb = t; world = w } in
    let after = (update env l).1 in
    sweep_on-Splits account t (update env l).0 after ts (sweep env account ts after.world)
      (update-Evolves env l) (sweep-Splits env account ts after.world) done
