-- ===== src/TradeManager/Lingering.antt =====
-- What `UpdateAndArchiveTrades` of src/trades.cpp leaves: no trade is kept that is over, or that nobody has
-- answered within its time.
use democrit.Base.{
  ℕ, ◌+◌, ◌*◌, ◌≤◌, ◌≡◌, refl, sym, ap, ◌∙◌, inl, inr, true, false, Bool-cases, some, List, [], ◌∷◌,
  All, Text, Exec, Outcome, ok, rpc_error, fatal, pure, ◌>>=◌, >>=-eq-ok, if◌then◌else◌, arith,
}
use mathlib.Core.Path.{subst}
use democrit.Proto.{initiated, abandoned, TradeState, phase_of, is_initiated}
use democrit.Env.{Env}
use democrit.Trade.{is_finalised}
use democrit.Trade.Wallet.{Local, lift, get_pb, set_pb}
use democrit.Trade.Update.{timed_out, update}
use democrit.Trade.Life.{Edge, stays, shares, times_out, confirms, fails}
use democrit.Trade.Life.Updating.{update-Evolves}
use democrit.TradeManager.{
  Manager, Swept, put_swept, sweep_on, sweep, record_sweep, sweep_trades, finish_trades,
  update_and_archive_trades,
}
use democrit.TradeManager.Safety.{Framed}
use democrit.TradeManager.Finishing.{finish_trades-Safe}

-- Nothing becomes initiated again.
initiated_before : {t u : TradeState} → Edge t u → phase_of u ≡ initiated → phase_of t ≡ initiated
initiated_before (stays e) h = sym e ∙ h
initiated_before (shares before after _) h = before
initiated_before (times_out before after) h = before
initiated_before (confirms before after) h = absurd (cc (after, h))
initiated_before (fails before after) h = absurd (cc (after, h))

module _ {W : Type 0} (env : Env W) where
  -- The clock never says less than this.
  abbrev pub IsClock : ℕ → Type 0
  IsClock since = (w w' : W) (now : ℕ) → env.current_time w ≡ (ok now, w') → since ≤ now

  abbrev pub IsWaiting : ℕ → TradeState → Type 0
  IsWaiting since t =
      (is_finalised t ≡ false)
      × (phase_of t ≡ initiated → since * 1000 ≤ t.start_time * 1000 + env.trade_timeout_ms)

  after_clock :
      (t : TradeState) (now : ℕ) (l l' : Local W)
      → (if timed_out now t.start_time env.trade_timeout_ms
            then set_pb (record t { phase = some abandoned })
            else pure tt)
          l
        ≡ (ok tt, l')
      → phase_of l'.pb ≡ initiated
      → timed_out now t.start_time env.trade_timeout_ms ≡ false
  unfolding set_pb
  after_clock t now l l' e h = elim (Bool-cases (timed_out now t.start_time env.trade_timeout_ms)) [
    | inr within ↦ within
    | inl late ↦
        let over = rw late at e in
        let phase : abandoned ≡ initiated = ap (λ r. phase_of r.1.pb) over ∙ h in cc phase
  ]

  lift-eq-ok :
      {A : Type 0} (m : Exec W A) (l l' : Local W) {a : A}
      → lift m l ≡ (ok a, l')
      → (m l.world ≡ (ok a, l'.world)) × (l'.pb ≡ l.pb)
  unfolding lift
  lift-eq-ok m l l' e = ((λ i. ((e i).0, (e i).1.world)), sym (ap (λ r. r.1.pb) e))

  still_initiated :
      (l l' : Local W)
      → update env l ≡ (ok tt, l')
      → phase_of l'.pb ≡ initiated
      → is_initiated (phase_of l.pb) ≡ true
  still_initiated l l' e h =
      ap is_initiated (initiated_before (update-Evolves env l).1 (ap (λ r. phase_of r.1.pb) e ∙ h))

  update-clock :
      (l l' : Local W)
      → update env l ≡ (ok tt, l')
      → phase_of l'.pb ≡ initiated
      → (w : W) × (now : ℕ) × (env.current_time l.world ≡ (ok now, w))
        × (timed_out now l.pb.start_time env.trade_timeout_ms ≡ false)
  unfolding update get_pb ◌>>=◌
  update-clock l l' e h =
      let asked = rw (still_initiated l l' e h, update) at e in
      let (now, l1, told, e1) =
        >>=-eq-ok (lift env.current_time)
          (λ now.
            if timed_out now l.pb.start_time env.trade_timeout_ms
            then set_pb (record l.pb { phase = some abandoned })
            else pure tt)
          l asked in
      (l1.world, now, (lift-eq-ok env.current_time l l1 told).0, after_clock l.pb now l1 l' e1 h)

  -- A trade that an update leaves, and that is not over, is waiting within its time.
  update-IsWaiting :
      (since : ℕ) (l l' : Local W)
      → IsClock since
      → update env l ≡ (ok tt, l')
      → is_finalised l'.pb ≡ false
      → IsWaiting since l'.pb
  update-IsWaiting since l l' clock e active = (active, within)
    where
      within :
          phase_of l'.pb ≡ initiated → since * 1000 ≤ l'.pb.start_time * 1000 + env.trade_timeout_ms
      within h =
          let (w, now, told, in_time) = update-clock l l' e h in
          let later = clock l.world w now told in
          let same_start : l'.pb.start_time ≡ l.pb.start_time =
            sym (ap (λ r. r.1.pb.start_time) e) ∙ (update-Evolves env l).0.start_time in
          ground (arith, later, in_time, same_start)

  put_swept-All :
      (P : TradeState → Type 0) (account : Text) (t : TradeState) (s : Swept)
      → (is_finalised t ≡ false → P t)
      → All P s.active
      → All P (put_swept account t s).active
  unfolding put_swept
  put_swept-All P account t s one h = elim (Bool-cases (is_finalised t)) [
    | inl over ↦ rw (over, put_swept) h
    | inr active ↦ rw (active, put_swept) (one active, h)
  ]

  sweep_on-All :
      (P : TradeState → Type 0) (account : Text) (r : Outcome (Unit {0})) (l : Local W)
      (ts : List TradeState) (rest : Outcome (Unit {0}) × Swept × W)
      → (r ≡ ok tt → is_finalised l.pb ≡ false → P l.pb)
      → (rest.0 ≡ ok tt → All P rest.1.active)
      → (sweep_on account r l ts rest).0 ≡ ok tt
      → All P (sweep_on account r l ts rest).1.active
  unfolding sweep_on
  sweep_on-All P account (ok _) l ts (r, s, w) one h done =
      put_swept-All P account l.pb s (one refl) (h done)
  sweep_on-All P account rpc_error l ts rest one h done = cc
  sweep_on-All P account fatal l ts rest one h done = cc

  -- What every update establishes of a trade that is not over holds of all that the loop keeps.
  sweep-All :
      (P : TradeState → Type 0)
      → ((l l' : Local W) → update env l ≡ (ok tt, l') → is_finalised l'.pb ≡ false → P l'.pb)
      → (account : Text) (ts : List TradeState) (w : W) → (sweep env account ts w).0 ≡ ok tt
      → All P (sweep env account ts w).1.active
  unfolding sweep
  sweep-All P one account [] w done = tt
  sweep-All P one account (t ∷ ts) w done =
      let l : Local W = record { pb = t; world = w } in
      let r = update env l in
      sweep_on-All P account r.0 r.1 ts (sweep env account ts r.1.world)
        (λ e active. one l r.1 (λ i. (e i, r.1)) active) (sweep-All P one account ts r.1.world) done

  record_sweep-All :
      (P : TradeState → Type 0) (r : Outcome (Unit {0})) (s : Swept) (w : W) (m m' : Manager W)
      {fs : List TradeState}
      → record_sweep (r, s, w) m ≡ (ok fs, m')
      → (r ≡ ok tt → All P s.active)
      → All P m'.node.state.trades
  unfolding record_sweep
  record_sweep-All P (ok _) s w m m' e h = subst (λ p. All P p.1.node.state.trades) e (h refl)
  record_sweep-All P rpc_error s w m m' e h = cc
  record_sweep-All P fatal s w m m' e h = cc

  abbrev with_trades : (TradeState → Type 0) → Framed
  with_trades P = record {
    holds = λ s. All P s.trades;
    framed = λ s s' same h. subst (All P) (sym same.1) h;
  }

  -- After an update of all trades that returns, each trade that the node keeps is not over; and if nobody has
  -- answered it yet, then its time-out has not passed by any time that the clock can no longer be before.
  pub update_and_archive_trades-IsWaiting :
      (since : ℕ) (m m' : Manager W)
      → IsClock since
      → update_and_archive_trades env m ≡ (ok tt, m')
      → All (IsWaiting since) m'.node.state.trades
  unfolding update_and_archive_trades sweep_trades
  update_and_archive_trades-IsWaiting since m m' clock e =
      let account = m.node.state.account in
      let (fs, t, swept, finished) =
        >>=-eq-ok (sweep_trades env) (λ fs. finish_trades env account fs) m e in
      let p = sweep env account m.node.state.trades m.world in
      let kept = record_sweep-All (IsWaiting since) p.0 p.1 p.2 m t swept (
        sweep-All (IsWaiting since) (λ l l' u active. update-IsWaiting since l l' clock u active)
          account m.node.state.trades m.world) in
      (finish_trades-Safe env {F = with_trades (IsWaiting since)} account fs).at t m' tt finished
        kept
