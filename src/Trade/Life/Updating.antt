-- ===== src/Trade/Life/Updating.antt =====
-- What `update` leaves of a trade, however it ends.
use democrit.Base.{
  ℕ, ◌≡◌, inl, inr, refl, Bool, true, false, not, Option, none, some, str_eq, codes, leb, ◌+◌,
  Bool-cases,
}
use democrit.Proto.{
  pending, success, failed, abandoned, TradeState, phase_of, is_initiated, is_pending,
}
use democrit.Env.{Env}
use democrit.Trade.Update.{still_conflicted, note_conflict, update_pending, update, timed_out}
use democrit.Trade.Wallet.{Local}
use democrit.Trade.Steps.{
  Leaves, Leaves-pure, Leaves-lift, Leaves-bind-or_die, Leaves-get, Leaves-if, Leaves-set,
}
use democrit.Trade.Life.{
  Evolves, Works-refl, Works-Evolves, phase_change, conflict_change, times_out, confirms, fails,
  is_initiated-true, is_pending-true,
}

module _ {W : Type 0} (env : Env W) where
  still_conflicted-Evolves :
      (t : TradeState) (height : ℕ) (found : Option ℕ)
      → phase_of t ≡ pending
      → Evolves t (still_conflicted env t height found)
  unfolding still_conflicted
  still_conflicted-Evolves t height none waiting = conflict_change t (some height)
  still_conflicted-Evolves t height (some since) waiting =
      elim (Bool-cases (leb (since + env.confirmations) (height + 1))) [
        | inl deep ↦ rw deep (phase_change t (some failed), fails waiting refl)
        | inr shallow ↦ rw shallow (Works-Evolves t t (Works-refl t))
      ]

  note_conflict-Evolves :
      (t : TradeState) (height : ℕ) (conflicted : Bool)
      → phase_of t ≡ pending
      → Evolves t (note_conflict env t height conflicted)
  unfolding note_conflict
  note_conflict-Evolves t height true waiting =
      still_conflicted-Evolves t height t.conflict_height waiting
  note_conflict-Evolves t height false waiting = conflict_change t none

  update_pending-Evolves :
      (t : TradeState) → phase_of t ≡ pending → Leaves Evolves t (update_pending env t)
  unfolding update_pending
  update_pending-Evolves t waiting =
      let rest = Works-Evolves t t (Works-refl t) in
      Leaves-bind-or_die rest _ _ λ psbt _. Leaves-lift rest _ _ λ decoded.
        Leaves-bind-or_die rest _ _ λ tx _. Leaves-bind-or_die rest _ _ λ btxid _.
          Leaves-lift rest _ _ λ answer. Leaves-bind-or_die rest _ _ λ c _.
            Leaves-bind-or_die rest _ _ λ deep _.
              Leaves-if deep _ _
                (λ _. Leaves-set _ (phase_change t (some success), confirms waiting refl))
                (λ _.
                  Leaves-if (not (str_eq c.gsp_state (codes "unknown"))) _ _
                    (λ _. Leaves-set _ (conflict_change t none))
                    λ _. Leaves-bind-or_die rest _ _ λ vin _. Leaves-lift rest _ _ λ conflicted.
                      Leaves-set _ (note_conflict-Evolves t c.height conflicted waiting))

  update-Leaves : (t : TradeState) → Leaves Evolves t (update env)
  unfolding update
  update-Leaves t =
      let rest = Works-Evolves t t (Works-refl t) in
      Leaves-get _ (
        Leaves-if (is_initiated (phase_of t)) _ _
          (λ begun. Leaves-lift rest _ _ λ now.
            Leaves-if (timed_out now t.start_time env.trade_timeout_ms) _ _
              (λ _. Leaves-set _ (
                phase_change t (some abandoned),
                times_out (is_initiated-true (phase_of t) begun) refl,
              ))
              (λ _. Leaves-pure tt rest))
          (λ _.
            Leaves-if (is_pending (phase_of t)) _ _
              (λ waiting. update_pending-Evolves t (is_pending-true (phase_of t) waiting))
              (λ _. Leaves-pure tt rest)))

  -- Whatever the wallet and the node answer, and however `Update` ends: what identifies the trade and
  -- the messages' data are kept, and the phase stays or changes along an edge of `Edge`.
  pub update-Evolves : (l : Local W) → Evolves l.pb (update env l).1.pb
  update-Evolves l = (update-Leaves l.pb).at l refl
