-- ===== src/RpcServer/Loop.antt =====
-- src/rpcserver.cpp, `RpcServer::Run` and `RpcServer::stop`: the thread that runs the server waits with the mutex
-- given up, and may wake at any time; `stop` comes from a thread of the server while it listens.
use democrit.Base.{◌≡◌, ◌⊎◌, inl, inr, refl, sym, ap, Bool, true, false, if◌then◌else◌}
use mathlib.Core.Path.{subst}

-- The thread before the call, in the wait, and after it.
pub data Runner : Type 0 where
  idle waiting returned : Runner

pub record Server : Type 0 where
  pub runner : Runner
  pub listening : Bool
  pub should_stop : Bool

-- `while (!shouldStop)`, and what follows the loop.
abbrev pub wake : Server → Server
wake s = if s.should_stop then record s { runner = returned; listening = false } else s

pub data ServerStep : Server → Server → Type 0 where
  starts :
      {s : Server}
      → s.runner ≡ idle
      → ServerStep s (record { runner = waiting; listening = true; should_stop = false })
  wakes : {s : Server} → s.runner ≡ waiting → ServerStep s (wake s)
  stops : {s : Server} → s.listening ≡ true → ServerStep s (record s { should_stop = true })

-- The server listens just while its thread waits.
abbrev Listens : Server → Type 0
Listens s = (s.runner ≡ waiting → s.listening ≡ true) × (s.listening ≡ true → s.runner ≡ waiting)

wake-Listens : (stop : Bool) (s : Server) → s.should_stop ≡ stop → Listens s → Listens (wake s)
wake-Listens true s e h =
    subst Listens
      (sym (ap (λ b. if b then record s { runner = returned; listening = false } else s) e))
      ((λ k. cc k), (λ k. cc k))
wake-Listens false s e h =
    subst Listens
      (sym (ap (λ b. if b then record s { runner = returned; listening = false } else s) e)) h

ServerStep-Listens : {s t : Server} → ServerStep s t → Listens s → Listens t
ServerStep-Listens (starts e) h = ((λ _. refl), (λ _. refl))
ServerStep-Listens {s = s} (wakes e) h = wake-Listens s.should_stop s refl h
ServerStep-Listens (stops e) h = h

-- After `stop`, no step but the wake-up changes the server, and with that the call returns.
stopped-step :
    (s t : Server)
    → s.runner ≡ waiting
    → s.should_stop ≡ true
    → ServerStep s t
    → (t.runner ≡ returned) ⊎ (t ≡ s)
stopped-step s t waits stop (starts e) = absurd (cc (waits, e))
stopped-step s t waits stop (wakes e) =
    inl (ap (λ b. (if b then record s { runner = returned; listening = false } else s).runner) stop)
stopped-step s t waits stop (stops e) = inr (ap (λ b. record s { should_stop = b }) (sym stop))
