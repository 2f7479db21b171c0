-- ===== src/IntervalJob/Stopping.antt =====
-- The destructor of src/intervaljob.cpp ends, whatever the order of the threads' steps.
use democrit.Base.{
  ℕ, ◌+◌, ◌≤◌, ◌≡◌, ◌≢◌, ◌⊎◌, refl, sym, ap, ◌∙◌, inl, inr, true, false, if◌then◌else◌, arith,
}
use mathlib.Core.Path.{subst}
use democrit.IntervalJob.{
  Worker, starting, running, waiting, done, alive, joining, gone, IntervalJob, start_worker,
  loop_test, Step, starts, waits, wakes, stops, joins, Run, here, next,
}

-- Before the destructor nothing is stopped, and from there on the job does not run.
data IsReached (j : IntervalJob) : Type 0 where
  lives : j.owner ≡ alive → j.stop ≡ false → IsReached j
  ends : j.owner ≢ alive → j.stop ≡ true → j.worker ≢ running → IsReached j

-- So many steps are left at most.
data Ending : ℕ → IntervalJob → Type 0 where
  unstarted :
      {j : IntervalJob} → j.stop ≡ true → j.owner ≡ joining → j.worker ≡ starting → Ending 2 j
  asleep : {j : IntervalJob} → j.stop ≡ true → j.owner ≡ joining → j.worker ≡ waiting → Ending 2 j
  finished : {j : IntervalJob} → j.stop ≡ true → j.owner ≡ joining → j.worker ≡ done → Ending 1 j
  over : {j : IntervalJob} → j.owner ≡ gone → j.worker ≡ done → Ending 0 j

joining-not-alive : joining ≢ alive
joining-not-alive e = cc e

gone-not-alive : gone ≢ alive
gone-not-alive e = cc e

done-not-running : done ≢ running
done-not-running e = cc e

loop_test-stopped : (j : IntervalJob) → j.stop ≡ true → loop_test j ≡ record j { worker = done }
loop_test-stopped j stop =
    ap
      (λ b.
        if b then record j { worker = done } else record j { worker = running; runs = j.runs + 1 })
      stop

loop_test-lives :
    (j : IntervalJob)
    → j.stop ≡ false
    → loop_test j ≡ record j { worker = running; runs = j.runs + 1 }
loop_test-lives j stop =
    ap
      (λ b.
        if b then record j { worker = done } else record j { worker = running; runs = j.runs + 1 })
      stop

test-lives : (j : IntervalJob) → j.owner ≡ alive → j.stop ≡ false → IsReached (loop_test j)
test-lives j owner stop = subst IsReached (sym (loop_test-lives j stop)) (lives owner stop)

test-ends : (j : IntervalJob) → j.owner ≢ alive → j.stop ≡ true → IsReached (loop_test j)
test-ends j owner stop =
    subst IsReached (sym (loop_test-stopped j stop)) (ends owner stop done-not-running)

Step-IsReached : {j k : IntervalJob} → IsReached j → Step j k → IsReached k
Step-IsReached {j} (lives owner stop) (starts e) = test-lives j owner stop
Step-IsReached (lives owner stop) (waits e) = lives owner stop
Step-IsReached {j} (lives owner stop) (wakes e) = test-lives j owner stop
Step-IsReached (lives owner stop) (stops a idle) = ends joining-not-alive refl idle
Step-IsReached (lives owner stop) (joins e d) = absurd (joining-not-alive (sym e ∙ owner))
Step-IsReached {j} (ends owner stop idle) (starts e) = test-ends j owner stop
Step-IsReached (ends owner stop idle) (waits e) = absurd (idle e)
Step-IsReached {j} (ends owner stop idle) (wakes e) = test-ends j owner stop
Step-IsReached (ends owner stop idle) (stops a _) = absurd (owner a)
Step-IsReached (ends owner stop idle) (joins e d) = ends gone-not-alive stop idle

Run-IsReached : {n : ℕ} {j k : IntervalJob} → Run n j k → IsReached j → IsReached k
Run-IsReached here h = h
Run-IsReached (next step rest) h = Run-IsReached rest (Step-IsReached h step)

-- What is left once the destructor has set `stop`.
reached-Ending :
    (j : IntervalJob) → IsReached j → j.owner ≡ joining → (b : ℕ) × (b ≤ 2) × Ending b j
reached-Ending j (lives owner stop) e = absurd (joining-not-alive (sym e ∙ owner))
reached-Ending j (ends owner stop idle) e = by_worker j.worker refl
  where
    by_worker : (w : Worker) → j.worker ≡ w → (b : ℕ) × (b ≤ 2) × Ending b j
    by_worker starting w = (2, omega arith, unstarted stop e w)
    by_worker running w = absurd (idle w)
    by_worker waiting w = (2, omega arith, asleep stop e w)
    by_worker done w = (1, omega arith, finished stop e w)

-- A step uses one of those that are left, and runs no job.
abbrev Spent : ℕ → IntervalJob → IntervalJob → Type 0
Spent b j k = (left : ℕ) × (b ≡ left + 1) × Ending left k × (k.runs ≡ j.runs)

test-Spent : (j : IntervalJob) → j.stop ≡ true → j.owner ≡ joining → Spent 2 j (loop_test j)
test-Spent j stop owner =
    subst (λ k. Spent 2 j k) (sym (loop_test-stopped j stop))
      (1, omega arith, finished stop owner refl, refl)

Step-Spent : {b : ℕ} {j k : IntervalJob} → Ending b j → Step j k → Spent b j k
Step-Spent {j = j} (unstarted stop o w) (starts e) = test-Spent j stop o
Step-Spent (unstarted stop o w) (waits e) = absurd (cc (w, e))
Step-Spent (unstarted stop o w) (wakes e) = absurd (cc (w, e))
Step-Spent (unstarted stop o w) (stops a _) = absurd (cc (o, a))
Step-Spent (unstarted stop o w) (joins _ d) = absurd (cc (w, d))
Step-Spent (asleep stop o w) (starts e) = absurd (cc (w, e))
Step-Spent (asleep stop o w) (waits e) = absurd (cc (w, e))
Step-Spent {j = j} (asleep stop o w) (wakes e) = test-Spent j stop o
Step-Spent (asleep stop o w) (stops a _) = absurd (cc (o, a))
Step-Spent (asleep stop o w) (joins _ d) = absurd (cc (w, d))
Step-Spent (finished stop o w) (starts e) = absurd (cc (w, e))
Step-Spent (finished stop o w) (waits e) = absurd (cc (w, e))
Step-Spent (finished stop o w) (wakes e) = absurd (cc (w, e))
Step-Spent (finished stop o w) (stops a _) = absurd (cc (o, a))
Step-Spent (finished stop o w) (joins _ d) = (0, omega arith, over refl w, refl)
Step-Spent (over o w) (starts e) = absurd (cc (w, e))
Step-Spent (over o w) (waits e) = absurd (cc (w, e))
Step-Spent (over o w) (wakes e) = absurd (cc (w, e))
Step-Spent (over o w) (stops a _) = absurd (cc (o, a))
Step-Spent (over o w) (joins e _) = absurd (cc (o, e))

Run-Ending :
    {m : ℕ} {j k : IntervalJob}
    → Run m j k
    → (b : ℕ) → Ending b j
    → (left : ℕ) × (b ≡ left + m) × Ending left k × (k.runs ≡ j.runs)
Run-Ending here b h = (b, omega arith, h, refl)
Run-Ending (next step rest) b h =
    let (left, one, after, same) = Step-Spent h step in
    let (last, more, end, runs) = Run-Ending rest left after in
    (last, omega (arith, one, more), end, runs ∙ same)

next_step :
    {b : ℕ} {j : IntervalJob} → Ending b j → (j.owner ≡ gone) ⊎ ((k : IntervalJob) × Step j k)
next_step (unstarted stop o w) = inr (_, starts w)
next_step (asleep stop o w) = inr (_, wakes w)
next_step (finished stop o w) = inr (_, joins o w)
next_step (over o w) = inl o

-- Once the destructor has set `stop`, after any steps of a new job: however the threads go on, they
-- take two steps at most, the job does not run again, and some step is possible until the destructor has
-- returned. So the destructor always ends, if the job that it waits for has ended.
pub Run-stops :
    (n m : ℕ) (j k : IntervalJob)
    → Run n start_worker j
    → j.owner ≡ joining
    → Run m j k
    → (m ≤ 2) × (k.runs ≡ j.runs) × ((k.owner ≡ gone) ⊎ ((l : IntervalJob) × Step k l))
Run-stops n m j k before owner after =
    let (b, few, ending) = reached-Ending j (Run-IsReached before (lives refl refl)) owner in
    let (left, spent, end, runs) = Run-Ending after b ending in
    (omega (arith, few, spent), runs, next_step end)
