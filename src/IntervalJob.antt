-- ===== src/IntervalJob.antt =====
-- src/intervaljob.cpp and src/private/intervaljob.hpp: the thread that runs a job periodically, and the
-- destructor that stops it. The steps of the two threads interleave; the worker has the mutex while it runs
-- the job, and gives it up in `wait_for`, which may end at any time. `runs` counts the calls of the job.
pub mod Stopping
use democrit.Base.{ℕ, ◌+◌, ◌≡◌, ◌≢◌, Bool, true, false, if◌then◌else◌}

pub data Worker : Type 0 where
  starting running waiting done : Worker

-- The thread that owns the job: it lets it be, has set `stop` and waits for the worker, or has gone on.
pub data Owner : Type 0 where
  alive joining gone : Owner

pub record IntervalJob : Type 0 where
  pub worker : Worker
  pub stop : Bool
  pub owner : Owner
  pub runs : ℕ

-- `StartWorker`
abbrev pub start_worker : IntervalJob
start_worker = record { worker = starting; stop = false; owner = alive; runs = 0 }

-- `while (!stop) job ();`, of the worker with the mutex.
abbrev pub loop_test : IntervalJob → IntervalJob
loop_test j =
    if j.stop then record j { worker = done } else record j { worker = running; runs = j.runs + 1 }

pub data Step : IntervalJob → IntervalJob → Type 0 where
  starts : {j : IntervalJob} → j.worker ≡ starting → Step j (loop_test j)
  waits : {j : IntervalJob} → j.worker ≡ running → Step j (record j { worker = waiting })
  wakes : {j : IntervalJob} → j.worker ≡ waiting → Step j (loop_test j)
  -- The destructor, which needs the mutex; the second step is the end of `join`.
  stops :
      {j : IntervalJob}
      → j.owner ≡ alive
      → j.worker ≢ running
      → Step j (record j { stop = true; owner = joining })
  joins :
      {j : IntervalJob} → j.owner ≡ joining → j.worker ≡ done → Step j (record j { owner = gone })

-- Some steps after each other.
pub data Run : ℕ → IntervalJob → IntervalJob → Type 0 where
  here : {j : IntervalJob} → Run 0 j j
  next : {n : ℕ} {j k l : IntervalJob} → Step j k → Run n k l → Run (n + 1) j l
