-- ===== src/Tests/Jobs.antt =====
-- A job of src/intervaljob.cpp that runs once, and is stopped while the worker waits.
use democrit.Base.{◌≡◌, ◌≢◌, ◌≤◌, ◌⊎◌, refl, true}
use democrit.IntervalJob.{
  IntervalJob, waiting, running, done, joining, gone, start_worker, Step, starts, waits, wakes,
  stops, joins, Run, here, next,
}
use democrit.IntervalJob.Stopping.{Run-stops}

abbrev stopped : IntervalJob
stopped = record { worker = waiting; stop = true; owner = joining; runs = 1 }

abbrev joined : IntervalJob
joined = record { worker = done; stop = true; owner = gone; runs = 1 }

waiting-not-running : waiting ≢ running
waiting-not-running e = cc e

runs_once : Run 3 start_worker stopped
runs_once = next (starts refl) (next (waits refl) (next (stops refl waiting-not-running) here))

goes_on : Run 2 stopped joined
goes_on = next (wakes refl) (next (joins refl refl) here)

Run-stops_example :
    (2 ≤ 2)
    × (joined.runs ≡ stopped.runs)
    × ((joined.owner ≡ gone) ⊎ ((l : IntervalJob) × Step joined l))
Run-stops_example = Run-stops 3 2 stopped joined runs_once refl goes_on
