-- ===== src/Worker/Runtime/History.antt =====
-- What becomes of the calls that the main loop gives to the pool of threads.
use allgres.Base.{Option, ℕ, ◌+◌, Bool, List, [], ◌∷◌, ◌++◌, ◌≡◌, ap, arith, if◌then◌else◌}
use allgres.Bytes.{Bytes}
use allgres.Json.{Json}
use allgres.Worker.Session.{Database}
use allgres.Worker.Outbox.{OutboundQueue, OutboundJob, OutboundResult}
use allgres.Worker.Outbox.Limits.{RespectsLimits}
use allgres.Worker.Runtime.{start}
use allgres.Worker.Runtime.Pool.{
  Pool, Step, takes, finishes, dies, goes_round, Reachable, starts, goes_on, IsAccounted,
  reachable-IsAccounted, result_for,
}

-- How many jobs, and how many results, are of a call that is asked for.
abbrev pub jobs_of : (Bytes → OutboundQueue → Bool) → List OutboundJob → ℕ
jobs_of which [] = 0
jobs_of which (j ∷ js) = (if which j.call_id j.queue then 1 else 0) + jobs_of which js

abbrev pub results_of : (Bytes → OutboundQueue → Bool) → List OutboundResult → ℕ
results_of which [] = 0
results_of which (r ∷ rs) = (if which r.call_id r.queue then 1 else 0) + results_of which rs

jobs_of-append :
    (which : Bytes → OutboundQueue → Bool) (xs ys : List OutboundJob)
    → jobs_of which (xs ++ ys) ≡ jobs_of which xs + jobs_of which ys
jobs_of-append which [] ys = omega arith
jobs_of-append which (x ∷ xs) ys = omega (arith, jobs_of-append which xs ys)

results_of-append :
    (which : Bytes → OutboundQueue → Bool) (xs ys : List OutboundResult)
    → results_of which (xs ++ ys) ≡ results_of which xs + results_of which ys
results_of-append which [] ys = omega arith
results_of-append which (x ∷ xs) ys = omega (arith, results_of-append which xs ys)

module _ {db : Database} {disabled : Bool} {print : Json → Bytes} {parses : Bytes → Bool}
    {to_i64 : Bytes → Option ℕ} where
  -- The calls that a step gives to the pool, the results that it takes back, and the jobs that die.
  abbrev given_in : {p q : Pool} → Step db disabled print parses to_i64 p q → List OutboundJob
  given_in (takes job rest e l) = []
  given_in (finishes job before after status body e) = []
  given_in (dies job before after e) = []
  given_in (goes_round s s' i r e same_results t) = e.sent

  abbrev back_in : {p q : Pool} → Step db disabled print parses to_i64 p q → List OutboundResult
  back_in (takes job rest e l) = []
  back_in (finishes job before after status body e) = []
  back_in (dies job before after e) = []
  back_in (goes_round s s' i r e same_results t) = i.results

  abbrev lost_in : {p q : Pool} → Step db disabled print parses to_i64 p q → List OutboundJob
  lost_in (takes job rest e l) = []
  lost_in (finishes job before after status body e) = []
  lost_in (dies job before after e) = job ∷ []
  lost_in (goes_round s s' i r e same_results t) = []

module _ (db : Database) (disabled : Bool) (print : Json → Bytes) (parses : Bytes → Bool)
    (to_i64 : Bytes → Option ℕ) where
  -- All steps up to a pool, with the calls given to it, the results taken back, and the jobs lost.
  pub data History : Pool → List OutboundJob → List OutboundResult → List OutboundJob → Type 0 where
    begins :
        (now : ℕ)
        → History
            (record { runtime = start now; jobs = []; at_work = []; results = []; died = 0 })
            []
            []
            []
    moves :
        (p q : Pool) (given : List OutboundJob) (back : List OutboundResult)
        (lost : List OutboundJob)
        → History p given back lost
        → (st : Step db disabled print parses to_i64 p q)
        → History q (given ++ given_in st) (back ++ back_in st) (lost ++ lost_in st)

  History-Reachable :
      (p : Pool) (given : List OutboundJob) (back : List OutboundResult) (lost : List OutboundJob)
      → History p given back lost
      → Reachable db disabled print parses to_i64 p
  History-Reachable p _ _ _ (begins now) = starts now
  History-Reachable q _ _ _ (moves p _ given back lost h st) =
      goes_on p q (History-Reachable p given back lost h) st

-- As often as a call was given to the pool it waits, is worked on, has a result that waits or was
-- taken back, or was lost with its thread.
abbrev pub Kept :
    (Bytes → OutboundQueue → Bool)
    → Pool
    → List OutboundJob
    → List OutboundResult
    → List OutboundJob
    → Type 0
Kept which p given back lost =
    jobs_of which given
    ≡ jobs_of which p.jobs
      + jobs_of which p.at_work
      + results_of which p.results
      + results_of which back
      + jobs_of which lost

module _ {db : Database} {disabled : Bool} {print : Json → Bytes} {parses : Bytes → Bool}
    {to_i64 : Bytes → Option ℕ} (which : Bytes → OutboundQueue → Bool) where
  Step-Kept :
      (p q : Pool) (given : List OutboundJob) (back : List OutboundResult) (lost : List OutboundJob)
      (st : Step db disabled print parses to_i64 p q)
      → Kept which p given back lost
      → Kept which q (given ++ given_in st) (back ++ back_in st) (lost ++ lost_in st)
  Step-Kept p q given back lost (takes job rest e l) k = omega (
    arith,
    k,
    ap (jobs_of which) e,
    jobs_of-append which given [],
    results_of-append which back [],
    jobs_of-append which lost [],
  )
  Step-Kept p q given back lost (finishes job before after status body e) k = omega (
    arith,
    k,
    ap (jobs_of which) e,
    jobs_of-append which before (job ∷ after),
    jobs_of-append which before after,
    results_of-append which p.results (result_for job status body ∷ []),
    jobs_of-append which given [],
    results_of-append which back [],
    jobs_of-append which lost [],
  )
  Step-Kept p q given back lost (dies job before after e) k = omega (
    arith,
    k,
    ap (jobs_of which) e,
    jobs_of-append which before (job ∷ after),
    jobs_of-append which before after,
    jobs_of-append which given [],
    results_of-append which back [],
    jobs_of-append which lost (job ∷ []),
  )
  Step-Kept p q given back lost (goes_round s s' i r e same_results t) k = omega (
    arith,
    k,
    ap (results_of which) same_results,
    jobs_of-append which given e.sent,
    jobs_of-append which p.jobs e.sent,
    results_of-append which back i.results,
    jobs_of-append which lost [],
  )

  History-Kept :
      (p : Pool) (given : List OutboundJob) (back : List OutboundResult) (lost : List OutboundJob)
      → History db disabled print parses to_i64 p given back lost
      → Kept which p given back lost
  History-Kept p _ _ _ (begins now) = omega arith
  History-Kept q _ _ _ (moves p _ given back lost h st) =
      Step-Kept p q given back lost st (History-Kept p given back lost h)

-- No call is lost, doubled or mixed up with another between the main loop and the threads, whatever
-- they and the database do, as long as the database claims no more calls than it is asked for: by
-- id and queue, a call has been given to the pool as often as it waits there, is worked on, has a
-- result that waits or has been taken back, or has been lost with its thread. At most 8 calls are in
-- flight, and their count is that of the jobs and the results on their way and of the threads lost.
pub History-IsAccounted :
    (db : Database) (disabled : Bool) (print : Json → Bytes) (parses : Bytes → Bool)
    (to_i64 : Bytes → Option ℕ) (which : Bytes → OutboundQueue → Bool) (p : Pool)
    (given : List OutboundJob) (back : List OutboundResult) (lost : List OutboundJob)
    → RespectsLimits db
    → History db disabled print parses to_i64 p given back lost
    → Kept which p given back lost × IsAccounted p
History-IsAccounted db disabled print parses to_i64 which p given back lost respects h = (
  History-Kept which p given back lost h,
  reachable-IsAccounted db respects disabled print parses to_i64 p
      (History-Reachable db disabled print parses to_i64 p given back lost h),
)
