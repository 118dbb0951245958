-- ===== src/Worker/Pumps/Completed.antt =====
-- What the pumps claim is run and handed back, job after job.
use Prim.Native.String.{String}
use allgres.Base.{
  ℕ, Bool, true, false, List, [], ◌∷◌, ◌≡◌, refl, ap, ◌∙◌, if◌then◌else◌, length, Bool-cases, inl,
  inr,
}
use allgres.Bytes.{Bytes, lit}
use allgres.Json.{Json, Items, nil, cons}
use allgres.Worker.Session.{Arg, Database, Session, Outcome, returns, unwinds, Result, Exec, next}
use allgres.Worker.Claims.{submit_with}
use allgres.Worker.Execute.Returns.{Returned, Returned-returns}
use allgres.Worker.Pumps.{jobs_in, run_jobs, pump, run_and_submit, skip}
use allgres.Worker.Claims.Handed.{is_completion, TakesResults, handed_back, submit_with-handed_back}

-- The jobs of a claim that are run and not skipped.
abbrev pub runnable : (Json → Bool) → Items → List Json
runnable p nil = []
runnable p (cons job jobs) = if p job then job ∷ runnable p jobs else runnable p jobs

-- From one session to another, each job is run, and what it comes to is handed back before the
-- next one is.
pub data Completed (run : Json → Exec (Result Json)) (sql : Bytes)
    (told : Json → Result Json → List Arg) : List Json → Session → Session → Type 0 where
  none_left : (s : Session) → Completed run sql told [] s s
  handed :
      (job : Json) (jobs : List Json) (o : Result Json) (s ran done : Session)
      → run job s ≡ (ran, returns o)
      → Completed run sql told jobs (handed_back sql (told job o) ran) done
      → Completed run sql told (job ∷ jobs) s done

-- What a pump comes to, by what its claim does: an ERROR of the claim is the pump's, and of the jobs
-- that it claims the pump completes all that can be run, and gives their number.
abbrev pub PumpsAll :
    (Json → Bool)
    → (Json → Exec (Result Json))
    → String
    → (Json → Result Json → List Arg)
    → String
    → Session × Outcome Json
    → Session × Outcome ℕ
    → Type 0
PumpsAll p run sql told key (s, unwinds e) pumped = pumped ≡ (s, unwinds e)
PumpsAll p run sql told key (s, returns claimed) pumped =
    (done : Session) × (pumped ≡ (done, returns (length (runnable p (jobs_in key claimed)))))
    × Completed run (lit sql) told (runnable p (jobs_in key claimed)) s done

-- How a pump treats a job: it runs it and hands back what it comes to, or skips it.
pub record Treats (db : Database) (one : Json → Exec Bool) (p : Json → Bool)
    (run : Json → Exec (Result Json)) (submit : Json → Result Json → Exec Unit) (sql : String)
    (told : Json → Result Json → List Arg) : Type 0 where
  pub treats :
      (job : Json) → one job ≡ (if p job then run_and_submit (run job) (submit job) else skip)
  pub comes_back : (job : Json) → Returned db (run job)
  pub tells : (job : Json) (o : Result Json) → submit job o ≡ submit_with db false sql (told job o)
  pub known : is_completion (lit sql) ≡ true

module _ {db : Database} (d : TakesResults db) {sql : String} {told : Json → Result Json → List Arg}
    {one : Json → Exec Bool} {p : Json → Bool} {run : Json → Exec (Result Json)}
    {submit : Json → Result Json → Exec Unit} (t : Treats db one p run submit sql told) where
  submit-handed_back :
      (job : Json) (o : Result Json) (s : Session)
      → submit job o s ≡ (handed_back (lit sql) (told job o) s, returns tt)
  submit-handed_back job o s =
      ap (λ m. m s) (t.tells job o) ∙ submit_with-handed_back db d sql (told job o) s t.known

  run_jobs-Completed :
      (jobs : Items) (s : Session)
      → (done : Session) × (run_jobs one jobs s ≡ (done, returns (length (runnable p jobs))))
        × Completed run (lit sql) told (runnable p jobs) s done
  unfolding run_jobs run_and_submit
  run_jobs-Completed nil s = (s, refl, none_left s)
  run_jobs-Completed (cons job jobs) s = elim (Bool-cases (p job)) [
    | inl e ↦
        let (ran, (o, r)) = Returned-returns db d.commits (t.comes_back job) s in
        let (done, q, c) = run_jobs-Completed jobs (handed_back (lit sql) (told job o) ran) in
        rw e (
          done,
          rw (t.treats job, e, r, submit-handed_back job o ran, q) refl,
          handed job (runnable p jobs) o s ran done r c,
        )
    | inr e ↦
        let (done, q, c) = run_jobs-Completed jobs s in rw e (done, rw (t.treats job, e, q) refl, c)
  ]

  by_claim :
      (key : String) (o : Session × Outcome Json)
      → PumpsAll p run sql told key o (next (λ claimed. run_jobs one (jobs_in key claimed)) o)
  by_claim key (s, unwinds e) = refl
  by_claim key (s, returns claimed) = run_jobs-Completed (jobs_in key claimed) s

  pub pump-PumpsAll :
      (claim : Exec Json) (key : String) (s : Session)
      → PumpsAll p run sql told key (claim s) (pump claim key one s)
  unfolding pump
  pump-PumpsAll claim key s = by_claim key (claim s)
