-- ===== src/Daemon/Scheduler/History.antt =====
-- The history of src/lumina/daemon/scheduler.py under runs that interleave with each other and with reviews.
use mathlib.Core.Path.{subst}
use mathlib.Core.Bool.{false≢true}
use lumina_framework.Base.{
  All, ℕ, ◌≤◌, String, true, Option, none, some, List, [], ◌∷◌, ◌++◌, Result, ok, err, ◌≡◌, ◌≢◌,
  ◌↔◌, refl, sym, ap, ◌∙◌, arith, eq_refl, eq_iff, Bool-cases, Result-cases, inl, inr, length,
  length-take, ltb, ok-injective, ok-ne-err,
}
use lumina_framework.Base.Select.{find, some_injective}
use lumina_framework.Daemon.Report.{TaskResult, DaemonReport, all_succeeded, finish, is_decision}
use lumina_framework.Daemon.Scheduler.{Domain, Config, Scheduler, Env, max_history, max_duration}
use lumina_framework.Daemon.Scheduler.Batch.{loaded, load_domains, batch}
use lumina_framework.Daemon.Scheduler.Execute.{
  shorten, release_run, conclude, execute_when, execute, report_in, get_report,
}
use lumina_framework.Daemon.Scheduler.Review.{resolve_proposal}
use lumina_framework.Daemon.Scheduler.Flat.{length-resolve_in_runs}

failed_ne_completed : ◌≢◌ {A = String} "failed" "completed"
failed_ne_completed h = false≢true ((eq_iff "failed" "completed").1 h)

err_same : {A : Type 0} {a b : String} → ◌≡◌ {A = Result String A} (err a) (err b) → a ≡ b
err_same h = cc

module _ {J : Type 0} where
  -- The schedulers that calls reach: a run that starts has found none in progress, it records results in its
  -- report, and it ends with a report of its own; reviews fall between these steps.
  pub data Reached : Scheduler J → Type 0 where
    created : (c : Config) → Reached (record { config = c; runs = []; current_run = none })
    started :
        {s : Scheduler J} (report : DaemonReport J)
        → Reached s
        → s.current_run ≡ none
        → Reached (record s { current_run = some report })
    recorded :
        {s : Scheduler J} (report : DaemonReport J) (results : List (TaskResult J))
        → Reached s
        → s.current_run ≡ some report
        → Reached (record s { current_run = some (record report { task_results = results }) })
    released :
        {s : Scheduler J} (report done : DaemonReport J)
        → Reached s
        → s.current_run ≡ some report
        → Reached (release_run done s)
    reviewed :
        {s : Scheduler J} (id action : String) (domain_id : Option String)
        → Reached s
        → Reached (resolve_proposal id action domain_id s).0

  length-shorten : (rs : List (DaemonReport J)) → length (shorten rs) ≤ max_history
  unfolding shorten
  length-shorten rs = ground (arith, length-take max_history rs)

  length-resolve_proposal :
      (id action : String) (d : Option String) (s : Scheduler J)
      → length (resolve_proposal id action d s).0.runs ≡ length s.runs
  unfolding resolve_proposal
  length-resolve_proposal id action d s = elim (Bool-cases (is_decision action)) [
    | inl t ↦ rw t (length-resolve_in_runs id action d s.runs)
    | inr t ↦ rw t
  ]

  -- However runs and reviews interleave, the history holds at most 50 reports.
  pub Reached-length : {s : Scheduler J} → Reached s → length s.runs ≤ max_history
  unfolding release_run
  Reached-length (created c) = omega arith
  Reached-length (started report r idle) = Reached-length r
  Reached-length (recorded report results r e) = Reached-length r
  Reached-length (released {s} report done r e) = length-shorten (done ∷ s.runs)
  Reached-length (reviewed {s} id action d r) =
      ground (arith, length-resolve_proposal id action d s, Reached-length r)

  -- An execution is a start, whose results are recorded at once, and a release; one that finds a run in
  -- progress is no step.
  conclude-Reached :
      (env : Env J) (report : DaemonReport J) {s : Scheduler J}
      (r : Result String (List (TaskResult J)))
      → Reached s
      → s.current_run ≡ some report
      → Reached (conclude env report s r).0
  unfolding conclude
  conclude-Reached env report (err e) reached e' = released report report reached e'
  conclude-Reached env report (ok results) reached e' = released report _ reached e'

  execute_when-Reached :
      (o : Option (DaemonReport J)) (env : Env J) (report : DaemonReport J) (names : List String)
      (ids : Option (List String)) {s : Scheduler J}
      → s.current_run ≡ o
      → Reached s
      → Reached (execute_when o env report names ids s).0
  unfolding execute_when
  execute_when-Reached none env report names ids {s} e r =
      conclude-Reached env report (batch env (max_duration s) names ids) (started report r e) refl
  execute_when-Reached (some x) env report names ids e r = r

  pub execute-Reached :
      (env : Env J) (report : DaemonReport J) (names : List String) (ids : Option (List String))
      {s : Scheduler J}
      → Reached s
      → Reached (execute env report names ids s).0
  unfolding execute
  execute-Reached env report names ids {s} r =
      execute_when-Reached s.current_run env report names ids refl r

  -- Where a run is in progress, an execution of a report without results changes nothing and returns a report
  -- without results that says "completed".
  pub execute_busy :
      (env : Env J) (report : DaemonReport J) (names : List String) (ids : Option (List String))
      (s : Scheduler J) {r : DaemonReport J}
      → s.current_run ≡ some r
      → report.task_results ≡ []
      → (done : DaemonReport J) × (execute env report names ids s ≡ (s, ok done))
        × (done.task_results ≡ [])
        × (done.status ≡ "completed")
  unfolding execute execute_when finish all_succeeded
  execute_busy env report names ids s busy empty =
      (finish env.finished_at (record report { status = "failed" }), rw busy, empty, rw empty)

  execute_idle :
      (env : Env J) (report : DaemonReport J) (names : List String) (ids : Option (List String))
      (s : Scheduler J)
      → s.current_run ≡ none
      → execute env report names ids s
        ≡ conclude env report
            (record s { current_run = some report })
            (batch env (max_duration s) names ids)
  unfolding execute execute_when
  execute_idle env report names ids s idle = ap (λ o. execute_when o env report names ids s) idle

  find_newest :
      (done : DaemonReport J) (s : Scheduler J)
      → get_report done.run_id (release_run done s) ≡ some done
  unfolding get_report report_in release_run shorten find
  find_newest done s = elim (Bool-cases (ltb max_history (length (done ∷ s.runs)))) [
    | inl t ↦ rw (t, eq_refl done.run_id)
    | inr t ↦ rw (t, eq_refl done.run_id)
  ]

  finish-completed :
      (now : String) (report : DaemonReport J)
      → ((finish now report).status ≡ "completed") ↔ (all_succeeded report.task_results ≡ true)
  unfolding finish
  finish-completed now report = elim (Bool-cases (all_succeeded report.task_results)) [
    | inl t ↦ (λ _. t, λ _. rw t)
    | inr t ↦ (λ h. absurd (failed_ne_completed (rw t at h)), λ h. absurd (false≢true (sym t ∙ h)))
  ]

  all_succeeded-All :
      (rs : List (TaskResult J)) → (all_succeeded rs ≡ true) ↔ All (λ r. r.success ≡ true) rs
  unfolding all_succeeded
  all_succeeded-All [] = (λ h. tt, λ h. refl)
  all_succeeded-All (r ∷ rs) =
      let (to, from) = all_succeeded-All rs in
      (λ h. (ground arith, to (ground arith)), λ (a, b). rw (a, from b))

  completed-All :
      (now : String) (report : DaemonReport J)
      → ((finish now report).status ≡ "completed") ↔ All (λ r. r.success ≡ true) report.task_results
  completed-All now report =
      let (to, from) = finish-completed now report in
      let (there, back) = all_succeeded-All report.task_results in
      (λ h. there (to h), λ h. from (back h))

  -- What an execution that returns leaves.
  abbrev pub IsRecorded : DaemonReport J → DaemonReport J → Scheduler J → Type 0
  IsRecorded report done s =
      (s.current_run ≡ none)
      × (get_report report.run_id s ≡ some done)
      × ((done.status ≡ "completed") ↔ All (λ r. r.success ≡ true) done.task_results)

  conclude-IsRecorded :
      (env : Env J) (report : DaemonReport J) (s : Scheduler J)
      (r : Result String (List (TaskResult J))) {done : DaemonReport J}
      → (conclude env report s r).1 ≡ ok done
      → IsRecorded report done (conclude env report s r).0
  unfolding conclude release_run finish
  conclude-IsRecorded env report s (err e) h = absurd (ok-ne-err (sym h))
  conclude-IsRecorded env report s (ok results) h =
      let full : DaemonReport J = record report { task_results = report.task_results ++ results } in
      let end = finish env.finished_at full in
      subst (λ d. IsRecorded report d (release_run end s)) (ok-injective h)
        (refl, find_newest end s, completed-All env.finished_at full)

  -- Where an execution of an idle scheduler returns, no run is in progress, its report is found under its id,
  -- and the report says "completed" exactly if all its results succeeded.
  pub execute-IsRecorded :
      (env : Env J) (report : DaemonReport J) (names : List String) (ids : Option (List String))
      (s : Scheduler J) {done : DaemonReport J}
      → s.current_run ≡ none
      → (execute env report names ids s).1 ≡ ok done
      → IsRecorded report done (execute env report names ids s).0
  execute-IsRecorded env report names ids s {done} idle h =
      let same = execute_idle env report names ids s idle in
      subst (λ x. IsRecorded report done x.0) (sym same)
        (conclude-IsRecorded env report (record s { current_run = some report })
          (batch env (max_duration s) names ids) (ap (λ x. x.1) (sym same) ∙ h))

  conclude-err :
      (env : Env J) (report : DaemonReport J) (s : Scheduler J)
      (r : Result String (List (TaskResult J))) (e : String)
      → (conclude env report s r).1 ≡ err e
      → (r ≡ err e) × ((conclude env report s r).0 ≡ release_run report s)
  unfolding conclude
  conclude-err env report s (err f) e h = (ap err (err_same h), refl)
  conclude-err env report s (ok results) e h = absurd (ok-ne-err h)

  loaded-err :
      (env : Env J) (ids : Option (List String)) (o : Option (Result String (List (Domain J))))
      (e : String)
      → (loaded env ids o ≡ err e) ↔ (o ≡ some (err e))
  unfolding loaded
  loaded-err env ids none e = (λ h. absurd (ok-ne-err h), λ h. cc)
  loaded-err env ids (some (err f)) e =
      (λ h. ap (λ x. some (err x)) (err_same h), λ h. some_injective h)
  loaded-err env ids (some (ok ds)) e =
      (λ h. absurd (ok-ne-err h), λ h. absurd (ok-ne-err (some_injective h)))

  load_domains-batch :
      (env : Env J) (duration : ℕ) (names : List String) (ids : Option (List String)) (e : String)
      → (batch env duration names ids ≡ err e) ↔ (load_domains env ids ≡ err e)
  unfolding batch
  load_domains-batch env duration names ids e = elim (Result-cases (load_domains env ids)) [
    | inl (ds, t) ↦ (λ h. absurd (ok-ne-err (rw t at h)), λ h. absurd (ok-ne-err (sym t ∙ h)))
    | inr (f, t) ↦ (λ h. t ∙ ap err (err_same (rw t at h)), λ h. rw h)
  ]

  batch-err :
      (env : Env J) (duration : ℕ) (names : List String) (ids : Option (List String)) (e : String)
      → (batch env duration names ids ≡ err e) ↔ (env.loader ≡ some (err e))
  unfolding load_domains
  batch-err env duration names ids e =
      let (to, from) = load_domains-batch env duration names ids e in
      let (there, back) = loaded-err env ids env.loader e in (λ h. there (to h), λ h. from (back h))

  busy_returns :
      (o : Option (DaemonReport J)) (env : Env J) (report : DaemonReport J) (names : List String)
      (ids : Option (List String)) (s : Scheduler J) {e : String}
      → (execute_when o env report names ids s).1 ≡ err e
      → o ≡ none
  unfolding execute_when
  busy_returns none env report names ids s h = refl
  busy_returns (some r) env report names ids s h = absurd (ok-ne-err h)

  -- An execution raises an error exactly where no run is in progress and the loader raises it; it leaves no run
  -- in progress, and the report, still as it was given, is the first of the history.
  pub execute-err_iff :
      (env : Env J) (report : DaemonReport J) (names : List String) (ids : Option (List String))
      (s : Scheduler J) (e : String)
      → (((execute env report names ids s).1 ≡ err e)
          ↔ (s.current_run ≡ none) × (env.loader ≡ some (err e)))
        × ((execute env report names ids s).1 ≡ err e
            → (execute env report names ids s).0
              ≡ record s { current_run = none; runs = shorten (report ∷ s.runs) })
  unfolding execute conclude release_run
  execute-err_iff env report names ids s e =
      let idle_of : (execute env report names ids s).1 ≡ err e → s.current_run ≡ none =
        busy_returns s.current_run env report names ids s in
      let started_now : Scheduler J = record s { current_run = some report } in
      let of = λ (idle : s.current_run ≡ none) (h : (execute env report names ids s).1 ≡ err e).
        conclude-err env report started_now (batch env (max_duration s) names ids) e
          (ap (λ x. x.1) (sym (execute_idle env report names ids s idle)) ∙ h) in
      (
        (
          λ h. (idle_of h, (batch-err env (max_duration s) names ids e).0 (of (idle_of h) h).0),
          λ (idle, failed).
              ap (λ x. x.1) (execute_idle env report names ids s idle)
              ∙ ap (λ r. (conclude env report started_now r).1)
                  ((batch-err env (max_duration s) names ids e).1 failed),
        ),
        λ h. ap (λ x. x.0) (execute_idle env report names ids s (idle_of h)) ∙ (of (idle_of h) h).1,
      )
