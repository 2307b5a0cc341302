-- ===== src/Web/Serving.antt =====
-- The service of web/app.py over a sequence of requests and of runs of the worker.
use pi_mobile_photobackup.Prelude.{
  ℕ, Text, Bool, true, false, Option, none, some, List, [], ◌∷◌, ◌≡◌, refl, sym, ap, subst, ◌∙◌,
  inl, inr, Bool-cases, Option-cases,
}
use pi_mobile_photobackup.Effects.{Result, ok, raise}
use pi_mobile_photobackup.Identity.{Sha256}
use pi_mobile_photobackup.Machine.{BackupState, idle, state_eq, state_in, BackupState-discrete}
use pi_mobile_photobackup.World.{Environment}
use pi_mobile_photobackup.Engine.{Engine, Config, Found, EngineResult, run_backup, dry_run, reset}
use pi_mobile_photobackup.Engine.Rules.{
  Ends, Stays, bind-Stays, gets-Stays, pure-Stays, emit-Stays, set_last_scan-Stays,
}
use pi_mobile_photobackup.Engine.Runs.{resettable, Ended, Interrupted}
use pi_mobile_photobackup.Engine.Backup.{
  run_backup-Ends, reset-run_backup, reset_lem, preflight_now-Stays,
}
use pi_mobile_photobackup.Linux.Media.{SourceRef}
use pi_mobile_photobackup.Web.{
  Service, is_running, submit, made_idle, start_source, start, start_backup, work, dry_run_source,
  request_dry_run,
}

-- A submitted backup waits for an engine in IDLE.
abbrev pub IsServing : Service → Type 0
IsServing s = (job : SourceRef) → s.future ≡ some job → s.engine.machine.state ≡ idle

-- What acts on the service: the requests, authorized or not, and the worker.
pub data Request : Type 0 where
  starts : Bool → Option SourceRef → Request
  dry_runs : Bool → Found → Option SourceRef → Request
  works : Found → Request

state_eq-idle : (b : BackupState) → state_eq b idle ≡ true → b ≡ idle
unfolding state_eq
state_eq-idle b h = decided (BackupState-discrete b idle) h
  where
    decided : (d : Dec (b ≡ idle)) → elim d [ yes e ↦ true | no n ↦ false ] ≡ true → b ≡ idle
    decided (yes e) h = e
    decided (no n) h = cc

submit-IsServing :
    (src : SourceRef) (s : Service) (end : Result (Unit {0}) × Engine)
    → IsServing s
    → Ends (λ _ k. k ≡ idle) (λ k. k ≡ s.engine.machine.state) end
    → IsServing (submit src s end).1
unfolding submit
submit-IsServing src s (ok u, engine) serving at_idle job e = at_idle
submit-IsServing src s (raise x, engine) serving kept job e = kept ∙ serving job e

reset-Ends : (s : Engine) → Ends (λ _ k. k ≡ idle) (λ k. k ≡ s.machine.state) (reset s)
reset-Ends s = elim (Bool-cases (state_in s.machine.state resettable)) [
  | inl can ↦ weaken (reset s) ((reset_lem s).0 can)
  | inr cannot ↦
      subst
        (λ (r : Result (Unit {0}) × Engine). Ends (λ _ k. k ≡ idle) (λ k. k ≡ s.machine.state) r)
        (sym ((reset_lem s).1 cannot)) refl
]
  where
    weaken :
        (r : Result (Unit {0}) × Engine)
        → Ends (λ _ k. k ≡ idle) (λ _. ⊥) r
        → Ends (λ _ k. k ≡ idle) (λ k. k ≡ s.machine.state) r
    weaken (ok u, t) h = h
    weaken (raise e, t) h = absurd h

made_idle-Ends : (s : Engine) → Ends (λ _ k. k ≡ idle) (λ k. k ≡ s.machine.state) (made_idle s)
unfolding made_idle
made_idle-Ends s = elim (Bool-cases (state_eq s.machine.state idle)) [
  | inl yes_ ↦ rw (yes_, made_idle) (state_eq-idle s.machine.state yes_)
  | inr no_ ↦ rw (no_, made_idle) (reset-Ends s)
]

start_source-IsServing :
    (source : Option SourceRef) (s : Service) → IsServing s → IsServing (start_source source s).1
unfolding start_source
start_source-IsServing none s serving = serving
start_source-IsServing (some source) s serving =
    submit-IsServing source s (made_idle s.engine) serving (made_idle-Ends s.engine)

start_backup-IsServing :
    (authorized : Bool) (source : Option SourceRef) (s : Service)
    → IsServing s
    → IsServing (start_backup authorized source s).1
unfolding start_backup start
start_backup-IsServing false source s serving = serving
start_backup-IsServing true source s serving = elim (Bool-cases (is_running s)) [
  | inl busy ↦ rw (busy, start) serving
  | inr free ↦ rw (free, start) (start_source-IsServing source s serving)
]

module _ (sha : Sha256) (env : Environment) (config : Config) (cancel_requested : ℕ → Bool) where
  dry_run-Stays :
      (found : Found) (root name : Text)
      → Stays (dry_run sha env config cancel_requested found root name)
  unfolding dry_run
  dry_run-Stays found root name = bind-Stays _ _ (emit-Stays _) (λ u.
      bind-Stays _ _ (gets-Stays _) (λ job_id.
        bind-Stays _ _ (preflight_now-Stays sha env config cancel_requested root found _) (λ p.
          bind-Stays _ _ (set_last_scan-Stays _ _)
            (λ v. bind-Stays _ _ (emit-Stays _) (λ w. pure-Stays p)))))

  dry_run_source-IsServing :
      (found : Found) (source : Option SourceRef) (s : Service)
      → IsServing s
      → IsServing (dry_run_source sha env config cancel_requested found source s).1
  unfolding dry_run_source
  dry_run_source-IsServing found none s serving = serving
  dry_run_source-IsServing found (some source) s serving = λ job e.
      ap (λ m. m.state) ((dry_run-Stays found source.root source.logical_name).at s.engine)
      ∙ serving job e

  request_dry_run-IsServing :
      (found : Found) (source : Option SourceRef) (s : Service)
      → IsServing s
      → IsServing (request_dry_run sha env config cancel_requested true found source s).1
  unfolding request_dry_run
  request_dry_run-IsServing found source s serving = elim (Bool-cases (is_running s)) [
    | inl busy ↦ rw (busy, request_dry_run) serving
    | inr free ↦ rw (free, request_dry_run) (dry_run_source-IsServing found source s serving)
  ]

  abbrev pub serve : Request → Service → Service
  serve (starts authorized source) s = (start_backup authorized source s).1
  serve (dry_runs authorized found source) s =
      (request_dry_run sha env config cancel_requested authorized found source s).1
  serve (works found) s = work sha env config cancel_requested found s

  abbrev pub serve_all : List Request → Service → Service
  serve_all [] s = s
  serve_all (r ∷ rs) s = serve_all rs (serve r s)

  serve-IsServing : (r : Request) (s : Service) → IsServing s → IsServing (serve r s)
  unfolding request_dry_run work
  serve-IsServing (starts authorized source) s serving =
      start_backup-IsServing authorized source s serving
  serve-IsServing (dry_runs false found source) s serving = serving
  serve-IsServing (dry_runs true found source) s serving =
      request_dry_run-IsServing found source s serving
  serve-IsServing (works found) s serving = elim (Option-cases s.future) [
    | inl free ↦ rw (free, work) serving
    | inr t ↦ rw (t.1, work) (λ job e. cc)
  ]

  serve_all-IsServing : (rs : List Request) (s : Service) → IsServing s → IsServing (serve_all rs s)
  serve_all-IsServing [] s serving = serving
  serve_all-IsServing (r ∷ rs) s serving =
      serve_all-IsServing rs (serve r s) (serve-IsServing r s serving)

  -- After any requests to start a backup or a dry run, authorized or not, and any runs of the
  -- worker, on a new service over any engine, the engine is in IDLE whenever a backup is submitted
  -- and not done, so the backup, when the worker runs it, ends as every backup does that is
  -- started in IDLE.
  pub run_backup-serve_all :
      (rs : List Request) (engine : Engine) (found : Found) (job : SourceRef)
      → (serve_all rs (record { engine = engine; future = none })).future ≡ some job
      → ((serve_all rs (record { engine = engine; future = none })).engine.machine.state ≡ idle)
        × Ends Ended Interrupted (
            run_backup sha env config cancel_requested found job.root job.logical_name
              (serve_all rs (record { engine = engine; future = none })).engine)
  run_backup-serve_all rs engine found job e =
      let s = serve_all rs (record { engine = engine; future = none }) in
      let at_idle =
        serve_all-IsServing rs (record { engine = engine; future = none }) (λ j h. cc) job e in
      (
        at_idle,
        run_backup-Ends sha env config cancel_requested job.root found job.logical_name s.engine
            at_idle,
      )

  made_idle-ok :
      (s : Engine)
      → Ends (λ _ k. k ≡ idle) (λ _. ⊥) (reset s)
      → (t : Engine) × (made_idle s ≡ (ok tt, t)) × (t.machine.state ≡ idle)
  unfolding made_idle
  made_idle-ok s back = elim (Bool-cases (state_eq s.machine.state idle)) [
    | inl yes_ ↦ rw (yes_, made_idle) (s, refl, state_eq-idle s.machine.state yes_)
    | inr no_ ↦ rw (no_, made_idle) (returned (reset s) back)
  ]
    where
      returned :
          (r : Result (Unit {0}) × Engine)
          → Ends (λ _ k. k ≡ idle) (λ _. ⊥) r
          → (t : Engine) × (r ≡ (ok tt, t)) × (t.machine.state ≡ idle)
      returned (ok tt, t) h = (t, refl, h)
      returned (raise e, t) h = absurd h

  work-submitted :
      (found : Found) (job : SourceRef) (s : Service)
      → s.future ≡ some job
      → work sha env config cancel_requested found s ≡ record {
        engine =
            (run_backup sha env config cancel_requested found job.root job.logical_name s.engine).1;
        future = none;
      }
  unfolding work
  work-submitted found job s e = rw (e, work) refl

  start-idle :
      (next : SourceRef) (engine : Engine)
      → Ends (λ _ k. k ≡ idle) (λ _. ⊥) (reset engine)
      → let r = start (some next) (record { engine = engine; future = none }) in
        (r.0 ≡ ok true) × (r.1.future ≡ some next) × (r.1.engine.machine.state ≡ idle)
  unfolding start start_source submit is_running
  start-idle next engine back = let t = made_idle-ok engine back in rw t.1 (refl, refl, t.2)

  -- After any requests on a new service, when the submitted backup runs and returns, the next call
  -- of `start` with a source returns true, submits a backup of this source, and leaves the engine
  -- in IDLE.
  pub start-work :
      (rs : List Request) (engine : Engine) (found : Found) (job next : SourceRef)
      (r : EngineResult) (after : Engine)
      → (serve_all rs (record { engine = engine; future = none })).future ≡ some job
      → run_backup sha env config cancel_requested found job.root job.logical_name
          (serve_all rs (record { engine = engine; future = none })).engine
        ≡ (ok r, after)
      → let s = serve (works found) (serve_all rs (record { engine = engine; future = none })) in
        ((start (some next) s).0 ≡ ok true)
        × ((start (some next) s).1.future ≡ some next)
        × ((start (some next) s).1.engine.machine.state ≡ idle)
  start-work rs engine found job next r after waiting ran =
      let first : Service = record { engine = engine; future = none } in
      let before = serve_all rs first in
      let at_idle = serve_all-IsServing rs first (λ j h. cc) job waiting in
      let back =
        reset-run_backup sha env config cancel_requested job.root found job.logical_name
          before.engine after at_idle r ran in
      let freed : work sha env config cancel_requested found before
          ≡ record { engine = after; future = none } =
        work-submitted found job before waiting
        ∙ ap (λ x. record { engine = x.1; future = none }) ran in
      rw freed (start-idle next after back)
