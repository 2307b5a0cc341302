-- ===== src/Web/Accounts.antt =====
-- The service of web/app.py: the backups that it accepts, and those that its worker runs.
use pi_mobile_photobackup.Prelude.{
  ℕ, ◌+◌, Bool, true, false, Option, none, some, List, [], ◌∷◌, ◌≡◌, refl, ap, arith, inl, inr,
  Bool-cases, Option-cases,
}
use pi_mobile_photobackup.Effects.{Error, Result, ok, raise, no_source_error}
use pi_mobile_photobackup.Identity.{Sha256}
use pi_mobile_photobackup.World.{Environment}
use pi_mobile_photobackup.Engine.{Engine, Config, Found}
use pi_mobile_photobackup.Linux.Media.{SourceRef}
use pi_mobile_photobackup.Web.{
  Service, is_running, submit, made_idle, start_source, start, Response, accepted, start_response,
  start_backup, work, dry_run_source, request_dry_run,
}
use pi_mobile_photobackup.Web.Serving.{Request, starts, dry_runs, works, serve, serve_all}

abbrev submitted : Option SourceRef → ℕ
submitted none = 0
submitted (some job) = 1

-- One if a backup is submitted and not done, and otherwise zero.
abbrev pub pending : Service → ℕ
pending s = submitted s.future

abbrev pub acceptances : Response → ℕ
acceptances accepted = 1
acceptances _ = 0

-- One for a request that is answered by 202.
abbrev pub accepts : Request → Service → ℕ
accepts (starts authorized source) s = acceptances (start_backup authorized source s).0
accepts _ s = 0

-- One for a run of the worker that finds a backup to run.
abbrev pub runs : Request → Service → ℕ
runs (works found) s = pending s
runs _ s = 0

not_accepted : (e : Error) → acceptances (start_response (raise e)) ≡ 0
unfolding start_response
not_accepted no_source_error = refl
not_accepted _ = refl

pending-free : (s : Service) → is_running s ≡ false → pending s ≡ 0
unfolding is_running
pending-free s h = elim (Option-cases s.future) [
  | inl free ↦ rw free refl
  | inr t ↦ absurd (cc (rw (t.1, is_running) at h))
]

submit-pending :
    (source : SourceRef) (s : Service) (end : Result (Unit {0}) × Engine)
    → pending s ≡ 0
    → pending s + acceptances (start_response (submit source s end).0)
      ≡ pending (submit source s end).1
unfolding submit start_response
submit-pending source s (ok u, engine) free = omega (arith, free)
submit-pending source s (raise e, engine) free = omega (arith, not_accepted e)

start_source-pending :
    (source : Option SourceRef) (s : Service)
    → pending s ≡ 0
    → pending s + acceptances (start_response (start_source source s).0)
      ≡ pending (start_source source s).1
unfolding start_source start_response
start_source-pending none s free = omega arith
start_source-pending (some source) s free = submit-pending source s (made_idle s.engine) free

start_backup-pending :
    (authorized : Bool) (source : Option SourceRef) (s : Service)
    → pending s + acceptances (start_backup authorized source s).0
      ≡ pending (start_backup authorized source s).1
unfolding start_backup start start_response
start_backup-pending false source s = omega arith
start_backup-pending true source s = elim (Bool-cases (is_running s)) [
  | inl busy ↦ rw (busy, start) (omega arith)
  | inr free ↦ rw (free, start) (start_source-pending source s (pending-free s free))
]

module _ (sha : Sha256) (env : Environment) (config : Config) (cancel_requested : ℕ → Bool) where
  -- The sum of a count over requests in turn.
  abbrev pub total : (Request → Service → ℕ) → List Request → Service → ℕ
  total count [] s = 0
  total count (r ∷ rs) s = count r s + total count rs (serve sha env config cancel_requested r s)

  dry_run_source-future :
      (found : Found) (source : Option SourceRef) (s : Service)
      → (dry_run_source sha env config cancel_requested found source s).1.future ≡ s.future
  unfolding dry_run_source
  dry_run_source-future found none s = refl
  dry_run_source-future found (some source) s = refl

  request_dry_run-future :
      (authorized : Bool) (found : Found) (source : Option SourceRef) (s : Service)
      → (request_dry_run sha env config cancel_requested authorized found source s).1.future
        ≡ s.future
  unfolding request_dry_run
  request_dry_run-future false found source s = refl
  request_dry_run-future true found source s = elim (Bool-cases (is_running s)) [
    | inl busy ↦ rw (busy, request_dry_run) refl
    | inr free ↦ rw (free, request_dry_run) (dry_run_source-future found source s)
  ]

  work-pending :
      (found : Found) (s : Service) → pending (work sha env config cancel_requested found s) ≡ 0
  unfolding work
  work-pending found s = elim (Option-cases s.future) [
    | inl free ↦ rw (free, work) (ap submitted free)
    | inr t ↦ rw (t.1, work) refl
  ]

  serve-pending :
      (r : Request) (s : Service)
      → pending s + accepts r s ≡ runs r s + pending (serve sha env config cancel_requested r s)
  serve-pending (starts authorized source) s =
      omega (arith, start_backup-pending authorized source s)
  serve-pending (dry_runs authorized found source) s =
      let same = request_dry_run-future authorized found source s in
      omega (arith, ap submitted same)
  serve-pending (works found) s = omega (arith, work-pending found s)

  total-pending :
      (rs : List Request) (s : Service)
      → pending s + total accepts rs s
        ≡ total runs rs s + pending (serve_all sha env config cancel_requested rs s)
  total-pending [] s = omega arith
  total-pending (r ∷ rs) s =
      let next = serve sha env config cancel_requested r s in
      omega (arith, serve-pending r s, total-pending rs next)

  -- Over any requests to start a backup or a dry run, authorized or not, and any runs of the
  -- worker, on a new service, the backups that were accepted with 202 are as many as those that
  -- the worker ran, and one more if a backup is submitted and not done.
  pub serve_all-OneAtATime :
      (rs : List Request) (engine : Engine)
      → let s : Service = record { engine = engine; future = none } in
        total accepts rs s
        ≡ total runs rs s + pending (serve_all sha env config cancel_requested rs s)
  serve_all-OneAtATime rs engine =
      let s : Service = record { engine = engine; future = none } in
      omega (arith, total-pending rs s)
