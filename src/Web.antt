-- ===== src/Web.antt =====
-- web/app.py: the service that runs one backup at a time, and the requests that act on it. A request
-- is served in one step, and so is a submitted backup, which the worker runs later.
use pi_mobile_photobackup.Prelude.{
  ℕ, Text, codes, text_eq, Bool, true, false, not, Option, none, some, List, [], ◌∷◌, ◌++◌, ◌≡◌,
  if◌then◌else◌,
}
use pi_mobile_photobackup.Effects.{Error, Result, ok, raise, Exec, no_source_error}
use pi_mobile_photobackup.Identity.{Sha256}
use pi_mobile_photobackup.Machine.{idle, state_eq}
use pi_mobile_photobackup.World.{Environment}
use pi_mobile_photobackup.Engine.{Engine, Config, Found, run_backup, dry_run, reset}
use pi_mobile_photobackup.Linux.Devices.{BlockDevice}
use pi_mobile_photobackup.Linux.Mounts.{MountService}
use pi_mobile_photobackup.Linux.Media.{SourceRef, Media, MediaConfig, eject}
pub mod Serving
pub mod Accounts

-- The engine, and the source of the backup that is submitted and not done.
pub record Service : Type 0 where
  pub engine : Engine
  pub future : Option SourceRef

unfoldable pub is_running : Service → Bool
is_running s = elim s.future [ none ↦ false | some job ↦ true ]

-- The part of `start` after the checks, for the engine's state.
unfoldable pub submit : SourceRef → Service → Result (Unit {0}) × Engine → Result Bool × Service
submit source s (ok u, engine) = (ok true, record { engine = engine; future = some source })
submit source s (raise e, engine) = (raise e, record s { engine = engine })

-- `reset` unless the engine is idle.
unfoldable pub made_idle : Exec Engine (Unit {0})
unfolding state_eq reset
made_idle engine = if state_eq engine.machine.state idle then (ok tt, engine) else reset engine

-- `start` where no backup is running.
unfoldable pub start_source : Option SourceRef → Exec Service Bool
unfolding submit made_idle
start_source none s = (raise no_source_error, s)
start_source (some source) s = submit source s (made_idle s.engine)

unfoldable pub start : Option SourceRef → Exec Service Bool
unfolding is_running start_source
start source s = if is_running s then (ok false, s) else start_source source s

-- The answers, by their status codes.
pub data Response : Type 0 where
  success accepted unauthorized conflict unavailable server_error : Response

unfoldable pub require_auth : Option Text → Text → Bool
unfolding text_eq
require_auth none authorization = true
require_auth (some token) authorization = text_eq authorization (codes "Bearer " ++ token)

unfoldable pub start_response : Result Bool → Response
start_response (ok true) = accepted
start_response (ok false) = conflict
start_response (raise no_source_error) = conflict
start_response (raise e) = server_error

unfoldable pub start_backup : Bool → Option SourceRef → Service → Response × Service
unfolding start start_response
start_backup authorized source s =
    let (r, s') = start source s in if authorized then (start_response r, s') else (unauthorized, s)

unfoldable pub media_eject :
    {S : Type 0}
    → MountService S
    → MediaConfig
    → Bool
    → List BlockDevice
    → Service
    → Option (Media S)
    → Response × Option (Media S)
unfolding is_running eject
media_eject service config authorized devices s none =
    (if authorized then unavailable else unauthorized, none)
media_eject service config authorized devices s (some m) =
    if authorized
    then (if is_running s
        then (conflict, some m)
        else (accepted, some (eject service config devices m).1))
    else (unauthorized, some m)

module _ (sha : Sha256) (env : Environment) (config : Config) (cancel_requested : ℕ → Bool) where
  -- The worker runs what is submitted.
  unfoldable pub work : Found → Service → Service
  unfolding run_backup
  work found s = elim s.future [
    | none ↦ s
    | some job ↦ record {
      engine =
          (run_backup sha env config cancel_requested found job.root job.logical_name s.engine).1;
      future = none;
    }
  ]

  unfoldable pub dry_run_source : Found → Option SourceRef → Service → Response × Service
  unfolding dry_run
  dry_run_source found none s = (conflict, s)
  dry_run_source found (some source) s =
      let (r, engine) =
        dry_run sha env config cancel_requested found source.root source.logical_name s.engine in
      (elim r [ ok p ↦ success | raise e ↦ server_error ], record s { engine = engine })

  -- The endpoint of the dry run.
  unfoldable pub request_dry_run : Bool → Found → Option SourceRef → Service → Response × Service
  unfolding is_running dry_run_source
  request_dry_run authorized found source s =
      if authorized
      then (if is_running s then (conflict, s) else dry_run_source found source s)
      else (unauthorized, s)
