-- ===== src/Tests/Services.antt =====
-- Examples for the service of the web application.
use pi_mobile_photobackup.Prelude.{
  codes, true, false, none, some, List, [], ◌∷◌, ◌≡◌, refl, ap, ◌∙◌, ◌+◌,
}
use pi_mobile_photobackup.Machine
use pi_mobile_photobackup.Machine.{idle}
use pi_mobile_photobackup.Effects.{ok}
use pi_mobile_photobackup.Engine.{run_backup}
use pi_mobile_photobackup.Engine.Rules.{Ends}
use pi_mobile_photobackup.Engine.Runs.{Ended, Interrupted}
use pi_mobile_photobackup.Linux.Media.{SourceRef}
use pi_mobile_photobackup.Web
use pi_mobile_photobackup.Web.{
  Service, Response, conflict, unauthorized, is_running, start, start_backup, request_dry_run,
}
use pi_mobile_photobackup.Web.Serving.{
  Request, starts, works, serve, serve_all, run_backup-serve_all, start-work,
}
use pi_mobile_photobackup.Web.Accounts.{total, accepts, runs, pending, serve_all-OneAtATime}
use pi_mobile_photobackup.Tests.{toy_sha, card}
use pi_mobile_photobackup.Tests.Engines.{
  config, found, untrusted, fresh, blocked_run, blocked_ok, result,
}

abbrev card_source : SourceRef
card_source = record { root = codes "/s"; logical_name = codes "CARD" }

-- A request without authorization, and one with it.
abbrev requests : List Request
requests = starts false (some card_source) ∷ starts true (some card_source) ∷ []

abbrev free : Service
free = record { engine = fresh 100; future = none }

abbrev busy : Service
busy = record { engine = fresh 100; future = some card_source }

requests_lem : serve_all toy_sha card config (λ _. false) requests free ≡ busy
unfolding Web.start_backup Web.start Web.start_source Web.made_idle Web.submit Web.is_running
    Machine.state_eq Machine.BackupState-discrete
requests_lem = refl

run_backup-serve_all_example :
    ((serve_all toy_sha card config (λ _. false) requests free).engine.machine.state ≡ idle)
    × Ends Ended Interrupted (
        run_backup toy_sha card config
          (λ _. false)
          found
          (codes "/s")
          (codes "CARD")
          (serve_all toy_sha card config (λ _. false) requests free).engine)
run_backup-serve_all_example =
    run_backup-serve_all toy_sha card config (λ _. false) requests (fresh 100) found card_source
      (ap (λ s. s.future) requests_lem)

-- The second request to start is refused, the worker runs, and the third is accepted.
abbrev two_backups : List Request
two_backups =
    starts true (some card_source)
    ∷ starts true (some card_source)
    ∷ works untrusted
    ∷ starts true (some card_source)
    ∷ []

serve_all-OneAtATime_example :
    total toy_sha card config
      (λ _. false)
      accepts
      two_backups
      (record { engine = fresh 100; future = none })
    ≡ total toy_sha card config
        (λ _. false)
        runs
        two_backups
        (record { engine = fresh 100; future = none })
      + pending (
          serve_all toy_sha card config
            (λ _. false)
            two_backups
            (record { engine = fresh 100; future = none }))
serve_all-OneAtATime_example =
    serve_all-OneAtATime toy_sha card config (λ _. false) two_backups (fresh 100)

start-work_example :
    let s =
      serve toy_sha card config
        (λ _. false)
        (works untrusted)
        (serve_all toy_sha card config (λ _. false) requests free) in
    ((start (some card_source) s).0 ≡ ok true)
    × ((start (some card_source) s).1.future ≡ some card_source)
    × ((start (some card_source) s).1.engine.machine.state ≡ idle)
start-work_example =
    start-work toy_sha card config (λ _. false) requests (fresh 100) untrusted card_source
      card_source result blocked_run.1 (ap (λ s. s.future) requests_lem)
      (ap
          (λ s.
            run_backup toy_sha card config (λ _. false) untrusted (codes "/s") (codes "CARD")
              s.engine)
          requests_lem
        ∙ blocked_ok)
