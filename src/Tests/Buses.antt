-- ===== src/Tests/Buses.antt =====
-- Examples for the event bus and the event stream.
use pi_mobile_photobackup.Prelude.{ℕ, ◌-◌, max, ◌≡◌, refl, List, [], ◌∷◌, ◌++◌, length, drop, arith}
use pi_mobile_photobackup.Bus.{new_bus, events_since, stream}
use pi_mobile_photobackup.Bus.Replay.{
  BusCall, publishes, subscribes, unsubscribes, serve_all, published, numbered_after,
  events_since-serve_all,
}
use pi_mobile_photobackup.Bus.Stream.{queued_by, subscribed_after, stream-subscribed_after}

-- Callback 4 subscribes first, and three events are published.
abbrev earlier : List (BusCall ℕ)
earlier = subscribes 4 ∷ publishes 10 ∷ publishes 20 ∷ publishes 30 ∷ []

events_since-serve_all_example :
    events_since 1 (serve_all earlier (new_bus 2))
    ≡ drop (max 1 (length (published earlier) - 2)) (numbered_after 0 (published earlier))
events_since-serve_all_example = events_since-serve_all 2 1 earlier

-- One event falls between the subscription and the backlog, and one comes later.
stream-subscribed_after_example :
    stream 2 (serve_all (publishes 40 ∷ []) (subscribed_after 2 7 earlier)) (
      queued_by 7
        ((publishes 40 ∷ []) ++ publishes 50 ∷ unsubscribes 4 ∷ [])
        (subscribed_after 2 7 earlier))
    ≡ drop 2 (numbered_after 0 ((published earlier ++ 40 ∷ []) ++ 50 ∷ []))
stream-subscribed_after_example =
    stream-subscribed_after 2 2 7 earlier (publishes 40 ∷ []) (publishes 50 ∷ unsubscribes 4 ∷ [])
      (refl, (tt, (tt, (tt, tt)))) (tt, tt) (tt, (refl, tt)) (omega arith)
