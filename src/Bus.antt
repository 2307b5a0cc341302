-- ===== src/Bus.antt =====
-- aethereal/common/events.py: the event bus, with its sequence numbers and its replay buffer, and
-- the event stream of web/app.py that reads it. An event's other fields are its body, of any type;
-- a subscriber is the number of its callback.
pub mod Replay
pub mod Stream
use pi_mobile_photobackup.Prelude.{
  ℕ, zero, suc, ◌+◌, ◌-◌, max, Bool, true, false, List, [], ◌∷◌, ◌++◌, map, length, drop, filter_p,
  ltb, leb, ◌==◌, if◌then◌else◌,
}

pub record Published (E : Type 0) : Type 0 where
  pub sequence : ℕ
  pub body : E

pub record EventBus (E : Type 0) : Type 0 where
  pub recent_capacity : ℕ
  pub last_sequence : ℕ
  pub subscribers : List ℕ
  pub recent : List (Published E)

-- A `deque` with a `maxlen` drops what is too much from the left.
unfoldable pub keep_last : {A : Type 0} → ℕ → List A → List A
keep_last n xs = drop (length xs - n) xs

-- `callback in subscribers` and `subscribers.remove(callback)`, the first one.
unfoldable pub remove_first : ℕ → List ℕ → List ℕ
remove_first k [] = []
remove_first k (x ∷ xs) = let rest = remove_first k xs in if x == k then xs else x ∷ rest

module _ {E : Type 0} where
  unfoldable pub new_bus : ℕ → EventBus E
  new_bus capacity = record {
    recent_capacity = capacity;
    last_sequence = 0;
    subscribers = [];
    recent = [];
  }

  unfoldable pub subscribe : ℕ → EventBus E → EventBus E
  subscribe callback bus = record bus { subscribers = bus.subscribers ++ callback ∷ [] }

  unfoldable pub unsubscribe : ℕ → EventBus E → EventBus E
  unfolding remove_first
  unsubscribe callback bus = record bus { subscribers = remove_first callback bus.subscribers }

  -- The event, whom it is dispatched to, and the bus.
  unfoldable pub publish : E → EventBus E → Published E × List ℕ × EventBus E
  unfolding keep_last
  publish body bus =
      let event : Published E = record { sequence = suc bus.last_sequence; body = body } in
      (
        event,
        bus.subscribers,
        record bus {
          last_sequence = suc bus.last_sequence;
          recent = keep_last bus.recent_capacity (bus.recent ++ event ∷ []);
        },
      )

  unfoldable pub events_since : ℕ → EventBus E → List (Published E)
  events_since sequence bus = filter_p (λ e. ltb sequence e.sequence) bus.recent

  -- The replay loop of `events_ws`: what is sent, and `highest` after it.
  unfoldable pub send_backlog : List (Published E) → ℕ → List (Published E) × ℕ
  send_backlog [] highest = ([], highest)
  send_backlog (e ∷ es) highest =
      let (sent, last) = send_backlog es (max highest e.sequence) in (e ∷ sent, last)

  -- Its endless loop, over what the queue yields.
  unfoldable pub send_queued : ℕ → List (Published E) → List (Published E)
  send_queued highest [] = []
  send_queued highest (e ∷ es) =
      let rest = send_queued highest es in if leb e.sequence highest then rest else e ∷ rest

  -- All that a client is sent that has seen the events up to `since`: the bus as it is when the
  -- backlog is read, and the events that the queue yields, which holds those since the subscription.
  unfoldable pub stream : ℕ → EventBus E → List (Published E) → List (Published E)
  unfolding send_backlog send_queued events_since
  stream since bus queued =
      let (sent, highest) = send_backlog (events_since since bus) since in
      sent ++ send_queued highest queued
