-- ===== src/Bus/Stream.antt =====
-- The event stream of web/app.py for a client that reconnects: the backlog, the queue and their
-- overlap.
use pi_mobile_photobackup.Prelude.{
  ℕ, suc, ◌+◌, ◌-◌, ◌≤◌, max, ◌≡◌, refl, sym, ap, ◌∙◌, false, List, [], ◌∷◌, ◌++◌, arith, length,
  drop, filter_p, ltb, ◌==◌, length-append, length-drop, drop-append, All, All-append, count_p-snoc,
  replicate, count_p,
}
use pi_mobile_photobackup.Bus.{
  Published, EventBus, new_bus, publish, subscribe, unsubscribe, remove_first, events_since,
  send_backlog, send_queued, stream,
}
use pi_mobile_photobackup.Bus.Replay.{
  BusCall, publishes, subscribes, unsubscribes, serve, serve_all, published, published-append,
  numbered_after, numbered_after-append, numbered_after-drop, length-numbered_after,
  newer-numbered_after, run-Represents, events_since-serve_all,
}

eq_nil : {A : Type 0} (l : List A) → length l ≡ 0 → l ≡ []
eq_nil [] e = refl
eq_nil (x ∷ l) e = ground (arith, e)

module _ {E : Type 0} where
  -- What is put into the queue of the callback `k`: an event for each time it is dispatched to.
  abbrev pub queued_by : ℕ → List (BusCall E) → EventBus E → List (Published E)
  queued_by k [] bus = []
  queued_by k (publishes body ∷ cs) bus =
      let (event, callbacks, after) = publish body bus in
      replicate (count_p (λ c. c == k) callbacks) event ++ queued_by k cs after
  queued_by k (subscribes c ∷ cs) bus = queued_by k cs (subscribe c bus)
  queued_by k (unsubscribes c ∷ cs) bus = queued_by k cs (unsubscribe c bus)

  -- No call is about the callback `k`.
  abbrev pub IsOther : ℕ → BusCall E → Type 0
  IsOther k (publishes body) = Unit
  IsOther k (subscribes c) = (c == k) ≡ false
  IsOther k (unsubscribes c) = (c == k) ≡ false

  sends-numbered :
      (n h : ℕ) (bs : List E)
      → n ≤ h
      → send_backlog (numbered_after n bs) h ≡ (numbered_after n bs, max h (n + length bs))
  unfolding send_backlog
  sends-numbered n h [] le = ground arith
  sends-numbered n h (b ∷ bs) le =
      ground (arith, sends-numbered (suc n) (max h (suc n)) bs (omega arith))

  queue-newer :
      (h : ℕ) (es : List (Published E)) → send_queued h es ≡ filter_p (λ e. ltb h e.sequence) es
  unfolding send_queued
  queue-newer h [] = refl
  queue-newer h (e ∷ es) = ground (arith, queue-newer h es)

count_p-remove_first :
    (c k : ℕ) (ks : List ℕ)
    → (c == k) ≡ false
    → count_p (λ x. x == k) (remove_first c ks) ≡ count_p (λ x. x == k) ks
unfolding remove_first
count_p-remove_first c k [] other = refl
count_p-remove_first c k (x ∷ ks) other = ground (arith, count_p-remove_first c k ks other)

-- How often the bus dispatches to the callback `k`.
abbrev pub dispatches : {E : Type 0} → ℕ → EventBus E → ℕ
dispatches k bus = count_p (λ c. c == k) bus.subscribers

module _ {E : Type 0} (k : ℕ) where
  dispatches-serve :
      (c : BusCall E) (bus : EventBus E)
      → IsOther k c
      → dispatches k (serve c bus) ≡ dispatches k bus
  unfolding publish subscribe unsubscribe
  dispatches-serve (publishes body) bus other = refl
  dispatches-serve (subscribes c) bus other =
      ground (arith, other, count_p-snoc (λ x. x == k) (λ x. x) c bus.subscribers)
  dispatches-serve (unsubscribes c) bus other = count_p-remove_first c k bus.subscribers other

  dispatches-serve_all :
      (cs : List (BusCall E)) (bus : EventBus E)
      → All (IsOther k) cs
      → dispatches k (serve_all cs bus) ≡ dispatches k bus
  dispatches-serve_all [] bus others = refl
  dispatches-serve_all (c ∷ cs) bus others =
      dispatches-serve_all cs (serve c bus) others.1 ∙ dispatches-serve c bus others.0

  queued_by-publishes :
      (body : E) (cs : List (BusCall E)) (bus : EventBus E)
      → dispatches k bus ≡ 1
      → queued_by k (publishes body ∷ cs) bus
        ≡ record { sequence = suc bus.last_sequence; body = body }
          ∷ queued_by k cs (publish body bus).2
  unfolding publish
  queued_by-publishes body cs bus once = rw once refl

  -- The sequence number counts the publications.
  last_sequence-serve :
      (c : BusCall E) (bus : EventBus E)
      → (serve c bus).last_sequence ≡ bus.last_sequence + length (published (c ∷ []))
  unfolding publish subscribe unsubscribe
  last_sequence-serve (publishes body) bus = omega arith
  last_sequence-serve (subscribes c) bus = omega arith
  last_sequence-serve (unsubscribes c) bus = omega arith

  queued_by-numbered :
      (cs : List (BusCall E)) (bus : EventBus E) (n : ℕ)
      → bus.last_sequence ≡ n
      → dispatches k bus ≡ 1
      → All (IsOther k) cs
      → queued_by k cs bus ≡ numbered_after n (published cs)
  queued_by-numbered [] bus n at_n once others = refl
  queued_by-numbered (publishes body ∷ cs) bus n at_n once others =
      let after = (publish body bus).2 in
      let next : after.last_sequence ≡ suc n =
        omega (arith, last_sequence-serve (publishes body) bus, at_n) in
      let still = dispatches-serve (publishes body) bus tt ∙ once in
      queued_by-publishes body cs bus once
      ∙ ap (λ l. record { sequence = suc bus.last_sequence; body = body } ∷ l)
          (queued_by-numbered cs after (suc n) next still others.1)
      ∙ ap (λ j. record { sequence = suc j; body = body } ∷ numbered_after (suc n) (published cs))
          at_n
  queued_by-numbered (subscribes c ∷ cs) bus n at_n once others =
      queued_by-numbered cs (subscribe c bus) n
        (omega (arith, last_sequence-serve (subscribes c) bus, at_n))
        (dispatches-serve (subscribes c) bus others.0 ∙ once) others.1
  queued_by-numbered (unsubscribes c ∷ cs) bus n at_n once others =
      queued_by-numbered cs (unsubscribe c bus) n
        (omega (arith, last_sequence-serve (unsubscribes c) bus, at_n))
        (dispatches-serve (unsubscribes c) bus others.0 ∙ once) others.1

module _ {E : Type 0} where
  -- The backlog and the queue meet without a gap or an overlap in what is sent.
  joined :
      (s : ℕ) (before between later : List E)
      → let m = length before + length between in
        drop s (numbered_after 0 (before ++ between))
          ++ drop (max s m - length before) (numbered_after (length before) (between ++ later))
        ≡ drop s (numbered_after 0 ((before ++ between) ++ later))
  joined s before between later =
      let j = length before in
      let m = j + length between in
      let xs = numbered_after j between in
      let ys = numbered_after m later in
      let m_lem : 0 + length (before ++ between) ≡ m =
        omega (arith, length-append before between) in
      let xs_gone : length (drop (max s m - j) xs) ≡ 0 =
        omega (arith, length-drop (max s m - j) xs, length-numbered_after j between) in
      let rest : max s m - j - length xs ≡ s - m = omega (arith, length-numbered_after j between) in
      let skipped : s - length (numbered_after 0 (before ++ between)) ≡ s - m =
        omega (arith, length-numbered_after 0 (before ++ between), m_lem) in
      let zs = numbered_after 0 (before ++ between) in
      let right : drop s (numbered_after 0 ((before ++ between) ++ later))
          ≡ drop s zs ++ drop (s - m) ys =
        ap (drop s) (
          numbered_after-append 0 (before ++ between) later
          ∙ ap (λ i. zs ++ numbered_after i later) m_lem)
        ∙ drop-append s zs ys
        ∙ ap (λ i. drop s zs ++ drop i ys) skipped in
      let left : drop (max s m - j) (numbered_after j (between ++ later)) ≡ drop (s - m) ys =
        ap (drop (max s m - j)) (numbered_after-append j between later)
        ∙ drop-append (max s m - j) xs ys
        ∙ ap (λ l. l ++ drop (max s m - j - length xs) ys) (eq_nil _ xs_gone)
        ∙ ap (λ i. drop i ys) rest in
      ap (λ l. drop s zs ++ l) left ∙ sym right

  published-subscribes :
      (k : ℕ) (cs ds : List (BusCall E))
      → published (cs ++ subscribes k ∷ ds) ≡ published cs ++ published ds
  published-subscribes k cs ds = published-append cs (subscribes k ∷ ds)

  serve_all-append :
      (cs ds : List (BusCall E)) (bus : EventBus E)
      → serve_all (cs ++ ds) bus ≡ serve_all ds (serve_all cs bus)
  serve_all-append [] ds bus = refl
  serve_all-append (c ∷ cs) ds bus = serve_all-append cs ds (serve c bus)

  -- The highest sequence after the backlog.
  backlog-sent :
      (s : ℕ) (log : List E)
      → send_backlog (drop s (numbered_after 0 log)) s
        ≡ (drop s (numbered_after 0 log), max s (length log))
  backlog-sent s log =
      let numbered = numbered_after-drop s 0 log in
      let e : 0 + s ≡ s = omega arith in
      let last : max s (s + length (drop s log)) ≡ max s (length log) =
        omega (arith, length-drop s log) in
      rw (numbered, e) (sends-numbered s s (drop s log) (omega arith) ∙ rw last refl)

  -- The bus when the callback `k` has subscribed after the calls `before`.
  abbrev pub subscribed_after : ℕ → ℕ → List (BusCall E) → EventBus E
  subscribed_after room k before = subscribe k (serve_all before (new_bus room))

  dispatches-subscribed_after :
      (room k : ℕ) (before : List (BusCall E))
      → All (IsOther k) before
      → dispatches k (subscribed_after room k before) ≡ 1
  unfolding subscribe
  dispatches-subscribed_after room k before others =
      let bus = serve_all before (new_bus room) in
      let none_yet : dispatches k bus ≡ 0 =
        dispatches-serve_all k before (new_bus room) others ∙ unfold new_bus in refl in
      ground (arith, none_yet, count_p-snoc (λ x. x == k) (λ x. x) k bus.subscribers)

  queued_by-subscribed_after :
      (room k : ℕ) (before cs : List (BusCall E))
      → All (IsOther k) before
      → All (IsOther k) cs
      → queued_by k cs (subscribed_after room k before)
        ≡ numbered_after (length (published before)) (published cs)
  queued_by-subscribed_after room k before cs b0 b1 =
      let counted = last_sequence-serve k (subscribes k) (serve_all before (new_bus room)) in
      queued_by-numbered k cs (subscribed_after room k before) (length (published before))
        (omega (arith, counted, (run-Represents room before).counted))
        (dispatches-subscribed_after room k before b0) b1

  events_since-subscribed_after :
      (room s k : ℕ) (before between : List (BusCall E))
      → length (published before) + length (published between) ≤ s + room
      → events_since s (serve_all between (subscribed_after room k before))
        ≡ drop s (numbered_after 0 (published before ++ published between))
  events_since-subscribed_after room s k before between fits =
      let calls = before ++ subscribes k ∷ between in
      let split = published-subscribes k before between in
      let e : max s (length (published calls) - room) ≡ s =
        omega (arith, ap length split, length-append (published before) (published between)) in
      let run : serve_all calls (new_bus room)
          ≡ serve_all between (subscribed_after room k before) =
        serve_all-append before (subscribes k ∷ between) (new_bus room) in
      ap (events_since s) (sym run)
      ∙ events_since-serve_all room s calls
      ∙ ap (λ j. drop j (numbered_after 0 (published calls))) e
      ∙ ap (λ l. drop s (numbered_after 0 l)) split

  -- A client that connects with `since` = s is sent all that was ever published, numbered from 1,
  -- without the first s events, each event once and in order, also where an event stands both in
  -- the backlog and in the queue. The conditions: its callback is new to the bus, no other caller
  -- subscribes or unsubscribes this callback, and those events among the ones published before the
  -- backlog is read that are newer than s are not more than the buffer holds.
  pub stream-subscribed_after :
      (room s k : ℕ) (before between later : List (BusCall E))
      → All (IsOther k) before
      → All (IsOther k) between
      → All (IsOther k) later
      → length (published before) + length (published between) ≤ s + room
      → let bus = subscribed_after room k before in
        stream s (serve_all between bus) (queued_by k (between ++ later) bus)
        ≡ drop s (numbered_after 0 ((published before ++ published between) ++ published later))
  unfolding stream
  stream-subscribed_after room s k before between later b0 b1 b2 fits =
      let j = length (published before) in
      let log = published before ++ published between in
      let queue = numbered_after j (published between ++ published later) in
      let queued : queued_by k (between ++ later) (subscribed_after room k before) ≡ queue =
        queued_by-subscribed_after room k before (between ++ later) b0
          (All-append (IsOther k) between later b1 b2)
        ∙ ap (numbered_after j) (published-append between later) in
      let m : length log ≡ j + length (published between) =
        length-append (published before) (published between) in
      let cut : send_queued (max s (length log)) queue ≡ drop (max s (length log) - j) queue =
        queue-newer (max s (length log)) queue
        ∙ newer-numbered_after (max s (length log)) j (published between ++ published later) in
      rw
        (
          events_since-subscribed_after room s k before between fits,
          queued,
          backlog-sent s log,
          cut,
          m,
        )
        (joined s (published before) (published between) (published later))
