-- ===== src/Bus/Replay.antt =====
-- The replay buffer of common/events.py against a log of all that was ever published.
use mathlib.Core.List.{append_assoc, append-nil}
use pi_mobile_photobackup.Prelude.{
  ℕ, zero, suc, ◌+◌, ◌-◌, max, ◌≡◌, refl, sym, ap, ◌∙◌, List, [], ◌∷◌, ◌++◌, arith, length, drop,
  filter_p, ltb, length-append, drop-append, drop-drop, drop-nil, length-drop, Bool-cases, inl, inr,
}
use pi_mobile_photobackup.Bus.{
  Published, EventBus, keep_last, new_bus, publish, subscribe, unsubscribe, events_since,
}

module _ {E : Type 0} where
  -- The specification: bodies in the order of their publication, numbered from `n + 1` on.
  abbrev pub numbered_after : ℕ → List E → List (Published E)
  numbered_after n [] = []
  numbered_after n (b ∷ bs) = record { sequence = suc n; body = b } ∷ numbered_after (suc n) bs

  pub length-numbered_after : (n : ℕ) (bs : List E) → length (numbered_after n bs) ≡ length bs
  length-numbered_after n [] = refl
  length-numbered_after n (b ∷ bs) = ap suc (length-numbered_after (suc n) bs)

  pub numbered_after-append :
      (n : ℕ) (cs bs : List E)
      → numbered_after n (cs ++ bs) ≡ numbered_after n cs ++ numbered_after (n + length cs) bs
  numbered_after-append n [] bs = let e : n ≡ n + 0 = omega arith in ap (λ k. numbered_after k bs) e
  numbered_after-append n (c ∷ cs) bs =
      let e : suc n + length cs ≡ n + suc (length cs) = omega arith in
      let first : Published E = record { sequence = suc n; body = c } in
      ap (λ (l : List (Published E)). first ∷ l)
        (numbered_after-append (suc n) cs bs
          ∙ ap (λ k. numbered_after (suc n) cs ++ numbered_after k bs) e)

  -- What is newer than `s` of a numbered list.
  pub newer-numbered_after :
      (s n : ℕ) (bs : List E)
      → filter_p (λ e. ltb s e.sequence) (numbered_after n bs) ≡ drop (s - n) (numbered_after n bs)
  newer-numbered_after s n [] = sym (drop-nil (s - n))
  newer-numbered_after s n (b ∷ bs) = elim (Bool-cases (ltb s (suc n))) [
    | inl newer ↦
        let now : s - n ≡ 0 = ground (arith, newer) in
        let next : s - suc n ≡ 0 = omega (arith, now) in
        let ih = newer-numbered_after s (suc n) bs in
        rw (newer, now) (ap (λ l. record { sequence = suc n; body = b } ∷ l) (rw next at ih))
    | inr older ↦
        let now : s - n ≡ suc (s - suc n) = ground (arith, older) in
        rw (older, now) (newer-numbered_after s (suc n) bs)
  ]

module _ {A : Type 0} where
  pub keep_last-snoc :
      (room : ℕ) (xs : List A) (x : A)
      → keep_last room (keep_last room xs ++ x ∷ []) ≡ keep_last room (xs ++ x ∷ [])
  unfolding keep_last
  keep_last-snoc room xs x =
      let k = length xs - room in
      let all = xs ++ x ∷ [] in
      let none_of : k - length xs ≡ 0 = omega arith in
      let whole : drop k xs ++ x ∷ [] ≡ drop k all =
        sym (drop-append k xs (x ∷ []) ∙ ap (λ j. drop k xs ++ drop j (x ∷ [])) none_of) in
      let cut : length (drop k all) - room + k ≡ length all - room =
        omega (arith, length-drop k all, length-append xs (x ∷ [])) in
      rw whole (drop-drop (length (drop k all) - room) k all ∙ ap (λ j. drop j all) cut)

-- The calls that the bus serves, in the order in which its lock admits them.
pub data BusCall (E : Type 0) : Type 0 where
  publishes : E → BusCall E
  subscribes unsubscribes : ℕ → BusCall E

module _ {E : Type 0} where
  abbrev pub serve : BusCall E → EventBus E → EventBus E
  serve (publishes body) bus = (publish body bus).2
  serve (subscribes k) bus = subscribe k bus
  serve (unsubscribes k) bus = unsubscribe k bus

  abbrev pub serve_all : List (BusCall E) → EventBus E → EventBus E
  serve_all [] bus = bus
  serve_all (c ∷ cs) bus = serve_all cs (serve c bus)

  -- The log: all that was published.
  abbrev pub published : List (BusCall E) → List E
  published [] = []
  published (publishes body ∷ cs) = body ∷ published cs
  published (subscribes k ∷ cs) = published cs
  published (unsubscribes k ∷ cs) = published cs

  pub published-append :
      (cs ds : List (BusCall E)) → published (cs ++ ds) ≡ published cs ++ published ds
  published-append [] ds = refl
  published-append (publishes body ∷ cs) ds = ap (λ l. body ∷ l) (published-append cs ds)
  published-append (subscribes k ∷ cs) ds = published-append cs ds
  published-append (unsubscribes k ∷ cs) ds = published-append cs ds

  -- The bus holds the end of the log, as much of it as its capacity is.
  pub record Represents (room : ℕ) (log : List E) (bus : EventBus E) : Type 0 where
    pub capacity : bus.recent_capacity ≡ room
    pub counted : bus.last_sequence ≡ length log
    pub held : bus.recent ≡ keep_last room (numbered_after 0 log)

  publish-Represents :
      (room : ℕ) (log : List E) (body : E) (bus : EventBus E)
      → Represents room log bus
      → Represents room (log ++ body ∷ []) (publish body bus).2
  unfolding publish
  publish-Represents room log body bus r =
      let next : Published E = record { sequence = suc (length log); body = body } in
      let e : 0 + length log ≡ length log = omega arith in
      let numbered : numbered_after 0 (log ++ body ∷ []) ≡ numbered_after 0 log ++ next ∷ [] =
        numbered_after-append 0 log (body ∷ [])
        ∙ ap (λ k. numbered_after 0 log ++ numbered_after k (body ∷ [])) e in
      record {
        capacity = r.capacity;
        counted = omega (arith, r.counted, length-append log (body ∷ []));
        held =
            rw (r.capacity, r.held, r.counted)
              (keep_last-snoc room (numbered_after 0 log) next
                ∙ ap (keep_last room) (sym numbered));
      }

  serve_all-Represents :
      (room : ℕ) (log : List E) (cs : List (BusCall E)) (bus : EventBus E)
      → Represents room log bus
      → Represents room (log ++ published cs) (serve_all cs bus)
  serve_all-Represents room log [] bus r = rw (append-nil log) r
  serve_all-Represents room log (publishes body ∷ cs) bus r =
      rw (append_assoc log (body ∷ []) (published cs)) at
        (serve_all-Represents room (log ++ body ∷ []) cs _ (publish-Represents room log body bus r))
  serve_all-Represents room log (subscribes k ∷ cs) bus r =
      serve_all-Represents room log cs (subscribe k bus)
        (unfold subscribe in record { capacity = r.capacity; counted = r.counted; held = r.held })
  serve_all-Represents room log (unsubscribes k ∷ cs) bus r =
      serve_all-Represents room log cs (unsubscribe k bus)
        (unfold unsubscribe in record { capacity = r.capacity; counted = r.counted; held = r.held })

  pub run-Represents :
      (room : ℕ) (cs : List (BusCall E))
      → Represents room (published cs) (serve_all cs (new_bus room))
  run-Represents room cs = serve_all-Represents room [] cs (new_bus room) (
      unfold new_bus keep_last in
      record { capacity = refl; counted = refl; held = sym (drop-nil (0 - room)) })

  pub numbered_after-drop :
      (k n : ℕ) (bs : List E) → drop k (numbered_after n bs) ≡ numbered_after (n + k) (drop k bs)
  numbered_after-drop zero n bs = let e : n ≡ n + 0 = omega arith in ap (λ j. numbered_after j bs) e
  numbered_after-drop (suc k) n [] = refl
  numbered_after-drop (suc k) n (b ∷ bs) =
      let e : suc n + k ≡ n + suc k = omega arith in
      numbered_after-drop k (suc n) bs ∙ ap (λ j. numbered_after j (drop k bs)) e

  -- A bus with a buffer for `room` events refines a log: after any calls of publish, subscribe and
  -- unsubscribe on a new bus, `events_since(s)` gives all that was published, numbered from 1 in
  -- the order of publication, without the first max(s, n - room) events, where n is the number of
  -- events published.
  pub events_since-serve_all :
      (room s : ℕ) (cs : List (BusCall E))
      → events_since s (serve_all cs (new_bus room))
        ≡ drop (max s (length (published cs) - room)) (numbered_after 0 (published cs))
  unfolding events_since keep_last
  events_since-serve_all room s cs =
      let log = published cs in
      let k = length (numbered_after 0 log) - room in
      let sum : s - (0 + k) + k ≡ max s (length log - room) =
        omega (arith, length-numbered_after 0 log) in
      rw ((run-Represents room cs).held, numbered_after-drop k 0 log)
        (newer-numbered_after s (0 + k) (drop k log)
          ∙ ap (drop (s - (0 + k))) (sym (numbered_after-drop k 0 log))
          ∙ drop-drop (s - (0 + k)) k (numbered_after 0 log)
          ∙ ap (λ j. drop j (numbered_after 0 log)) sum)
