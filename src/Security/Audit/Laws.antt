-- ===== src/Security/Audit/Laws.antt =====
-- The log is the newest events of its history.
use dart_odbc_fast.Prelude.{
  ℕ, zero, suc, ◌≤◌, min, Bool, true, false, ltb, if◌then◌else◌, List, [], ◌∷◌, ◌++◌, length, take,
  drop, Option, ◌≡◌, refl, sym, ap, ◌∙◌, arith, inl, inr, Bool-cases, length-append, length-take,
  take-append_eq,
}
use mathlib.Core.List.{reverse, reverse-cons, reverse-append}
use dart_odbc_fast.Wire.{Bytes}
use dart_odbc_fast.Security.Audit.{
  AuditEvent, AuditLogger, new, is_enabled, push_event, max_events, log_event, connection_event,
  query_event, error_event, log_connection, log_query, log_error, get_events, clear_events,
  set_enabled, event_count,
}

module _ {A : Type 0} where
  length-reverse : (xs : List A) → length (reverse xs) ≡ length xs
  length-reverse [] = refl
  length-reverse (x ∷ xs) =
      rw (reverse-cons x xs) (omega (arith, length-append (reverse xs) (x ∷ []), length-reverse xs))

  reverse-drop :
      (xs : List A) (n : ℕ) → length xs ≡ suc n → reverse (drop 1 xs) ≡ take n (reverse xs)
  reverse-drop [] n h = absurd (omega arith)
  reverse-drop (x ∷ xs) n h =
      rw (reverse-cons x xs)
        (sym (take-append_eq n (reverse xs) (x ∷ []) (omega (arith, length-reverse xs))))

  take-take : (m : ℕ) (xs : List A) → take m (take (suc m) xs) ≡ take m xs
  take-take zero xs = refl
  take-take (suc m) [] = refl
  take-take (suc m) (x ∷ xs) = ap (◌∷◌ x) (take-take m xs)

  take_short : (m : ℕ) (xs : List A) → length (take (suc m) xs) ≤ m → take (suc m) xs ≡ take m xs
  take_short zero [] h = refl
  take_short zero (x ∷ xs) h = absurd (omega arith)
  take_short (suc m) [] h = refl
  take_short (suc m) (x ∷ xs) h = ap (◌∷◌ x) (take_short m xs (omega arith))

-- Newest first, a push puts the event in front and keeps the limit.
push_event-take :
    (m : ℕ) (event : AuditEvent) (events history : List AuditEvent)
    → reverse events ≡ take (suc m) history
    → reverse (push_event (suc m) event events) ≡ event ∷ take m history
unfolding push_event
push_event-take m event events history h =
    let pushed = events ++ (event ∷ []) in
    let newest : reverse pushed ≡ event ∷ take (suc m) history =
      reverse-append events (event ∷ []) ∙ ap (◌∷◌ event) h in
    let count : length events ≡ length (take (suc m) history) =
      sym (length-reverse events) ∙ ap length h in
    let more = length-append events (event ∷ []) in
    elim (Bool-cases (ltb (suc m) (length pushed))) [
      | inl e ↦
          let full : length pushed ≡ suc (suc m) = ground (arith, length-take (suc m) history) in
          rw e (
            reverse-drop pushed (suc m) full
            ∙ ap (take (suc m)) newest
            ∙ ap (◌∷◌ event) (take-take m history))
      | inr e ↦
          let short : length (take (suc m) history) ≤ m = ground arith in
          rw e (newest ∙ ap (◌∷◌ event) (take_short m history short))
    ]

-- What may be done with a log.
pub data Operation : Type 0 where
  connection : ℕ → ℕ → Bytes → Operation
  query : ℕ → ℕ → Bytes → Operation
  error : ℕ → Option ℕ → Bytes → Operation
  clear : Operation
  enable : Bool → Operation

unfoldable pub run : List Operation → AuditLogger → AuditLogger
run [] logger = logger
run (connection now id s ∷ ops) logger = run ops (log_connection now id s logger)
run (query now id s ∷ ops) logger = run ops (log_query now id s logger)
run (error now id s ∷ ops) logger = run ops (log_error now id s logger)
run (clear ∷ ops) logger = run ops (clear_events logger)
run (enable b ∷ ops) logger = run ops (set_enabled b logger)

-- Whether the log is on, and every event since it was cleared that came while it was on, newest first.
abbrev pub History : Type 0
History = Bool × List AuditEvent

abbrev pub add : AuditEvent → History → History
add event (on, history) = (on, if on then event ∷ history else history)

unfoldable pub recall : List Operation → History → History
recall [] h = h
recall (connection now id s ∷ ops) h = recall ops (add (connection_event now id s) h)
recall (query now id s ∷ ops) h = recall ops (add (query_event now id s) h)
recall (error now id s ∷ ops) h = recall ops (add (error_event now id s) h)
recall (clear ∷ ops) (on, history) = recall ops (on, [])
recall (enable b ∷ ops) (on, history) = recall ops (b, history)

abbrev Recalls : AuditLogger → History → Type 0
Recalls logger h = (is_enabled logger ≡ h.0) × (reverse logger.events ≡ take max_events h.1)

log_event-Recalls :
    (event : AuditEvent) (logger : AuditLogger) (h : History)
    → Recalls logger h
    → Recalls (log_event event logger) (add event h)
unfolding log_event
log_event-Recalls event logger (true, history) (e, r) =
    rw e (refl, push_event-take 9999 event logger.events history r)
log_event-Recalls event logger (false, history) (e, r) = rw e (refl, r)

run-Recalls :
    (ops : List Operation) (logger : AuditLogger) (h : History)
    → Recalls logger h
    → Recalls (run ops logger) (recall ops h)
unfolding run recall log_connection log_query log_error clear_events set_enabled
run-Recalls [] logger h r = r
run-Recalls (connection now id s ∷ ops) logger h r =
    let event = connection_event now id s in
    run-Recalls ops (log_event event logger) (add event h) (log_event-Recalls event logger h r)
run-Recalls (query now id s ∷ ops) logger h r =
    let event = query_event now id s in
    run-Recalls ops (log_event event logger) (add event h) (log_event-Recalls event logger h r)
run-Recalls (error now id s ∷ ops) logger h r =
    let event = error_event now id s in
    run-Recalls ops (log_event event logger) (add event h) (log_event-Recalls event logger h r)
run-Recalls (clear ∷ ops) logger (on, history) r =
    run-Recalls ops (clear_events logger) (on, []) (r.0, refl)
run-Recalls (enable b ∷ ops) logger (on, history) r =
    run-Recalls ops (set_enabled b logger) (b, history) (refl, r.1)

-- After any operations on a new log it is on or off as it was last told, it holds the newest 10000 of
-- the events that came while it was on and after the last clearing, and `get_events` returns as many
-- of these as it is asked for, newest first.
pub audit_log_lem :
    (enabled : Bool) (ops : List Operation) (limit : ℕ)
    → (is_enabled (run ops (new enabled)) ≡ (recall ops (enabled, [])).0)
      × (event_count (run ops (new enabled)) ≡ min max_events (length (recall ops (enabled, [])).1))
      × (get_events limit (run ops (new enabled))
          ≡ take limit (take max_events (recall ops (enabled, [])).1))
unfolding get_events
audit_log_lem enabled ops limit =
    let (on, r) = run-Recalls ops (new enabled) (enabled, []) (refl, refl) in
    let logger = run ops (new enabled) in
    let history = (recall ops (enabled, [])).1 in
    (
      on,
      sym (length-reverse logger.events) ∙ ap length r ∙ length-take max_events history,
      ap (take limit) r,
    )
