-- ===== src/PrivacyRequest/EventQueue.antt =====
-- The queue of events that wait to be committed.
use forget_ops.Prelude.{List, [], arith, drop, length, length-append, refl, ℕ, ◌++◌, ◌<◌, ◌∷◌, ◌≡◌}
use forget_ops.PrivacyRequest.Commands.{Command, call}
use forget_ops.PrivacyRequest.Data.{DomainEvent, invalid_committed_event_count, range_error}
use forget_ops.PrivacyRequest.Effect.{Aggregate, err, ok}
use forget_ops.PrivacyRequest.Journal.{call_success_journal, event_name, event_types}
use forget_ops.PrivacyRequest.Recovery.{mark_events_committed, natural, pull_events}

drop-length : (xs ys : List DomainEvent) → drop (length xs) (xs ++ ys) ≡ ys
drop-length [] ys = refl
drop-length (x ∷ xs) ys = drop-length xs ys

-- Committing as many events as stand in front removes those and keeps the ones behind them, which
-- may have been recorded meanwhile; nothing else changes.
commit_front :
    (xs ys : List DomainEvent) (r : Aggregate)
    → r.events ≡ xs ++ ys
    → mark_events_committed (natural (length xs)) r ≡ (ok tt, record r { events = ys })
unfolding mark_events_committed
commit_front xs ys r h = ground (arith, drop-length xs ys, length-append xs ys)

-- A count above the number of waiting events is refused, and nothing changes.
pub commit_too_many :
    (n : ℕ) (r : Aggregate)
    → length r.events < n
    → mark_events_committed (natural n) r ≡ (err (range_error invalid_committed_event_count), r)
unfolding mark_events_committed
commit_too_many n r h = ground arith

-- After a successful call, pulling the events gives those that waited and then the call's own.
pub pull_after_call :
    (c : Command) (r : Aggregate)
    → (call c r).0 ≡ ok tt
    → (ts : List DomainEvent) × ((pull_events (call c r).1).0 ≡ ok ts)
      × (event_types ts ≡ event_types r.events ++ event_name c ∷ [])
unfolding pull_events
pull_after_call c r h = ((call c r).1.events, refl, (call_success_journal c r h).1)
