-- ===== src/Breaker/Examples.antt =====
-- Runs of the circuit breaker on small inputs.
use andruha_identity_service.Prelude.{
  ◌≤◌, ◌<◌, ◌≡◌, refl, inl, true, false, none, some, [], ◌∷◌, arith,
}
use andruha_identity_service.Breaker.{
  closed, opened, half_open, Breaker, Ticket, rejected, admitted, failure, create, admit, finish,
}
use andruha_identity_service.Breaker.System.{let_in, here, next, holders, Shape}
use andruha_identity_service.Breaker.Invariant.{Reach-one_probe}
use andruha_identity_service.Breaker.Behaviour.{
  failing_calls, failing_calls_trip, Decides, opened_then_probe, finish_stale,
}

-- Three failures open it, for ten ticks.
abbrev fresh : Breaker
fresh = record {
  fail_max = 3;
  recovery_timeout = 10;
  state = closed;
  failure_count = 0;
  opened_at = none;
  probe_in_progress = false;
  probe_token = none;
  generation = 0;
  next_token = 0;
}

abbrev down : Breaker
down = record fresh { state = opened; failure_count = 3; opened_at = some 5; generation = 1 }

abbrev probing : Breaker
probing = record down {
  state = half_open;
  probe_in_progress = true;
  probe_token = some 0;
  next_token = 1;
}

abbrev probe : Ticket
probe = record { generation = 1; probe_token = some 0 }

fresh-create : create 3 10 ≡ some fresh
unfolding create
fresh-create = refl

admit-down : admit 15 down ≡ (admitted probe, probing)
unfolding admit
admit-down = refl

admit-fresh : admit 4 fresh ≡ (admitted (record { generation = 0; probe_token = none }), fresh)
unfolding admit
admit-fresh = refl

Reach-one_probe_example :
    (holders none (record { generation = 0; probe_token = none } ∷ []) ≡ 0) × Shape fresh
Reach-one_probe_example = Reach-one_probe 3 10 fresh fresh-create (
    next here (
      let_in (record { breaker = fresh; calls = [] }) 4
        (record { generation = 0; probe_token = none }) fresh admit-fresh))

failing_calls_trip_example :
    (failing_calls ((1, 2) ∷ (4, 7) ∷ []) fresh ≡ record fresh { failure_count = 2 })
    × ((failing_calls ((1, 2) ∷ (4, 7) ∷ (8, 9) ∷ []) fresh).state ≡ opened)
    × ((failing_calls ((1, 2) ∷ (4, 7) ∷ (8, 9) ∷ []) fresh).opened_at ≡ some 9)
failing_calls_trip_example = failing_calls_trip ((1, 2) ∷ (4, 7) ∷ []) 8 9 fresh refl (omega arith)

opened_then_probe_example :
    (15 < 15 → admit 15 down ≡ (rejected, down))
    × (15 ≤ 15 → (t : Ticket) × (c : Breaker) × (admit 15 down ≡ (admitted t, c)) × Decides t c)
opened_then_probe_example = opened_then_probe 15 5 down refl refl refl

finish_stale_example :
    finish 30 (record { generation = 0; probe_token = none }) failure probing ≡ probing
finish_stale_example =
    finish_stale 30 (record { generation = 0; probe_token = none }) failure probing
      (inl (refl, omega arith))
