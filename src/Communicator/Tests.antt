-- ===== src/Communicator/Tests.antt =====
-- The theorems on attempts to connect, at concrete runs.
use doormat.Base.{◌≤◌, ◌≡◌, ◌==◌, refl, true, false, [], ◌∷◌, ◌++◌, length, map, if◌then◌else◌}
use doormat.Communicator.{
  Attempt, over, idle, due, connected, failed_with, done, failed, get_connector, on_resolved,
  endpoint_connect, on_connected, connect_ended, cancel_timer, on_tls_connected, on_connect_timer,
  resolved, connect_completed, timer_expired, timer_handled, late_handled, Reach, here, next,
}
use doormat.Communicator.Outcomes.{conclusions, expiries, concludes_once}
use doormat.Communicator.Endpoints.{run, until, accepted, connects_in_turn}
use doormat.Communicator.TlsTimer.{since_failure, tls_answers_twice}

-- A connect that is done when its timer has run out: the connector is given out, and then the error 4.
abbrev overtaken : Attempt
overtaken =
    on_connect_timer
      (record (on_connected (8 ∷ []) done
        (record (on_resolved (7 ∷ 8 ∷ []) (get_connector false false)) { timer = due })) {
          late = 0;
        })

overtaken-Reach : Reach (get_connector false false) overtaken
unfolding get_connector on_resolved endpoint_connect on_connected connect_ended cancel_timer
    on_connect_timer
overtaken-Reach =
    next
      (next (next (next here (resolved (7 ∷ 8 ∷ []) refl refl)) (timer_expired refl refl))
        (connect_completed 7 (8 ∷ []) done refl refl))
      (late_handled 0 refl refl)

overtaken_outcomes : overtaken.outcomes ≡ connected false ∷ failed_with 4 ∷ []
unfolding get_connector on_resolved endpoint_connect on_connected connect_ended cancel_timer
    on_connect_timer
overtaken_outcomes = refl

concludes_once_example :
    (conclusions overtaken.outcomes ≤ 1) × (expiries overtaken.outcomes ≤ length overtaken.connects)
concludes_once_example = concludes_once false false overtaken overtaken-Reach

connects_in_turn_example :
    (t : Attempt) × (run (λ i. i == 2) 3 (on_resolved (1 ∷ 2 ∷ 3 ∷ []) (get_connector false false))
      ≡ t)
    × (t.phase ≡ over)
    × (t.connects ≡ map (λ i. i ∷ []) (until (λ i. i == 2) (1 ∷ 2 ∷ 3 ∷ [])))
    × (t.outcomes
        ≡ (if accepted (λ i. i == 2) (1 ∷ 2 ∷ 3 ∷ []) then connected false else failed_with 3) ∷ [])
connects_in_turn_example = connects_in_turn (λ i. i == 2) 1 (2 ∷ 3 ∷ [])

until_two : until (λ i. i == 2) (1 ∷ 2 ∷ 3 ∷ []) ≡ 1 ∷ 2 ∷ []
unfolding until
until_two = refl

abbrev connecting_with_tls : Attempt
connecting_with_tls = on_resolved (7 ∷ []) (get_connector true false)

abbrev timed_out : Attempt
timed_out =
    on_connect_timer (record (on_tls_connected [] failed connecting_with_tls) { timer = idle })

timed_out-Reach : Reach (on_tls_connected [] failed connecting_with_tls) timed_out
unfolding get_connector on_resolved endpoint_connect on_tls_connected on_connect_timer
timed_out-Reach = next (next here (timer_expired refl refl)) (timer_handled refl refl)

tls_answers_twice_example :
    timed_out.outcomes ≡ connecting_with_tls.outcomes ++ since_failure timed_out.timer
unfolding get_connector on_resolved endpoint_connect
tls_answers_twice_example =
    tls_answers_twice connecting_with_tls timed_out refl refl refl timed_out-Reach
