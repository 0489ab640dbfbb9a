-- ===== src/Communicator/TlsTimer.antt =====
-- The timer of a connect with TLS, which runs on when the connect has failed.
use doormat.Base.{◌≡◌, refl, sym, ap, ◌∙◌, subst, false, List, [], ◌∷◌, ◌++◌, append_assoc, arith}
use doormat.Communicator.{
  Attempt, Timer, idle, running, due, failed, Outcome, failed_with, endpoint_connect,
  on_tls_connected, on_connect_timer, Step, resolved, connect_completed, tls_completed,
  handshake_completed, timer_expired, timer_handled, late_handled, stopped, destroyed, Reach, here,
  next,
}
use doormat.Communicator.Outcomes.{open_ended, armed}

-- What has been said since the connect failed.
abbrev pub since_failure : Timer → List Outcome
since_failure idle = failed_with 3 ∷ failed_with 4 ∷ []
since_failure running = failed_with 3 ∷ []
since_failure due = failed_with 3 ∷ []

record HasFailed (said : List Outcome) (s : Attempt) : Type 0 where
  ended : open_ended s.phase ≡ 0
  none_late : s.late ≡ 0
  says : s.outcomes ≡ said ++ since_failure s.timer

since_failure-armed : (k : Timer) → armed k ≡ 1 → since_failure k ≡ failed_with 3 ∷ []
since_failure-armed idle h = absurd (omega (arith, h))
since_failure-armed running h = refl
since_failure-armed due h = refl

Step-HasFailed :
    {said : List Outcome} {s t : Attempt} → Step s t → HasFailed said s → HasFailed said t
unfolding on_connect_timer
Step-HasFailed (resolved its p e) h = absurd (omega (arith, ap open_ended p, h.ended))
Step-HasFailed (connect_completed it rest c p e) h =
    absurd (omega (arith, ap open_ended p, h.ended))
Step-HasFailed (tls_completed c p e) h = absurd (omega (arith, ap open_ended p, h.ended))
Step-HasFailed (handshake_completed c p e) h = absurd (omega (arith, ap open_ended p, h.ended))
Step-HasFailed {said} {s} (timer_expired m e) h = subst (HasFailed said) (sym e) (record {
  ended = h.ended;
  none_late = h.none_late;
  says = h.says ∙ ap (λ k. said ++ since_failure k) m;
})
Step-HasFailed {said} {s} (timer_handled m e) h = subst (HasFailed said) (sym e) (record {
  ended = h.ended;
  none_late = h.none_late;
  says =
      ap (λ l. l ++ (failed_with 4 ∷ [])) (h.says ∙ ap (λ k. said ++ since_failure k) m)
      ∙ append_assoc said (failed_with 3 ∷ []) (failed_with 4 ∷ []);
})
Step-HasFailed (late_handled n m e) h = absurd (omega (arith, m, h.none_late))
Step-HasFailed {said} (stopped e) h =
    subst (HasFailed said) (sym e)
      (record { ended = h.ended; none_late = h.none_late; says = h.says })
Step-HasFailed {said} (destroyed e) h =
    subst (HasFailed said) (sym e)
      (record { ended = h.ended; none_late = h.none_late; says = h.says })

Reach-HasFailed :
    {said : List Outcome} {s t : Attempt} → HasFailed said s → Reach s t → HasFailed said t
Reach-HasFailed h here = h
Reach-HasFailed h (next r st) = Step-HasFailed st (Reach-HasFailed h r)

on_tls_connected-HasFailed :
    (s : Attempt)
    → s.dead ≡ false
    → s.late ≡ 0
    → armed s.timer ≡ 1
    → HasFailed s.outcomes (on_tls_connected [] failed s)
unfolding on_tls_connected endpoint_connect
on_tls_connected-HasFailed s d l m = rw d (record {
  ended = refl;
  none_late = l;
  says = ap (λ k. s.outcomes ++ k) (sym (since_failure-armed s.timer m));
})

-- When the connect of an attempt with TLS fails, its factory is there and its timer is set, then
-- whatever happens next, the error 3 has been given, and once the callback of the timer has run, the
-- error 4 as well, and nothing else is ever given: every such attempt whose timer runs out answers twice.
pub tls_answers_twice :
    (s t : Attempt)
    → s.dead ≡ false
    → s.late ≡ 0
    → armed s.timer ≡ 1
    → Reach (on_tls_connected [] failed s) t
    → t.outcomes ≡ s.outcomes ++ since_failure t.timer
tls_answers_twice s t d l m r =
    let h = Reach-HasFailed (on_tls_connected-HasFailed s d l m) r in h.says
