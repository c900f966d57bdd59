-- ===== src/Session/Tests.antt =====
-- The session's tables and its reconnect policy on single causes.
use whats_multi.Utils.Backoff.{backoff_delay, exp_ms}
use whats_multi.Utils.Random.{mulberry32}
use whats_multi.Session.State.{SessionTrigger, opened, connected, start, stop, SessionMachine}
use whats_multi.Session.Cause.{
  DriverError, restart_required, connection_lost, disconnect_actions, purges_creds,
  baileys_status_to_cause, baileys_message_to_cause, match_message, message_cause, status_cause,
  read_status_code, resolve_disconnect_cause, decision_for, decide_disconnect,
}
use whats_multi.Session.Reconnect.{ReconnectPolicy, retry, refuse, exhausted, plan, plan_backoff}
use whats_multi.Session.Cause.Laws.{purge_needs_evidence}
use whats_multi.Session.Reconnect.Laws.{plan_all}
use whats_multi.Prelude.{ℕ, ◌≡◌, refl, ◌⊎◌, true, none, some, List, [], ◌∷◌, codes, includes, lower}

abbrev desk : SessionMachine
desk = record { session_id = codes "desk"; state = opened; notified = [] }

abbrev triggers : List SessionTrigger
triggers = start ∷ start ∷ connected ∷ stop ∷ []

-- 515 and a lost device.
abbrev restart_error : DriverError
restart_error = record {
  output_status = some 515;
  direct_status = none;
  message = codes "Stream Errored (restart required)";
}

abbrev unlinked_error : DriverError
unlinked_error = record {
  output_status = some 401;
  direct_status = none;
  message = codes "Intentional Logout";
}

restart_cause : resolve_disconnect_cause restart_error ≡ restart_required
unfolding resolve_disconnect_cause read_status_code message_cause match_message
    baileys_message_to_cause status_cause baileys_status_to_cause
restart_cause = refl

unlinked_purges : (decide_disconnect unlinked_error).purge_creds ≡ true
unfolding decide_disconnect decision_for purges_creds resolve_disconnect_cause read_status_code
    message_cause match_message baileys_message_to_cause status_cause baileys_status_to_cause
unlinked_purges = refl

abbrev twice : ReconnectPolicy
twice = record {
  config = record {
    enabled = true;
    backoff = record { base_ms = 1000; cap_ms = 60000; floor_ms = 250 };
    max_attempts = 2;
  };
  attempt = 0;
  seed = 1;
}

-- The draws of the seed 1 (spec/vectors/backoff.json).
plan_twice :
    (plan_all twice (connection_lost ∷ connection_lost ∷ connection_lost ∷ [])).0
    ≡ retry connection_lost 1 720
      ∷ retry connection_lost 2 254
      ∷ refuse connection_lost exhausted
      ∷ []
unfolding plan_all plan plan_backoff decision_for disconnect_actions mulberry32 backoff_delay exp_ms
plan_twice = refl

abbrev first_delay : ℕ
first_delay = 720

purge_needs_evidence_example :
    (includes (codes "bad session") (lower unlinked_error.message) ≡ true)
    ⊎ ((status : ℕ) × (read_status_code unlinked_error ≡ some status)
        × ((status ≡ 401) ⊎ (status ≡ 403) ⊎ (status ≡ 411)))
purge_needs_evidence_example = purge_needs_evidence unlinked_error unlinked_purges
