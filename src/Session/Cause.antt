-- ===== src/Session/Cause.antt =====
-- src/session/disconnect.ts and src/compat/baileys.ts over src/generated/disconnect.ts: which cause
-- a disconnect has, and what follows from it.
pub mod Laws
use whats_multi.Session.State.{SessionState, SessionTrigger, disconnected, next_state}
use whats_multi.Session.State
use whats_multi.Prelude.{
  ℕ, Bool, true, false, ◌&&◌, Option, none, some, List, [], ◌∷◌, ◌==◌, if◌then◌else◌, is_empty,
  Text, codes, includes, lower,
}

pub data DisconnectCause : Type 0 where
  restart_required connection_closed connection_lost timed_out service_unavailable : DisconnectCause
  server_error connection_replaced logged_out bad_session multidevice_mismatch : DisconnectCause
  device_removed banned temporary_ban client_outdated bad_user_agent unknown : DisconnectCause

pub data DisconnectAction : Type 0 where
  reconnect_backoff reconnect_immediate terminal : DisconnectAction

-- DISCONNECT_ACTIONS
unfoldable pub disconnect_actions : DisconnectCause → DisconnectAction
disconnect_actions restart_required = reconnect_immediate
disconnect_actions connection_closed = reconnect_backoff
disconnect_actions connection_lost = reconnect_backoff
disconnect_actions timed_out = reconnect_backoff
disconnect_actions service_unavailable = reconnect_backoff
disconnect_actions server_error = reconnect_backoff
disconnect_actions unknown = reconnect_backoff
disconnect_actions _ = terminal

-- PURGES_CREDS
unfoldable pub purges_creds : DisconnectCause → Bool
purges_creds logged_out = true
purges_creds bad_session = true
purges_creds multidevice_mismatch = true
purges_creds device_removed = true
purges_creds banned = true
purges_creds _ = false

-- BAILEYS_STATUS_TO_CAUSE
unfoldable pub baileys_status_to_cause : ℕ → Option DisconnectCause
baileys_status_to_cause status =
    if status == 401
    then some logged_out
    else if status == 403
    then some device_removed
    else if status == 408
    then some timed_out
    else if status == 411
    then some multidevice_mismatch
    else if status == 428
    then some connection_closed
    else if status == 440
    then some connection_replaced
    else if status == 500
    then some server_error
    else if status == 503
    then some service_unavailable
    else if status == 515
    then some restart_required
    else none

-- BAILEYS_MESSAGE_TO_CAUSE
unfoldable pub baileys_message_to_cause : List (Text × DisconnectCause)
baileys_message_to_cause = (codes "bad session", bad_session) ∷ []

-- What the driver threw, as far as it is read: `error.output.statusCode`, `error.statusCode` (each
-- only when it is a number) and the message (empty when there is none).
pub record DriverError : Type 0 where
  pub output_status : Option ℕ
  pub direct_status : Option ℕ
  pub message : Text

unfoldable pub read_status_code : DriverError → Option ℕ
read_status_code e = elim e.output_status [ some code ↦ some code | none ↦ e.direct_status ]

-- The loop over the message table.
unfoldable pub match_message : Text → List (Text × DisconnectCause) → Option DisconnectCause
match_message message [] = none
match_message message ((needle, cause) ∷ rest) =
    let later = match_message message rest in if includes needle message then some cause else later

abbrev pub or_unknown : Option DisconnectCause → DisconnectCause
or_unknown none = unknown
or_unknown (some cause) = cause

-- The message part of `resolveDisconnectCause`, on the lowercased message.
unfoldable pub message_cause : Text → Option DisconnectCause
unfolding match_message baileys_message_to_cause
message_cause message =
    if is_empty message then none else match_message message baileys_message_to_cause

-- Its status part.
unfoldable pub status_cause : Option ℕ → DisconnectCause
unfolding baileys_status_to_cause
status_cause none = unknown
status_cause (some status) = or_unknown (baileys_status_to_cause status)

unfoldable pub resolve_disconnect_cause : DriverError → DisconnectCause
unfolding read_status_code message_cause status_cause
resolve_disconnect_cause e = elim (message_cause (lower e.message)) [
  | some cause ↦ cause
  | none ↦ status_cause (read_status_code e)
]

abbrev pub is_terminal_action : DisconnectAction → Bool
is_terminal_action terminal = true
is_terminal_action _ = false

abbrev is_immediate : DisconnectAction → Bool
is_immediate reconnect_immediate = true
is_immediate _ = false

pub record DisconnectDecision : Type 0 where
  pub cause : DisconnectCause
  pub action : DisconnectAction
  pub purge_creds : Bool
  pub is_final : Bool

unfoldable pub decision_for : DisconnectCause → DisconnectDecision
unfolding disconnect_actions purges_creds
decision_for cause = record {
  cause = cause;
  action = disconnect_actions cause;
  purge_creds = purges_creds cause;
  is_final = is_terminal_action (disconnect_actions cause);
}

unfoldable pub decide_disconnect : DriverError → DisconnectDecision
unfolding resolve_disconnect_cause decision_for
decide_disconnect e = decision_for (resolve_disconnect_cause e)

abbrev is_legal : Option SessionState → Bool
is_legal none = false
is_legal (some to) = true

unfoldable pub disconnect_trigger : DisconnectCause → SessionState → SessionTrigger
unfolding disconnect_actions purges_creds next_state
disconnect_trigger cause from =
    if purges_creds cause
    then SessionTrigger.logged_out
    else if is_immediate (disconnect_actions cause)
        && is_legal (next_state from SessionTrigger.restart_required)
    then SessionTrigger.restart_required
    else disconnected
