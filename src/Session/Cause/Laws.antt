-- ===== src/Session/Cause/Laws.antt =====
-- When credentials are deleted, and where a disconnect leads.
use whats_multi.Session.State.{SessionState, connecting, awaiting_scan, opened, closed, next_state}
use whats_multi.Session.Cause.{
  DisconnectCause, DriverError, restart_required, purges_creds, message_cause, status_cause,
  read_status_code, resolve_disconnect_cause, decision_for, decide_disconnect, disconnect_trigger,
}
use whats_multi.Prelude.{
  ℕ, ◌≡◌, refl, ◌⊎◌, inl, inr, true, false, Option, none, some, [], ◌∷◌, arith, if◌then◌else◌,
  Bool-cases, Text, codes, includes, lower,
}

-- A cause that deletes the credentials is never retried.
purge-IsFinal :
    (cause : DisconnectCause)
    → (decision_for cause).purge_creds ≡ true
    → (decision_for cause).is_final ≡ true
unfolding decision_for
purge-IsFinal cause h = ground arith

purging_status :
    (given : Option ℕ)
    → purges_creds (status_cause given) ≡ true
    → (status : ℕ) × (given ≡ some status) × ((status ≡ 401) ⊎ (status ≡ 403) ⊎ (status ≡ 411))
unfolding purges_creds status_cause
purging_status none h = cc
purging_status (some status) h = (status, refl, ground arith)

quiet_message : (m : Text) → includes (codes "bad session") m ≡ false → message_cause m ≡ none
unfolding message_cause
quiet_message [] h = refl
quiet_message (c ∷ m) h = rw h

-- Without "bad session" in its message a disconnect deletes the credentials only on the statuses
-- 401, 403 and 411; so a bare 500 never does.
pub purge_needs_evidence :
    (e : DriverError)
    → (decide_disconnect e).purge_creds ≡ true
    → (includes (codes "bad session") (lower e.message) ≡ true)
      ⊎ ((status : ℕ) × (read_status_code e ≡ some status)
          × ((status ≡ 401) ⊎ (status ≡ 403) ⊎ (status ≡ 411)))
unfolding decision_for decide_disconnect resolve_disconnect_cause
purge_needs_evidence e h = elim (Bool-cases (includes (codes "bad session") (lower e.message))) [
  | inl said ↦ inl said
  | inr quiet ↦ inr (
      purging_status (read_status_code e)
        (rw (quiet_message (lower e.message) quiet, resolve_disconnect_cause) at h))
]

-- In each state that has a live socket the trigger of a disconnect is legal, and leads to
-- `logged_out` exactly for a cause that deletes the credentials, back to `connecting` exactly for a
-- restart that was awaited after a scan, and to `closed` otherwise.
pub disconnect_lands :
    (cause : DisconnectCause) (from : SessionState)
    → (from ≡ connecting) ⊎ (from ≡ awaiting_scan) ⊎ (from ≡ opened)
    → next_state from (disconnect_trigger cause from)
      ≡ some (
          if purges_creds cause then SessionState.logged_out else (elim cause [
            | restart_required ↦ elim from [ awaiting_scan ↦ connecting | _ ↦ closed ]
            | _ ↦ closed
          ]))
unfolding disconnect_trigger
disconnect_lands cause from h = ground arith
