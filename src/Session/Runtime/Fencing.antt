-- ===== src/Session/Runtime/Fencing.antt =====
-- What the lock's renewal decides for the session, and what a session without its lock can do.
use whats_multi.Lock.{LockToken}
use whats_multi.Messaging.Queue.{push}
use whats_multi.Session.State.{SessionTrigger, opened}
use whats_multi.Session.Runtime.{Session, try_move, clear_timer}
use whats_multi.Session.Runtime.Lifecycle.{
  on_fenced, Renewal, renewed, lost, unanswered, renew_begin, renew_answered, send,
}
use whats_multi.Session.Runtime.Moves.{after_fencing, try_move_state, fence_lands}
use whats_multi.Errors.{ok}
use whats_multi.Prelude.{
  ℕ, ◌≤◌, ◌<◌, ◌≡◌, refl, ◌∙◌, ◌↔◌, ◌⊎◌, inl, inr, true, false, none, some, arith, ltb, Bool-cases,
  Text,
}

-- No socket, listener, lock, heartbeat or timer is left, and no reconnect will be planned.
unfoldable pub HasGivenUp : Session → Type 0
HasGivenUp s =
    (s.socket ≡ none)
    × (s.attached ≡ false)
    × (s.held ≡ none)
    × (s.heartbeat ≡ false)
    × (s.timer ≡ none)
    × (s.suppress_reconnect ≡ true)

pub on_fenced-HasGivenUp : (owner : Text) (s : Session) → HasGivenUp (on_fenced owner s)
unfolding HasGivenUp on_fenced try_move
on_fenced-HasGivenUp owner s = (refl, refl, refl, refl, refl, refl)

pub on_fenced-state :
    (owner : Text) (s : Session) → (on_fenced owner s).machine.state ≡ after_fencing s.machine.state
unfolding on_fenced
on_fenced-state owner s =
    let lost : Session = record s { held = none; suppress_reconnect = true; heartbeat = false } in
    try_move_state SessionTrigger.fenced (clear_timer lost) ∙ fence_lands s.machine.state

-- How the session `s` has become `s'` on the answer of a renewal of `asked` at `now`: it has given
-- up, or it goes on.
unfoldable pub Decided : Renewal → ℕ → LockToken → Session → Session → Type 0
Decided answer now asked s s' =
    (((answer ≡ lost) ⊎ ((answer ≡ unanswered) × (asked.expires_at < now)))
      × HasGivenUp s'
      × (s'.machine.state ≡ after_fencing s.machine.state))
    ⊎ ((((token : LockToken) × (answer ≡ renewed token) × (s'.held ≡ some token))
          ⊎ ((answer ≡ unanswered) × (now ≤ asked.expires_at) × (s'.held ≡ s.held)))
        × (s'.heartbeat ≡ true)
        × (s'.socket ≡ s.socket)
        × (s'.machine ≡ s.machine))

answered-Decided :
    (answer : Renewal) (owner : Text) (now : ℕ) (asked : LockToken) (s : Session)
    → Decided answer now asked s (renew_answered answer owner now asked s)
unfolding Decided renew_answered
answered-Decided (renewed token) owner now asked s = inr (inl (token, refl, refl), refl, refl, refl)
answered-Decided lost owner now asked s =
    inl (inl refl, on_fenced-HasGivenUp owner s, on_fenced-state owner s)
answered-Decided unanswered owner now asked s =
    let gone = on_fenced-HasGivenUp owner s in
    let lands = on_fenced-state owner s in
    elim (Bool-cases (ltb asked.expires_at now)) [
      | inl late ↦ rw late (inl (inr (refl, ground arith), gone, lands))
      | inr early ↦ rw early (inr (inr (refl, ground arith, refl), refl, refl, refl))
    ]

-- A renewal asks the provider exactly for the token that a living session with a lock provider holds,
-- and then waits without a heartbeat. Whatever the session has become when the answer comes, it gives
-- everything up, in `closed` if it was connecting, awaiting a scan or open, exactly when the provider
-- says that the lock is lost, or does not answer once the token that was asked for has expired;
-- otherwise it goes on in its state with its socket and a heartbeat, with the new token if there is
-- one and else with the lock it has then, if any.
pub renewal_decides :
    (answer : Renewal) (owner : Text) (now : ℕ) (asked : LockToken) (s t : Session)
    → ((renew_begin s).0 ≡ some asked
        ↔ ((s.held ≡ some asked) × (s.destroyed ≡ false) × (s.config.locks ≡ true)))
      × ((renew_begin s).1 ≡ record s { heartbeat = false })
      × Decided answer now asked t (renew_answered answer owner now asked t)
unfolding renew_begin
renewal_decides answer owner now asked s t =
    (ground arith, refl, answered-Decided answer owner now asked t)

-- A send is accepted only by a session that is not destroyed, is in `open`, has a socket and whose
-- queue takes jobs; it is then queued there and changes nothing else.
send_accepts :
    (job now later : ℕ) (s : Session) {s' : Session}
    → send job now later s ≡ ok s'
    → (s.destroyed ≡ false)
      × (s.machine.state ≡ opened)
      × ((socket : ℕ) × (s.socket ≡ some socket))
      × (push job now later s.queue ≡ ok s'.queue)
      × (s' ≡ record s { queue = s'.queue })
unfolding send
send_accepts job now later s h = ground arith
