-- ===== src/Session/Runtime/Scanning.antt =====
-- QR codes and pairing codes: what `#onQr` does with a code, and who may ask for a pairing code.
use whats_multi.Messaging.Jid.{normalize_phone_number}
use whats_multi.Session.State.{
  connecting, awaiting_scan, closed, try_apply, can, apply, next_state, is_pairable,
}
use whats_multi.Session.Runtime.{Session, try_move, close_socket, assert_alive}
use whats_multi.Session.Runtime.Connection.{on_qr}
use whats_multi.Session.Runtime.Lifecycle.{pairing_begin}
use whats_multi.Errors.{ok, err, pairing_in_progress, error_of}
use whats_multi.Prelude.{ℕ, ◌+◌, ◌≤◌, ◌<◌, ◌≡◌, ◌⊎◌, true, false, none, some, arith, Text}

-- A QR code in a session that is waiting for one. Within the limit the session awaits its scan with
-- the socket it has, and a pending pairing code is void; past the limit it is closed without a
-- socket, and will not reconnect.
qr_cases :
    (s : Session)
    → (s.machine.state ≡ connecting) ⊎ (s.machine.state ≡ awaiting_scan)
    → let s' = on_qr s in
      (s'.qr_attempt ≡ s.qr_attempt + 1)
      × (s'.pairing_pending ≡ false)
      × (s'.saw_qr ≡ true)
      × (((s.qr_attempt < s.config.qr_max_attempts)
            × (s'.machine.state ≡ awaiting_scan)
            × (s'.socket ≡ s.socket)
            × (s'.suppress_reconnect ≡ s.suppress_reconnect))
          ⊎ ((s.config.qr_max_attempts ≤ s.qr_attempt)
              × (s'.machine.state ≡ closed)
              × (s'.socket ≡ none)
              × (s'.attached ≡ false)
              × (s'.suppress_reconnect ≡ true)))
unfolding on_qr close_socket try_move try_apply can apply next_state
qr_cases s waiting = ground arith

-- A request for a pairing code is let through only for a session that is not destroyed, awaits a
-- scan, has a socket and has seen a QR code, and only for a valid number; a second request before
-- the first is void is then refused as PAIRING_IN_PROGRESS whatever its number.
one_pairing :
    (phone again : Text) (s : Session) {s' : Session}
    → pairing_begin phone s ≡ ok s'
    → (s.destroyed ≡ false)
      × (s.machine.state ≡ awaiting_scan)
      × (s.saw_qr ≡ true)
      × ((socket : ℕ) × (s.socket ≡ some socket))
      × ((d : Text) × (normalize_phone_number phone ≡ ok d))
      × (pairing_begin again s' ≡ err (error_of pairing_in_progress s.session_id))
unfolding pairing_begin is_pairable assert_alive
one_pairing phone again s h = ground arith
