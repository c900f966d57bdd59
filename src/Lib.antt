-- ===== src/Lib.antt =====
-- WhatsMulti runs many WhatsApp sessions in one process. A client stands over a session manager, an
-- event bus and plugins. The manager keeps a registry of sessions in a storage adapter; a session owns
-- a state machine, a reconnect policy, a send queue and, when locking is on, a lock that it renews; it
-- opens sockets of a driver, whose keys its authentication state keeps in the adapter, and follows
-- their events. The bus takes those to listeners and plugins, of which the webhook forwarder delivers
-- them to a receiver, signed and retried. An HTTP server offers all this behind bearer tokens.
--
-- Files, with the source that each one is about:
--   Prelude           texts, dictionaries, Boolean tests, decimals; no code of its own
--   Errors            src/errors.ts, src/generated/errors.ts
--   Config            src/config.ts: the pattern of session ids, the readers of fields (Values), and
--                     resolveConfig (Resolve) with its bounds (Bounds)
--   Utils             src/utils/backoff.ts (Backoff), src/utils/random.ts (Random),
--                     src/utils/concurrency.ts (Concurrency)
--   Lock              src/lock.ts, the in-memory provider; Lock/Fencing over histories of calls
--   Storage           src/storage/adapter.ts (Adapter, the operations and the laws of a storage),
--                     src/storage/namespace.ts (Namespace), src/storage/memory.ts (Memory, and
--                     Memory/Contract, where it fills the laws)
--   Auth              src/auth/keys.ts (Keys), src/auth/codec.ts (Codec), src/auth/auth-state.ts
--                     (State, over any storage that keeps the laws)
--   Session/State     src/session/state.ts with src/generated/states.ts
--   Session/Cause     src/session/disconnect.ts and src/compat/baileys.ts with
--                     src/generated/disconnect.ts
--   Session/Reconnect src/session/reconnect.ts
--   Session/Runtime   src/session/session.ts: Runtime/Connection has the socket and the driver's
--                     events, Runtime/Lifecycle the calls and the lock; the theorems are in
--                     Steps (over Invariant, EventTurns and CallTurns), Stopping,
--                     Disconnects, Fencing, Scanning and Races, over Moves
--   Session/Registry  src/session/registry.ts
--   Session/Manager   src/session/manager.ts; Shutdown has destroy and what load selects
--   Messaging/Queue   src/messaging/queue.ts
--   Messaging/Jid     src/messaging/jid.ts
--   Events            src/events/emitter.ts
--   Plugins           src/plugin.ts and the client's own part, src/client.ts
--   Webhook           src/webhook/signature.ts (Signature), src/webhook/delivery.ts (Delivery),
--                     src/webhook/envelope.ts with src/generated/events.ts (Envelope),
--                     src/webhook/index.ts (Forwarder)
--   Server            src/server/bearer.ts and the guard of src/server/index.ts (Bearer),
--                     src/server/live.ts (Live), the event stream of src/server/index.ts (Stream)
--
-- How the code is read. Every object is a record that its operations take and return, and a name of
-- the source stands in snake case: tryApply is try_apply. An async method is split where it awaits:
-- what the awaited promise brings is an argument of the function that goes on, so that other calls can
-- stand between the two. In session.ts, start is start_session, lock_answered and socket_opened; stop
-- is stop_begin and stop_end; logout is logout_begin and logout_done or logout_refused; #renew is
-- renew_begin and renew_answered. What waits only for a socket to be closed, for a lock to be released
-- or for the name of a lock's owner stands in one turn with what follows it; Runtime/Steps has the
-- parts of such turns as steps of their own too. In manager.ts,
-- create is create_begin, register and create_end. In queue.ts, delivery.ts and the event stream a
-- turn of the event loop is one function. Clock readings, minted tokens and random numbers are
-- arguments. Some fields record what callers can observe and the code does not store: notified,
-- events, purges, accepted, started, rejected, letters, given, signed, settled, traces, batches, heard,
-- sent.
--
-- Numbers are natural numbers; times are milliseconds. The arithmetic of mulberry32 wraps at 2 ^ 32 as
-- in the source, and a random number is its numerator over 2 ^ 32. The other numbers stay below
-- 2 ^ 53, where those of the source are exact; what a caller passes for a number in the configuration
-- may also be negative, fractional or not finite. Loops are structural, but for the
-- chunks of the forwarder, whose fuel is the number of events: a chunk takes one at least. The pump of
-- the delivery queue is a sequence of turns, whose number the measure of Webhook/Delivery/Rest bounds. Texts are lists of code units, or of bytes in Storage/Namespace.
--
-- Parameters. The UTF-8 bytes of a text, and the text of bytes, are arguments of key_of_text and
-- parse_text; elsewhere the keys of a session are given by their bytes. HMAC-SHA256 is the argument hmac of the signature; where a theorem needs it, its
-- hypothesis is that the digest is printed in lower-case hexadecimal digits. SHA-256 is an argument of
-- the bearer check, Base64 one of the codec, the parsing of a URL one of the forwarder's options. JSON
-- is the platform's: a stored value is the text that JSON.stringify made of it, or none, and the body
-- of a delivery is what the encoder returned, or none. What a task of the send queue does, what the
-- driver does, what a listener or a plugin does and what the receiver answers comes from outside, as
-- steps or as outcomes.
--
-- Not modelled: file storage and the database adapters, the routes of the HTTP server with their
-- metrics, media, QR rendering and log output. Of session.ts: the media downloads, the creds.update
-- event, and the second check of the socket when a queued send starts. Of manager.ts and client.ts:
-- the methods that hand a call on. Of emitter.ts: listeners that call the bus back. Of delivery.ts:
-- the request itself, the reading of Retry-After and the promises that wait for idle. Of errors.ts:
-- serialisation.
pub mod Prelude
pub mod Errors
pub mod Session
pub mod Utils
pub mod Lock
pub mod Messaging
pub mod Config
pub mod Storage
pub mod Auth
pub mod Events
pub mod Plugins
pub mod Server
pub mod Webhook
