-- ===== src/Webhook/Envelope.antt =====
-- src/webhook/envelope.ts over the names of src/generated/events.ts: which events cross the wire, and
-- under which names. What an event carries is only passed on, and no event has the name of a member
-- of `Object.prototype`.
use whats_multi.Webhook.Delivery.{WebhookEvent}
use whats_multi.Prelude.{
  ℕ, ◌≡◌, refl, subst, inl, inr, Bool, true, false, ◌||◌, Option, none, some, List, [], ◌∷◌, ◌++◌,
  if◌then◌else◌, Bool-cases, All, Text, codes, text_eq, Dict, lookup,
}

-- LIFECYCLE_EVENTS
unfoldable pub lifecycle_events : List Text
lifecycle_events =
    codes "qr"
    ∷ codes "pairing.code"
    ∷ codes "session.created"
    ∷ codes "session.state"
    ∷ codes "session.reconnecting"
    ∷ codes "session.logged_out"
    ∷ codes "session.removed"
    ∷ codes "session.fenced"
    ∷ codes "session.error"
    ∷ []

-- WIRE_EVENTS
unfoldable pub wire_events : List Text
wire_events =
    codes "message.received"
    ∷ codes "message.updated"
    ∷ codes "receipt.updated"
    ∷ codes "presence.updated"
    ∷ codes "contact.updated"
    ∷ codes "group.updated"
    ∷ codes "history.synced"
    ∷ []

-- BAILEYS_EVENT_TO_WIRE
unfoldable pub baileys_event_to_wire : Dict Text
baileys_event_to_wire =
    (codes "messages.upsert", codes "message.received")
    ∷ (codes "messages.update", codes "message.updated")
    ∷ (codes "message-receipt.update", codes "receipt.updated")
    ∷ (codes "presence.update", codes "presence.updated")
    ∷ (codes "contacts.update", codes "contact.updated")
    ∷ (codes "groups.update", codes "group.updated")
    ∷ (codes "messaging-history.set", codes "history.synced")
    ∷ []

-- FORWARDABLE_EVENTS
unfoldable pub forwardable_events : List Text
unfolding lifecycle_events wire_events
forwardable_events = lifecycle_events ++ wire_events

abbrev pub one_of : Text → List Text → Bool
one_of name [] = false
one_of name (x ∷ xs) = text_eq x name || one_of name xs

unfoldable pub wire_name : Text → Option Text
wire_name event =
    if one_of event forwardable_events then some event else lookup event baileys_event_to_wire

-- `allow === undefined || allow.has(event)`
abbrev pub allowed : Option (List Text) → Text → Bool
allowed none event = true
allowed (some names) event = one_of event names

-- The entries of a batch, with whether their data is defined.
unfoldable pub to_webhook_events :
    Option (List Text) → Text → ℕ → List (Text × Bool) → List WebhookEvent
unfolding wire_name
to_webhook_events allow session_id ts [] = []
to_webhook_events allow session_id ts ((name, false) ∷ batch) =
    to_webhook_events allow session_id ts batch
to_webhook_events allow session_id ts ((name, true) ∷ batch) =
    let rest = to_webhook_events allow session_id ts batch in
    elim (wire_name name) [
      | none ↦ rest
      | some event ↦
          if allowed allow event
          then record { event = event; session_id = session_id; ts = ts } ∷ rest
          else rest
    ]

-- A canonical name, as an allow-list may have it.
abbrev pub IsForwardable : Text → Type 0
IsForwardable event = one_of event forwardable_events ≡ true

abbrev AreForwardable : Dict Text → Type 0
AreForwardable [] = Unit
AreForwardable ((k, v) ∷ d) = IsForwardable v × AreForwardable d

table-AreForwardable : AreForwardable baileys_event_to_wire
unfolding baileys_event_to_wire forwardable_events
table-AreForwardable = (refl, (refl, (refl, (refl, (refl, (refl, (refl, tt)))))))

lookup-IsForwardable :
    (event name : Text) (d : Dict Text)
    → AreForwardable d
    → lookup event d ≡ some name
    → IsForwardable name
unfolding lookup
lookup-IsForwardable event name [] a h = cc
lookup-IsForwardable event name ((k, v) ∷ d) (p, a) h = elim (Bool-cases (text_eq k event)) [
  | inl e ↦
      let found : some v ≡ some name = rw (e, lookup) at h in
      let v_is : v ≡ name = cc in subst IsForwardable v_is p
  | inr e ↦ lookup-IsForwardable event name d a (rw (e, lookup) at h)
]

wire_name-IsForwardable : (event name : Text) → wire_name event ≡ some name → IsForwardable name
unfolding wire_name
wire_name-IsForwardable event name h = elim (Bool-cases (one_of event forwardable_events)) [
  | inl e ↦
      let found : some event ≡ some name = rw (e, wire_name) at h in
      let same : event ≡ name = cc in subst IsForwardable same e
  | inr e ↦
      lookup-IsForwardable event name baileys_event_to_wire table-AreForwardable
        (rw (e, wire_name) at h)
]

-- What `toWebhookEvents` owes to an event that goes out.
abbrev pub IsCanonical : Option (List Text) → Text → ℕ → WebhookEvent → Type 0
IsCanonical allow session_id ts e =
    IsForwardable e.event
    × (allowed allow e.event ≡ true)
    × (e.session_id ≡ session_id)
    × (e.ts ≡ ts)

-- Whatever goes out has a canonical name that the allow-list admits, and the session and time of its
-- batch.
to_webhook_events-IsCanonical :
    (allow : Option (List Text)) (session_id : Text) (ts : ℕ) (batch : List (Text × Bool))
    → All (IsCanonical allow session_id ts) (to_webhook_events allow session_id ts batch)
unfolding to_webhook_events
to_webhook_events-IsCanonical allow session_id ts [] = tt
to_webhook_events-IsCanonical allow session_id ts ((name, false) ∷ batch) =
    to_webhook_events-IsCanonical allow session_id ts batch
to_webhook_events-IsCanonical allow session_id ts ((name, true) ∷ batch) =
    added (wire_name name) refl (to_webhook_events allow session_id ts batch)
      (to_webhook_events-IsCanonical allow session_id ts batch)
  where
    added :
        (o : Option Text)
        → wire_name name ≡ o
        → (rest : List WebhookEvent) → All (IsCanonical allow session_id ts) rest
        → All (IsCanonical allow session_id ts) (elim o [
          | none ↦ rest
          | some event ↦
              if allowed allow event
              then record { event = event; session_id = session_id; ts = ts } ∷ rest
              else rest
        ])
    added none h rest a = a
    added (some event) h rest a = elim (Bool-cases (allowed allow event)) [
      | inl e ↦ rw e ((wire_name-IsForwardable name event h, e, refl, refl), a)
      | inr e ↦ rw e a
    ]
