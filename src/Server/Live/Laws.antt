-- ===== src/Server/Live/Laws.antt =====
-- Which QR is served.
use whats_multi.Server.Live.{
  Held, Content, code_of, moved_to, unread, opened, StreamEvent, Client, LiveState, new_live,
  served, fresh, qr, store_code, consumes, remember, fits, offer, ingest, ingest_all,
}
use whats_multi.Prelude.{
  ℕ, ◌≡◌, refl, ap, ◌∙◌, Bool, true, false, ◌&&◌, ◌||◌, Option, none, some, List, [], ◌∷◌, arith,
  leb, if◌then◌else◌, Text, codes, text_eq, text_eq→eq, Dict, lookup, delete, lookup-insert,
  lookup-delete,
}

-- The QR that stands for a session after one more event: the latest one that was issued since the
-- session last opened or was removed.
abbrev pub issued : Content → Option Held → Option Held
issued (code_of held) old = some held
issued _ old = old

-- The session was removed, or moved to `open`.
abbrev pub is_over : Content → Text → Bool
is_over (moved_to state) name =
    text_eq name (codes "session.removed")
    || (text_eq name (codes "session.state") && text_eq state (codes "open"))
is_over _ name = text_eq name (codes "session.removed")

abbrev pub stands : Text → StreamEvent → Option Held → Option Held
stands id e old =
    if text_eq e.session_id id
    then (if text_eq e.event (codes "qr")
        then issued e.content old
        else if is_over e.content e.event
        then none
        else old)
    else old

abbrev pub standing : Text → List StreamEvent → Option Held → Option Held
standing id [] old = old
standing id (e ∷ es) old = standing id es (stands id e old)

-- What may be shown of it at a time.
abbrev pub scannable : ℕ → Option Held → Option Held
scannable now none = none
scannable now (some held) = if leb held.expires_at now then none else some held

offer-qrs : (e : StreamEvent) (cs : List Client) (s : LiveState) → (offer e cs s).qrs ≡ s.qrs
unfolding offer
offer-qrs e [] s = refl
offer-qrs e (c ∷ cs) s = offer-qrs e cs _ ∙ kept (fits c.filter e)
  where
    kept : (b : Bool) → (if b then record s { heard = (c.ref, e) ∷ s.heard } else s).qrs ≡ s.qrs
    kept true = refl
    kept false = refl

offer-subscribed :
    (e : StreamEvent) (cs : List Client) (s : LiveState) → (offer e cs s).subscribed ≡ s.subscribed
unfolding offer
offer-subscribed e [] s = refl
offer-subscribed e (c ∷ cs) s = offer-subscribed e cs _ ∙ kept (fits c.filter e)
  where
    kept :
        (b : Bool)
        → (if b then record s { heard = (c.ref, e) ∷ s.heard } else s).subscribed ≡ s.subscribed
    kept true = refl
    kept false = refl

stored :
    (id j : Text) (c : Content) (d : Dict Held)
    → lookup j (store_code id c d) ≡ (if text_eq id j then issued c (lookup j d) else lookup j d)
stored id j (code_of held) d = lookup-insert id j held d
stored id j (moved_to t) d = ground arith
stored id j unread d = ground arith

-- An event of the name "pairing.code" ends nothing.
pairing_code_keeps :
    (e : StreamEvent) → text_eq e.event (codes "pairing.code") ≡ true → consumes e ≡ false
pairing_code_keeps e named = rw (text_eq→eq e.event (codes "pairing.code") named) (refl)

opened-is_over :
    (c : Content) (name : Text)
    → (text_eq name (codes "session.removed") || (text_eq name (codes "session.state") && opened c))
      ≡ is_over c name
opened-is_over (code_of held) name = ground arith
opened-is_over (moved_to state) name = refl
opened-is_over unread name = ground arith

remember-qrs :
    (id : Text) (e : StreamEvent) (s : LiveState)
    → lookup id (remember e s).qrs ≡ stands id e (lookup id s.qrs)
unfolding remember
remember-qrs id e s =
    by_name (text_eq e.event (codes "qr")) (text_eq e.event (codes "pairing.code")) (consumes e)
      (pairing_code_keeps e)
    ∙ ap
        (λ c.
          if text_eq e.session_id id
          then (if text_eq e.event (codes "qr")
              then issued e.content (lookup id s.qrs)
              else if c
              then none
              else lookup id s.qrs)
          else lookup id s.qrs)
        (opened-is_over e.content e.event)
  where
    by_name :
        (q p c : Bool)
        → (p ≡ true → c ≡ false)
        → lookup id
            (if q
              then record s { qrs = store_code e.session_id e.content s.qrs }
              else if p
              then record s { codes_issued = store_code e.session_id e.content s.codes_issued }
              else if c
              then record s {
                qrs = delete e.session_id s.qrs;
                codes_issued = delete e.session_id s.codes_issued;
              }
              else s).qrs
          ≡ (if text_eq e.session_id id
              then (if q
                  then issued e.content (lookup id s.qrs)
                  else if c
                  then none
                  else lookup id s.qrs)
              else lookup id s.qrs)
    by_name true p c keeps = stored e.session_id id e.content s.qrs
    by_name false true c keeps = rw (keeps refl) (ground arith)
    by_name false false true keeps = lookup-delete e.session_id id s.qrs
    by_name false false false keeps = ground arith

ingest-qrs :
    (id : Text) (e : StreamEvent) (s : LiveState)
    → lookup id (ingest e s).qrs ≡ stands id e (lookup id s.qrs)
unfolding ingest
ingest-qrs id e s =
    ap (lookup id) (offer-qrs e (remember e s).clients (remember e s)) ∙ remember-qrs id e s

remember-subscribed : (e : StreamEvent) (s : LiveState) → (remember e s).subscribed ≡ s.subscribed
unfolding remember
remember-subscribed e s = ground arith

ingest-subscribed : (e : StreamEvent) (s : LiveState) → (ingest e s).subscribed ≡ s.subscribed
unfolding ingest
ingest-subscribed e s =
    offer-subscribed e (remember e s).clients (remember e s) ∙ remember-subscribed e s

ingest_all-qrs :
    (id : Text) (es : List StreamEvent) (s : LiveState)
    → s.subscribed ≡ true
    → lookup id (ingest_all es s).qrs ≡ standing id es (lookup id s.qrs)
unfolding ingest_all
ingest_all-qrs id [] s live = refl
ingest_all-qrs id (e ∷ es) s live =
    ap (λ b. lookup id (if b then ingest_all es (ingest e s) else s).qrs) live
    ∙ ingest_all-qrs id es (ingest e s) (ingest-subscribed e s ∙ live)
    ∙ ap (standing id es) (ingest-qrs id e s)

qr-scannable :
    (now : ℕ) (id : Text) (s : LiveState) → (qr now id s).0 ≡ scannable now (lookup id s.qrs)
unfolding qr fresh
qr-scannable now id s = by_held (lookup id s.qrs)
  where
    by_held : (o : Option Held) → (served now id s.qrs o).0 ≡ scannable now o
    by_held none = refl
    by_held (some held) = ground arith

-- After any events that reach an open live state, the QR that is served for a session is the last one
-- that was issued for it since it last opened or was removed, as long as that has not expired;
-- otherwise none is served.
pub live_serves :
    (now : ℕ) (id : Text) (es : List StreamEvent)
    → (qr now id (ingest_all es new_live)).0 ≡ scannable now (standing id es none)
unfolding new_live lookup
live_serves now id es =
    qr-scannable now id (ingest_all es new_live)
    ∙ ap (scannable now) (ingest_all-qrs id es new_live refl)
