-- ===== src/Server/Live.antt =====
-- src/server/live.ts. A client of the stream is known by a number; its listener and its `onClose` are
-- what `heard` and `ended` record, the latest first. An event carries a QR or a pairing code with its
-- expiry, the state that a session moved to, or what nobody reads here.
pub mod Laws
use whats_multi.Prelude.{
  ℕ, Bool, true, false, not, ◌&&◌, ◌||◌, Option, none, some, List, [], ◌∷◌, ◌++◌, ltb, ◌==◌,
  if◌then◌else◌, keep, Text, codes, text_eq, Dict, lookup, insert, delete,
}

pub record Held : Type 0 where
  pub code : Text
  pub expires_at : ℕ

pub data Content : Type 0 where
  code_of : Held → Content
  moved_to : Text → Content
  unread : Content

pub record StreamEvent : Type 0 where
  pub event : Text
  pub session_id : Text
  pub content : Content

pub record StreamFilter : Type 0 where
  pub session_id : Option Text
  pub events : Option (List Text)

pub record Client : Type 0 where
  pub ref : ℕ
  pub filter : StreamFilter

pub record LiveState : Type 0 where
  pub clients : List Client
  pub qrs : Dict Held
  pub codes_issued : Dict Held
  pub subscribed : Bool
  pub heard : List (ℕ × StreamEvent)
  pub ended : List ℕ

unfoldable pub new_live : LiveState
new_live = record {
  clients = [];
  qrs = [];
  codes_issued = [];
  subscribed = true;
  heard = [];
  ended = [];
}

abbrev pub unexpired : ℕ → Held → Bool
unexpired now held = ltb now held.expires_at

abbrev pub served : ℕ → Text → Dict Held → Option Held → Option Held × Dict Held
served now id store none = (none, store)
served now id store (some held) =
    if unexpired now held then (some held, store) else (none, delete id store)

-- `#fresh`: what is held, and the map without an entry that lapsed.
unfoldable pub fresh : ℕ → Text → Dict Held → Option Held × Dict Held
fresh now id store = served now id store (lookup id store)

unfoldable pub qr : ℕ → Text → LiveState → Option Held × LiveState
unfolding fresh
qr now id s = let (held, store) = fresh now id s.qrs in (held, record s { qrs = store })

unfoldable pub pairing_code : ℕ → Text → LiveState → Option Held × LiveState
unfolding fresh
pairing_code now id s =
    let (held, store) = fresh now id s.codes_issued in (held, record s { codes_issued = store })

unfoldable pub subscribe : Client → LiveState → LiveState
subscribe c s = record s { clients = s.clients ++ c ∷ [] }

unfoldable pub unsubscribe : ℕ → LiveState → LiveState
unsubscribe ref s = record s { clients = keep (λ c. not (c.ref == ref)) s.clients }

abbrev refs_onto : List Client → List ℕ → List ℕ
refs_onto [] acc = acc
refs_onto (c ∷ cs) acc = refs_onto cs (c.ref ∷ acc)

unfoldable pub close : LiveState → LiveState
close s = record s {
  clients = [];
  qrs = [];
  codes_issued = [];
  subscribed = false;
  ended = refs_onto s.clients s.ended;
}

-- `#opened`
abbrev pub opened : Content → Bool
opened (moved_to state) = text_eq state (codes "open")
opened _ = false

abbrev pub store_code : Text → Content → Dict Held → Dict Held
store_code id (code_of held) store = insert id held store
store_code id _ store = store

-- Whether an event ends what is held for its session.
abbrev pub consumes : StreamEvent → Bool
consumes e =
    text_eq e.event (codes "session.removed")
    || (text_eq e.event (codes "session.state") && opened e.content)

-- `#remember`
unfoldable pub remember : StreamEvent → LiveState → LiveState
remember e s =
    if text_eq e.event (codes "qr")
    then record s { qrs = store_code e.session_id e.content s.qrs }
    else if text_eq e.event (codes "pairing.code")
    then record s { codes_issued = store_code e.session_id e.content s.codes_issued }
    else if consumes e
    then record s {
      qrs = delete e.session_id s.qrs;
      codes_issued = delete e.session_id s.codes_issued;
    }
    else s

abbrev pub one_of : Text → List Text → Bool
one_of name [] = false
one_of name (x ∷ xs) = text_eq x name || one_of name xs

abbrev pub session_fits : Option Text → Text → Bool
session_fits none id = true
session_fits (some wanted) id = text_eq wanted id

abbrev pub name_fits : Option (List Text) → Text → Bool
name_fits none name = true
name_fits (some names) name = one_of name names

abbrev pub fits : StreamFilter → StreamEvent → Bool
fits f e = session_fits f.session_id e.session_id && name_fits f.events e.event

-- The loop of `#ingest` over the clients.
unfoldable pub offer : StreamEvent → List Client → LiveState → LiveState
offer e [] s = s
offer e (c ∷ cs) s =
    offer e cs (if fits c.filter e then record s { heard = (c.ref, e) ∷ s.heard } else s)

-- `#ingest`
unfoldable pub ingest : StreamEvent → LiveState → LiveState
unfolding remember offer
ingest e s = let s' = remember e s in offer e s'.clients s'

-- The callback of the constructor, over the events of a batch.
unfoldable pub ingest_all : List StreamEvent → LiveState → LiveState
unfolding ingest
ingest_all [] s = s
ingest_all (e ∷ es) s = if s.subscribed then ingest_all es (ingest e s) else s
