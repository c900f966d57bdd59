-- ===== src/Messaging/Jid.antt =====
-- src/messaging/jid.ts. `toLowerCase` is the ASCII one: no other character has a lower case that
-- stands in a known server.
pub mod Laws
mod Tests
use whats_multi.Errors.{Result, ok, err, invalid_jid, invalid_phone_number, bare_error}
use whats_multi.Prelude.{
  ℕ, Bool, false, not, ◌&&◌, ◌||◌, Option, none, some, List, [], ◌∷◌, ◌++◌, leb, if◌then◌else◌,
  length, keep, is_empty, Text, codes, text_eq, starts_with, includes, split_first, lower,
}

-- KNOWN_SERVERS
unfoldable pub known_servers : List Text
known_servers =
    codes "s.whatsapp.net"
    ∷ codes "g.us"
    ∷ codes "lid"
    ∷ codes "broadcast"
    ∷ codes "newsletter"
    ∷ codes "call"
    ∷ []

unfoldable pub default_server : Text
default_server = codes "s.whatsapp.net"

abbrev pub one_of : List Text → Text → Bool
one_of [] s = false
one_of (t ∷ ts) s = text_eq t s || one_of ts s

unfoldable pub is_known_server : Text → Bool
unfolding known_servers
is_known_server server = one_of known_servers server

-- `\d`
abbrev pub is_digit : ℕ → Bool
is_digit c = leb b'0' c && leb c b'9'

abbrev national : Text → Bool
national digits = starts_with (codes "0") digits

unfoldable pub normalize_phone_number : Text → Result Text
normalize_phone_number input =
    let digits = keep is_digit input in
    if leb (length digits) 6
    then err (bare_error invalid_phone_number)
    else if national digits
    then err (bare_error invalid_phone_number)
    else ok digits

pub record ParsedJid : Type 0 where
  pub user : Text
  pub server : Text
  pub device : Option Text

-- The part before the colon, and the device behind it.
abbrev pub user_from : Text → Option (Text × Text) → Text × Option Text
user_from raw none = (raw, none)
user_from raw (some (user, device)) = (user, some device)

abbrev pub jid_from : Option (Text × Text) → Option ParsedJid
jid_from none = none
jid_from (some (raw, rest)) =
    let server = lower rest in
    let (user, device) = user_from raw (split_first b':' raw) in
    if not (is_known_server server)
    then none
    else if is_empty user
    then none
    else some (record { user = user; server = server; device = device })

unfoldable pub parse_jid : Text → Option ParsedJid
parse_jid input = jid_from (split_first b'@' input)

abbrev pub jid_text : Text → Text → Text
jid_text user server = user ++ (b'@' ∷ server)

abbrev pub jid_of_parsed : Option ParsedJid → Result Text
jid_of_parsed none = err (bare_error invalid_jid)
jid_of_parsed (some parsed) = ok (jid_text parsed.user parsed.server)

abbrev pub jid_of_phone : Result Text → Result Text
jid_of_phone (err e) = err e
jid_of_phone (ok digits) = ok (jid_text digits default_server)

unfoldable pub normalize_jid : Text → Result Text
normalize_jid input =
    if includes (codes "@") input
    then jid_of_parsed (parse_jid input)
    else jid_of_phone (normalize_phone_number input)
