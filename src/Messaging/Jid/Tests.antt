-- ===== src/Messaging/Jid/Tests.antt =====
-- Inputs of the kinds that spec/vectors/jid.json lists.
use whats_multi.Errors.{ok, err, invalid_jid, invalid_phone_number, bare_error}
use whats_multi.Messaging.Jid.{
  known_servers, default_server, is_known_server, normalize_phone_number, parse_jid, jid_text,
  normalize_jid,
}
use whats_multi.Messaging.Jid.Laws.{IsCanonical, normalize_jid-idempotent}
use whats_multi.Prelude.{◌≡◌, refl, Text, codes}

national_number :
    normalize_phone_number (codes "0812-345-678") ≡ err (bare_error invalid_phone_number)
unfolding normalize_phone_number
national_number = refl

phone : normalize_jid (codes "+62 812 345 678") ≡ ok (codes "62812345678@s.whatsapp.net")
unfolding normalize_jid normalize_phone_number default_server
phone = refl

malformed : normalize_jid (codes "628@example.com") ≡ err (bare_error invalid_jid)
unfolding normalize_jid parse_jid is_known_server known_servers
malformed = refl

device_dropped : normalize_jid (codes "628:12@S.WhatsApp.net") ≡ ok (codes "628@s.whatsapp.net")
unfolding normalize_jid parse_jid is_known_server known_servers
device_dropped = refl

normalize_jid-idempotent_example :
    ((user server : Text) × (codes "628@s.whatsapp.net" ≡ jid_text user server)
      × IsCanonical user server)
    × (normalize_jid (codes "628@s.whatsapp.net") ≡ ok (codes "628@s.whatsapp.net"))
normalize_jid-idempotent_example =
    normalize_jid-idempotent (codes "628:12@S.WhatsApp.net") device_dropped
