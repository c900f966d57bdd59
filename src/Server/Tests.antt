-- ===== src/Server/Tests.antt =====
-- The server's theorems at concrete inputs.
use whats_multi.Server.Bearer.{read_bearer, is_guarded, carries, refusal, admit, admit-carries}
use whats_multi.Webhook.Signature.{trim}
use whats_multi.Server.Live.{Held, StreamEvent, code_of, moved_to, new_live, ingest_all, qr}
use whats_multi.Server.Live.Laws.{scannable, standing, live_serves}
use whats_multi.Server.Stream.{busy, hear, written, all_written, ended, gap_after_overflow}
use whats_multi.Errors.{ok}
use whats_multi.Prelude.{
  ℕ, ◌≡◌, refl, true, false, not, ◌&&◌, none, some, List, [], ◌∷◌, if◌then◌else◌, Text, codes,
  lookup, insert, delete,
}

abbrev plain : Text → Text
plain t = t

abbrev tokens : List Text
tokens = codes "t0" ∷ []

header : read_bearer (some (codes " bearer  t0 ")) ≡ some (codes "t0")
unfolding read_bearer trim
header = refl

no_token : read_bearer (some (codes "Bearer ")) ≡ none
unfolding read_bearer trim
no_token = refl

admit-carries_example : admit plain tokens (codes "/sessions/a") (some (codes "Bearer t0")) ≡ (
    if is_guarded (codes "/sessions/a")
      && not (carries (read_bearer (some (codes "Bearer t0"))) tokens)
    then refusal
    else ok tt)
admit-carries_example =
    admit-carries plain tokens (codes "/sessions/a") (some (codes "Bearer t0")) refl
      (λ p t read same. same)

guarded_without_header : admit plain tokens (codes "/events") none ≡ refusal
unfolding admit
guarded_without_header = refl

health_is_open : admit plain tokens (codes "/healthz") none ≡ ok tt
unfolding admit
health_is_open = refl

abbrev first_qr : Held
first_qr = record { code = codes "1"; expires_at = 100 }

abbrev second_qr : Held
second_qr = record { code = codes "2"; expires_at = 200 }

abbrev shown : List StreamEvent
shown =
    record { event = codes "qr"; session_id = codes "a"; content = code_of first_qr }
    ∷ record {
      event = codes "session.state";
      session_id = codes "b";
      content = moved_to (codes "open");
    }
    ∷ record { event = codes "qr"; session_id = codes "a"; content = code_of second_qr }
    ∷ []

live_serves_example :
    (qr 150 (codes "a") (ingest_all shown new_live)).0
    ≡ scannable 150 (standing (codes "a") shown none)
live_serves_example = live_serves 150 (codes "a") shown

serves_second : (qr 150 (codes "a") (ingest_all shown new_live)).0 ≡ some second_qr
unfolding qr lookup ingest_all new_live insert delete
serves_second = refl

gap_after_overflow_example :
    all_written {A = ℕ} 3 (hear 2 6 (written (hear 2 5 (busy false (3 ∷ 4 ∷ []) []))))
    ≡ record { queue = []; done = true; aborted = false; phase = ended; sent = 3 ∷ 4 ∷ 6 ∷ [] }
gap_after_overflow_example = gap_after_overflow 2 3 (4 ∷ []) 5 6 [] refl
