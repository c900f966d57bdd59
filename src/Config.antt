-- ===== src/Config.antt =====
-- src/config.ts: the pattern of session ids here, the settings in the children.
pub mod Values
pub mod Resolve
pub mod Bounds
mod Tests
use whats_multi.Errors.{Result, ok, err, invalid_session_id, bare_error}
use whats_multi.Prelude.{ℕ, Bool, true, ◌&&◌, ◌||◌, [], ◌∷◌, leb, ◌==◌, if◌then◌else◌, length, Text}

-- `[A-Za-z0-9_-]`
abbrev pub is_id_char : ℕ → Bool
is_id_char c =
    (leb b'A' c && leb c b'Z')
    || (leb b'a' c && leb c b'z')
    || (leb b'0' c && leb c b'9')
    || c == b'_'
    || c == b'-'

unfoldable pub all_id_chars : Text → Bool
all_id_chars [] = true
all_id_chars (c ∷ s) = is_id_char c && all_id_chars s

-- SESSION_ID_PATTERN, /^[A-Za-z0-9_-]{1,64}$/
unfoldable pub is_valid_session_id : Text → Bool
unfolding all_id_chars
is_valid_session_id id = leb 1 (length id) && leb (length id) 64 && all_id_chars id

unfoldable pub assert_valid_session_id : Text → Result (Unit {0})
unfolding is_valid_session_id
assert_valid_session_id id =
    if is_valid_session_id id then ok tt else err (bare_error invalid_session_id)
