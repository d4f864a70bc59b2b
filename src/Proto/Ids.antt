-- ===== src/Proto/Ids.antt =====
-- Identifiers: the opaque UUID texts of crates/maxops-proto/src/jobs.rs, changes.rs, workspaces.rs
-- and events.rs. Each `parse` there is `parse_uuid` with a message of its own.
use maxops.Prelude.{
  ℕ, suc, String, Bool, true, ◌&&◌, ◌||◌, List, [], ◌∷◌, Result, ok, err, leb, ◌==◌, length, codes,
  if◌then◌else◌,
}

abbrev pub JobId : Type 0
JobId = String

abbrev pub ChangeId : Type 0
ChangeId = String

abbrev pub WorkspaceId : Type 0
WorkspaceId = String

abbrev pub EventId : Type 0
EventId = String

abbrev pub EpisodeId : Type 0
EpisodeId = String

abbrev pub RemediationId : Type 0
RemediationId = String

-- `u8::is_ascii_hexdigit`
abbrev pub is_ascii_hexdigit : ℕ → Bool
is_ascii_hexdigit c =
    leb b'0' c && leb c b'9' || leb b'A' c && leb c b'F' || leb b'a' c && leb c b'f'

abbrev is_dash_place : ℕ → Bool
is_dash_place i = i == 8 || i == 13 || i == 18 || i == 23

uuid_bytes : ℕ → List ℕ → Bool
uuid_bytes i [] = true
uuid_bytes i (c ∷ cs) =
    (if is_dash_place i then c == b'-' else is_ascii_hexdigit c) && uuid_bytes (suc i) cs

-- A text of 36 bytes that are hexadecimal digits and four dashes.
unfoldable pub parse_uuid : String → String → Result String String
unfolding uuid_bytes codes
parse_uuid message value =
    let bytes = codes value in
    if length bytes == 36 && uuid_bytes 0 bytes then ok value else err message
