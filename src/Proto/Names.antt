-- ===== src/Proto/Names.antt =====
-- The tests on names: `valid_host` of crates/maxops-proto/src/lib.rs and those at the end of
-- crates/maxops-proto/src/workspaces.rs. Lengths are in bytes.
use Prim.Native.String.{len}
use maxops.Prelude.{ℕ, String, Bool, not, ◌&&◌, ◌||◌, leb, ◌==◌, codes, all_codes}
use maxops.Proto.Ids.{is_ascii_hexdigit}

abbrev pub is_ascii_alphanumeric : ℕ → Bool
is_ascii_alphanumeric c =
    leb b'0' c && leb c b'9' || leb b'A' c && leb c b'Z' || leb b'a' c && leb c b'z'

-- `u8::is_ascii_graphic`
abbrev pub is_ascii_graphic : ℕ → Bool
is_ascii_graphic c = leb 33 c && leb c 126

abbrev pub is_empty : String → Bool
is_empty s = len s == 0

-- `!value.is_empty() && value.len() <= most`, the bound of most text fields
unfoldable pub bounded : ℕ → String → Bool
bounded most value = not (is_empty value) && leb (len value) most

abbrev is_name_byte : ℕ → Bool
is_name_byte c = is_ascii_alphanumeric c || c == b'_' || c == b'-'

unfoldable pub valid_host : String → Bool
unfolding bounded codes all_codes
valid_host name = bounded 128 name && all_codes is_name_byte (codes name)

unfoldable pub valid_repository_id : String → Bool
unfolding bounded codes all_codes
valid_repository_id value = bounded 64 value && all_codes is_name_byte (codes value)

unfoldable pub valid_git_oid : String → Bool
unfolding codes all_codes
valid_git_oid value =
    (len value == 40 || len value == 64) && all_codes is_ascii_hexdigit (codes value)

unfoldable pub valid_check_id : String → Bool
unfolding bounded codes all_codes
valid_check_id value =
    bounded 64 value && all_codes (λ c. is_name_byte c || c == b'.') (codes value)
