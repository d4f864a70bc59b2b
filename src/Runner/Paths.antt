-- ===== src/Runner/Paths.antt =====
-- The tests on paths and the standard library's functions on them that
-- crates/maxops-executor/src/bin/maxops-deploy-runner.rs uses. A path is a text; `/` separates.
use Prim.Native.Char.{code}
use Prim.Native.String.{String}
use maxops.Prelude.{
  ℕ, ◌+◌, ◌*◌, ◌-◌, Bool, true, false, not, ◌&&◌, ◌||◌, leb, ◌==◌, Option, none, some, List, [],
  ◌∷◌, codes, all_codes, Result, ensure, if◌then◌else◌,
}
use maxops.Proto.Names.{is_empty}
use maxops.Store.Errors.{u64_max}

-- `char::is_whitespace`
abbrev is_whitespace : ℕ → Bool
is_whitespace c =
    leb 9 c && leb c 13
    || c == 32
    || c == 133
    || c == 160
    || c == 5760
    || leb 8192 c && leb c 8202
    || c == 8232
    || c == 8233
    || c == 8239
    || c == 8287
    || c == 12288

trim_start : String → String
trim_start String.[] = String.[]
trim_start (String.◌∷◌ c s) =
    let rest = trim_start s in if is_whitespace (code c) then rest else String.◌∷◌ c s

trim_end : String → String
trim_end String.[] = String.[]
trim_end (String.◌∷◌ c s) =
    let rest = trim_end s in
    if is_empty rest && is_whitespace (code c) then String.[] else String.◌∷◌ c rest

-- `str::trim`
unfoldable pub trim : String → String
unfolding trim_start trim_end
trim s = trim_end (trim_start s)

unfoldable pub starts_with : List ℕ → List ℕ → Bool
starts_with [] cs = true
starts_with (p ∷ ps) [] = false
starts_with (p ∷ ps) (c ∷ cs) = p == c && starts_with ps cs

unfoldable pub is_absolute : String → Bool
unfolding starts_with codes
is_absolute path = starts_with (b'/' ∷ []) (codes path)

add_to_first : ℕ → List (List ℕ) → List (List ℕ)
add_to_first c [] = (c ∷ []) ∷ []
add_to_first c (part ∷ parts) = (c ∷ part) ∷ parts

split_path : List ℕ → List (List ℕ)
unfolding add_to_first
split_path [] = [] ∷ []
split_path (c ∷ cs) =
    let rest = split_path cs in if c == b'/' then [] ∷ rest else add_to_first c rest

is_dot : List ℕ → Bool
is_dot (c ∷ []) = c == b'.'
is_dot _ = false

is_dot_dot : List ℕ → Bool
is_dot_dot (c ∷ d ∷ []) = c == b'.' && d == b'.'
is_dot_dot _ = false

no_parent : List (List ℕ) → Bool
unfolding is_dot_dot
no_parent [] = true
no_parent (part ∷ parts) = not (is_dot_dot part) && no_parent parts

-- `!is_absolute()` and every component is `Component::Normal`: a `.` counts only at the start.
all_normal : List (List ℕ) → Bool
unfolding is_dot no_parent
all_normal [] = true
all_normal (part ∷ parts) = not (is_dot part) && no_parent (part ∷ parts)

unfoldable pub is_plain_relative : String → Bool
unfolding all_normal split_path codes
is_plain_relative path = not (is_absolute path) && all_normal (split_path (codes path))

-- The last component, from the candidate found so far: empty ones and `.` are skipped.
last_component : List (List ℕ) → List ℕ → List ℕ
unfolding is_dot
last_component [] found = found
last_component ([] ∷ parts) found = last_component parts found
last_component ((c ∷ cs) ∷ parts) found =
    last_component parts (if is_dot (c ∷ cs) then found else c ∷ cs)

-- `Path::file_name`
unfoldable pub file_name : String → Option (List ℕ)
unfolding last_component split_path codes is_dot_dot
file_name path =
    let last = last_component (split_path (codes path)) [] in
    elim last [ [] ↦ none | (c ∷ cs) ↦ if is_dot_dot (c ∷ cs) then none else some (c ∷ cs) ]

-- The text before the last occurrence, the first half of `rsplit_once`.
before_last : List ℕ → List ℕ → Option (List ℕ)
unfolding starts_with
before_last pattern [] = none
before_last pattern (c ∷ cs) = elim (before_last pattern cs) [
  | some prefix ↦ some (c ∷ prefix)
  | none ↦ if starts_with pattern (c ∷ cs) then some [] else none
]

-- The text after the last occurrence of a character, the second half of `rsplit_once`.
after_last : ℕ → List ℕ → Option (List ℕ)
after_last separator [] = none
after_last separator (c ∷ cs) = elim (after_last separator cs) [
  | some rest ↦ some rest
  | none ↦ if c == separator then some cs else none
]

-- `checked_mul(10)` and `checked_add(digit)` of a `u64`
parse_digits : ℕ → List ℕ → Option ℕ
parse_digits value [] = some value
parse_digits value (c ∷ cs) =
    let next = value * 10 + (c - b'0') in
    let rest = parse_digits next cs in
    if leb b'0' c && leb c b'9' && leb next u64_max then rest else none

digits : List ℕ → Option ℕ
unfolding parse_digits
digits [] = none
digits (c ∷ cs) = parse_digits 0 (c ∷ cs)

-- `str::parse::<u64>`: one `+` may stand before the digits.
unfoldable pub parse_u64 : List ℕ → Option ℕ
unfolding digits
parse_u64 [] = none
parse_u64 (c ∷ cs) = if c == b'+' then digits cs else digits (c ∷ cs)

-- `profile_generation`, from what `read_link` has answered.
unfoldable pub generation_of : Option String → Option ℕ
unfolding file_name before_last after_last parse_u64 codes
generation_of none = none
generation_of (some link) = elim (file_name link) [
  | none ↦ none
  | some name ↦ elim (before_last (codes "-link") name) [
    | none ↦ none
    | some prefix ↦ elim (after_last b'-' prefix) [
      | none ↦ none
      | some generation ↦ parse_u64 generation
    ]
  ]
]

is_one_line : ℕ → Bool
is_one_line c = not (c == 10 || c == 13)

unfoldable pub ensure_store_path : String → Result String (Unit {0})
unfolding starts_with codes all_codes is_one_line is_absolute
ensure_store_path value =
    ensure
      (starts_with (codes "/nix/store/") (codes value)
        && all_codes is_one_line (codes value)
        && is_absolute value)
      "deployment result is not a Nix store path"
