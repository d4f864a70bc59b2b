-- ===== src/Proto/DeliveryStage.antt =====
-- `DeliveryStage` of crates/maxops-proto/src/events.rs.
use maxops.Prelude.{
  ℕ, Bool, true, ◌==◌, String, ◌≡◌, ◌↔◌, refl, arith, str_eq, eq_of_str_eq, Result, ok, err,
  if◌then◌else◌,
}

pub data DeliveryStage : Type 0 where
  queued accepted confirmed : DeliveryStage

abbrev pub as_str : DeliveryStage → String
as_str queued = "queued"
as_str accepted = "accepted"
as_str confirmed = "confirmed"

-- The error is the message.
unfoldable pub parse : String → Result String DeliveryStage
parse value =
    if str_eq value "queued"
    then ok queued
    else if str_eq value "accepted"
    then ok accepted
    else if str_eq value "confirmed"
    then ok confirmed
    else err "invalid delivery stage"

abbrev index : DeliveryStage → ℕ
index queued = 0
index accepted = 1
index confirmed = 2

-- The derived `PartialEq`.
unfoldable pub eq : DeliveryStage → DeliveryStage → Bool
eq a b = index a == index b

pub eq_iff : (a b : DeliveryStage) → (eq a b ≡ true) ↔ (a ≡ b)
unfolding eq
eq_iff a b = ground arith

parse_complete : (s : DeliveryStage) → parse (as_str s) ≡ ok s
unfolding parse str_eq
parse_complete queued = refl
parse_complete accepted = refl
parse_complete confirmed = refl

parse_sound : (value : String) (s : DeliveryStage) → parse value ≡ ok s → value ≡ as_str s
unfolding parse
parse_sound value s h = ground (
  arith,
  eq_of_str_eq value "queued",
  eq_of_str_eq value "accepted",
  eq_of_str_eq value "confirmed",
)

-- Reading gives `s` exactly for the text that `s` is written as.
pub parse-as_str : (value : String) (s : DeliveryStage) → (parse value ≡ ok s) ↔ (value ≡ as_str s)
parse-as_str value s = (parse_sound value s, λ e. rw e (parse_complete s))
