-- ===== src/Tests/States.antt =====
-- Examples for the protocol's states.
use maxops.Prelude.{◌≡◌, ◌⊎◌, ◌↔◌, refl, true, false, ok}
use maxops.Proto.JobState
use maxops.Proto.JobState.{JobState, from_str-as_str}
use maxops.Proto.JobState.Graph.{is_settled, Reaches, dead_end-is_settled, terminal_closed}

from_str-as_str_example :
    (JobState.from_str "timed_out" ≡ ok JobState.timed_out)
    ↔ ("timed_out" ≡ JobState.as_str JobState.timed_out)
from_str-as_str_example = from_str-as_str "timed_out" JobState.timed_out

dead_end-is_settled_example :
    (((t : JobState) → JobState.can_transition_to JobState.outcome_unknown t ≡ false)
      ↔ (is_settled JobState.outcome_unknown ≡ true))
    × (is_settled JobState.outcome_unknown ≡ false
        → (t : JobState) × (JobState.can_transition_to JobState.outcome_unknown t ≡ true)
          × (is_settled t ≡ true))
dead_end-is_settled_example = dead_end-is_settled JobState.outcome_unknown

settles : Reaches JobState.outcome_unknown JobState.failed
unfolding JobState.can_transition_to
settles = Reaches.next Reaches.here refl

unknown_is_terminal : JobState.is_terminal JobState.outcome_unknown ≡ true
unfolding JobState.is_terminal
unknown_is_terminal = refl

terminal_closed_example :
    (JobState.is_terminal JobState.failed ≡ true)
    × ((JobState.failed ≡ JobState.outcome_unknown)
        ⊎ ((JobState.outcome_unknown ≡ JobState.outcome_unknown)
            × (is_settled JobState.failed ≡ true)))
terminal_closed_example = terminal_closed unknown_is_terminal settles
