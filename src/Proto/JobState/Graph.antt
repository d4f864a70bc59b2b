-- ===== src/Proto/JobState/Graph.antt =====
-- The graph of `JobState::can_transition_to` (crates/maxops-proto/src/jobs.rs).
use maxops.Prelude.{◌≡◌, refl, Bool, true, false, ◌↔◌, ◌⊎◌, inl, inr, ◌≢◌, arith, ap}
use maxops.Proto.JobState.{
  JobState, queued, dispatching, running, reconciling, succeeded, failed, cancelled, timed_out,
  outcome_unknown, can_transition_to, is_terminal,
}

pub data Reaches (s : JobState) : JobState → Type 0 where
  here : Reaches s s
  next : {t u : JobState} → Reaches s t → can_transition_to t u ≡ true → Reaches s u

pub Reaches-trans : {s t u : JobState} → Reaches s t → Reaches t u → Reaches s u
Reaches-trans p here = p
Reaches-trans p (next q h) = next (Reaches-trans p q) h

-- The terminal states other than `outcome_unknown`.
abbrev pub is_settled : JobState → Bool
is_settled succeeded = true
is_settled failed = true
is_settled cancelled = true
is_settled timed_out = true
is_settled _ = false

pub settled_stuck : (s t : JobState) → is_settled s ≡ true → can_transition_to s t ≡ false
unfolding can_transition_to
settled_stuck s t h = ground arith

-- A settled state is left by no sequence of transitions.
pub settled_final : {s t : JobState} → is_settled s ≡ true → Reaches s t → t ≡ s
settled_final h here = refl
settled_final {s} h (next {t = t} {u = u} p a) =
    let e = settled_final h p in ground (arith, settled_stuck t u, ap is_settled e)

unsettled_moves :
    (s : JobState)
    → is_settled s ≡ false
    → (t : JobState) × (can_transition_to s t ≡ true) × (is_settled t ≡ true)
unfolding can_transition_to
unsettled_moves queued h = (failed, refl, refl)
unsettled_moves dispatching h = (failed, refl, refl)
unsettled_moves running h = (failed, refl, refl)
unsettled_moves reconciling h = (failed, refl, refl)
unsettled_moves outcome_unknown h = (failed, refl, refl)
unsettled_moves succeeded h = cc
unsettled_moves failed h = cc
unsettled_moves cancelled h = cc
unsettled_moves timed_out h = cc

-- The states that no transition leaves are the settled ones, and every other state has a
-- transition to a settled one.
pub dead_end-is_settled :
    (s : JobState)
    → (((t : JobState) → can_transition_to s t ≡ false) ↔ (is_settled s ≡ true))
      × (is_settled s ≡ false
          → (t : JobState) × (can_transition_to s t ≡ true) × (is_settled t ≡ true))
dead_end-is_settled s = (
  (
    λ dead. elim (settled_or s) [
      | inl h ↦ h
      | inr h ↦ let (t, a, _) = unsettled_moves s h in absurd (false_true (dead t) a)
    ],
    λ h t. settled_stuck s t h,
  ),
  unsettled_moves s,
)
  where
    settled_or : (r : JobState) → (is_settled r ≡ true) ⊎ (is_settled r ≡ false)
    settled_or r = ground arith

    false_true : {b : Bool} → b ≡ false → b ≡ true → ⊥
    false_true p q = cc

terminal_step :
    (s t : JobState)
    → is_terminal s ≡ true
    → can_transition_to s t ≡ true
    → (s ≡ outcome_unknown) × (is_settled t ≡ true) × (is_terminal t ≡ true)
unfolding can_transition_to is_terminal
terminal_step s t h a = ground arith

-- Whatever a job reaches from a terminal state is terminal: either it has not moved, or the
-- unknown outcome was settled.
pub terminal_closed :
    {s t : JobState}
    → is_terminal s ≡ true
    → Reaches s t
    → (is_terminal t ≡ true) × ((t ≡ s) ⊎ ((s ≡ outcome_unknown) × (is_settled t ≡ true)))
terminal_closed h here = (h, inl refl)
terminal_closed {s} h (next {t = t} {u = u} p a) =
    let (k, d) = terminal_closed h p in ground (arith, terminal_step t u k a, settled_stuck t u)

never_queued : (s t : JobState) → can_transition_to s t ≡ true → t ≢ queued
unfolding can_transition_to
never_queued s t h e = ground arith

-- No job returns to the queue.
pub Reaches-queued : {s t : JobState} → Reaches s t → t ≡ queued → s ≡ queued
Reaches-queued here e = e
Reaches-queued (next {t = t} {u = u} p a) e = absurd (never_queued t u a e)

pub settled-is_terminal : (s : JobState) → is_settled s ≡ true → is_terminal s ≡ true
unfolding is_terminal
settled-is_terminal s h = ground arith
