-- ===== src/RaftNode/Bootstrap.antt =====
-- `awaiting_bootstrap` and the task that warns while a node waits for its membership, of
-- `crates/ganglion-openraft/src/openraft_runtime/node.rs`, with `initialize`. A time is a number of
-- seconds. What wakes the task, and the metrics that it reads, are chosen by the environment.
use ganglion.Prelude.{
  ℕ, ◌+◌, ◌≤◌, Bool, true, false, List, [], ◌∷◌, ◌≡◌, refl, arith, ◌&&◌, ◌||◌, not, Result,
  if◌then◌else◌, if_both,
}
use ganglion.Core.Model.{Str}
use ganglion.Adapter.Error.{config, raft_text}
use ganglion.RaftNode.Membership.{RaftMetrics, Answer, answer}

abbrev bootstrap_wait_first_warning : ℕ
bootstrap_wait_first_warning = 10

abbrev bootstrap_wait_warning_interval : ℕ
bootstrap_wait_warning_interval = 30

-- The flag after the call, and its result; the flag is set before openraft is called.
abbrev pub initialize : {A : Type 0} → Bool → Result Str A → Bool × Answer
initialize initialize_called result = (true, answer (λ text. config (raft_text text)) result)

module _ {L : Type 0} where
  abbrev membership_is_empty : RaftMetrics L → Bool
  membership_is_empty metrics = elim metrics.nodes [ [] ↦ true | _ ∷ _ ↦ false ]

  abbrev awaiting_bootstrap : RaftMetrics L → Bool → Bool
  awaiting_bootstrap metrics initialize_called =
      not initialize_called && (metrics.running && membership_is_empty metrics)

-- What ends a `select!`: the timer at a time, with the metrics and the flag that are then read, or
-- a change of the metrics, or the end of raft.
pub data BootstrapWake (L : Type 0) : Type 0 where
  timer : ℕ → RaftMetrics L → Bool → BootstrapWake L
  metrics_changed metrics_closed : BootstrapWake L

-- A turn of the loop: the metrics at its top, and what ends its `select!`.
abbrev BootstrapTurn : Type 0 → Type 0
BootstrapTurn L = RaftMetrics L × BootstrapWake L

module _ {L : Type 0} where
  abbrev stops_waiting : RaftMetrics L → Bool
  stops_waiting metrics = not metrics.running || not (membership_is_empty metrics)

  -- The times of the warnings, from a time for the next one.
  unfoldable pub warnings : ℕ → List (BootstrapTurn L) → List ℕ
  warnings next_warning [] = []
  warnings next_warning ((top, timer now metrics initialize_called) ∷ turns) =
      let rest = warnings (next_warning + bootstrap_wait_warning_interval) turns in
      if stops_waiting top
      then []
      else if awaiting_bootstrap metrics initialize_called
      then now ∷ rest
      else rest
  warnings next_warning ((top, metrics_changed) ∷ turns) =
      let rest = warnings next_warning turns in if stops_waiting top then [] else rest
  warnings next_warning ((top, metrics_closed) ∷ turns) = []

  unfoldable log_while_awaiting_bootstrap : ℕ → List (BootstrapTurn L) → List ℕ
  unfolding warnings
  log_while_awaiting_bootstrap started turns =
      warnings (started + bootstrap_wait_first_warning) turns

  -- A timer that is set for a time does not end before it.
  abbrev Timely : ℕ → List (BootstrapTurn L) → Type 0
  Timely next_warning [] = Unit
  Timely next_warning ((top, timer now metrics called) ∷ turns) =
      (next_warning ≤ now) × Timely (next_warning + bootstrap_wait_warning_interval) turns
  Timely next_warning ((top, metrics_changed) ∷ turns) = Timely next_warning turns
  Timely next_warning ((top, metrics_closed) ∷ turns) = Unit

  -- The flag is set at every timer.
  abbrev Called : List (BootstrapTurn L) → Type 0
  Called [] = Unit
  Called ((top, timer now metrics called) ∷ turns) = (called ≡ true) × Called turns
  Called ((top, metrics_changed) ∷ turns) = Called turns
  Called ((top, metrics_closed) ∷ turns) = Unit

-- The first time is not before a bound, and each further one not before a bound that is an interval
-- later.
abbrev Spaced : ℕ → List ℕ → Type 0
Spaced bound [] = Unit
Spaced bound (now ∷ times) = (bound ≤ now) × Spaced (bound + bootstrap_wait_warning_interval) times

Spaced-weaken :
    (bound other : ℕ) (times : List ℕ) → other ≤ bound → Spaced bound times → Spaced other times
Spaced-weaken bound other [] h s = tt
Spaced-weaken bound other (now ∷ times) h s = (
  omega arith,
  Spaced-weaken (bound + bootstrap_wait_warning_interval) (other + bootstrap_wait_warning_interval)
      times (omega arith) s.1,
)

module _ {L : Type 0} where
  warnings-Spaced :
      (next_warning : ℕ) (turns : List (BootstrapTurn L))
      → Timely next_warning turns
      → Spaced next_warning (warnings next_warning turns)
  unfolding warnings
  warnings-Spaced next_warning [] t = tt
  warnings-Spaced next_warning ((top, timer now metrics called) ∷ turns) t =
      let later = warnings-Spaced (next_warning + bootstrap_wait_warning_interval) turns t.1 in
      if_both (Spaced next_warning) (stops_waiting top) [] _ tt (
        if_both (Spaced next_warning) (awaiting_bootstrap metrics called)
          (now ∷ warnings (next_warning + bootstrap_wait_warning_interval) turns)
          (warnings (next_warning + bootstrap_wait_warning_interval) turns) (t.0, later)
          (Spaced-weaken (next_warning + bootstrap_wait_warning_interval) next_warning
            (warnings (next_warning + bootstrap_wait_warning_interval) turns) (omega arith) later))
  warnings-Spaced next_warning ((top, metrics_changed) ∷ turns) t =
      if_both (Spaced next_warning) (stops_waiting top) [] (warnings next_warning turns) tt
        (warnings-Spaced next_warning turns t)
  warnings-Spaced next_warning ((top, metrics_closed) ∷ turns) t = tt

  -- A node that waits warns first no sooner than ten seconds after its start, and after that no
  -- sooner than an interval of thirty seconds for each warning before, if its timers do not end
  -- early.
  log_while_awaiting_bootstrap-Spaced :
      (started : ℕ) (turns : List (BootstrapTurn L))
      → Timely (started + bootstrap_wait_first_warning) turns
      → Spaced (started + bootstrap_wait_first_warning) (log_while_awaiting_bootstrap started turns)
  unfolding log_while_awaiting_bootstrap
  log_while_awaiting_bootstrap-Spaced started turns t =
      warnings-Spaced (started + bootstrap_wait_first_warning) turns t

  warnings-Called :
      (next_warning : ℕ) (turns : List (BootstrapTurn L))
      → Called turns
      → warnings next_warning turns ≡ []
  unfolding warnings
  warnings-Called next_warning [] c = refl
  warnings-Called next_warning ((top, timer now metrics called) ∷ turns) c =
      ground (arith, warnings-Called (next_warning + bootstrap_wait_warning_interval) turns c.1)
  warnings-Called next_warning ((top, metrics_changed) ∷ turns) c =
      ground (arith, warnings-Called next_warning turns c)
  warnings-Called next_warning ((top, metrics_closed) ∷ turns) c = refl

  -- A node that was asked to initialize the cluster never warns, whether it was given the
  -- membership or not.
  log_while_awaiting_bootstrap-Called :
      (started : ℕ) (turns : List (BootstrapTurn L))
      → Called turns
      → log_while_awaiting_bootstrap started turns ≡ []
  unfolding log_while_awaiting_bootstrap
  log_while_awaiting_bootstrap-Called started turns c =
      warnings-Called (started + bootstrap_wait_first_warning) turns c
