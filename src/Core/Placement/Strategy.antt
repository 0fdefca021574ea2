-- ===== src/Core/Placement/Strategy.antt =====
-- `PlacementStrategy` of `crates/ganglion-core/src/lib.rs`: the names of the policies. `str::trim`
-- is a parameter.
use ganglion.Prelude.{
  Option, some, none, List, [], ◌∷◌, ◌==◌, ◌||◌, ◌≡◌, ap, same, if◌then◌else◌, leb, ◌&&◌, ◌+◌, map,
  Result,
}
use ganglion.Core.Model.{Str, str_eq, CoordinationSnapshot}
use ganglion.Core.Placement.{PlacementInput, PlacementError, plan_deterministic}
use ganglion.Core.Placement.Balanced.{plan_least_loaded}

pub data PlacementStrategy : Type 0 where
  deterministic least_loaded_strategy : PlacementStrategy

-- The bytes of `deterministic`.
abbrev deterministic_word : Str
deterministic_word = 100 ∷ 101 ∷ 116 ∷ 101 ∷ 114 ∷ 109 ∷ 105 ∷ 110 ∷ 105 ∷ 115 ∷ 116 ∷ 105 ∷ 99 ∷ []

-- The bytes of `least` and of `loaded`, with what stands between them.
abbrev least_loaded_word : Str → Str
least_loaded_word [] = 108 ∷ 101 ∷ 97 ∷ 115 ∷ 116 ∷ 108 ∷ 111 ∷ 97 ∷ 100 ∷ 101 ∷ 100 ∷ []
least_loaded_word (c ∷ cs) = 108 ∷ 101 ∷ 97 ∷ 115 ∷ 116 ∷ c ∷ 108 ∷ 111 ∷ 97 ∷ 100 ∷ 101 ∷ 100 ∷ []

unfoldable as_str : PlacementStrategy → Str
as_str deterministic = deterministic_word
as_str least_loaded_strategy = least_loaded_word (45 ∷ [])

pub all : List PlacementStrategy
all = deterministic ∷ least_loaded_strategy ∷ []

abbrev to_lowercase : Str → Str
to_lowercase s = map (λ c. if leb 65 c && leb c 90 then c + 32 else c) s

-- The `match` of `parse`, with the bytes of `det` and `default`.
unfoldable strategy_named : Str → Option PlacementStrategy
strategy_named word =
    if word == deterministic_word
      || (word == (100 ∷ 101 ∷ 116 ∷ []) || word == (100 ∷ 101 ∷ 102 ∷ 97 ∷ 117 ∷ 108 ∷ 116 ∷ []))
    then some deterministic
    else if word == least_loaded_word (45 ∷ [])
        || (word == least_loaded_word (95 ∷ []) || word == least_loaded_word [])
    then some least_loaded_strategy
    else none

unfoldable pub parse : (Str → Str) → Str → Option PlacementStrategy
unfolding strategy_named
parse trim raw = strategy_named (to_lowercase (trim raw))

-- `as_strategy`, as the `plan` of the policy.
as_strategy : PlacementStrategy → PlacementInput → Result PlacementError CoordinationSnapshot
unfolding plan_deterministic plan_least_loaded
as_strategy deterministic = plan_deterministic
as_strategy least_loaded_strategy = plan_least_loaded

-- The name of a strategy is read as that strategy, if nothing is trimmed off it.
parse-as_str :
    (trim : Str → Str) (s : PlacementStrategy)
    → trim (as_str s) ≡ as_str s
    → parse trim (as_str s) ≡ some s
unfolding parse strategy_named as_str same
parse-as_str trim deterministic h = ap (λ s. strategy_named (to_lowercase s)) h
parse-as_str trim least_loaded_strategy h = ap (λ s. strategy_named (to_lowercase s)) h
