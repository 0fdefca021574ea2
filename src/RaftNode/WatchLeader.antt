-- ===== src/RaftNode/WatchLeader.antt =====
-- `watch_leader` of `crates/ganglion-openraft/src/openraft_runtime/node.rs`: the task that forwards
-- changes of the leader from raft's metrics. What wakes it is chosen by the environment.
use mathlib.Core.Path.{subst}
use ganglion.Prelude.{
  ℕ, Option, List, [], ◌∷◌, ◌≡◌, ◌≢◌, refl, sym, arith, Eq, ◌==◌, if◌then◌else◌, Bool-cases, inl,
  inr, nat_ord, option_ord, eq_of,
}

-- A change of the metrics, with the leader that the task then reads; the end of raft; or that every
-- receiver is gone.
pub data Wake : Type 0 where
  changed : Option ℕ → Wake
  metrics_closed receivers_gone : Wake

instance abbrev pub leader_eq : Eq (Option ℕ)
leader_eq = eq_of

-- The values that the receivers are told of, and the one in the channel at the end.
-- `send_if_modified` stores the leader and tells the receivers if it differs.
unfoldable pub forward_leader : Option ℕ → List Wake → List (Option ℕ) × Option ℕ
forward_leader current [] = ([], current)
forward_leader current (metrics_closed ∷ wakes) = ([], current)
forward_leader current (receivers_gone ∷ wakes) = ([], current)
forward_leader current (changed leader ∷ wakes) =
    let (told, last) = forward_leader leader wakes in
    (if current == leader then told else leader ∷ told, last)

-- The leader in the last metrics that the task reads.
abbrev last_read : Option ℕ → List Wake → Option ℕ
last_read leader [] = leader
last_read leader (changed next ∷ wakes) = last_read next wakes
last_read leader (metrics_closed ∷ wakes) = leader
last_read leader (receivers_gone ∷ wakes) = leader

-- Each value differs from the one before it.
abbrev pub Changing : Option ℕ → List (Option ℕ) → Type 0
Changing before [] = Unit
Changing before (next ∷ rest) = (before ≢ next) × Changing next rest

abbrev pub last_or : Option ℕ → List (Option ℕ) → Option ℕ
last_or before [] = before
last_or before (next ∷ rest) = last_or next rest

-- The receivers are told of changes only: each value differs from the one that they had before it.
-- They miss none in the end: the last value that they are told of, or the first that they had, is
-- the one in the channel, which is the leader that the task read last.
pub forward_leader-Changing :
    (current : Option ℕ) (wakes : List Wake)
    → let (told, last) = forward_leader current wakes in
      Changing current told × (last_or current told ≡ last) × (last ≡ last_read current wakes)
unfolding forward_leader
forward_leader-Changing current [] = (tt, refl, refl)
forward_leader-Changing current (metrics_closed ∷ wakes) = (tt, refl, refl)
forward_leader-Changing current (receivers_gone ∷ wakes) = (tt, refl, refl)
forward_leader-Changing current (changed leader ∷ wakes) =
    let (changing, told, read) = forward_leader-Changing leader wakes in
    elim (Bool-cases (current == leader)) [
      | inl same ↦
          let kept : leader ≡ current = sym ((leader_eq.equals_iff current leader).0 same) in
          rw same (
            subst (λ (c : Option ℕ). Changing c (forward_leader leader wakes).0) kept changing,
            subst
                (λ (c : Option ℕ).
                  last_or c (forward_leader leader wakes).0 ≡ (forward_leader leader wakes).1)
                kept told,
            read,
          )
      | inr other ↦
          rw other
            ((λ e. ground (arith, leader_eq.equals_iff current leader), changing), told, read)
    ]
