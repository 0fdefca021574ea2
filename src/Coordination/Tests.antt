-- ===== src/Coordination/Tests.antt =====
-- The results of the coordination facade at sample data, with a channel of one value and a count.
use ganglion.Prelude.{◌<◌, none, ℕ, ◌+◌, zero, suc, List, [], ◌∷◌, ◌≡◌, refl, arith}
use ganglion.Core.Model.{
  Str, ResourceIdentity, resource_eq, local_durable, CoordinationSnapshot, default_snapshot,
}
use ganglion.Coordination.Watch.{WatchChannel, IsWatch}
use ganglion.Coordination.Freshness.{watch-new}
use ganglion.Coordination.{
  InMemoryCoordination, new, update_snapshot, watch, Update, update_snapshot_call,
  set_generation_call, run,
}

record Channel : Type 0 where
  held : CoordinationSnapshot
  receivers : ℕ

abbrev send_if_watched : CoordinationSnapshot → ℕ → CoordinationSnapshot → Channel
send_if_watched a zero b = record { held = b; receivers = zero }
send_if_watched a (suc n) b = record { held = a; receivers = suc n }

abbrev channels : WatchChannel Channel CoordinationSnapshot
channels = record {
  channel_without_receiver = λ a. record { held = a; receivers = 0 };
  send = λ a w. send_if_watched a w.receivers w.held;
  subscribe = λ w. record w { receivers = w.receivers + 1 };
  value = λ w. w.held;
  receiver_count = λ w. w.receivers;
}

count_lem :
    (a : CoordinationSnapshot) (n : ℕ) (b : CoordinationSnapshot)
    → (send_if_watched a n b).receivers ≡ n
count_lem a zero b = refl
count_lem a (suc n) b = refl

stored :
    (a : CoordinationSnapshot) (n : ℕ) (b : CoordinationSnapshot)
    → 0 < n
    → (send_if_watched a n b).held ≡ a
stored a zero b h = absurd (omega arith)
stored a (suc n) b h = refl

dropped :
    (a : CoordinationSnapshot) (w : Channel)
    → w.receivers ≡ 0
    → send_if_watched a w.receivers w.held ≡ w
dropped a w h = rw h refl

channels-IsWatch : IsWatch channels
channels-IsWatch = record {
  value-channel = λ a. refl;
  receiver_count-channel = λ a. refl;
  send_unwatched = dropped;
  value-send = λ a w h. stored a w.receivers w.held h;
  receiver_count-send = λ a w. count_lem a w.receivers w.held;
  value-subscribe = λ w. refl;
  receiver_count-subscribe = λ w. refl;
}

abbrev at_generation : ℕ → CoordinationSnapshot
at_generation n = record default_snapshot { generation = n }

abbrev watched : InMemoryCoordination Channel
watched = record {
  snapshot = at_generation 1;
  sender = record { held = at_generation 1; receivers = 1 };
}

abbrev calls : List Update
calls = update_snapshot_call (at_generation 4) ∷ set_generation_call 6 ∷ []

watch-new_example :
    let c = run channels calls (new channels (at_generation 1)) in
    let updated = update_snapshot channels c (at_generation 7) in
    ((watch channels updated).0 ≡ at_generation 1) × (updated.snapshot ≡ at_generation 7)
watch-new_example = watch-new channels channels-IsWatch calls (at_generation 1) (at_generation 7)

abbrev queue : ResourceIdentity
queue = record { namespace = 113 ∷ []; name = 97 ∷ []; partition = 0; group = none }

abbrev owner : Str
owner = 110 ∷ []

abbrev assigned : CoordinationSnapshot
assigned = record default_snapshot {
  assignments =
      (
        queue,
        record {
          resource = queue;
          owner = owner;
          followers = (98 ∷ []) ∷ [];
          epoch = 1;
          durability = local_durable;
        },
      )
      ∷ [];
}
