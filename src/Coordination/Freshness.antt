-- ===== src/Coordination/Freshness.antt =====
-- What a watcher sees of a provider in memory.
use ganglion.Prelude.{◌<◌, List, [], ◌∷◌, ◌≡◌, ◌∙◌, refl, arith}
use ganglion.Core.Model.{CoordinationSnapshot}
use ganglion.Coordination.Watch.{WatchChannel, IsWatch}
use ganglion.Coordination.{
  InMemoryCoordination, new, update_snapshot, set_generation, watch, Update, update_snapshot_call,
  set_generation_call, run,
}

module _ {W : Type 0} (watches : WatchChannel W CoordinationSnapshot) (laws : IsWatch watches) where
  -- Once a provider has a watcher, every later watcher sees the snapshot of the provider after any
  -- updates, if the channel had it before them.
  watch-run :
      (calls : List Update) (c : InMemoryCoordination W)
      → 0 < watches.receiver_count c.sender
      → watches.value c.sender ≡ c.snapshot
      → (watch watches (run watches calls c)).0 ≡ (run watches calls c).snapshot
  unfolding run update_snapshot set_generation watch
  watch-run [] c r v = v
  watch-run (update_snapshot_call next ∷ calls) c r v =
      watch-run calls (update_snapshot watches c next)
        (ground (arith, laws.receiver_count-send next c.sender)) (laws.value-send next c.sender r)
  watch-run (set_generation_call generation ∷ calls) c r v =
      let next : CoordinationSnapshot = record c.snapshot { generation = generation } in
      watch-run calls (set_generation watches c generation)
        (ground (arith, laws.receiver_count-send next c.sender)) (laws.value-send next c.sender r)

  sender-run_unwatched :
      (calls : List Update) (c : InMemoryCoordination W)
      → watches.receiver_count c.sender ≡ 0
      → (run watches calls c).sender ≡ c.sender
  unfolding run update_snapshot set_generation
  sender-run_unwatched [] c r = refl
  sender-run_unwatched (update_snapshot_call next ∷ calls) c r =
      sender-run_unwatched calls (update_snapshot watches c next)
        (ground (arith, laws.receiver_count-send next c.sender))
      ∙ laws.send_unwatched next c.sender r
  sender-run_unwatched (set_generation_call generation ∷ calls) c r =
      let next : CoordinationSnapshot = record c.snapshot { generation = generation } in
      sender-run_unwatched calls (set_generation watches c generation)
        (ground (arith, laws.receiver_count-send next c.sender))
      ∙ laws.send_unwatched next c.sender r

  -- The first watcher of a provider sees the snapshot that the provider was made with, whatever
  -- updates came before it, while the provider holds the last of them.
  pub watch-new :
      (calls : List Update) (initial last : CoordinationSnapshot)
      → let c = run watches calls (new watches initial) in
        let updated = update_snapshot watches c last in
        ((watch watches updated).0 ≡ initial) × (updated.snapshot ≡ last)
  unfolding new watch update_snapshot
  watch-new calls initial last =
      let c = new watches initial in
      let kept = sender-run_unwatched calls c (laws.receiver_count-channel initial) in
      ground (
        arith,
        laws.send_unwatched last (run watches calls c).sender,
        laws.receiver_count-channel initial,
        laws.value-channel initial,
      )
