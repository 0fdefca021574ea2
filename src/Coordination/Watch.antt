-- ===== src/Coordination/Watch.antt =====
-- The `watch` channel of tokio, a parameter, by what its documentation says of one sender.
use ganglion.Prelude.{ℕ, ◌+◌, ◌<◌, ◌≡◌}

pub record WatchChannel (W A : Type 0) : Type 0 where
  -- `watch::channel` after its receiver is dropped.
  pub channel_without_receiver : A → W
  pub send : A → W → W
  -- The sender after `subscribe`; the new receiver sees the value.
  pub subscribe : W → W
  pub value : W → A
  pub receiver_count : W → ℕ

-- `send` fails when there is no receiver, and the value is then not stored.
pub record IsWatch {W A : Type 0} (c : WatchChannel W A) : Type 0 where
  pub value-channel : (a : A) → c.value (c.channel_without_receiver a) ≡ a
  pub receiver_count-channel : (a : A) → c.receiver_count (c.channel_without_receiver a) ≡ 0
  pub send_unwatched : (a : A) (w : W) → c.receiver_count w ≡ 0 → c.send a w ≡ w
  pub value-send : (a : A) (w : W) → 0 < c.receiver_count w → c.value (c.send a w) ≡ a
  pub receiver_count-send : (a : A) (w : W) → c.receiver_count (c.send a w) ≡ c.receiver_count w
  pub value-subscribe : (w : W) → c.value (c.subscribe w) ≡ c.value w
  pub receiver_count-subscribe : (w : W) → c.receiver_count (c.subscribe w) ≡ c.receiver_count w + 1
