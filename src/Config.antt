-- ===== src/Config.antt =====
-- The const generics of `PicoBroker`, in the source's order.
use picobroker.Base.{ℕ}

pub record Config : Type 0 where
  pub max_topic_name_length : ℕ
  pub max_payload_size : ℕ
  pub queue_size : ℕ
  pub max_sessions : ℕ
  pub max_topics : ℕ
  pub max_subscribers_per_topic : ℕ
