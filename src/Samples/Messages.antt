-- ===== src/Samples/Messages.antt =====
-- PUBLISH packets, a buffer and a map of the server, on which its theorems are applied.
use picobroker.Base.{
  ℕ, ◌++◌, ◌==◌, refl, some, none, if◌then◌else◌, Option, List, [], ◌∷◌, drop, arith,
}
use picobroker.Packets.{PublishPacket}
use picobroker.Protocol.{at_least_once}
use picobroker.Base.{false}
use picobroker.Base.Utf8.{is_utf8}
use picobroker.Codec.Publish.Bytes.{Sendable}
use picobroker.Tokio.Io.{BytesMut}
use picobroker.Tokio.Io.Filling.{BytesMutLaws}
use picobroker.Tokio.State.{DashMap, DashMapLaws}
use picobroker.Samples.Data.{message}

abbrev pub bytes_mut : BytesMut
bytes_mut = record {
  Buffer = List ℕ;
  bytes = λ b. b;
  extend = λ b chunk. b ++ chunk;
  advance = λ b n. drop n b;
}

pub bytes_mut-BytesMutLaws : BytesMutLaws bytes_mut
bytes_mut-BytesMutLaws = record { extend_lem = λ b chunk. refl; advance_lem = λ b n h. refl }

abbrev pub dash_map : DashMap
dash_map = record {
  Map = λ V. ℕ → Option V;
  empty = λ k. none;
  insert = λ m k v j. if k == j then some v else m j;
  remove = λ m k j. if k == j then none else m j;
  get = λ m k. m k;
}

pub dash_map-DashMapLaws : DashMapLaws dash_map
dash_map-DashMapLaws = record { get-insert = λ m k v j. refl; get-remove = λ m k j. refl }

pub message-Sendable : Sendable message
unfolding is_utf8
message-Sendable = record {
  topic = record { array = refl; within = omega arith; fits = omega arith; text = refl };
  named = omega arith;
  payload = record { array = refl; within = omega arith; fits = omega arith };
  id = (9, refl, omega arith, omega arith);
}

-- As long a topic and as long a payload as there is room for.
abbrev pub full_message : PublishPacket 4 4
full_message = record {
  topic_name = record { length = 4; slots = b'a' ∷ b'/' ∷ b'b' ∷ b'c' ∷ [] };
  packet_id = some 9;
  payload = record { length = 4; slots = 1 ∷ 2 ∷ 3 ∷ 4 ∷ [] };
  qos = at_least_once;
  dup = false;
  retain = false;
}

pub full_message-Sendable : Sendable full_message
unfolding is_utf8
full_message-Sendable = record {
  topic = record { array = refl; within = omega arith; fits = omega arith; text = refl };
  named = omega arith;
  payload = record { array = refl; within = omega arith; fits = omega arith };
  id = (9, refl, omega arith, omega arith);
}
