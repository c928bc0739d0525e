-- ===== src/Tests/SharingTests.antt =====
-- idempotency.go: a caller goes on writing to the metadata of a result that was recorded.
use provider_kit.Base.{ℕ, List, bytes, true, none, some, [], ◌∷◌, ◌≡◌, refl, pos}
use provider_kit.GoMap.{GoMap}
use provider_kit.Channel.{channel_email}
use provider_kit.Idempotency.Sharing.{
  copied, ResultObject, result_object, map_object, load, copy_metadata, copy_error, clone_object,
  write, alloc, add, Sharing, recording, answering, makes, writes, Reach, here, next,
}
use provider_kit.Idempotency.Sharing.Frozen.{start, recorded_is_frozen}

abbrev sent : ResultObject
sent = record {
  ok = true;
  message_id = bytes "m1";
  provider = bytes "smtp";
  channel = channel_email;
  timestamp = pos 7;
  metadata = some 0;
  error = none;
}

abbrev with_map : Sharing
with_map = record start { memory = alloc (map_object []) start.memory; held = add 0 start.held }

-- The map is 0, the result 1.
abbrev with_result : Sharing
with_result = record with_map {
  memory = alloc (result_object sent) with_map.memory;
  held = add 1 with_map.held;
}

abbrev extra : GoMap (List ℕ)
extra = (bytes "k", bytes "v") ∷ []

abbrev written : Sharing
written = record (recording (bytes "k1") sent with_result) {
  memory = write 0 (map_object extra) (recording (bytes "k1") sent with_result).memory;
}

Reach-result : Reach start with_result
Reach-result =
    next (next here (makes start (map_object []) tt))
      (makes with_map (result_object sent) (refl, tt))

Reach-written : Reach (recording (bytes "k1") sent with_result) written
Reach-written =
    next here (writes (recording (bytes "k1") sent with_result) 0 (map_object extra) refl tt)

-- The clone is the map 2 and the result 3; it says nothing of what was written to the map 0.
recorded_is_frozen_example :
    load
      (answering (record sent { metadata = some 2 }) written).memory
      (clone_object (record sent { metadata = some 2 }) written.memory).0
    ≡ copied (copied (load with_result.memory sent))
unfolding clone_object copy_metadata copy_error
recorded_is_frozen_example =
    recorded_is_frozen with_result written (bytes "k1") sent (record sent { metadata = some 2 })
      Reach-result Reach-written refl
