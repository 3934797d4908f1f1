-- ===== src/Tests/Queues.antt =====
-- `RedisDlq` of buzz-hermes-bridge/src/dlq.ts on a stream that is a list.
use assurance_toto.Prelude.{
  String, Option, none, some, List, [], ◌∷◌, ◌++◌, ◌≡◌, refl, map, reverse, take, if◌then◌else◌,
  ◌==◌,
}
use assurance_toto.Json.{Json, stringify}
use assurance_toto.Dlq.{DlqEntry, list_entries}
use assurance_toto.Dlq.Redis.{
  Stream, IsStream, listed, redis_list, enqueue_all, redis_list-enqueue_all,
}
use assurance_toto.Tests.Fixtures.{stop_json, settle_json, noon}

abbrev list_stream : Stream (List (List String))
list_stream = record {
  xadd = λ fields rows. rows ++ fields ∷ [];
  xrevrange = λ n rows. take n (reverse rows);
}

abbrev same_rows : List (List String) → List (List String)
same_rows rows = rows

list_stream-IsStream : IsStream list_stream same_rows
list_stream-IsStream = record { added = λ fields s. refl; newest = λ n s. refl }

abbrev reads_both : String → Option Json
reads_both text =
    if text == stringify stop_json
    then some stop_json
    else if text == stringify settle_json
    then some settle_json
    else none

abbrev failure : String → Json → DlqEntry
failure id payload = record {
  command_id = id;
  correlation_id = "c-1";
  reason = "effect";
  payload = payload;
  attempts = 12;
  enqueued_at = noon;
}

abbrev failures : List DlqEntry
failures = failure "e-1" stop_json ∷ failure "e-2" settle_json ∷ failure "e-3" stop_json ∷ []

redis_list-enqueue_all_example :
    redis_list reads_both list_stream 2 (enqueue_all reads_both list_stream failures [])
    ≡ map listed (list_entries 2 failures)
unfolding stringify
redis_list-enqueue_all_example =
    redis_list-enqueue_all reads_both list_stream same_rows list_stream-IsStream failures [] 1 refl
      (refl, (refl, (refl, tt)))
