-- ===== src/Kv/Tests/Servers.antt =====
-- The theorems about the handlers and the updates of a server, applied.
use cs426_spring2023_labs.Prelude.{
  is_some, false, ◌+◌, ◌≡◌, ◌⊎◌, refl, true, none, some, List, [], ◌∷◌, GoString, bytes_eq, int_eq,
  nat_eq, ◌=?◌, arith, if◌then◌else◌,
}
use cs426_spring2023_labs.Prelude.Int.{ℤ, pos, int32}
use cs426_spring2023_labs.Prelude.Map.{lookup, insert, delete, member}
use cs426_spring2023_labs.Rpc.{GoError, Reply, ok, err}
use cs426_spring2023_labs.Kv.Sharding.{get_shard_for_key, fnv32}
use cs426_spring2023_labs.Kv.Shard.{has_expired, unless_expired, set, remove, millis_since}
use cs426_spring2023_labs.Kv.Shard.Expiry.{stored}
use cs426_spring2023_labs.Kv.ShardMap.{is_valid, nodes_for_shard}
use cs426_spring2023_labs.Kv.ShardMap.Listeners.{ShardMapListener}
use cs426_spring2023_labs.Kv.Server.{
  KvServer, GetResponse, ShardValue, get_response, is_shard_hosted, serve_get, serve_set,
  serve_delete, serve_get_shard_contents, live_values,
}
use cs426_spring2023_labs.Kv.Server.Update.{
  begin_update, fetch_shards, ContentsClient, store_values, finish_update,
}
use cs426_spring2023_labs.Kv.Server.Soundness.{IsSound, serve_set-IsSound}
use cs426_spring2023_labs.Kv.Server.Requests.{
  Takes, serve_get-serve_set, serve_get-serve_delete, requests_total,
}
use cs426_spring2023_labs.Kv.Server.Rebalance.{
  begin_update_hosts, begin_update_assigns, kept_or_new,
}
use cs426_spring2023_labs.Kv.Server.Transfer.{last_value, override}
use cs426_spring2023_labs.Kv.Server.Handoff.{
  all_values, serve_get-finish_update, serve_get_after_handoff, while_fresh,
}
use cs426_spring2023_labs.Kv.Tests.{
  key_a, key_b, value_x, node_1, node_2, one_shard, object_x, shard_with_a, server_empty,
  server_with_a, no_shards, server_empty-IsSound, no_shards-IsSound,
}

set_of_a :
    serve_set 0 one_shard key_a value_x (pos 1000) (server_empty node_1)
    ≡ some (server_with_a node_1, ok tt)
unfolding serve_set get_shard_for_key fnv32 int32 lookup insert set
set_of_a = refl

serve_get-serve_set_example : serve_get 2000000 one_shard key_b (server_with_a node_1) ≡ (
    if key_a =? key_b
    then some (ok (get_response (unless_expired 2000000 (some (stored 0 value_x (pos 1000))))))
    else serve_get 2000000 one_shard key_b (server_empty node_1))
serve_get-serve_set_example =
    serve_get-serve_set 0 2000000 one_shard key_b key_a value_x (pos 1000) (server_empty node_1)
      (server_with_a node_1) set_of_a

delete_of_a :
    serve_delete one_shard key_a (server_with_a node_1) ≡ some (server_empty node_1, ok tt)
unfolding serve_delete get_shard_for_key fnv32 int32 lookup insert remove delete
delete_of_a = refl

serve_get-serve_delete_example : serve_get 5 one_shard key_a (server_empty node_1) ≡ (
    if key_a =? key_a
    then some (ok (get_response none))
    else serve_get 5 one_shard key_a (server_with_a node_1))
serve_get-serve_delete_example =
    serve_get-serve_delete 5 one_shard key_a key_a (server_with_a node_1) (server_empty node_1)
      delete_of_a

requests_total_example :
    ((Takes one_shard key_a (server_with_a node_1)
        × ((o : GetResponse) × (serve_get 5 one_shard key_a (server_with_a node_1) ≡ some (ok o)))
        × ((s : KvServer) × (serve_set 5 one_shard key_a value_x (pos 7) (server_with_a node_1)
              ≡ some (s, ok tt)))
        × ((s : KvServer) × (serve_delete one_shard key_a (server_with_a node_1)
              ≡ some (s, ok tt))))
      ⊎ (¬ Takes one_shard key_a (server_with_a node_1)
          × ((e : GoError) × (serve_get 5 one_shard key_a (server_with_a node_1) ≡ some (err e))
              × (serve_set 5 one_shard key_a value_x (pos 7) (server_with_a node_1)
                  ≡ some (server_with_a node_1, err e))
              × (serve_delete one_shard key_a (server_with_a node_1)
                  ≡ some (server_with_a node_1, err e)))))
    × (((is_shard_hosted (pos 1) (server_with_a node_1) ≡ true)
          × ((vs : List ShardValue) × (serve_get_shard_contents
                  (λ key. 5)
                  (λ key. 6)
                  (pos 1)
                  (server_with_a node_1)
                ≡ some (ok vs))))
        ⊎ ((is_shard_hosted (pos 1) (server_with_a node_1) ≡ false)
            × ((e : GoError) × (serve_get_shard_contents
                    (λ key. 5)
                    (λ key. 6)
                    (pos 1)
                    (server_with_a node_1)
                  ≡ some (err e)))))
unfolding int32
requests_total_example =
    requests_total 5 (λ key. 5) (λ key. 6) one_shard 0 key_a value_x (pos 7) (pos 1)
      (server_with_a node_1) refl refl

server_with_a-IsSound : IsSound (pos 1) (server_with_a node_1)
server_with_a-IsSound =
    serve_set-IsSound 0 one_shard key_a value_x (pos 1000) (server_empty node_1)
      (server_with_a node_1) (ok tt) (server_empty-IsSound node_1) set_of_a

begin_update_hosts_example :
    (server' : KvServer) × (fetches : List (ℤ × List GoString)) × (begin_update one_shard
        (no_shards node_2)
      ≡ some (server', fetches))
    × ((z : ℤ)
        → lookup z server'.shards ≡ (
            if member z (fetch_shards one_shard (no_shards node_2))
            then kept_or_new (lookup z (no_shards node_2).shards)
            else none))
    × IsSound (pos 1) server'
begin_update_hosts_example =
    begin_update_hosts one_shard (no_shards node_2) (no_shards-IsSound node_2)

begin_update_assigns_example :
    (server' : KvServer) × (fetches : List (ℤ × List GoString)) × (begin_update one_shard
        (no_shards node_2)
      ≡ some (server', fetches))
    × ((z : ℤ) → is_some (lookup z server'.shards) ≡ member node_2 (nodes_for_shard z one_shard))
unfolding lookup is_valid member
begin_update_assigns_example =
    begin_update_assigns one_shard 1 (no_shards node_2) (refl, tt) refl refl (omega arith)
      (no_shards-IsSound node_2)

abbrev value_of_a : ShardValue
value_of_a = record { key = key_a; value = value_x; ttl_ms_remaining = pos 500 }

abbrev answering : GoString → Reply ContentsClient
answering node = ok (λ _. ok (value_of_a ∷ []))

abbrev server_after : KvServer
server_after = record {
  node_name = node_2;
  shards =
      (
        pos 1,
        record {
          contents =
              (key_a, record { value = value_x; stored_time = 500000000; ttl_ms = pos 500 }) ∷ [];
          monitoring = true;
        },
      )
      ∷ [];
  listening = true;
}

finished :
    finish_update 500000000 one_shard ((value_of_a ∷ []) ∷ []) (server_with_a node_2)
    ≡ some server_after
unfolding finish_update store_values get_shard_for_key fnv32 int32 lookup insert set
finished = refl

serve_get-finish_update_example :
    serve_get 600000000 one_shard key_a server_after
    ≡ override 600000000 500000000
        (last_value key_a (all_values ((value_of_a ∷ []) ∷ [])))
        (serve_get 600000000 one_shard key_a (server_with_a node_2))
serve_get-finish_update_example =
    serve_get-finish_update 600000000 500000000 one_shard key_a ((value_of_a ∷ []) ∷ [])
      (server_with_a node_2) server_after (refl, tt) finished

finished_empty :
    finish_update 500000000 one_shard ((value_of_a ∷ []) ∷ []) (server_empty node_2)
    ≡ some server_after
unfolding finish_update store_values get_shard_for_key fnv32 int32 lookup insert set
finished_empty = refl

serve_get_after_handoff_example :
    serve_get 600000000 one_shard key_a server_after
    ≡ some (ok (while_fresh (millis_since 600000000 500000000 + millis_since 500000000 0) object_x))
unfolding lookup serve_get_shard_contents is_shard_hosted int32 live_values has_expired
serve_get_after_handoff_example =
    serve_get_after_handoff (λ key. 500000000) (λ key. 500000000) 500000000 600000000 one_shard
      (pos 1) (server_with_a node_1) (server_empty node_2) server_after shard_with_a
      (value_of_a ∷ []) key_a object_x server_with_a-IsSound refl refl refl refl (refl, tt)
      finished_empty

abbrev its_listener : ShardMapListener
its_listener = record { ch = 0; id = 0 }
