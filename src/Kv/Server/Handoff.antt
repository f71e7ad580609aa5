-- ===== src/Kv/Server/Handoff.antt =====
-- The second half of an update: what was fetched is stored, and what may have happened meanwhile.
use cs426_spring2023_labs.Prelude.{
  ℕ, ◌+◌, ◌≡◌, refl, sym, ◌∙◌, false, none, some, Option, GoString, bytes_eq, int_eq, arith, inl,
  inr, Bool-cases, Option-cases, ◌=?◌, List, [], ◌∷◌, ◌++◌, if◌then◌else◌, All, ◌>>=◌,
}
use mathlib.Core.List.{append-nil}
use cs426_spring2023_labs.Prelude.Int.{ℤ, pos, ltbℤ, ◌-ℤ◌}
use cs426_spring2023_labs.Prelude.Map.{Map, lookup, IsDistinct}
use cs426_spring2023_labs.Rpc.{ok}
use cs426_spring2023_labs.Kv.Shard.{
  KvObject, KvShard, set, has_expired, millis_since, unless_expired,
}
use cs426_spring2023_labs.Kv.Sharding.{get_shard_for_key}
use cs426_spring2023_labs.Kv.ShardMap.{ShardMapState}
use cs426_spring2023_labs.Kv.Server.{
  KvServer, GetResponse, ShardValue, get_response, at_shard, live_values, serve_get,
  serve_get_shard_contents,
}
use cs426_spring2023_labs.Kv.Server.Update.{store_values, finish_update}
use cs426_spring2023_labs.Kv.Server.Soundness.{IsSound}
use cs426_spring2023_labs.Kv.Server.Transfer.{
  last_value, IsNamed, from_value, override, store_values-IsSound, serve_get-store_values,
}

-- The fetched lists, one after the other.
abbrev pub all_values : List (List ShardValue) → List ShardValue
all_values [] = []
all_values (vs ∷ results) = vs ++ all_values results

store_values-append :
    (now : ℕ) (st : ShardMapState) (vs ws : List ShardValue) (server : KvServer)
    → store_values now st (vs ++ ws) server
      ≡ (store_values now st vs server >>= λ next. store_values now st ws next)
unfolding store_values
store_values-append now st [] ws server = refl
store_values-append now st (v ∷ vs) ws server =
    elim (Option-cases (get_shard_for_key v.key st.num_shards)) [
      | inl panics ↦ ground arith
      | inr (shard, h) ↦
          elim (Option-cases (at_shard shard (set now v.key v.value v.ttl_ms_remaining) server)) [
            | inl missing ↦ ground arith
            | inr (next, done) ↦ ground (arith, store_values-append now st vs ws next)
          ]
    ]

finish_update-store_values :
    (now : ℕ) (st : ShardMapState) (results : List (List ShardValue)) (server : KvServer)
    → finish_update now st results server ≡ store_values now st (all_values results) server
unfolding finish_update
finish_update-store_values now st [] server = unfold store_values in refl
finish_update-store_values now st (vs ∷ results) server =
    elim (Option-cases (store_values now st vs server)) [
      | inl panics ↦ ground (arith, store_values-append now st vs (all_values results) server)
      | inr (next, done) ↦ ground (
        arith,
        store_values-append now st vs (all_values results) server,
        finish_update-store_values now st results next,
      )
    ]

-- The end of an update leaves a sound server sound.
pub finish_update-IsSound :
    (now : ℕ) (st : ShardMapState) (results : List (List ShardValue)) (server server' : KvServer)
    → IsSound st.num_shards server
    → finish_update now st results server ≡ some server'
    → IsSound st.num_shards server'
finish_update-IsSound now st results server server' i e =
    store_values-IsSound now st (all_values results) server server' i
      (sym (finish_update-store_values now st results server) ∙ e)

-- At the end of an update every fetched value is in place: a `Get` of its key finds it, as long as
-- its remaining TTL lasts, and a `Get` of a key that was not fetched answers as before. That holds
-- whatever the server held, so a value that a client wrote while the contents were being fetched,
-- and that the server acknowledged, is lost to the older one.
pub serve_get-finish_update :
    (later now : ℕ) (st : ShardMapState) (j : GoString) (results : List (List ShardValue))
    (server server' : KvServer)
    → All IsNamed (all_values results)
    → finish_update now st results server ≡ some server'
    → serve_get later st j server'
      ≡ override later now (last_value j (all_values results)) (serve_get later st j server)
serve_get-finish_update later now st j results server server' named e =
    serve_get-store_values later now st j (all_values results) server server' named
      (sym (finish_update-store_values now st results server) ∙ e)

-- What a value travels as.
abbrev pub as_value : ℕ → GoString → KvObject → ShardValue
as_value now key obj = record {
  key = key;
  value = obj.value;
  ttl_ms_remaining = obj.ttl_ms -ℤ pos (millis_since now obj.stored_time);
}

abbrev pub travels : ℕ → GoString → Option KvObject → Option ShardValue
travels now key none = none
travels now key (some obj) = some (as_value now key obj)

absent_value :
    (checked sent : GoString → ℕ) (j : GoString) (contents : Map GoString KvObject)
    → lookup j contents ≡ none
    → last_value j (live_values checked sent contents) ≡ none
unfolding live_values last_value lookup
absent_value checked sent j [] h = refl
absent_value checked sent j ((k, obj) ∷ rest) h = ground (arith, absent_value checked sent j rest)

pub last_value-live_values :
    (checked sent : GoString → ℕ) (j : GoString) (contents : Map GoString KvObject)
    → IsDistinct contents
    → last_value j (live_values checked sent contents)
      ≡ travels (sent j) j (unless_expired (checked j) (lookup j contents))
unfolding live_values last_value lookup
last_value-live_values checked sent j [] d = refl
last_value-live_values checked sent j ((k, obj) ∷ rest) d = elim (Bool-cases (k =? j)) [
  | inl same ↦
      let eq : k ≡ j = (bytes_eq.beq_iff k j).0 same in
      ground (arith, absent_value checked sent j rest, d.0)
  | inr other ↦ ground (arith, last_value-live_values checked sent j rest d.1)
]

-- The answer for a moved object: its value, while the milliseconds spent on both nodes are fewer
-- than its TTL.
abbrev pub while_fresh : ℕ → KvObject → GetResponse
while_fresh spent obj =
    if ltbℤ (pos spent) obj.ttl_ms then get_response (some obj) else get_response none

from_value-as_value :
    (t1 t2 t3 : ℕ) (key : GoString) (obj : KvObject)
    → from_value t3 t2 (as_value t1 key obj)
      ≡ some (ok (while_fresh (millis_since t3 t2 + millis_since t1 obj.stored_time) obj))
unfolding has_expired
from_value-as_value t1 t2 t3 key obj = ground arith

-- A shard that moves keeps its live objects and their TTLs: an object that the old node held and had
-- not expired when it answered is served by the new node, and neither for longer than its TTL allows
-- nor for less, up to the milliseconds that the transfer takes.
pub serve_get_after_handoff :
    (checked sent : GoString → ℕ) (t2 t3 : ℕ) (st : ShardMapState) (z : ℤ)
    (source dest dest' : KvServer) (s : KvShard) (values : List ShardValue) (j : GoString)
    (obj : KvObject)
    → IsSound st.num_shards source
    → lookup z source.shards ≡ some s
    → lookup j s.contents ≡ some obj
    → has_expired (checked j) obj ≡ false
    → serve_get_shard_contents checked sent z source ≡ some (ok values)
    → All IsNamed values
    → finish_update t2 st (values ∷ []) dest ≡ some dest'
    → serve_get t3 st j dest'
      ≡ some (ok (while_fresh (millis_since t3 t2 + millis_since (sent j) obj.stored_time) obj))
unfolding serve_get_shard_contents
serve_get_after_handoff checked sent t2 t3 st z source dest dest' s values j obj i held there live
      reply named done =
    serve_get-finish_update t3 t2 st j (values ∷ []) dest dest' (rw append-nil named) done
    ∙ rw
        (
          append-nil,
          ← same,
          last_value-live_values checked sent j s.contents (i.good z s held).distinct,
          there,
          live,
        )
        (from_value-as_value (sent j) t2 t3 j obj)
  where
    same : live_values checked sent s.contents ≡ values
    same = ground arith
