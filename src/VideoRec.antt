-- ===== src/VideoRec.antt =====
-- lab1/video_rec_service/server_lib/server_lib.go: the recommender's state and its clients.
--
-- Atomic counters are the bits of Go's 64-bit integers. A connection is its number; a call of a
-- remote service is a parameter, numbered within one request, and `none` where it never returns.
pub mod Ranker
pub mod Batches
pub mod Fallback
pub mod TopVideos
pub mod Trending
pub mod Startup
pub mod RoundRobin
mod Tests
use cs426_spring2023_labs.Prelude.{
  ℕ, ◌+◌, ◌-◌, ◌%◌, ◌<◌, Bool, true, false, List, [], ◌∷◌, Option, none, some, ◌>>=◌, GoString, ltb,
  ◌==◌, if◌then◌else◌, length, get_elem?,
}
use cs426_spring2023_labs.Prelude.Int.{ℤ}
use cs426_spring2023_labs.Rpc.{Reply}
use cs426_spring2023_labs.Backend.Users.{UserInfo}
use cs426_spring2023_labs.Backend.Videos.{VideoInfo, TrendingResponse}

abbrev pub Conn : Type 0
Conn = ℕ

-- A call of a batch endpoint: its number in the request, and the ids.
abbrev pub Call : Type 0 → Type 0
Call A = ℕ → List ℕ → Option (Reply (List A))

-- The services, behind the mock clients and behind the connections. `close_nil` tells whether
-- gRPC's `Close` returns on a nil connection.
pub record Clients : Type 0 where
  pub mock_get_user : Call UserInfo
  pub mock_get_video : Call VideoInfo
  pub mock_get_trending : Option (Reply TrendingResponse)
  pub conn_get_user : Conn → Call UserInfo
  pub conn_get_video : Conn → Call VideoInfo
  pub conn_get_trending : Conn → Option (Reply TrendingResponse)
  pub dial_video : Reply Conn
  pub close_nil : Bool

pub record VideoRecServiceOptions : Type 0 where
  pub user_service_addr : GoString
  pub video_service_addr : GoString
  pub max_batch_size : ℕ
  pub disable_fallback : Bool
  pub disable_retry : Bool
  pub client_pool_size : ℕ

pub record TrendingVideos : Type 0 where
  pub videos : List VideoInfo
  pub expire_time : ℤ

pub record VideoRecServiceServer : Type 0 where
  pub options : VideoRecServiceOptions
  pub mock_user_flag : Bool
  pub mock_video_flag : Bool
  pub num_top_video_requests : ℕ
  pub num_top_video_errs : ℕ
  pub num_active_requests : ℕ
  pub num_user_service_errs : ℕ
  pub num_video_service_errs : ℕ
  pub total_latency : ℕ
  pub num_stale_response : ℕ
  pub user_robin_count : ℕ
  pub video_robin_count : ℕ
  pub fall_back_videos : TrendingVideos
  pub user_conn_pool : List Conn
  pub video_conn_pool : List Conn

-- `atomic.AddUint64(&x, y)`, and AddInt64 on the bits.
abbrev pub add_64 : ℕ → ℕ → ℕ
add_64 x y = (x + y) % 18446744073709551616

abbrev pub minus_one : ℕ
minus_one = 18446744073709551615

-- `pool[index % len(pool)]`: Go's remainder has the sign of the index, whose top bit is its sign,
-- and a negative index panics, as does a division by zero.
unfoldable pub pick : ℕ → List Conn → Option Conn
pick count pool =
    if length pool == 0
    then none
    else if ltb count 9223372036854775808
    then get_elem? pool (count % length pool)
    else if (18446744073709551616 - count) % length pool == 0
    then get_elem? pool 0
    else none

unfoldable pub get_client_round_robin :
    Bool → VideoRecServiceServer → Option (VideoRecServiceServer × Conn)
get_client_round_robin user s =
    if user
    then (pick s.user_robin_count s.user_conn_pool >>= λ client.
        some (record s { user_robin_count = add_64 s.user_robin_count 1 }, client))
    else (pick s.video_robin_count s.video_conn_pool >>= λ client.
        some (record s { video_robin_count = add_64 s.video_robin_count 1 }, client))
