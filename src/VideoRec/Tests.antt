-- ===== src/VideoRec/Tests.antt =====
-- The theorems about the recommender, applied.
pub mod Sorting
use cs426_spring2023_labs.Prelude.{
  is_some, drop, ◌⊎◌, inl, inr, ℕ, zero, suc, ◌+◌, ◌%◌, ◌≡◌, ◌≤◌, ◌<◌, ◌⊎◌, inl, inr, refl, Bool,
  true, false, List, [], ◌∷◌, ◌++◌, map, Option, none, some, ◌>>=◌, length, nat_eq, arith, is_some,
  get_elem?,
}
use cs426_spring2023_labs.Prelude.Int.{int64, ℤ, pos}
use cs426_spring2023_labs.Prelude.Map.{Map, lookup, member}
use cs426_spring2023_labs.Rpc.{GoError, plain, Reply, ok, err}
use cs426_spring2023_labs.Backend.Injection.{
  Draws, maybe_inject, one_in, make_failure_injector, set_injection_config,
}
use cs426_spring2023_labs.Backend.Users.{UserInfo}
use cs426_spring2023_labs.Backend.Videos.{
  VideoInfo, VideoServiceServer, TrendingResponse, make_video_service_server,
  default_video_service_options, get_video,
}
use cs426_spring2023_labs.VideoRec.{
  Call, Clients, Conn, VideoRecServiceOptions, VideoRecServiceServer, add_64,
  get_client_round_robin,
}
use cs426_spring2023_labs.VideoRec.Batches.{batch, fetch_batches, fetch_all}
use cs426_spring2023_labs.VideoRec.Batches.Complete.{Gathered, fetch_all_gathers}
use cs426_spring2023_labs.VideoRec.Batches.{batch}
use cs426_spring2023_labs.VideoRec.Fallback.{
  TopVideosResponse, fall_back_len, fall_back, give_up, fail_user,
}
use cs426_spring2023_labs.VideoRec.TopVideos.{
  RankPair, Ranking, rank_pairs, Times, top_len, top_ranked, fetch_videos, serve_top_videos,
  get_top_videos, mock_error,
}
use cs426_spring2023_labs.VideoRec.TopVideos.TopK.{In, top_ranked_best, limit_zero}
use cs426_spring2023_labs.VideoRec.TopVideos.Counters.{Answered, Failures, get_top_videos_counts}
use cs426_spring2023_labs.VideoRec.TopVideos.Fetching.{fetch_videos-get_video}
use cs426_spring2023_labs.VideoRec.Trending.{
  update_cache, fetch_trending_round, fetch_trending_round_fills,
}
use cs426_spring2023_labs.VideoRec.Startup.{
  new_server, make_video_rec_service_server, make_video_rec_service_server_pools, make_pool,
  dial_retry,
}
use cs426_spring2023_labs.VideoRec.RoundRobin.{get_client_round_robin_turns}
use cs426_spring2023_labs.VideoRec.Tests.Sorting.{sort, sort-IsSortSlice}

abbrev video_7 : VideoInfo
video_7 = record { video_id = 7; video_coefficients = [] }

abbrev video_8 : VideoInfo
video_8 = record { video_id = 8; video_coefficients = [] }

abbrev info_of : ℕ → VideoInfo
info_of id = record { video_id = id; video_coefficients = [] }

abbrev user_4 : UserInfo
user_4 = record {
  user_id = 4;
  user_coefficients = [];
  subscribed_to = 4 ∷ [];
  liked_videos = 7 ∷ 8 ∷ [];
}

abbrev ids : List ℕ
ids = 7 ∷ 8 ∷ 9 ∷ []

abbrev call : Call VideoInfo
call k some_ids = some (ok (map info_of some_ids))

fetch_all_gathers_example :
    (all : List VideoInfo) × (error : Option GoError) × (fetch_all call 2 0 ids ≡ some (all, error))
    × Gathered call 2 ids (omega arith) info_of ids [] all error
fetch_all_gathers_example =
    fetch_all_gathers call 2 ids (omega arith) info_of 0 (λ k some_ids. refl) (λ k lo xs e. cc)

abbrev db : VideoServiceServer
db =
    make_video_service_server default_video_service_options ((7, video_7) ∷ (8, video_8) ∷ [])
      (7 ∷ [])

abbrev draws : ℕ → Draws
draws k = record { failure = 1; omission = 1 }

abbrev trending : TrendingResponse
trending = record { video_ids = ids; expiration_time_s = 90 }

abbrev clients : Clients
clients = record {
  mock_get_user = λ k some_ids. some (err (plain []));
  mock_get_video = call;
  mock_get_trending = some (ok trending);
  conn_get_user = λ conn k some_ids. some (ok (user_4 ∷ []));
  conn_get_video = λ conn. call;
  conn_get_trending = λ conn. some (ok trending);
  dial_video = ok 3;
  close_nil = false;
}

abbrev options : VideoRecServiceOptions
options = record {
  user_service_addr = [];
  video_service_addr = [];
  max_batch_size = 2;
  disable_fallback = true;
  disable_retry = false;
  client_pool_size = 2;
}

abbrev server : VideoRecServiceServer
server = new_server options true [] []

fetch_videos-get_video_example :
    fetch_videos
      (record clients { mock_get_video = λ k some_ids. get_video (draws k) db some_ids })
      server
      (8 ∷ 7 ∷ [])
    ≡ some (server, ok (video_8 ∷ video_7 ∷ []))
unfolding make_video_service_server maybe_inject one_in set_injection_config make_failure_injector
    member lookup
fetch_videos-get_video_example =
    fetch_videos-get_video
      (record clients { mock_get_video = λ k some_ids. get_video (draws k) db some_ids }) draws db
      server (8 ∷ 7 ∷ []) (video_8 ∷ video_7 ∷ []) refl refl (λ k. refl) (omega arith) (omega arith)
      (refl, (refl, tt)) (refl, (refl, tt))

abbrev ranking : Ranking
ranking = record { score = λ user video. 3; sort_slice = sort }

top_ranked_best_example :
    (length (top_ranked ranking (pos 1) user_4 (video_7 ∷ video_8 ∷ [])) ≡ top_len (pos 1) 2)
    × ((p : RankPair)
        → In p (top_ranked ranking (pos 1) user_4 (video_7 ∷ video_8 ∷ []))
        → In p (rank_pairs ranking user_4 (video_7 ∷ video_8 ∷ [])))
    × ((q : RankPair)
        → In q (rank_pairs ranking user_4 (video_7 ∷ video_8 ∷ []))
        → In q (top_ranked ranking (pos 1) user_4 (video_7 ∷ video_8 ∷ []))
          ⊎ ((p : RankPair)
              → In p (top_ranked ranking (pos 1) user_4 (video_7 ∷ video_8 ∷ []))
              → q.score ≤ p.score))
top_ranked_best_example =
    top_ranked_best ranking (pos 1) user_4 (video_7 ∷ video_8 ∷ []) sort-IsSortSlice

abbrev times : Times
times = record { start_time = 10; end_time = 30 }

abbrev server_after : VideoRecServiceServer
server_after = record server {
  num_user_service_errs = 1;
  num_top_video_errs = 1;
  num_top_video_requests = 1;
}

get_top_videos_counts_example :
    (server_after.num_top_video_requests ≡ add_64 server.num_top_video_requests 1)
    × (server_after.num_active_requests ≡ server.num_active_requests)
    × Answered server server_after (err mock_error)
    × Failures server server_after (err mock_error)
unfolding get_top_videos serve_top_videos fail_user give_up
get_top_videos_counts_example =
    get_top_videos_counts clients ranking times 4 (pos 1) server server_after (err mock_error)
      (omega arith) refl

-- The second batch fails.
abbrev half_failing : Call VideoInfo
half_failing zero some_ids = some (ok (map info_of some_ids))
half_failing (suc k) some_ids = some (err (plain []))

half_failing-returns : (k : ℕ) (some_ids : List ℕ) → is_some (half_failing k some_ids) ≡ true
half_failing-returns zero some_ids = refl
half_failing-returns (suc k) some_ids = refl

half_failing-right :
    (k : ℕ) (some_ids : List ℕ) (xs : List VideoInfo)
    → half_failing k some_ids ≡ some (ok xs)
    → xs ≡ map info_of some_ids
half_failing-right zero some_ids xs e = cc
half_failing-right (suc k) some_ids xs e = absurd (cc)

abbrev flaky : Clients
flaky = record clients { conn_get_video = λ conn. half_failing }

abbrev dialling : VideoRecServiceServer
dialling = new_server options false [] []

fetch_trending_round_fills_example :
    (done : List ℕ) × (rest : List ℕ) × (ids ≡ done ++ rest)
    × (fetch_trending_round flaky 5 dialling
        ≡ some (update_cache (map info_of done) (int64 90) dialling))
    × ((rest ≡ [])
        ⊎ ((k : ℕ) × (lo : ℕ) × (x : GoError) × (rest ≡ drop lo ids)
            × (lo < length ids)
            × (half_failing k (batch 2 lo ids) ≡ some (err x))))
fetch_trending_round_fills_example =
    fetch_trending_round_fills flaky 5 dialling trending (some (ok trending)) half_failing info_of
      refl (inr (3, refl, refl, refl, refl)) refl (omega arith) half_failing-returns
      (λ k lo xs e. half_failing-right k (batch 2 lo ids) xs e)

abbrev dial : ℕ → Reply Conn
dial zero = err (plain [])
dial (suc k) = ok k

abbrev started : VideoRecServiceServer
started = new_server options false (0 ∷ 1 ∷ []) (2 ∷ 3 ∷ [])
