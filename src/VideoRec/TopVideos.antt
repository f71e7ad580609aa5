-- ===== src/VideoRec/TopVideos.antt =====
-- `GetTopVideos`, `fetchVideos` and `GetStats` of lab1/video_rec_service/server_lib/server_lib.go.
--
-- A request runs alone here: the counters it shares with others are only added to. `sort_slice` is
-- Go's `sort.Slice`, which the code gives its comparison, and `score` the ranker.
pub mod Fetching
pub mod TopK
pub mod Counters
use cs426_spring2023_labs.Prelude.{
  ℕ, zero, suc, ◌+◌, ◌-◌, ◌%◌, ◌≤◌, ◌<◌, Bool, true, false, not, List, [], ◌∷◌, ◌++◌, map, Option,
  none, some, ◌>>=◌, text, nat_eq, ltb, if◌then◌else◌, length, take,
}
use cs426_spring2023_labs.Prelude.Int.{ℤ, pos, negsuc, pos_part, neg_part, ltbℤ}
use cs426_spring2023_labs.Prelude.Map.{Map}
use cs426_spring2023_labs.Rpc.{Code, GoError, status, Reply, ok, err}
use cs426_spring2023_labs.Backend.Dedup.{deduplicate_ids}
use cs426_spring2023_labs.Backend.Users.{UserInfo}
use cs426_spring2023_labs.Backend.Videos.{VideoInfo}
use cs426_spring2023_labs.VideoRec.{
  Call, Clients, VideoRecServiceServer, add_64, minus_one, get_client_round_robin,
}
use cs426_spring2023_labs.VideoRec.Batches.{fetch_all}
use cs426_spring2023_labs.VideoRec.Fallback.{TopVideosResponse, fail_user, fail_video}

pub record RankPair : Type 0 where
  pub vi : VideoInfo
  pub score : ℕ

pub record Ranking : Type 0 where
  pub score : Map ℕ ℕ → Map ℕ ℕ → ℕ
  pub sort_slice : (RankPair → RankPair → Bool) → List RankPair → List RankPair

abbrev pub unavailable_videos : GoError
unavailable_videos =
    status Code.unavailable
      (text "Video service client fail to get the video responses from the server")

abbrev pub pick_user_client :
    Clients → VideoRecServiceServer → Option (VideoRecServiceServer × Call UserInfo)
pick_user_client c s =
    if s.mock_user_flag
    then some (s, c.mock_get_user)
    else (get_client_round_robin true s >>= λ p. some (p.0, c.conn_get_user p.1))

abbrev pub pick_video_client :
    Clients → VideoRecServiceServer → Option (VideoRecServiceServer × Call VideoInfo)
pick_video_client c s =
    if s.mock_video_flag
    then some (s, c.mock_get_video)
    else (get_client_round_robin false s >>= λ p. some (p.0, c.conn_get_video p.1))

abbrev fetched : List VideoInfo × Option GoError → Reply (List VideoInfo)
fetched (infos, none) = ok infos
fetched (infos, some error) = err unavailable_videos

unfoldable pub fetch_videos :
    Clients
    → VideoRecServiceServer
    → List ℕ
    → Option (VideoRecServiceServer × Reply (List VideoInfo))
fetch_videos c s video_candids = pick_video_client c s >>= λ p.
    fetch_all p.1 p.0.options.max_batch_size 0 video_candids >>= λ r. some (p.0, fetched r)

abbrev pub liked_videos_of : List UserInfo → List ℕ
liked_videos_of [] = []
liked_videos_of (info ∷ infos) = info.liked_videos ++ liked_videos_of infos

abbrev pub likes : Call UserInfo → Call ℕ
likes client k ids = client k ids >>= λ reply. elim reply [
  | ok infos ↦ some (ok (liked_videos_of infos))
  | err e ↦ some (err e)
]

abbrev pub rank_pairs : Ranking → UserInfo → List VideoInfo → List RankPair
rank_pairs r user [] = []
rank_pairs r user (info ∷ infos) =
    (record { vi = info; score = r.score user.user_coefficients info.video_coefficients })
    ∷ rank_pairs r user infos

-- The number of pairs taken; a loop to a negative number takes none.
unfoldable pub top_len : ℤ → ℕ → ℕ
top_len limit len = if ltbℤ limit (pos len) then pos_part limit else len

abbrev infos_of : List RankPair → List VideoInfo
infos_of [] = []
infos_of (p ∷ ps) = p.vi ∷ infos_of ps

-- The comparison that the code gives `sort.Slice`.
abbrev pub ranks_before : RankPair → RankPair → Bool
ranks_before i j = ltb j.score i.score

unfoldable pub top_ranked : Ranking → ℤ → UserInfo → List VideoInfo → List RankPair
top_ranked r limit user video_infos =
    let sorted = r.sort_slice ranks_before (rank_pairs r user video_infos) in
    take (top_len limit (length sorted)) sorted

-- Milliseconds at the start of the request and at its end.
pub record Times : Type 0 where
  pub start_time : ℕ
  pub end_time : ℕ

abbrev add_latency : Times → VideoRecServiceServer → VideoRecServiceServer
add_latency times s = record s {
  total_latency =
      add_64 s.total_latency
        (times.end_time + (18446744073709551616 - times.start_time % 18446744073709551616));
}

unfoldable pub recommend :
    Clients
    → Ranking
    → Times
    → ℤ
    → UserInfo
    → Call UserInfo
    → VideoRecServiceServer
    → Option (VideoRecServiceServer × Reply TopVideosResponse)
recommend c r times limit user client s =
    fetch_all (likes client) s.options.max_batch_size 1 user.subscribed_to >>= λ candidates.
    elim candidates.1 [
      | some error ↦ some (fail_user limit error s)
      | none ↦ fetch_videos c s (deduplicate_ids candidates.0) >>= λ f. elim f.1 [
        | err error ↦ some (fail_video limit error f.0)
        | ok infos ↦ some (
          add_latency times f.0,
          ok (record { videos = infos_of (top_ranked r limit user infos); stale_response = false }),
        )
      ]
    ]

-- The adds that `defer` runs when a request returns.
abbrev pub end_request :
    VideoRecServiceServer × Reply TopVideosResponse
    → VideoRecServiceServer × Reply TopVideosResponse
end_request (s, reply) = (
  record s {
    num_top_video_requests = add_64 s.num_top_video_requests 1;
    num_active_requests = add_64 s.num_active_requests minus_one;
  },
  reply,
)

abbrev pub mock_error : GoError
mock_error = status Code.unknown (text "Mock User service client returned Error")

-- The request from its first call on. An answer without users panics.
unfoldable pub serve_top_videos :
    Clients
    → Ranking
    → Times
    → ℕ
    → ℤ
    → VideoRecServiceServer
    → Option (VideoRecServiceServer × Reply TopVideosResponse)
serve_top_videos c r times user_id limit s = pick_user_client c s >>= λ p.
    p.1 0 (user_id ∷ []) >>= λ reply. elim reply [
      | err e ↦ some (fail_user limit (if p.0.mock_user_flag then mock_error else e) p.0)
      | ok infos ↦ elim infos [ [] ↦ none | user ∷ _ ↦ recommend c r times limit user p.1 p.0 ]
    ]

unfoldable pub get_top_videos :
    Clients
    → Ranking
    → Times
    → ℕ
    → ℤ
    → VideoRecServiceServer
    → Option (VideoRecServiceServer × Reply TopVideosResponse)
get_top_videos c r times user_id limit s =
    serve_top_videos c r times user_id limit
      (record s { num_active_requests = add_64 s.num_active_requests 1 })
    >>= λ out. some (end_request out)

-- The average latency is a quotient of 32-bit floats, given here as its two operands.
pub record Stats : Type 0 where
  pub total_requests : ℕ
  pub total_errors : ℕ
  pub active_requests : ℕ
  pub user_service_errors : ℕ
  pub video_service_errors : ℕ
  pub stale_responses : ℕ
  pub average_latency_ms : ℕ × ℕ

unfoldable pub get_stats : VideoRecServiceServer → Stats
get_stats s = record {
  total_requests = s.num_top_video_requests;
  total_errors = s.num_top_video_errs;
  active_requests = s.num_active_requests;
  user_service_errors = s.num_user_service_errs;
  video_service_errors = s.num_video_service_errs;
  stale_responses = s.num_stale_response;
  average_latency_ms = (
    s.total_latency,
    (s.num_top_video_requests + (18446744073709551616 - s.num_top_video_errs))
        % 18446744073709551616,
  );
}
