-- ===== src/VideoRec/Fallback.antt =====
-- `fallBack` of lab1/video_rec_service/server_lib/server_lib.go, and the ways a request fails.
use cs426_spring2023_labs.Prelude.{
  ℕ, Bool, true, not, ◌&&◌, List, [], ◌∷◌, text, if◌then◌else◌, length, take,
}
use cs426_spring2023_labs.Prelude.Int.{ℤ, pos, pos_part, ltbℤ}
use cs426_spring2023_labs.Rpc.{Code, GoError, status, Reply, ok, err}
use cs426_spring2023_labs.Backend.Videos.{VideoInfo}
use cs426_spring2023_labs.VideoRec.{VideoRecServiceServer, add_64}

pub record TopVideosResponse : Type 0 where
  pub videos : List VideoInfo
  pub stale_response : Bool

-- The number of videos to return, of the `len` that there are.
unfoldable pub fall_back_len : ℤ → ℕ → ℕ
fall_back_len limit len = if ltbℤ limit (pos len) && ltbℤ (pos 0) limit then pos_part limit else len

abbrev pub no_cache : GoError
no_cache = status Code.unavailable (text "Fallback fails, no trending video cache is available")

unfoldable pub fall_back :
    ℤ → VideoRecServiceServer → VideoRecServiceServer × Reply TopVideosResponse
fall_back limit s = elim s.fall_back_videos.videos [
  | [] ↦ (s, err no_cache)
  | v ∷ vs ↦ (
    record s { num_stale_response = add_64 s.num_stale_response 1 },
    ok (record {
      videos = take (fall_back_len limit (length (v ∷ vs))) (v ∷ vs);
      stale_response = true;
    }),
  )
]

-- What follows the failure of a call: the cache, if it may be used, or the error.
unfoldable pub give_up :
    ℤ → GoError → VideoRecServiceServer → VideoRecServiceServer × Reply TopVideosResponse
give_up limit error s =
    if not s.options.disable_fallback
    then fall_back limit s
    else (record s { num_top_video_errs = add_64 s.num_top_video_errs 1 }, err error)

unfoldable pub fail_user :
    ℤ → GoError → VideoRecServiceServer → VideoRecServiceServer × Reply TopVideosResponse
fail_user limit error s =
    give_up limit error (record s { num_user_service_errs = add_64 s.num_user_service_errs 1 })

unfoldable pub fail_video :
    ℤ → GoError → VideoRecServiceServer → VideoRecServiceServer × Reply TopVideosResponse
fail_video limit error s =
    give_up limit error (record s { num_video_service_errs = add_64 s.num_video_service_errs 1 })
