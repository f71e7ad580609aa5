-- ===== src/Backend/Videos.antt =====
-- lab1/video_service/server_lib/server_lib.go, and the mock client that passes its calls on.
--
-- The videos and the trending ids that a server starts with are those of Backend.Random. `none` is
-- a panic, or a request that blocks for ever; `now` is the clock in seconds.
use cs426_spring2023_labs.Prelude.{
  ℕ, ◌+◌, not, List, [], ◌∷◌, ◌++◌, Option, none, some, ◌>>=◌, text, nat_eq, ltb, ◌==◌,
  if◌then◌else◌, length,
}
use cs426_spring2023_labs.Prelude.Int.{ℤ, pos}
use cs426_spring2023_labs.Prelude.Map.{Map, lookup}
use cs426_spring2023_labs.Rpc.{Code, GoError, status, Reply, ok, err}
use cs426_spring2023_labs.Backend.Injection.{
  FailureInjector, InjectionConfig, Draws, make_failure_injector, set_injection_config,
  set_injection_config_pb, maybe_inject,
}
use cs426_spring2023_labs.Backend.Dedup.{deduplicate_ids}

-- The fields that the recommender reads; feature ids are taken to be not negative.
pub record VideoInfo : Type 0 where
  pub video_id : ℕ
  pub video_coefficients : Map ℕ ℕ

pub record VideoServiceOptions : Type 0 where
  pub seed : ℤ
  pub ttl_seconds : ℕ
  pub sleep_ns : ℤ
  pub failure_rate : ℤ
  pub response_omission_rate : ℤ
  pub max_batch_size : ℕ

abbrev pub default_video_service_options : VideoServiceOptions
default_video_service_options = record {
  seed = pos 42;
  ttl_seconds = 60;
  sleep_ns = pos 0;
  failure_rate = pos 0;
  response_omission_rate = pos 0;
  max_batch_size = 50;
}

pub record VideoServiceServer : Type 0 where
  pub options : VideoServiceOptions
  pub fi : FailureInjector
  pub videos : Map ℕ VideoInfo
  pub top_videos : List ℕ

unfoldable pub make_video_service_server :
    VideoServiceOptions → Map ℕ VideoInfo → List ℕ → VideoServiceServer
unfolding set_injection_config
make_video_service_server options videos top_videos = record {
  options = options;
  fi =
      set_injection_config options.sleep_ns options.failure_rate options.response_omission_rate
        make_failure_injector;
  videos = videos;
  top_videos = top_videos;
}

abbrev video_not_found : GoError
video_not_found = status Code.not_found (
    text
      "VideoService: video cannot be found, it may have been deleted or never existed in the first place.")

-- The loop over the ids, which the first unknown one ends.
unfoldable pub find_videos : Map ℕ VideoInfo → List ℕ → List VideoInfo → Reply (List VideoInfo)
find_videos db [] videos = ok videos
find_videos db (video_id ∷ video_ids) videos = elim (lookup video_id db) [
  | none ↦ err video_not_found
  | some info ↦ find_videos db video_ids (videos ++ (info ∷ []))
]

unfoldable pub get_video : Draws → VideoServiceServer → List ℕ → Option (Reply (List VideoInfo))
get_video draws db video_ids = maybe_inject draws db.fi >>= λ should_error. some (
    if should_error
    then err (status Code.internal (text "VideoService: (injected) internal error!"))
    else if length video_ids == 0
    then err (
        status Code.invalid_argument
          (text "VideoService: video_ids in GetVideoRequest should not be empty"))
    else if ltb db.options.max_batch_size (length video_ids)
    then err
        (status Code.invalid_argument (text "VideoService: video_ids exceeded the max batch size"))
    else if not (length (deduplicate_ids video_ids) == length video_ids)
    then err (status Code.invalid_argument (text "VideoService: duplicate IDs found in video_ids"))
    else find_videos db.videos video_ids [])

pub record TrendingResponse : Type 0 where
  pub video_ids : List ℕ
  pub expiration_time_s : ℕ

unfoldable pub get_trending_videos :
    Draws → ℕ → VideoServiceServer → Option (Reply TrendingResponse)
get_trending_videos draws now db = maybe_inject draws db.fi >>= λ should_error. some (
    if should_error
    then err (status Code.internal (text "VideoService: (injected) internal error!"))
    else ok
        (record { video_ids = db.top_videos; expiration_time_s = now + db.options.ttl_seconds }))

unfoldable pub set_video_injection_config :
    InjectionConfig → VideoServiceServer → VideoServiceServer
set_video_injection_config config db = record db { fi = set_injection_config_pb config db.fi }
