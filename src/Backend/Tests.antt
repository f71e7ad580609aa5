-- ===== src/Backend/Tests.antt =====
-- The theorems about the services behind the recommender, applied.
use cs426_spring2023_labs.Prelude.{
  ℕ, ◌≡◌, ◌≤◌, ◌↔◌, false, List, [], ◌∷◌, some, none, Option, is_some, true, refl, ◌%◌, arith,
  length, nat_eq,
}
use cs426_spring2023_labs.Prelude.Map.{NoRepeats, member, lookup}
use cs426_spring2023_labs.Rpc.{ok}
use cs426_spring2023_labs.Backend.Injection.{Draws, maybe_inject}
use cs426_spring2023_labs.Backend.Users.{
  UserInfo, UserServiceServer, make_user_service_server, default_user_service_options,
}
use cs426_spring2023_labs.Backend.Videos.{
  VideoInfo, VideoServiceServer, make_video_service_server, default_video_service_options,
  get_video,
}
use cs426_spring2023_labs.Backend.Random.{RandomSource, start_user_service, start_video_service}
use cs426_spring2023_labs.Backend.Random.Consistent.{start_user_service-ids, liked_videos_exist}
use cs426_spring2023_labs.Backend.Exact.{Finds, get_video_exact}

abbrev video_ids : List ℕ
video_ids = 7 ∷ []

abbrev user_ids : List ℕ
user_ids = 4 ∷ 4 ∷ []

abbrev draws : Draws
draws = record { failure = 1; omission = 1 }

abbrev video_7 : VideoInfo
video_7 = record { video_id = 7; video_coefficients = [] }

abbrev videos : VideoServiceServer
videos = make_video_service_server default_video_service_options ((7, video_7) ∷ []) (7 ∷ [])

get_video_exact_example : (get_video draws videos video_ids ≡ some (ok (video_7 ∷ []))) ↔ (
    (maybe_inject draws videos.fi ≡ some false)
    × (1 ≤ length video_ids)
    × (length video_ids ≤ videos.options.max_batch_size)
    × NoRepeats video_ids
    × Finds videos.videos video_ids (video_7 ∷ []))
get_video_exact_example = get_video_exact draws videos video_ids (video_7 ∷ [])

abbrev user_4 : UserInfo
user_4 = record { user_id = 4; user_coefficients = []; subscribed_to = []; liked_videos = 7 ∷ [] }

abbrev users : UserServiceServer
users = make_user_service_server default_user_service_options ((4, user_4) ∷ [])

abbrev source : RandomSource
source = record { intn = λ k n. k % n; below = λ k n some_n. omega arith }

some_of : (o : Option UserInfo) → is_some o ≡ true → (user : UserInfo) × (o ≡ some user)
some_of none there = absurd (ground arith)
some_of (some user) there = (user, refl)

-- A user whom the user service has when it starts.
first_user :
    (user : UserInfo) × (lookup 200000
        (start_user_service (λ seed. source) default_user_service_options).users
      ≡ some user)
first_user =
    some_of (lookup 200000 (start_user_service (λ seed. source) default_user_service_options).users)
      (start_user_service-ids (λ seed. source) default_user_service_options 200000 (omega arith)
        (omega arith))

liked_videos_exist_example :
    ((f : ℕ)
      → member f first_user.0.subscribed_to ≡ true
      → is_some (lookup f (start_user_service (λ seed. source) default_user_service_options).users)
        ≡ true)
    × (member first_user.0.user_id first_user.0.subscribed_to ≡ false)
    × ((v : ℕ)
        → member v first_user.0.liked_videos ≡ true
        → is_some
            (lookup v (start_video_service (λ seed. source) default_video_service_options).videos)
          ≡ true)
liked_videos_exist_example =
    liked_videos_exist (λ seed. source) default_user_service_options default_video_service_options
      200000 first_user.0 refl first_user.1
