-- ===== src/Backend/Random/Consistent.antt =====
-- The users and the videos that the two services of lab1 start with, when both have the same seed.
use cs426_spring2023_labs.Prelude.{
  ℕ, ◌+◌, ◌<◌, ◌≤◌, true, false, nat_eq, ◌≡◌, ◌∙◌, subst, arith, some, is_some,
}
use cs426_spring2023_labs.Prelude.Int.{ℤ}
use cs426_spring2023_labs.Prelude.Map.{NoRepeats, lookup, member}
use cs426_spring2023_labs.Backend.Users.{UserInfo, UserServiceOptions, make_user_service_server}
use cs426_spring2023_labs.Backend.Videos.{VideoServiceOptions, make_video_service_server}
use cs426_spring2023_labs.Backend.Random.{
  RandomSource, user_id_offset, video_id_offset, user_count, video_count, start_user_service,
  start_video_service,
}
use cs426_spring2023_labs.Backend.Random.Users.{
  make_random_users-ids, make_random_users-IsConnected,
}
use cs426_spring2023_labs.Backend.Random.Videos.{
  make_random_videos-ids, make_random_videos-trending,
}

pub start_user_service-ids :
    (seeded : ℤ → RandomSource) (options : UserServiceOptions) (j : ℕ)
    → user_id_offset ≤ j
    → j < user_id_offset + user_count (seeded options.seed)
    → is_some (lookup j (start_user_service seeded options).users) ≡ true
unfolding start_user_service make_user_service_server
start_user_service-ids seeded options j low high =
    make_random_users-ids (seeded options.seed) j ∙ ground arith

start_video_service-ids :
    (seeded : ℤ → RandomSource) (options : VideoServiceOptions) (j : ℕ)
    → video_id_offset ≤ j
    → j < video_id_offset + video_count (seeded options.seed)
    → is_some (lookup j (start_video_service seeded options).videos) ≡ true
unfolding start_video_service make_video_service_server
start_video_service-ids seeded options j low high =
    make_random_videos-ids (seeded options.seed) j ∙ ground arith

-- When both services start with the same seed, a user of the user service follows only users that
-- the user service has, not itself, and likes only videos that the video service has.
pub liked_videos_exist :
    (seeded : ℤ → RandomSource) (users : UserServiceOptions) (videos : VideoServiceOptions) (j : ℕ)
    (user : UserInfo)
    → users.seed ≡ videos.seed
    → lookup j (start_user_service seeded users).users ≡ some user
    → ((f : ℕ)
        → member f user.subscribed_to ≡ true
        → is_some (lookup f (start_user_service seeded users).users) ≡ true)
      × (member user.user_id user.subscribed_to ≡ false)
      × ((v : ℕ)
          → member v user.liked_videos ≡ true
          → is_some (lookup v (start_video_service seeded videos).videos) ≡ true)
unfolding start_user_service make_user_service_server
liked_videos_exist seeded users videos j user same there =
    let connected = make_random_users-IsConnected (seeded users.seed) j user there in
    (
      λ f follows.
          let (low, high) = connected.follows f follows in
          start_user_service-ids seeded users f low high,
      connected.not_itself,
      λ v likes.
          let (low, high) = connected.likes v likes in
          start_video_service-ids seeded videos v low
            (subst (λ seed. v < video_id_offset + video_count (seeded seed)) same high),
    )

-- The trending videos that a video service starts with have no repeats, and it has them all.
pub trending_videos_exist :
    (seeded : ℤ → RandomSource) (options : VideoServiceOptions)
    → NoRepeats (start_video_service seeded options).top_videos
      × ((v : ℕ)
          → member v (start_video_service seeded options).top_videos ≡ true
          → is_some (lookup v (start_video_service seeded options).videos) ≡ true)
unfolding start_video_service make_video_service_server
trending_videos_exist seeded options =
    let (once, all) = make_random_videos-trending (seeded options.seed) in
    (
      once,
      λ v trends.
          let (low, high) = all v trends in
          make_random_videos-ids (seeded options.seed) v ∙ ground arith,
    )
