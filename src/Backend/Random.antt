-- ===== src/Backend/Random.antt =====
-- The data that the services of lab1 start with: `makeRandomUsers` of
-- lab1/user_service/server_lib/server_lib.go and `makeRandomVideos` of
-- lab1/video_service/server_lib/server_lib.go.
--
-- A seeded source of math/rand is the sequence of its draws: `intn k n` is what `rand.Intn(n)` gives
-- as draw number k. The texts of gofakeit, which has a source of its own, are left out.
pub mod Users
pub mod Videos
pub mod Consistent
use cs426_spring2023_labs.Prelude.{
  ℕ, zero, suc, ◌+◌, ◌<◌, ◌≤◌, Bool, true, false, List, [], ◌∷◌, ◌++◌, nat_eq, ◌==◌, if◌then◌else◌,
}
use cs426_spring2023_labs.Prelude.Int.{ℤ}
use cs426_spring2023_labs.Prelude.Map.{Map, lookup, insert}
use cs426_spring2023_labs.Backend.Dedup.{deduplicate_ids}
use cs426_spring2023_labs.Backend.Users.{
  UserInfo, UserServiceOptions, UserServiceServer, make_user_service_server,
}
use cs426_spring2023_labs.Backend.Videos.{
  VideoInfo, VideoServiceOptions, VideoServiceServer, make_video_service_server,
}

pub record RandomSource : Type 0 where
  pub intn : ℕ → ℕ → ℕ
  pub below : (k n : ℕ) → 0 < n → intn k n < n

abbrev pub user_id_offset : ℕ
user_id_offset = 200000

abbrev pub video_id_offset : ℕ
video_id_offset = 1000

-- Each generator has the number of the next draw, and gives the number after its own.
unfoldable pub random_coeffs : RandomSource → ℕ → ℕ → Map ℕ ℕ → Map ℕ ℕ × ℕ
random_coeffs rng zero k coeffs = (coeffs, k)
random_coeffs rng (suc n) k coeffs =
    random_coeffs rng n (k + 2) (insert (rng.intn k 20) (rng.intn (k + 1) 500) coeffs)

unfoldable pub random_subscribed : RandomSource → ℕ → ℕ → ℕ → ℕ → List ℕ → List ℕ × ℕ
random_subscribed rng user_id max_users zero k ids = (ids, k)
random_subscribed rng user_id max_users (suc n) k ids =
    random_subscribed rng user_id max_users n (k + 1) (
      if rng.intn k max_users + user_id_offset == user_id
      then ids
      else ids ++ ((rng.intn k max_users + user_id_offset) ∷ []))

unfoldable pub random_video_ids : RandomSource → ℕ → ℕ → ℕ → List ℕ → List ℕ × ℕ
random_video_ids rng max_videos zero k ids = (ids, k)
random_video_ids rng max_videos (suc n) k ids =
    random_video_ids rng max_videos n (k + 1)
      (ids ++ ((rng.intn k max_videos + video_id_offset) ∷ []))

unfoldable pub make_random_user : RandomSource → ℕ → ℕ → ℕ → ℕ → UserInfo × ℕ
make_random_user rng user_id max_users max_videos k =
    let coeffs = random_coeffs rng (rng.intn k 10 + 10) (k + 1) [] in
    let subscribed =
      random_subscribed rng user_id max_users (rng.intn coeffs.1 50 + 10) (coeffs.1 + 1) [] in
    let liked =
      random_video_ids rng max_videos (rng.intn subscribed.1 20 + 5) (subscribed.1 + 1) [] in
    (
      record {
        user_id = user_id;
        user_coefficients = coeffs.0;
        subscribed_to = subscribed.0;
        liked_videos = liked.0;
      },
      liked.1,
    )

unfoldable pub random_users : RandomSource → ℕ → ℕ → ℕ → ℕ → ℕ → Map ℕ UserInfo → Map ℕ UserInfo
random_users rng max_users max_videos zero user_id k users = users
random_users rng max_users max_videos (suc n) user_id k users =
    let made = make_random_user rng user_id max_users max_videos k in
    random_users rng max_users max_videos n (user_id + 1) made.1 (insert user_id made.0 users)

abbrev pub video_count : RandomSource → ℕ
video_count rng = rng.intn 0 500 + 100

abbrev pub user_count : RandomSource → ℕ
user_count rng = rng.intn 1 5000 + 5000

unfoldable pub make_random_users : RandomSource → Map ℕ UserInfo
make_random_users rng =
    random_users rng (user_count rng) (video_count rng) (user_count rng) user_id_offset 2 []

-- The first draw chooses the form of the title.
unfoldable pub make_random_video : RandomSource → ℕ → ℕ → VideoInfo × ℕ
make_random_video rng video_id k =
    let coeffs = random_coeffs rng (rng.intn (k + 1) 10 + 10) (k + 2) [] in
    (record { video_id = video_id; video_coefficients = coeffs.0 }, coeffs.1)

unfoldable pub random_videos : RandomSource → ℕ → ℕ → ℕ → Map ℕ VideoInfo → Map ℕ VideoInfo × ℕ
random_videos rng zero video_id k videos = (videos, k)
random_videos rng (suc n) video_id k videos =
    let made = make_random_video rng video_id k in
    random_videos rng n (video_id + 1) made.1 (insert video_id made.0 videos)

unfoldable pub make_random_videos : RandomSource → Map ℕ VideoInfo × List ℕ
make_random_videos rng =
    let videos = random_videos rng (video_count rng) video_id_offset 1 [] in
    let top =
      random_video_ids rng (video_count rng) (rng.intn videos.1 10 + 10) (videos.1 + 1) [] in
    (videos.0, deduplicate_ids top.0)

-- `rand.Seed` picks the source, and the generators are the first to draw from it.
unfoldable pub start_user_service : (ℤ → RandomSource) → UserServiceOptions → UserServiceServer
start_user_service seeded options =
    make_user_service_server options (make_random_users (seeded options.seed))

unfoldable pub start_video_service : (ℤ → RandomSource) → VideoServiceOptions → VideoServiceServer
start_video_service seeded options =
    make_video_service_server options (make_random_videos (seeded options.seed)).0
      (make_random_videos (seeded options.seed)).1
