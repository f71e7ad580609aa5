-- ===== src/Backend/Random/Videos.antt =====
-- The videos that the video service starts with.
use cs426_spring2023_labs.Prelude.{
  ℕ, zero, suc, ◌+◌, ◌&&◌, ◌||◌, [], nat_eq, ltb, leb, ◌≡◌, sym, ◌∙◌, List, arith, is_some,
}
use cs426_spring2023_labs.Prelude.Map.{NoRepeats, Map, lookup, insert, member, lookup-insert}
use cs426_spring2023_labs.Backend.Dedup.{deduplicate_ids_set}
use cs426_spring2023_labs.Backend.Videos.{VideoInfo}
use cs426_spring2023_labs.Backend.Random.{
  RandomSource, video_id_offset, random_video_ids, make_random_video, random_videos,
  make_random_videos, video_count,
}
use cs426_spring2023_labs.Backend.Random.Users.{InRange, random_video_ids-InRange}

random_videos-ids :
    (rng : RandomSource) (n video_id k j : ℕ) (videos : Map ℕ VideoInfo)
    → is_some (lookup j (random_videos rng n video_id k videos).0)
      ≡ (is_some (lookup j videos) || (leb video_id j && ltb j (video_id + n)))
unfolding random_videos
random_videos-ids rng zero video_id k j videos = ground arith
random_videos-ids rng (suc n) video_id k j videos =
    let made : VideoInfo × ℕ = make_random_video rng video_id k in
    ground (
      arith,
      random_videos-ids rng n (video_id + 1) made.1 j (insert video_id made.0 videos),
      lookup-insert j video_id made.0 videos,
      nat_eq.beq_iff video_id j,
    )

-- The ids of the videos are the consecutive ones from 1000 on.
pub make_random_videos-ids :
    (rng : RandomSource) (j : ℕ)
    → is_some (lookup j (make_random_videos rng).0)
      ≡ (leb video_id_offset j && ltb j (video_id_offset + video_count rng))
unfolding make_random_videos lookup
make_random_videos-ids rng j = random_videos-ids rng (video_count rng) video_id_offset 1 j []

-- The trending ids are ids of videos, each once.
pub make_random_videos-trending :
    (rng : RandomSource)
    → NoRepeats (make_random_videos rng).1
      × InRange video_id_offset (video_count rng) (make_random_videos rng).1
unfolding make_random_videos member
make_random_videos-trending rng =
    let videos : Map ℕ VideoInfo × ℕ = random_videos rng (video_count rng) video_id_offset 1 [] in
    let n : ℕ = rng.intn videos.1 10 + 10 in
    let drawn : List ℕ × ℕ = random_video_ids rng (video_count rng) n (videos.1 + 1) [] in
    let all : InRange video_id_offset (video_count rng) drawn.0 =
      random_video_ids-InRange rng (video_count rng) n (videos.1 + 1) [] (omega arith)
        (λ j here. absurd (ground arith)) in
    let (once, same) = deduplicate_ids_set drawn.0 in (once, λ j here. all j (sym (same j) ∙ here))
