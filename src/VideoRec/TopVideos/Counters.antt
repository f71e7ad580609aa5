-- ===== src/VideoRec/TopVideos/Counters.antt =====
-- What a request of GetTopVideos counts.
use cs426_spring2023_labs.Prelude.{
  ℕ, ◌<◌, Bool, true, false, not, List, [], ◌∷◌, some, ◌≡◌, refl, arith, subst, ◌⊎◌, inl, inr,
  Bool-cases, Option-cases, if◌then◌else◌, ◌&&◌,
}
use cs426_spring2023_labs.Prelude.Int.{ℤ}
use cs426_spring2023_labs.Rpc.{GoError, Reply, ok, err, Reply-cases}
use cs426_spring2023_labs.Backend.Dedup.{deduplicate_ids}
use cs426_spring2023_labs.Backend.Users.{UserInfo}
use cs426_spring2023_labs.Backend.Videos.{VideoInfo}
use cs426_spring2023_labs.VideoRec.{
  Call, Clients, VideoRecServiceServer, add_64, get_client_round_robin, pick,
}
use cs426_spring2023_labs.VideoRec.Batches.{fetch_all}
use cs426_spring2023_labs.VideoRec.Fallback.{
  TopVideosResponse, fall_back, give_up, fail_user, fail_video,
}
use cs426_spring2023_labs.VideoRec.TopVideos.{
  Ranking, Times, pick_user_client, pick_video_client, fetch_videos, recommend, likes,
  serve_top_videos, get_top_videos, mock_error,
}

abbrev pub is_fresh : Reply TopVideosResponse → Bool
is_fresh (ok r) = not r.stale_response
is_fresh (err e) = false

abbrev pub is_stale : Reply TopVideosResponse → Bool
is_stale (ok r) = r.stale_response
is_stale (err e) = false

abbrev pub is_err : Reply TopVideosResponse → Bool
is_err (ok r) = false
is_err (err e) = true

abbrev pub SameFailures : VideoRecServiceServer → VideoRecServiceServer → Type 0
SameFailures s s' =
    (s'.num_user_service_errs ≡ s.num_user_service_errs)
    × (s'.num_video_service_errs ≡ s.num_video_service_errs)

abbrev SameRequests : VideoRecServiceServer → VideoRecServiceServer → Type 0
SameRequests s s' =
    (s'.num_top_video_requests ≡ s.num_top_video_requests)
    × (s'.num_active_requests ≡ s.num_active_requests)

-- The counters of errors and of stale answers, after a request that ended with a reply.
abbrev pub Answered :
    VideoRecServiceServer → VideoRecServiceServer → Reply TopVideosResponse → Type 0
Answered s s' reply =
    (s'.num_top_video_errs ≡ (
      if is_err reply && s.options.disable_fallback
      then add_64 s.num_top_video_errs 1
      else s.num_top_video_errs))
    × (s'.num_stale_response
        ≡ (if is_stale reply then add_64 s.num_stale_response 1 else s.num_stale_response))

-- A fresh answer has no failed call behind it, any other ending exactly one.
abbrev pub Failures :
    VideoRecServiceServer → VideoRecServiceServer → Reply TopVideosResponse → Type 0
Failures s s' reply =
    ((is_fresh reply ≡ true) × SameFailures s s')
    ⊎ ((is_fresh reply ≡ false)
        × (s'.num_user_service_errs ≡ add_64 s.num_user_service_errs 1)
        × (s'.num_video_service_errs ≡ s.num_video_service_errs))
    ⊎ ((is_fresh reply ≡ false)
        × (s'.num_user_service_errs ≡ s.num_user_service_errs)
        × (s'.num_video_service_errs ≡ add_64 s.num_video_service_errs 1))

abbrev Counted : VideoRecServiceServer → VideoRecServiceServer → Reply TopVideosResponse → Type 0
Counted s s' reply = SameRequests s s' × Answered s s' reply × Failures s s' reply

List-cases : {A : Type 0} (xs : List A) → (xs ≡ []) ⊎ ((x : A) × (rest : List A) × (xs ≡ x ∷ rest))
List-cases [] = inl refl
List-cases (x ∷ xs) = inr (x, xs, refl)

give_up_counts :
    (limit : ℤ) (e : GoError) (s : VideoRecServiceServer)
    → let out = give_up limit e s in
      SameRequests s out.0
      × Answered s out.0 out.1
      × SameFailures s out.0
      × (is_fresh out.1 ≡ false)
unfolding give_up fall_back
give_up_counts limit e s = elim (Bool-cases s.options.disable_fallback) [
  | inl disabled ↦ ground arith
  | inr enabled ↦ elim (List-cases s.fall_back_videos.videos) [
    | inl empty ↦ ground arith
    | inr (v, vs, cached) ↦ ground arith
  ]
]

abbrev Kept : VideoRecServiceServer → VideoRecServiceServer → Type 0
Kept s s' =
    SameRequests s s'
    × SameFailures s s'
    × (s'.num_top_video_errs ≡ s.num_top_video_errs)
    × (s'.num_stale_response ≡ s.num_stale_response)
    × (s'.options ≡ s.options)

fail_user_counts :
    (limit : ℤ) (e : GoError) (s s' : VideoRecServiceServer)
    → Kept s s'
    → Counted s (fail_user limit e s').0 (fail_user limit e s').1
unfolding fail_user
fail_user_counts limit e s s' kept = ground (
  arith,
  kept,
  give_up_counts limit e (record s' { num_user_service_errs = add_64 s'.num_user_service_errs 1 }),
)

fail_video_counts :
    (limit : ℤ) (e : GoError) (s s' : VideoRecServiceServer)
    → Kept s s'
    → Counted s (fail_video limit e s').0 (fail_video limit e s').1
unfolding fail_video
fail_video_counts limit e s s' kept = ground (
  arith,
  kept,
  give_up_counts limit e
      (record s' { num_video_service_errs = add_64 s'.num_video_service_errs 1 }),
)

round_robin-Kept :
    (user : Bool) (s s' : VideoRecServiceServer) (conn : ℕ)
    → get_client_round_robin user s ≡ some (s', conn)
    → Kept s s'
unfolding get_client_round_robin
round_robin-Kept true s s' conn e = elim (Option-cases (pick s.user_robin_count s.user_conn_pool)) [
  | inl none_there ↦ absurd (ground arith)
  | inr (c, there) ↦ ground arith
]
round_robin-Kept false s s' conn e =
    elim (Option-cases (pick s.video_robin_count s.video_conn_pool)) [
      | inl none_there ↦ absurd (ground arith)
      | inr (c, there) ↦ ground arith
    ]

pick_user-Kept :
    (c : Clients) (s s' : VideoRecServiceServer) (client : Call UserInfo)
    → pick_user_client c s ≡ some (s', client)
    → Kept s s'
pick_user-Kept c s s' client e = elim (Bool-cases s.mock_user_flag) [
  | inl mock ↦ ground arith
  | inr real ↦ elim (Option-cases (get_client_round_robin true s)) [
    | inl none_there ↦ absurd (ground arith)
    | inr ((s1, conn), there) ↦ ground (arith, round_robin-Kept true s s1 conn there)
  ]
]

pick_video-Kept :
    (c : Clients) (s s' : VideoRecServiceServer) (client : Call VideoInfo)
    → pick_video_client c s ≡ some (s', client)
    → Kept s s'
pick_video-Kept c s s' client e = elim (Bool-cases s.mock_video_flag) [
  | inl mock ↦ ground arith
  | inr real ↦ elim (Option-cases (get_client_round_robin false s)) [
    | inl none_there ↦ absurd (ground arith)
    | inr ((s1, conn), there) ↦ ground (arith, round_robin-Kept false s s1 conn there)
  ]
]

fetch_videos-Kept :
    (c : Clients) (s s' : VideoRecServiceServer) (ids : List ℕ) (r : Reply (List VideoInfo))
    → fetch_videos c s ids ≡ some (s', r)
    → Kept s s'
unfolding fetch_videos
fetch_videos-Kept c s s' ids r e = elim (Option-cases (pick_video_client c s)) [
  | inl none_there ↦ absurd (ground arith)
  | inr ((s1, client), there) ↦
      elim (Option-cases (fetch_all client s1.options.max_batch_size 0 ids)) [
        | inl never ↦ absurd (ground arith)
        | inr (gathered, done) ↦
            let same : s1 ≡ s' = ground arith in
            subst (λ s'. Kept s s') same (pick_video-Kept c s s1 client there)
      ]
]

recommend_counts :
    (c : Clients) (r : Ranking) (times : Times) (limit : ℤ) (user : UserInfo)
    (client : Call UserInfo) (s s1 s' : VideoRecServiceServer) (reply : Reply TopVideosResponse)
    → Kept s s1
    → recommend c r times limit user client s1 ≡ some (s', reply)
    → Counted s s' reply
unfolding recommend
recommend_counts c r times limit user client s s1 s' reply kept e =
    elim (Option-cases (fetch_all (likes client) s1.options.max_batch_size 1 user.subscribed_to)) [
      | inl never ↦ absurd (ground arith)
      | inr ((ids, error), done) ↦ elim (Option-cases error) [
        | inr (e1, failed) ↦ ground (arith, fail_user_counts limit e1 s s1 kept)
        | inl fine ↦ elim (Option-cases (fetch_videos c s1 (deduplicate_ids ids))) [
          | inl never ↦ absurd (ground arith)
          | inr ((s2, videos), got) ↦
              let more : Kept s1 s2 = fetch_videos-Kept c s1 s2 (deduplicate_ids ids) videos got in
              elim (Reply-cases videos) [
                | inr (e2, failed) ↦ ground (arith, more, kept, fail_video_counts limit e2 s s2)
                | inl (infos, good) ↦ ground (arith, more, kept)
              ]
        ]
      ]
    ]

serve_counts :
    (c : Clients) (r : Ranking) (times : Times) (user_id : ℕ) (limit : ℤ)
    (s s' : VideoRecServiceServer) (reply : Reply TopVideosResponse)
    → serve_top_videos c r times user_id limit s ≡ some (s', reply)
    → Counted s s' reply
unfolding serve_top_videos
serve_counts c r times user_id limit s s' reply e = elim (Option-cases (pick_user_client c s)) [
  | inl none_there ↦ absurd (ground arith)
  | inr ((s1, client), there) ↦
      let kept : Kept s s1 = pick_user-Kept c s s1 client there in
      elim (Option-cases (client 0 (user_id ∷ []))) [
        | inl never ↦ absurd (ground arith)
        | inr (answer, came) ↦ elim (Reply-cases answer) [
          | inr (e1, failed) ↦ ground (
            arith,
            fail_user_counts limit (if s1.mock_user_flag then mock_error else e1) s s1 kept,
          )
          | inl (infos, good) ↦ elim (List-cases infos) [
            | inl empty ↦ absurd (ground arith)
            | inr (user, others, full) ↦
                recommend_counts c r times limit user client s s1 s' reply kept (ground arith)
          ]
        ]
      ]
]

-- A request that returns is counted once and leaves the number of active requests as it was. An
-- error is counted only where the fallback is disabled; a stale answer always is. A fresh answer
-- counts no failed call, and every other answer one, of the user service or of the video service.
pub get_top_videos_counts :
    (c : Clients) (r : Ranking) (times : Times) (user_id : ℕ) (limit : ℤ)
    (s s' : VideoRecServiceServer) (reply : Reply TopVideosResponse)
    → s.num_active_requests < 18446744073709551616
    → get_top_videos c r times user_id limit s ≡ some (s', reply)
    → (s'.num_top_video_requests ≡ add_64 s.num_top_video_requests 1)
      × (s'.num_active_requests ≡ s.num_active_requests)
      × Answered s s' reply
      × Failures s s' reply
unfolding get_top_videos
get_top_videos_counts c r times user_id limit s s' reply h e =
    let begun : VideoRecServiceServer = record s {
      num_active_requests = add_64 s.num_active_requests 1;
    } in
    elim (Option-cases (serve_top_videos c r times user_id limit begun)) [
      | inl never ↦ absurd (ground arith)
      | inr ((s1, answer), done) ↦
          ground (arith, serve_counts c r times user_id limit begun s1 answer done)
    ]
