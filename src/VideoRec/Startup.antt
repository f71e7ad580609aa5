-- ===== src/VideoRec/Startup.antt =====
-- `MakeVideoRecServiceServer` of lab1/video_rec_service/server_lib/server_lib.go.
--
-- `dial` gives the result of every call of `grpc.Dial`, by its number; the background fetching that
-- starts here is VideoRec/Trending. The code also defers the closing of a connection to the video
-- service that was dialled a second time; that is not modelled, and what a call on any connection
-- returns is a parameter.
use cs426_spring2023_labs.Prelude.{
  ℕ, zero, suc, ◌+◌, ◌≤◌, Bool, true, false, not, List, [], ◌∷◌, ◌++◌, if◌then◌else◌, length, ◌≡◌,
  refl, sym, subst, ◌%◌, arith, length-append, is_some, inl, inr, get_elem?,
}
use cs426_spring2023_labs.Prelude.Int.{pos}
use cs426_spring2023_labs.Rpc.{Reply, ok, err, Reply-cases}
use cs426_spring2023_labs.VideoRec.{
  Conn, VideoRecServiceOptions, VideoRecServiceServer, pick, get_client_round_robin,
}

-- One connection, with the second try: the number of the next call, and the result.
unfoldable pub dial_retry : (ℕ → Reply Conn) → Bool → ℕ → ℕ × Reply Conn
dial_retry dial disable_retry k = elim (dial k) [
  | ok conn ↦ (k + 1, ok conn)
  | err e ↦ if not disable_retry then (k + 2, dial (k + 1)) else (k + 1, err e)
]

unfoldable pub make_pool : (ℕ → Reply Conn) → Bool → ℕ → ℕ → List Conn → ℕ × Reply (List Conn)
make_pool dial disable_retry zero k pool = (k, ok pool)
make_pool dial disable_retry (suc n) k pool = elim (dial_retry dial disable_retry k).1 [
  | err e ↦ ((dial_retry dial disable_retry k).0, err e)
  | ok conn ↦
      make_pool dial disable_retry n (dial_retry dial disable_retry k).0 (pool ++ (conn ∷ []))
]

abbrev pub new_server :
    VideoRecServiceOptions → Bool → List Conn → List Conn → VideoRecServiceServer
new_server options mocks user_conn_pool video_conn_pool = record {
  options = options;
  mock_user_flag = mocks;
  mock_video_flag = mocks;
  num_top_video_requests = 0;
  num_top_video_errs = 0;
  num_active_requests = 0;
  num_user_service_errs = 0;
  num_video_service_errs = 0;
  total_latency = 0;
  num_stale_response = 0;
  user_robin_count = 0;
  video_robin_count = 0;
  fall_back_videos = record { videos = []; expire_time = pos 0 };
  user_conn_pool = user_conn_pool;
  video_conn_pool = video_conn_pool;
}

unfoldable pub make_video_rec_service_server :
    (ℕ → Reply Conn) → VideoRecServiceOptions → Reply VideoRecServiceServer
make_video_rec_service_server dial options =
    let users = make_pool dial options.disable_retry options.client_pool_size 0 [] in
    elim users.1 [
      | err e ↦ err e
      | ok user_pool ↦
          elim (make_pool dial options.disable_retry options.client_pool_size users.0 []).1 [
            | err e ↦ err e
            | ok video_pool ↦ ok (new_server options false user_pool video_pool)
          ]
    ]

unfoldable pub make_video_rec_service_server_with_mocks :
    VideoRecServiceOptions → VideoRecServiceServer
make_video_rec_service_server_with_mocks options = new_server options true [] []

make_pool-length :
    (dial : ℕ → Reply Conn) (disable_retry : Bool) (n k : ℕ) (pool all : List Conn)
    → (make_pool dial disable_retry n k pool).1 ≡ ok all
    → length all ≡ length pool + n
unfolding make_pool
make_pool-length dial disable_retry zero k pool all e = ground arith
make_pool-length dial disable_retry (suc n) k pool all e =
    elim (Reply-cases (dial_retry dial disable_retry k).1) [
      | inr (e1, failed) ↦ absurd (ground arith)
      | inl (conn, good) ↦ ground (
        arith,
        make_pool-length dial disable_retry n (dial_retry dial disable_retry k).0
            (pool ++ (conn ∷ [])) all (ground arith),
        length-append pool (conn ∷ []),
      )
    ]

picks-first :
    (pool : List Conn) → 1 ≤ length pool → is_some (get_elem? pool (0 % length pool)) ≡ true
picks-first [] h = absurd (omega arith)
picks-first (conn ∷ pool) h =
    let e : 0 % suc (length pool) ≡ 0 = omega arith in
    subst (λ i. is_some (get_elem? (conn ∷ pool) i) ≡ true) (sym e) refl

-- A server that starts has the configured number of connections to either service, so that with at
-- least one its first request does not panic on an empty pool.
pub make_video_rec_service_server_pools :
    (dial : ℕ → Reply Conn) (options : VideoRecServiceOptions) (s : VideoRecServiceServer)
    → make_video_rec_service_server dial options ≡ ok s
    → (length s.user_conn_pool ≡ options.client_pool_size)
      × (length s.video_conn_pool ≡ options.client_pool_size)
      × (1 ≤ options.client_pool_size
          → (is_some (get_client_round_robin true s) ≡ true)
            × (is_some (get_client_round_robin false s) ≡ true))
unfolding make_video_rec_service_server get_client_round_robin pick
make_video_rec_service_server_pools dial options s e =
    let first : ℕ × Reply (List Conn) =
      make_pool dial options.disable_retry options.client_pool_size 0 [] in
    elim (Reply-cases first.1) [
      | inr (e1, failed) ↦ absurd (ground arith)
      | inl (users, made) ↦
          elim (Reply-cases
            (make_pool dial options.disable_retry options.client_pool_size first.0 []).1) [
              | inr (e2, failed) ↦ absurd (ground arith)
              | inl (videos, made_too) ↦
                  let u : length users ≡ 0 + options.client_pool_size =
                    make_pool-length dial options.disable_retry options.client_pool_size 0 [] users
                      made in
                  let v : length videos ≡ 0 + options.client_pool_size =
                    make_pool-length dial options.disable_retry options.client_pool_size first.0 []
                      videos made_too in
                  (
                    ground arith,
                    ground arith,
                    λ some_size. (
                      ground (arith, picks-first users (omega arith)),
                      ground (arith, picks-first videos (omega arith)),
                    ),
                  )
            ]
    ]
