-- ===== src/VideoRec/Trending.antt =====
-- `fetchTrendingVideos` of lab1/video_rec_service/server_lib/server_lib.go, one round at a time.
--
-- Sleeping and dialling's options change no state. `none`: a panic, or a call that never returns.
use cs426_spring2023_labs.Prelude.{
  ℕ, ◌≤◌, ◌<◌, Bool, true, false, not, List, [], Option, none, some, ◌>>=◌, if◌then◌else◌, ◌≡◌,
  arith, is_some, map, ◌++◌, drop, length, ◌⊎◌, inl, inr, ◌∙◌, ap,
}
use cs426_spring2023_labs.Prelude.Int.{ℤ, pos, ltbℤ, int64}
use cs426_spring2023_labs.Rpc.{GoError, Reply, ok, err}
use cs426_spring2023_labs.Backend.Videos.{VideoInfo, TrendingResponse}
use cs426_spring2023_labs.VideoRec.{Call, Conn, Clients, VideoRecServiceServer}
use cs426_spring2023_labs.VideoRec.Batches.{fetch_all, batch}
use cs426_spring2023_labs.VideoRec.Batches.Complete.{fetch_all_gathers}

unfoldable pub update_cache : List VideoInfo → ℤ → VideoRecServiceServer → VideoRecServiceServer
update_cache infos new_expire s = record s {
  fall_back_videos = record { videos = infos; expire_time = new_expire };
}

-- From the answer on. The loop over batches is left on an error, and the cache is updated then too.
-- `close` tells whether the round's `vconn.Close()` on the error path returns.
unfoldable pub follow_trending :
    Option (Reply TrendingResponse)
    → Call VideoInfo
    → Bool
    → VideoRecServiceServer
    → Option VideoRecServiceServer
follow_trending answer client close s = answer >>= λ reply. elim reply [
  | err error ↦ if close then some s else none
  | ok trending ↦ fetch_all client s.options.max_batch_size 0 trending.video_ids >>= λ r.
      some (update_cache r.0 (int64 trending.expiration_time_s) s)
]

unfoldable pub fetch_trending_round :
    Clients → ℕ → VideoRecServiceServer → Option VideoRecServiceServer
fetch_trending_round c now s =
    if not (ltbℤ s.fall_back_videos.expire_time (pos now))
    then some s
    else if s.mock_video_flag
    then follow_trending c.mock_get_trending c.mock_get_video c.close_nil s
    else elim c.dial_video [
      | err error ↦ if c.close_nil then some s else none
      | ok conn ↦ follow_trending (c.conn_get_trending conn) (c.conn_get_video conn) true s
    ]

-- Whom a round asks for the trending ids and for the infos: the mock client, or a new connection.
abbrev pub Asks :
    Clients → VideoRecServiceServer → Option (Reply TrendingResponse) → Call VideoInfo → Type 0
Asks c s answer client =
    ((s.mock_video_flag ≡ true) × (answer ≡ c.mock_get_trending) × (client ≡ c.mock_get_video))
    ⊎ ((conn : Conn) × (s.mock_video_flag ≡ false)
        × (c.dial_video ≡ ok conn)
        × (answer ≡ c.conn_get_trending conn)
        × (client ≡ c.conn_get_video conn))

round-Asks :
    (c : Clients) (now : ℕ) (s : VideoRecServiceServer) (trending : TrendingResponse)
    (answer : Option (Reply TrendingResponse)) (client : Call VideoInfo) (all : List VideoInfo)
    (error : Option GoError)
    → ltbℤ s.fall_back_videos.expire_time (pos now) ≡ true
    → Asks c s answer client
    → answer ≡ some (ok trending)
    → fetch_all client s.options.max_batch_size 0 trending.video_ids ≡ some (all, error)
    → fetch_trending_round c now s ≡ some (update_cache all (int64 trending.expiration_time_s) s)
unfolding fetch_trending_round follow_trending
round-Asks c now s trending answer client all error old (inl (mock, whom, asked)) came done =
    ground (arith, old, mock, whom, came, asked, done)
round-Asks c now s trending answer client all error old (inr (conn, real, dialled, whom, asked))
      came done =
    ground (arith, old, real, dialled, whom, came, asked, done)

-- A round on an expired cache, through the mock client or a connection that was dialled, that gets
-- the trending ids, with batches of at least one id, calls that return and calls that answer for the
-- ids of their batch where they succeed, fills the cache with the infos of a prefix of the trending
-- ids, in order, and takes over the expiry time as a signed number. The prefix is all of them, or it
-- ends where a batch begins whose call failed: the cache is filled all the same.
pub fetch_trending_round_fills :
    (c : Clients) (now : ℕ) (s : VideoRecServiceServer) (trending : TrendingResponse)
    (answer : Option (Reply TrendingResponse)) (client : Call VideoInfo) (f : ℕ → VideoInfo)
    → ltbℤ s.fall_back_videos.expire_time (pos now) ≡ true
    → Asks c s answer client
    → answer ≡ some (ok trending)
    → 1 ≤ s.options.max_batch_size
    → ((k : ℕ) (ids : List ℕ) → is_some (client k ids) ≡ true)
    → ((k lo : ℕ) (xs : List VideoInfo)
        → client k (batch s.options.max_batch_size lo trending.video_ids) ≡ some (ok xs)
        → xs ≡ map f (batch s.options.max_batch_size lo trending.video_ids))
    → (done : List ℕ) × (rest : List ℕ) × (trending.video_ids ≡ done ++ rest)
      × (fetch_trending_round c now s
          ≡ some (update_cache (map f done) (int64 trending.expiration_time_s) s))
      × ((rest ≡ [])
          ⊎ ((k : ℕ) × (lo : ℕ) × (x : GoError) × (rest ≡ drop lo trending.video_ids)
              × (lo < length trending.video_ids)
              × (client k (batch s.options.max_batch_size lo trending.video_ids) ≡ some (err x))))
fetch_trending_round_fills c now s trending answer client f old whom came some_ids returns right =
    let (all, error, e, (done, rest, parts, is_all, ends)) =
      fetch_all_gathers client s.options.max_batch_size trending.video_ids some_ids f 0 returns
        right in
    (
      done,
      rest,
      parts,
      round-Asks c now s trending answer client (map f done) error old whom came
          (e ∙ ap (λ (xs : List VideoInfo). some (xs, error)) is_all),
      elim ends [
        | inl (fine, whole) ↦ inl whole
        | inr (k, lo, x, bad, cut, within, failed) ↦ inr (k, lo, x, cut, within, failed)
      ],
    )
