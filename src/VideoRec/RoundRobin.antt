-- ===== src/VideoRec/RoundRobin.antt =====
-- `getClientRoundRobin` of lab1/video_rec_service/server_lib/server_lib.go: which connection.
use cs426_spring2023_labs.Prelude.{
  ℕ, zero, suc, ◌+◌, ◌%◌, ◌≤◌, ◌<◌, true, List, [], ◌∷◌, some, ◌≡◌, refl, arith, length, get_elem?,
  is_some, inl, inr, Option-cases,
}
use cs426_spring2023_labs.VideoRec.{
  Conn, VideoRecServiceServer, add_64, pick, get_client_round_robin,
}

get_elem?-below : (pool : List Conn) (i : ℕ) → i < length pool → is_some (get_elem? pool i) ≡ true
get_elem?-below [] i h = absurd (omega arith)
get_elem?-below (conn ∷ pool) zero h = refl
get_elem?-below (conn ∷ pool) (suc i) h = get_elem?-below pool i (omega arith)

-- As long as the counter has not reached 2^63, a pool that is not empty gives its connections in
-- turn: the request with number n gets the one at n modulo the pool's length, and leaves n + 1.
pub get_client_round_robin_turns :
    (s : VideoRecServiceServer)
    → 1 ≤ length s.user_conn_pool
    → s.user_robin_count + 1 < 9223372036854775808
    → let len = length s.user_conn_pool in
      let i = s.user_robin_count % len in
      (s' : VideoRecServiceServer) × (conn : Conn) × (get_client_round_robin true s
        ≡ some (s', conn))
      × (get_elem? s.user_conn_pool i ≡ some conn)
      × (s'.user_conn_pool ≡ s.user_conn_pool)
      × (s'.user_robin_count ≡ s.user_robin_count + 1)
unfolding get_client_round_robin pick
get_client_round_robin_turns s some_conn small =
    let len : ℕ = length s.user_conn_pool in
    let i : ℕ = s.user_robin_count % len in
    elim (Option-cases (get_elem? s.user_conn_pool i)) [
      | inl missing ↦ absurd (ground (arith, get_elem?-below s.user_conn_pool i (omega arith)))
      | inr (conn, there) ↦ (
        record s { user_robin_count = add_64 s.user_robin_count 1 },
        conn,
        ground arith,
        there,
        refl,
        ground arith,
      )
    ]
