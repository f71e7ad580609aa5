-- ===== src/LoadGen/UserIds.antt =====
-- The user ids that the load generator and the frontend ask for.
use cs426_spring2023_labs.Prelude.{
  ℕ, zero, suc, ◌+◌, ◌%◌, ◌<◌, ◌≤◌, false, [], ◌∷◌, some, nat_eq, GoString, ◌≡◌, refl, arith, inl,
  inr, Option-cases,
}
use cs426_spring2023_labs.Prelude.Int.{ℤ}
use cs426_spring2023_labs.Prelude.Map.{lookup}
use cs426_spring2023_labs.Rpc.{ok}
use cs426_spring2023_labs.Backend.Injection.{Draws, maybe_inject}
use cs426_spring2023_labs.Backend.Users.{
  UserInfo, UserServiceOptions, get_user, make_user_service_server,
}
use cs426_spring2023_labs.Backend.Exact.{get_user_exact}
use cs426_spring2023_labs.Backend.Random.{RandomSource, start_user_service}
use cs426_spring2023_labs.Backend.Random.Consistent.{start_user_service-ids}
use cs426_spring2023_labs.LoadGen.{nth_user_id, get_next_user_id, get_user_id}

-- The requests of a connection go through 5000 users in turn.
pub nth_user_id_lem : (k : ℕ) → nth_user_id k ≡ 200000 + k % 5000
unfolding nth_user_id get_next_user_id
nth_user_id_lem zero = refl
nth_user_id_lem (suc k) =
    let before : nth_user_id k ≡ 200000 + k % 5000 = nth_user_id_lem k in omega arith

-- A user service with at least one user a batch that injects no failure.
module _ (seeded : ℤ → RandomSource) (options : UserServiceOptions) (draws : Draws)
    (some_batch : 1 ≤ options.max_batch_size)
    (passes : maybe_inject draws (start_user_service seeded options).fi ≡ some false) where
  known_served :
      (id : ℕ)
      → 200000 ≤ id
      → id < 205000
      → (info : UserInfo) × (get_user draws (start_user_service seeded options) (id ∷ [])
          ≡ some (ok (info ∷ [])))
  unfolding start_user_service make_user_service_server
  known_served id low high =
      let there = start_user_service-ids seeded options id low (omega arith) in
      elim (Option-cases (lookup id (start_user_service seeded options).users)) [
        | inl missing ↦ absurd (ground arith)
        | inr (info, found) ↦ (
          info,
          (get_user_exact draws (start_user_service seeded options) (id ∷ []) (info ∷ [])).1
              (passes, omega arith, some_batch, (found, tt)),
        )
      ]

  -- With a user service of at least one user a batch that injects no failure, the service knows the
  -- user of every request of the load generator, whatever its seed.
  pub load_generator_served :
      (k : ℕ)
      → (info : UserInfo) × (get_user draws (start_user_service seeded options) (nth_user_id k ∷ [])
          ≡ some (ok (info ∷ [])))
  load_generator_served k =
      let at : nth_user_id k ≡ 200000 + k % 5000 = nth_user_id_lem k in
      known_served (nth_user_id k) (omega arith) (omega arith)

  -- Likewise, the service knows the user of the frontend, whatever the net id is.
  pub frontend_served :
      (net_id : GoString)
      → (info : UserInfo) × (get_user draws
            (start_user_service seeded options)
            (get_user_id net_id ∷ [])
          ≡ some (ok (info ∷ [])))
  unfolding get_user_id
  frontend_served net_id = known_served (get_user_id net_id) (omega arith) (omega arith)
