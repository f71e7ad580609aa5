-- ===== src/Backend/Users.antt =====
-- lab1/user_service/server_lib/server_lib.go, and the mock client that passes its calls on.
--
-- The users that a server starts with are those of Backend.Random. `none` is a panic, or a request that blocks for ever.
use cs426_spring2023_labs.Prelude.{
  ℕ, List, [], ◌∷◌, ◌++◌, Option, none, some, ◌>>=◌, text, nat_eq, ltb, ◌==◌, if◌then◌else◌, length,
}
use cs426_spring2023_labs.Prelude.Int.{ℤ, pos}
use cs426_spring2023_labs.Prelude.Map.{Map, lookup}
use cs426_spring2023_labs.Rpc.{Code, GoError, status, Reply, ok, err}
use cs426_spring2023_labs.Backend.Injection.{
  FailureInjector, InjectionConfig, Draws, make_failure_injector, set_injection_config,
  set_injection_config_pb, maybe_inject,
}

-- The profile's fields that the recommender reads; feature ids are taken to be not negative.
pub record UserInfo : Type 0 where
  pub user_id : ℕ
  pub user_coefficients : Map ℕ ℕ
  pub subscribed_to : List ℕ
  pub liked_videos : List ℕ

pub record UserServiceOptions : Type 0 where
  pub seed : ℤ
  pub sleep_ns : ℤ
  pub failure_rate : ℤ
  pub response_omission_rate : ℤ
  pub max_batch_size : ℕ

abbrev pub default_user_service_options : UserServiceOptions
default_user_service_options = record {
  seed = pos 42;
  sleep_ns = pos 0;
  failure_rate = pos 0;
  response_omission_rate = pos 0;
  max_batch_size = 50;
}

pub record UserServiceServer : Type 0 where
  pub options : UserServiceOptions
  pub fi : FailureInjector
  pub users : Map ℕ UserInfo

unfoldable pub make_user_service_server : UserServiceOptions → Map ℕ UserInfo → UserServiceServer
unfolding set_injection_config
make_user_service_server options users = record {
  options = options;
  fi =
      set_injection_config options.sleep_ns options.failure_rate options.response_omission_rate
        make_failure_injector;
  users = users;
}

abbrev user_not_found : GoError
user_not_found = status Code.not_found (
    text
      "UserService: user cannot be found, it may have been deleted or never existed in the first place.")

-- The loop over the ids, which the first unknown one ends.
unfoldable pub find_users : Map ℕ UserInfo → List ℕ → List UserInfo → Reply (List UserInfo)
find_users db [] users = ok users
find_users db (user_id ∷ user_ids) users = elim (lookup user_id db) [
  | none ↦ err user_not_found
  | some info ↦ find_users db user_ids (users ++ (info ∷ []))
]

unfoldable pub get_user : Draws → UserServiceServer → List ℕ → Option (Reply (List UserInfo))
get_user draws db user_ids = maybe_inject draws db.fi >>= λ should_error. some (
    if should_error
    then err (status Code.internal (text "UserService: (injected) internal error!"))
    else if length user_ids == 0
    then err (
        status Code.invalid_argument
          (text "UserService: user_ids in GetUserRequest should not be empty"))
    else if ltb db.options.max_batch_size (length user_ids)
    then err
        (status Code.invalid_argument (text "UserService: user_ids exceeded the max batch size"))
    else find_users db.users user_ids [])

unfoldable pub set_user_injection_config : InjectionConfig → UserServiceServer → UserServiceServer
set_user_injection_config config db = record db { fi = set_injection_config_pb config db.fi }
