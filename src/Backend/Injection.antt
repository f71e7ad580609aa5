-- ===== src/Backend/Injection.antt =====
-- lab1/failure_injection/failure_injection.go: the configured failures of a service.
--
-- The draws of math/rand and `time.Sleep` are not under lab1: a request comes with the two numbers
-- that `rand.Int63n` gives it, and sleeping changes no state.
use cs426_spring2023_labs.Prelude.{
  ℕ, zero, suc, Bool, false, Option, none, some, ◌>>=◌, if◌then◌else◌, ◌==◌, ◌≡◌, refl,
}
use cs426_spring2023_labs.Prelude.Int.{ℤ, pos, negsuc}

pub record InjectionConfig : Type 0 where
  pub sleep_ns : ℤ
  pub failure_rate : ℤ
  pub response_omission_rate : ℤ

pub record FailureInjector : Type 0 where
  pub config : InjectionConfig

unfoldable pub make_failure_injector : FailureInjector
make_failure_injector = record {
  config = record { sleep_ns = pos 0; failure_rate = pos 0; response_omission_rate = pos 0 };
}

unfoldable pub set_injection_config : ℤ → ℤ → ℤ → FailureInjector → FailureInjector
set_injection_config sleep_ns failure_rate response_omission_rate fi = record fi {
  config = record {
    sleep_ns = sleep_ns;
    failure_rate = failure_rate;
    response_omission_rate = response_omission_rate;
  };
}

unfoldable pub set_injection_config_pb : InjectionConfig → FailureInjector → FailureInjector
set_injection_config_pb config fi = record fi { config = config }

unfoldable pub clear_injection_config : FailureInjector → FailureInjector
unfolding set_injection_config
clear_injection_config fi = set_injection_config (pos 0) (pos 0) (pos 0) fi

-- What `rand.Int63n` returns to one request, for the failure and for the omission.
pub record Draws : Type 0 where
  pub failure : ℕ
  pub omission : ℕ

-- `rand.Int63n` panics on a number that is not positive.
unfoldable pub one_in : ℤ → ℕ → Option Bool
one_in (pos zero) draw = some false
one_in (pos (suc n)) draw = some (draw == 0)
one_in (negsuc n) draw = none

-- `none`: the request panics or blocks for ever.
unfoldable pub maybe_inject : Draws → FailureInjector → Option Bool
maybe_inject draws fi = one_in fi.config.failure_rate draws.failure >>= λ should_error.
    one_in fi.config.response_omission_rate draws.omission >>= λ should_omit.
    if should_omit then none else some should_error

-- A cleared injector lets every request through.
pub maybe_inject-clear_injection_config :
    (draws : Draws) (fi : FailureInjector)
    → maybe_inject draws (clear_injection_config fi) ≡ some false
unfolding maybe_inject clear_injection_config set_injection_config one_in
maybe_inject-clear_injection_config draws fi = refl
