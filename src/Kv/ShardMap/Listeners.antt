-- ===== src/Kv/ShardMap/Listeners.antt =====
-- lab4/kv/shardmap.go: listeners, and the notification of each of them by `Update`.
--
-- A channel is a number that `make` gives out. A notification is the send on a channel, and `Update`
-- returns the channels that it sent on, in order; each send waits for its listener to receive.
pub mod Delivery
use cs426_spring2023_labs.Prelude.{
  ℕ, ◌+◌, ◌<◌, ◌≡◌, refl, Bool, true, false, List, [], ◌∷◌, Option, none, some, nat_eq, ◌=?◌, arith,
  if◌then◌else◌, ◌>>=◌,
}
use cs426_spring2023_labs.Prelude.Map.{Map, lookup, insert, delete, member}
use cs426_spring2023_labs.Kv.ShardMap.{ShardMapState}

-- `made` is the number of the next channel, `closed` holds the closed channels.
pub record ShardMap : Type 0 where
  pub state : Option ShardMapState
  pub update_channels : Map ℕ ℕ
  pub update_channel_counter : ℕ
  pub made : ℕ
  pub closed : List ℕ

pub record ShardMapListener : Type 0 where
  pub ch : ℕ
  pub id : ℕ

-- `none`: before the first `Update` the type assertion on the stored value panics.
unfoldable pub get_state : ShardMap → Option ShardMapState
get_state sm = sm.state

unfoldable pub make_listener : ShardMap → ShardMapListener × ShardMap
make_listener sm =
    let ch = sm.made in
    let id = sm.update_channel_counter in
    (
      record { ch = ch; id = id },
      record sm {
        update_channels = insert id ch sm.update_channels;
        update_channel_counter = id + 1;
        made = ch + 1;
      },
    )

-- The loop over the channels. `none`: a send on a closed channel panics.
notify_all : List ℕ → Map ℕ ℕ → Option (List ℕ)
notify_all closed [] = some []
notify_all closed ((id, ch) ∷ rest) =
    if member ch closed then none else (notify_all closed rest >>= λ sent. some (ch ∷ sent))

unfoldable pub update : ShardMapState → ShardMap → Option (List ℕ × ShardMap)
unfolding notify_all
update state sm = do
  sent ← notify_all sm.closed sm.update_channels
  some (sent, record sm { state = some state })

-- `none`: closing a closed channel panics.
unfoldable pub close : ShardMapListener → ShardMap → Option ShardMap
close listener sm =
    if member listener.ch sm.closed
    then none
    else some (record sm {
      update_channels = delete listener.id sm.update_channels;
      closed = listener.ch ∷ sm.closed;
    })
