-- ===== src/LabRpc.antt =====
-- lab3/labrpc/labrpc.go: the simulated network of the Raft labs, its state and its settings.
--
-- Names of ends and servers, which Go only compares, are numbers. A `*Server` is its address in a
-- store of servers, and `nil` is `none`. Each method holds the network's lock, so it is one step.
-- `none` as a result is a panic or `log.Fatalf`. Counters wrap around as bits.
pub mod Servers
pub mod Requests
pub mod Client
pub mod Steps
pub mod Deletion
pub mod Delivery
pub mod RoundTrip
mod Tests
use cs426_spring2023_labs.Prelude.{
  ℕ, ◌+◌, ◌%◌, Bool, true, false, [], ◌∷◌, Option, none, some, ◌>>=◌, GoString, nat_eq,
  if◌then◌else◌, is_some, length, not, ◌||◌, ◌==◌,
}
use cs426_spring2023_labs.Prelude.Int.{ℤ, int32, pos}
use cs426_spring2023_labs.Prelude.Map.{Map, lookup, insert}

-- The message that carries a call: GoType stands for `reflect.Type`.
pub record ReqMsg (GoType : Type 0) : Type 0 where
  pub endname : ℕ
  pub svc_meth : GoString
  pub args_type : GoType
  pub args : GoString

pub record ReplyMsg : Type 0 where
  pub ok : Bool
  pub reply : GoString

abbrev pub no_reply : ReplyMsg
no_reply = record { ok = false; reply = [] }

-- The set of the ends is all that is read of `ends`.
pub record Network : Type 0 where
  pub reliable : Bool
  pub long_delays : Bool
  pub long_reordering : Bool
  pub ends : Map ℕ (Unit {0})
  pub enabled : Map ℕ Bool
  pub servers : Map ℕ (Option ℕ)
  pub connections : Map ℕ (Option ℕ)
  pub is_done : Bool
  pub count : ℕ
  pub bytes : ℕ

unfoldable pub make_network : Network
make_network = record {
  reliable = true;
  long_delays = false;
  long_reordering = false;
  ends = [];
  enabled = [];
  servers = [];
  connections = [];
  is_done = false;
  count = 0;
  bytes = 0;
}

-- The goroutine that receives the requests counts each of them.
unfoldable pub receive : {GoType : Type 0} → ReqMsg GoType → Network → Network
receive req rn = record rn {
  count = (rn.count + 1) % 4294967296;
  bytes = (rn.bytes + length req.args) % 18446744073709551616;
}

-- Closing a channel a second time panics.
unfoldable pub cleanup : Network → Option Network
cleanup rn = if rn.is_done then none else some (record rn { is_done = true })

unfoldable pub set_reliable : Bool → Network → Network
set_reliable on rn = record rn { reliable = on }

unfoldable pub set_long_reordering : Bool → Network → Network
set_long_reordering on rn = record rn { long_reordering = on }

unfoldable pub set_long_delays : Bool → Network → Network
set_long_delays on rn = record rn { long_delays = on }

-- Reading a name that a map lacks gives the zero value: false, or nil.
abbrev pub is_enabled : ℕ → Network → Bool
is_enabled endname rn = elim (lookup endname rn.enabled) [ none ↦ false | some b ↦ b ]

abbrev pub connection_of : ℕ → Network → Option ℕ
connection_of endname rn = elim (lookup endname rn.connections) [ none ↦ none | some c ↦ c ]

abbrev pub server_of : ℕ → Network → Option ℕ
server_of servername rn = elim (lookup servername rn.servers) [ none ↦ none | some rs ↦ rs ]

pub record EndnameInfo : Type 0 where
  pub enabled : Bool
  pub servername : Option ℕ
  pub server : Option ℕ
  pub reliable : Bool
  pub long_reordering : Bool

unfoldable pub read_endname_info : ℕ → Network → EndnameInfo
read_endname_info endname rn = record {
  enabled = is_enabled endname rn;
  servername = connection_of endname rn;
  server = connection_of endname rn >>= λ servername. server_of servername rn;
  reliable = rn.reliable;
  long_reordering = rn.long_reordering;
}

abbrev same_server : Option ℕ → ℕ → Bool
same_server none server = false
same_server (some rs) server = rs == server

unfoldable pub is_server_dead : ℕ → ℕ → ℕ → Network → Bool
is_server_dead endname servername server rn =
    if not (is_enabled endname rn) || not (same_server (server_of servername rn) server)
    then true
    else false

unfoldable pub make_end : ℕ → Network → Option Network
make_end endname rn =
    if is_some (lookup endname rn.ends)
    then none
    else some (record rn {
      ends = insert endname tt rn.ends;
      enabled = insert endname false rn.enabled;
      connections = insert endname none rn.connections;
    })

unfoldable pub add_server : ℕ → ℕ → Network → Network
add_server servername rs rn = record rn { servers = insert servername (some rs) rn.servers }

unfoldable pub delete_server : ℕ → Network → Network
delete_server servername rn = record rn { servers = insert servername none rn.servers }

unfoldable pub connect : ℕ → ℕ → Network → Network
connect endname servername rn = record rn {
  connections = insert endname (some servername) rn.connections;
}

unfoldable pub enable : ℕ → Bool → Network → Network
enable endname on rn = record rn { enabled = insert endname on rn.enabled }

unfoldable pub get_total_count : Network → ℤ
get_total_count rn = int32 (pos rn.count)

abbrev pub get_total_bytes : Network → ℕ
get_total_bytes rn = rn.bytes
