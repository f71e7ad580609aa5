-- ===== src/LabRpc/Requests.antt =====
-- lab3/labrpc/labrpc.go: `processReq`, the goroutine of a request.
--
-- It reads the network when it begins, at every poll while the handler runs, and when the handler
-- has returned; others may change the network in between, so each reading has a network of its own.
-- `Draws` are the random numbers, and `delay_ms` is the last sleep or timer before the reply.
use cs426_spring2023_labs.Prelude.{
  ℕ, ◌+◌, ◌%◌, Bool, true, not, ◌&&◌, List, [], ◌∷◌, Option, none, some, ◌>>=◌, nat_eq, ltb,
  if◌then◌else◌, length,
}
use cs426_spring2023_labs.Prelude.Map.{Map, lookup, insert}
use cs426_spring2023_labs.LabRpc.{
  ReqMsg, ReplyMsg, Network, EndnameInfo, read_endname_info, is_server_dead,
}
use cs426_spring2023_labs.LabRpc.Servers.{Gob, Server, dispatch_server}

pub record Draws : Type 0 where
  pub short_delay : ℕ
  pub drop_request : ℕ
  pub drop_reply : ℕ
  pub reorder : ℕ
  pub reorder_delay : ℕ
  pub timeout : ℕ

-- How a request begins: answered after a delay without a reply, or with its handler running.
pub data Begun : Type 0 where
  unanswered : (delay_ms : ℕ) → Begun
  running : (servername server : ℕ) (reliable long_reordering : Bool) → Begun

-- What is sent on the reply channel, and after how long.
pub data Answer : Type 0 where
  failure : (delay_ms : ℕ) → Answer
  delivery : (reply : ReplyMsg) (delay_ms : ℕ) → Answer

begin_with : Draws → Bool → Bool → Option ℕ → Option ℕ → Bool → Bool → Begun
begin_with draws long_delays true (some servername) (some server) reliable long_reordering =
    if not reliable && ltb (draws.drop_request % 1000) 100
    then unanswered (draws.short_delay % 27)
    else running servername server reliable long_reordering
begin_with draws long_delays _ _ _ reliable long_reordering =
    unanswered (if long_delays then draws.timeout % 7000 else draws.timeout % 100)

unfoldable pub begin_req : Draws → ℕ → Network → Begun
unfolding begin_with
begin_req draws endname rn =
    let info : EndnameInfo = read_endname_info endname rn in
    begin_with draws rn.long_delays info.enabled info.servername info.server info.reliable
      info.long_reordering

-- The loop that waits for the handler: what `select` meets, in order.
pub data Waited : Type 0 where
  returned : (reply : ReplyMsg) → Waited
  tick : (rn : Network) → Waited

-- `some none` is a server found dead, and `none` a loop that still waits.
unfoldable pub wait_handler : ℕ → ℕ → ℕ → List Waited → Option (Option ReplyMsg)
wait_handler endname servername server [] = none
wait_handler endname servername server (returned reply ∷ more) = some (some reply)
wait_handler endname servername server (tick rn ∷ more) =
    if is_server_dead endname servername server rn
    then some none
    else wait_handler endname servername server more

finish_with : Draws → Bool → Bool → Bool → Option ReplyMsg → Answer
finish_with draws reliable long_reordering server_dead none = failure 0
finish_with draws reliable long_reordering server_dead (some reply) =
    if server_dead
    then failure 0
    else if not reliable && ltb (draws.drop_reply % 1000) 100
    then failure 0
    else if long_reordering && ltb draws.reorder 600
    then delivery reply (200 + draws.reorder_delay)
    else delivery reply 0

-- After the loop, with the network of that time.
unfoldable pub finish_req : Draws → ℕ → ℕ → ℕ → Bool → Bool → Option ReplyMsg → Network → Answer
unfolding finish_with
finish_req draws endname servername server reliable long_reordering reply rn =
    finish_with draws reliable long_reordering (is_server_dead endname servername server rn) reply

-- Sending a reply counts its bytes.
unfoldable pub send_reply : Answer → Network → Network
send_reply (failure delay_ms) rn = rn
send_reply (delivery reply delay_ms) rn = record rn {
  bytes = (rn.bytes + length reply.reply) % 18446744073709551616;
}

-- The networks after the start: at each poll, and when the loop has ended.
pub record Later : Type 0 where
  pub polls : List Network
  pub last : Network

unfoldable pub ticks : List Network → ReplyMsg → List Waited
ticks [] reply = returned reply ∷ []
ticks (rn ∷ polls) reply = tick rn ∷ ticks polls reply

-- A whole request whose handler returns after some polls. The handler of a server found dead runs
-- on, so its effects stay.
unfoldable pub process_req :
    (gob : Gob) (State : Type 0)
    → Draws
    → ReqMsg gob.GoType
    → Network
    → Later
    → Map ℕ (Server gob State)
    → State
    → Option (Answer × Map ℕ (Server gob State) × State)
process_req gob State draws req rn later servers state = elim (begin_req draws req.endname rn) [
  | unanswered delay_ms ↦ some (failure delay_ms, servers, state)
  | running servername server reliable long_reordering ↦ lookup server servers >>= λ rs.
      dispatch_server gob State req rs state >>= λ (reply, rs', state').
      wait_handler req.endname servername server (ticks later.polls reply) >>= λ waited. some (
        finish_req draws req.endname servername server reliable long_reordering waited later.last,
        insert server rs' servers,
        state',
      )
]
