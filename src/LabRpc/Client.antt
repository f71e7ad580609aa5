-- ===== src/LabRpc/Client.antt =====
-- lab3/labrpc/labrpc.go: `ClientEnd.Call`.
use cs426_spring2023_labs.Prelude.{
  ℕ, Bool, true, false, not, ◌||◌, Option, none, some, ◌>>=◌, GoString, if◌then◌else◌,
}
use cs426_spring2023_labs.Prelude.Map.{Map}
use cs426_spring2023_labs.LabRpc.{ReqMsg, Network, receive}
use cs426_spring2023_labs.LabRpc.Servers.{Gob, Server}
use cs426_spring2023_labs.LabRpc.Requests.{
  Draws, Answer, failure, delivery, Later, process_req, send_reply,
}

module _ (gob : Gob) (State : Type 0) where
  -- What a call leaves: its result, the reply variable, and the rest of the program.
  pub record Called : Type 0 where
    pub ok : Bool
    pub reply : gob.Value
    pub network : Network
    pub servers : Map ℕ (Server gob State)
    pub state : State

  unfoldable pub make_req : ℕ → GoString → gob.Value → ReqMsg gob.GoType
  make_req endname svc_meth args = record {
    endname = endname;
    svc_meth = svc_meth;
    args_type = gob.type_of args;
    args = (gob.encode args).0;
  }

  -- Waiting for the reply, and decoding it into the reply variable.
  take_reply : gob.Value → Network → Answer × Map ℕ (Server gob State) × State → Option Called
  take_reply reply rn (failure delay_ms, servers, state) =
      some (record { ok = false; reply = reply; network = rn; servers = servers; state = state })
  take_reply reply rn (delivery rep delay_ms, servers, state) =
      let decoded = gob.decode reply rep.reply in
      if decoded.1
      then some (record {
        ok = true;
        reply = decoded.0;
        network = send_reply (delivery rep delay_ms) rn;
        servers = servers;
        state = state;
      })
      else none

  -- `taken` is which case `select` takes when the network has been destroyed and its goroutine has
  -- not ended yet.
  unfoldable pub call :
      Draws
      → Bool
      → ℕ
      → GoString
      → gob.Value
      → gob.Value
      → Network
      → Later
      → Map ℕ (Server gob State)
      → State
      → Option Called
  unfolding take_reply
  call draws taken endname svc_meth args reply rn later servers state =
      let req = make_req endname svc_meth args in
      if not (gob.encode args).1
      then none
      else if not rn.is_done || taken
      then (process_req gob State draws req (receive req rn) later servers state >>= λ answer.
          take_reply reply later.last answer)
      else some
          (record { ok = false; reply = reply; network = rn; servers = servers; state = state })
