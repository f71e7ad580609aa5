-- ===== src/LabRpc/RoundTrip.antt =====
-- A call over a reliable network is a call of the handler.
use cs426_spring2023_labs.Prelude.{
  ℕ, ◌+◌, ◌%◌, Bool, true, false, ◌&&◌, List, [], ◌∷◌, some, GoString, nat_eq, bytes_eq, ltb, ◌≡◌,
  refl, arith, inl, inr, Bool-cases, length,
}
use cs426_spring2023_labs.Prelude.Map.{Map, lookup, insert}
use cs426_spring2023_labs.LabRpc.{ReqMsg, ReplyMsg, Network, is_server_dead, receive}
use cs426_spring2023_labs.LabRpc.Servers.{
  Gob, Method, Service, Server, split_last_dot, dispatch_server, dispatch_service, call_method,
}
use cs426_spring2023_labs.LabRpc.Requests.{
  Draws, running, begin_req, delivery, finish_req, wait_handler, ticks, Later, process_req,
  send_reply,
}
use cs426_spring2023_labs.LabRpc.Client.{make_req, call}
use cs426_spring2023_labs.LabRpc.Steps.{LeadsTo, running-begin_req}

-- At none of these times the server is dead for the end.
abbrev pub Alive : ℕ → ℕ → ℕ → List Network → Type 0
Alive endname servername server [] = Unit
Alive endname servername server (rn ∷ rns) =
    (is_server_dead endname servername server rn ≡ false) × Alive endname servername server rns

-- gob decodes what it has encoded: `v`, into a variable that holds `old`.
abbrev pub RoundTrips : (gob : Gob) → gob.Value → gob.Value → Type 0
RoundTrips gob old v = gob.decode old (gob.encode v).0 ≡ (v, true)

-- The name of a call leads to this method.
pub record Handles {gob : Gob} {State : Type 0} (rs : Server gob State) (svc_meth : GoString)
    (method : Method gob State) : Type 0 where
  pub service_name : GoString
  pub method_name : GoString
  pub service : Service gob State
  pub named : split_last_dot svc_meth ≡ some (service_name, method_name)
  pub serves : lookup service_name rs.services ≡ some service
  pub has : lookup method_name service.methods ≡ some method

wait_handler-Alive :
    (endname servername server : ℕ) (polls : List Network) (rep : ReplyMsg)
    → Alive endname servername server polls
    → wait_handler endname servername server (ticks polls rep) ≡ some (some rep)
unfolding wait_handler ticks
wait_handler-Alive endname servername server [] rep alive = refl
wait_handler-Alive endname servername server (rn ∷ polls) rep alive =
    ground (arith, alive.0, wait_handler-Alive endname servername server polls rep alive.1)

-- On a reliable network with the server alive the reply is delivered, maybe late.
finish_req-reliable :
    (draws : Draws) (endname servername server : ℕ) (l : Bool) (rep : ReplyMsg) (rn : Network)
    → is_server_dead endname servername server rn ≡ false
    → (d : ℕ) × (finish_req draws endname servername server true l (some rep) rn ≡ delivery rep d)
unfolding finish_req
finish_req-reliable draws endname servername server l rep rn alive =
    elim (Bool-cases (l && ltb draws.reorder 600)) [
      | inl late ↦ (200 + draws.reorder_delay, ground (arith, alive))
      | inr soon ↦ (0, ground (arith, alive))
    ]

module _ {gob : Gob} {State : Type 0} where
  dispatch_server-Handles :
      (req : ReqMsg gob.GoType) (rs : Server gob State) (state : State) (method : Method gob State)
      → Handles rs req.svc_meth method
      → dispatch_server gob State req rs state
        ≡ some (
          (call_method gob State method req state).0,
          record rs { count = rs.count + 1 },
          (call_method gob State method req state).1,
        )
  unfolding dispatch_server dispatch_service
  dispatch_server-Handles req rs state method h = ground (arith, h.named, h.serves, h.has)

  -- Over a reliable network, when the end leads to a server that stays alive until its handler has
  -- returned, and gob decodes the arguments and the reply that it has encoded, a call answers true
  -- with what the handler of the named method gives for the arguments, and leaves its effects,
  -- whatever the random draws are; it counts one call at the server and the reply's bytes.
  pub call_delivers :
      (draws : Draws) (taken : Bool) (endname servername server : ℕ) (svc_meth : GoString)
      (args reply : gob.Value) (rn : Network) (later : Later) (servers : Map ℕ (Server gob State))
      (rs : Server gob State) (method : Method gob State) (state : State)
      → rn.is_done ≡ false
      → rn.reliable ≡ true
      → LeadsTo endname servername server rn
      → lookup server servers ≡ some rs
      → Handles rs svc_meth method
      → Alive endname servername server (later.last ∷ later.polls)
      → (gob.encode args).1 ≡ true
      → RoundTrips gob (gob.zero_of (gob.type_of args)) args
      → RoundTrips gob reply (method.handler args (gob.zero_of method.reply_type) state).0
      → call gob State draws taken endname svc_meth args reply rn later servers state
        ≡ some (record {
          ok = true;
          reply = (method.handler args (gob.zero_of method.reply_type) state).0;
          network = record later.last {
            bytes =
                (later.last.bytes
                  + length
                      (gob.encode (method.handler args (gob.zero_of method.reply_type) state).0).0)
                % 18446744073709551616;
          };
          servers = insert server (record rs { count = rs.count + 1 }) servers;
          state = (method.handler args (gob.zero_of method.reply_type) state).1;
        })
  unfolding call process_req make_req receive call_method send_reply
  call_delivers draws taken endname servername server svc_meth args reply rn later servers rs method
        state fresh reliable leads there handles alive encoded args_kept reply_kept =
      let req : ReqMsg gob.GoType = make_req gob State endname svc_meth args in
      let ran = dispatch_server-Handles req rs state method (record {
        service_name = handles.service_name;
        method_name = handles.method_name;
        service = handles.service;
        named = handles.named;
        serves = handles.serves;
        has = handles.has;
      }) in
      let rep : ReplyMsg = (call_method gob State method req state).0 in
      let begun : begin_req draws endname (receive req rn)
          ≡ running servername server true rn.long_reordering =
        running-begin_req draws endname servername server (receive req rn) reliable
          (record { on = leads.on; to = leads.to; there = leads.there }) in
      let waited : wait_handler endname servername server (ticks later.polls rep)
          ≡ some (some rep) =
        wait_handler-Alive endname servername server later.polls rep alive.1 in
      let (d, sent) =
        finish_req-reliable draws endname servername server rn.long_reordering rep later.last
          alive.0 in
      ground (arith, begun, there, ran, waited, sent, args_kept, reply_kept, fresh, encoded)
