-- ===== src/LabRpc/Delivery.antt =====
-- What a call over the network gives.
use cs426_spring2023_labs.Prelude.{
  ℕ, Bool, true, false, not, ◌||◌, none, some, GoString, nat_eq, ◌≡◌, refl, arith, inl, inr,
  Bool-cases, Option-cases, bytes_eq,
}
use cs426_spring2023_labs.Prelude.Map.{Map, lookup, insert}
use cs426_spring2023_labs.LabRpc.{ReqMsg, ReplyMsg, Network, is_server_dead, receive}
use cs426_spring2023_labs.LabRpc.Servers.{Gob, Server, dispatch_server}
use cs426_spring2023_labs.LabRpc.Requests.{
  Draws, begin_req, failure, delivery, finish_req, Later, process_req, send_reply,
}
use cs426_spring2023_labs.LabRpc.Client.{Called, make_req, call}
use cs426_spring2023_labs.LabRpc.Steps.{
  LeadsTo, begin_req-running, Begun-cases, wait_handler-ticks, finish_req-delivery,
}

module _ (gob : Gob) (State : Type 0) where
  process_req-delivery :
      (draws : Draws) (req : ReqMsg gob.GoType) (rn : Network) (later : Later)
      (servers servers' : Map ℕ (Server gob State)) (state state' : State) (rep : ReplyMsg) (d : ℕ)
      → process_req gob State draws req rn later servers state
        ≡ some (delivery rep d, servers', state')
      → (servername : ℕ) × (server : ℕ) × (rs : Server gob State) × (rs' : Server gob State)
        × LeadsTo req.endname servername server rn
        × (lookup server servers ≡ some rs)
        × (dispatch_server gob State req rs state ≡ some (rep, rs', state'))
        × (servers' ≡ insert server rs' servers)
        × (is_server_dead req.endname servername server later.last ≡ false)
  unfolding process_req
  process_req-delivery draws req rn later servers servers' state state' rep d e =
      elim (Begun-cases (begin_req draws req.endname rn)) [
        | inl (ms, quiet) ↦ absurd (ground arith)
        | inr (name, server, r, l, runs) ↦ elim (Option-cases (lookup server servers)) [
          | inl missing ↦ absurd (ground arith)
          | inr (rs, there) ↦ elim (Option-cases (dispatch_server gob State req rs state)) [
            | inl fatal ↦ absurd (ground arith)
            | inr ((back, rs', after), ran) ↦
                elim (wait_handler-ticks req.endname name server later.polls back) [
                  | inl waited ↦
                      let last : finish_req draws req.endname name server r l (some back) later.last
                          ≡ delivery rep d =
                        ground arith in
                      let (same, alive) =
                        finish_req-delivery draws req.endname name server r l (some back) later.last
                          rep d last in
                      (
                        name,
                        server,
                        rs,
                        rs',
                        begin_req-running draws req.endname name server rn r l runs,
                        there,
                        ground arith,
                        ground arith,
                        alive,
                      )
                  | inr dead ↦
                      let last : finish_req draws req.endname name server r l none later.last
                          ≡ delivery rep d =
                        ground arith in
                      let (nothing, alive) =
                        finish_req-delivery draws req.endname name server r l none later.last rep d
                          last in
                      absurd (ground arith)
                ]
          ]
        ]
      ]

  -- A call answers true only with what the handler gave: the end was enabled and connected to a
  -- server when the call began, this very server ran the handler on the arguments, and when the
  -- handler had returned the end was enabled and this server had not been deleted or replaced.
  pub call-true :
      (draws : Draws) (taken : Bool) (endname : ℕ) (svc_meth : GoString) (args reply : gob.Value)
      (rn : Network) (later : Later) (servers : Map ℕ (Server gob State)) (state : State)
      (c : Called gob State)
      → call gob State draws taken endname svc_meth args reply rn later servers state ≡ some c
      → c.ok ≡ true
      → (servername : ℕ) × (server : ℕ) × (rs : Server gob State) × (rs' : Server gob State)
        × (rep : ReplyMsg) × LeadsTo endname servername server rn
        × (lookup server servers ≡ some rs)
        × (dispatch_server gob State (make_req gob State endname svc_meth args) rs state
            ≡ some (rep, rs', c.state))
        × (c.servers ≡ insert server rs' servers)
        × (gob.decode reply rep.reply ≡ (c.reply, true))
        × (is_server_dead endname servername server later.last ≡ false)
  unfolding call make_req receive
  call-true draws taken endname svc_meth args reply rn later servers state c e yes_ok =
      let req : ReqMsg gob.GoType = make_req gob State endname svc_meth args in
      elim (Bool-cases (gob.encode args).1) [
        | inr panics ↦ absurd (ground arith)
        | inl encoded ↦ elim (Bool-cases (not rn.is_done || taken)) [
          | inr closed ↦ absurd (ground arith)
          | inl open_yet ↦
              elim (Option-cases
                (process_req gob State draws req (receive req rn) later servers state)) [
                  | inl never ↦ absurd (ground arith)
                  | inr ((failure ms, servers', after), came) ↦ absurd (ground arith)
                  | inr ((delivery rep ms, servers', after), came) ↦
                      elim (Bool-cases (gob.decode reply rep.reply).1) [
                        | inr fatal ↦ absurd (ground arith)
                        | inl decoded ↦
                            let (name, server, rs, rs', leads, there, ran, kept, alive) =
                              process_req-delivery draws req (receive req rn) later servers servers'
                                state after rep ms came in
                            let is_c : c ≡ record {
                              ok = true;
                              reply = (gob.decode reply rep.reply).0;
                              network = send_reply (delivery rep ms) later.last;
                              servers = servers';
                              state = after;
                            } =
                              ground arith in
                            (
                              name,
                              server,
                              rs,
                              rs',
                              rep,
                              record { on = leads.on; to = leads.to; there = leads.there },
                              there,
                              ground arith,
                              ground arith,
                              ground arith,
                              alive,
                            )
                      ]
                ]
        ]
      ]

  -- A call over an end that is disabled, not connected, or connected to a server that is missing or
  -- deleted answers false, runs no handler and leaves the reply variable as it was.
  pub call_refused :
      (draws : Draws) (taken : Bool) (endname : ℕ) (svc_meth : GoString) (args reply : gob.Value)
      (rn : Network) (later : Later) (servers : Map ℕ (Server gob State)) (state : State)
      → (gob.encode args).1 ≡ true
      → ((servername server : ℕ) → ¬ LeadsTo endname servername server rn)
      → (c : Called gob State) × (call gob State draws taken endname svc_meth args reply rn later
            servers state
          ≡ some c)
        × (c.ok ≡ false)
        × (c.reply ≡ reply)
        × (c.servers ≡ servers)
        × (c.state ≡ state)
  unfolding call make_req receive process_req
  call_refused draws taken endname svc_meth args reply rn later servers state encoded nowhere =
      let req : ReqMsg gob.GoType = make_req gob State endname svc_meth args in
      elim (Bool-cases (not rn.is_done || taken)) [
        | inr closed ↦ (
          record { ok = false; reply = reply; network = rn; servers = servers; state = state },
          ground arith,
          refl,
          refl,
          refl,
          refl,
        )
        | inl open_yet ↦ elim (Begun-cases (begin_req draws endname (receive req rn))) [
          | inl (ms, quiet) ↦ (
            record {
              ok = false;
              reply = reply;
              network = later.last;
              servers = servers;
              state = state;
            },
            ground arith,
            refl,
            refl,
            refl,
            refl,
          )
          | inr (name, server, r, l, runs) ↦
              let leads = begin_req-running draws endname name server (receive req rn) r l runs in
              absurd
                (nowhere name server (record { on = leads.on; to = leads.to; there = leads.there }))
        ]
      ]
