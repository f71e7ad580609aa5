-- ===== src/LabRpc/Deletion.antt =====
-- That a server that was deleted answers no call any more, not even one that it already works on.
use cs426_spring2023_labs.Prelude.{
  ℕ, Bool, true, false, List, [], ◌∷◌, Option, none, some, ◌>>=◌, nat_eq, ◌==◌, ◌≡◌, ◌≢◌, refl,
  arith, inl, inr, Option-cases,
}
use cs426_spring2023_labs.Prelude.Map.{lookup-insert}
use cs426_spring2023_labs.LabRpc.{
  ReplyMsg, Network, server_of, is_server_dead, set_reliable, set_long_reordering, set_long_delays,
  add_server, delete_server, connect, enable, make_end, receive, cleanup, ReqMsg,
}
use cs426_spring2023_labs.LabRpc.Requests.{
  Draws, Answer, failure, delivery, finish_req, send_reply, Waited, tick, wait_handler,
}

-- What others do to the network: every method that changes it, the receipt of a request and the
-- bytes of a reply that is sent.
pub data Op (GoType : Type 0) : Type 0 where
  makes_reliable reorders_long delays_long : Bool → Op GoType
  makes_end : (endname : ℕ) → Op GoType
  add : (servername server : ℕ) → Op GoType
  remove : (servername : ℕ) → Op GoType
  connects : (endname servername : ℕ) → Op GoType
  enables : (endname : ℕ) (on : Bool) → Op GoType
  receives : (req : ReqMsg GoType) → Op GoType
  sends : (answer : Answer) → Op GoType
  cleans_up : Op GoType

-- `none` is a panic, or `log.Fatalf` for an end that exists.
unfoldable pub apply : {GoType : Type 0} → Op GoType → Network → Option Network
apply (makes_reliable on) rn = some (set_reliable on rn)
apply (reorders_long on) rn = some (set_long_reordering on rn)
apply (delays_long on) rn = some (set_long_delays on rn)
apply (makes_end endname) rn = make_end endname rn
apply (add servername server) rn = some (add_server servername server rn)
apply (remove servername) rn = some (delete_server servername rn)
apply (connects endname servername) rn = some (connect endname servername rn)
apply (enables endname on) rn = some (enable endname on rn)
apply (receives req) rn = some (receive req rn)
apply (sends answer) rn = some (send_reply answer rn)
apply cleans_up rn = cleanup rn

unfoldable pub apply_all : {GoType : Type 0} → List (Op GoType) → Network → Option Network
apply_all [] rn = some rn
apply_all (op ∷ ops) rn = apply op rn >>= λ next. apply_all ops next

-- The server object is not added again; another one under the same name may be.
abbrev adds : {GoType : Type 0} → ℕ → Op GoType → Bool
adds server (add servername other) = other == server
adds server _ = false

abbrev pub NeverAdds : {GoType : Type 0} → ℕ → List (Op GoType) → Type 0
NeverAdds server [] = Unit
NeverAdds server (op ∷ ops) = (adds server op ≡ false) × NeverAdds server ops

abbrev pub Gone : ℕ → ℕ → Network → Type 0
Gone servername server rn = server_of servername rn ≢ some server

apply-Gone :
    {GoType : Type 0} (servername server : ℕ) (op : Op GoType) (rn rn' : Network)
    → adds server op ≡ false
    → Gone servername server rn
    → apply op rn ≡ some rn'
    → Gone servername server rn'
unfolding apply set_reliable set_long_reordering set_long_delays make_end add_server delete_server
    connect enable receive send_reply cleanup
apply-Gone servername server (makes_reliable on) rn rn' other h e = ground arith
apply-Gone servername server (reorders_long on) rn rn' other h e = ground arith
apply-Gone servername server (delays_long on) rn rn' other h e = ground arith
apply-Gone servername server (makes_end name) rn rn' other h e = ground arith
apply-Gone servername server (add name new) rn rn' other h e =
    ground (arith, lookup-insert servername name (some new) rn.servers, nat_eq.beq_iff new server)
apply-Gone servername server (remove name) rn rn' other h e =
    ground (arith, lookup-insert servername name none rn.servers)
apply-Gone servername server (connects end name) rn rn' other h e = ground arith
apply-Gone servername server (enables end on) rn rn' other h e = ground arith
apply-Gone servername server (receives req) rn rn' other h e = ground arith
apply-Gone servername server (sends (failure d)) rn rn' other h e = ground arith
apply-Gone servername server (sends (delivery r d)) rn rn' other h e = ground arith
apply-Gone servername server cleans_up rn rn' other h e = ground arith

apply_all-Gone :
    {GoType : Type 0} (servername server : ℕ) (ops : List (Op GoType)) (rn rn' : Network)
    → NeverAdds server ops
    → Gone servername server rn
    → apply_all ops rn ≡ some rn'
    → Gone servername server rn'
unfolding apply_all
apply_all-Gone servername server [] rn rn' others h e = ground arith
apply_all-Gone servername server (op ∷ ops) rn rn' others h e = elim (Option-cases (apply op rn)) [
  | inl fatal ↦ absurd (ground arith)
  | inr (next, done) ↦
      apply_all-Gone servername server ops next rn' others.1
        (apply-Gone servername server op rn next others.0 h done) (ground arith)
]

pub Gone-dead :
    (endname servername server : ℕ) (rn : Network)
    → Gone servername server rn
    → is_server_dead endname servername server rn ≡ true
unfolding is_server_dead
Gone-dead endname servername server rn h = elim (Option-cases (server_of servername rn)) [
  | inl nothing ↦ ground arith
  | inr (other, there) ↦ ground (arith, nat_eq.beq_iff other server)
]

pub dead-finish_req :
    (draws : Draws) (endname servername server : ℕ) (reliable long_reordering : Bool)
    (reply : Option ReplyMsg) (rn : Network)
    → is_server_dead endname servername server rn ≡ true
    → finish_req draws endname servername server reliable long_reordering reply rn ≡ failure 0
unfolding finish_req
dead-finish_req draws endname servername server reliable long_reordering none rn dead = refl
dead-finish_req draws endname servername server reliable long_reordering (some r) rn dead =
    ground (arith, dead)

-- After a server is deleted, and any methods of the network, requests received and replies sent,
-- without a panic and short of adding the same server object again (another server may take its
-- name), a request that the deleted server's handler works on is answered with a failure, whatever
-- the handler returned and whatever the random draws are; and the loop that waits for the handler
-- gives up if it polls then.
pub deleted_server_silent :
    {GoType : Type 0} (draws : Draws) (endname servername server : ℕ)
    (reliable long_reordering : Bool) (reply : Option ReplyMsg) (rn later : Network)
    (ops : List (Op GoType)) (more : List Waited)
    → NeverAdds server ops
    → apply_all ops (delete_server servername rn) ≡ some later
    → (finish_req draws endname servername server reliable long_reordering reply later ≡ failure 0)
      × (wait_handler endname servername server (tick later ∷ more) ≡ some none)
unfolding delete_server wait_handler
deleted_server_silent draws endname servername server reliable long_reordering reply rn later ops
      more others e =
    let dead : is_server_dead endname servername server later ≡ true =
      Gone-dead endname servername server later (
        apply_all-Gone servername server ops (delete_server servername rn) later others
          (ground (arith, lookup-insert servername servername none rn.servers)) e) in
    (
      dead-finish_req draws endname servername server reliable long_reordering reply later dead,
      ground (arith, dead),
    )
