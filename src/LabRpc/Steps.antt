-- ===== src/LabRpc/Steps.antt =====
-- The steps of a request: how it begins, how the wait for its handler ends, and what it delivers.
use cs426_spring2023_labs.Prelude.{
  ℕ, ◌%◌, Bool, true, false, not, ◌&&◌, List, [], ◌∷◌, Option, none, some, nat_eq, ltb, ◌≡◌, refl,
  arith, ◌⊎◌, inl, inr, Bool-cases, Option-cases, bytes_eq,
}
use cs426_spring2023_labs.LabRpc.{
  ReplyMsg, Network, is_enabled, connection_of, server_of, is_server_dead, read_endname_info,
}
use cs426_spring2023_labs.LabRpc.Requests.{
  Draws, Begun, unanswered, running, begin_req, delivery, finish_req, wait_handler, ticks,
}

-- The end leads to this server.
pub record LeadsTo (endname servername server : ℕ) (rn : Network) : Type 0 where
  pub on : is_enabled endname rn ≡ true
  pub to : connection_of endname rn ≡ some servername
  pub there : server_of servername rn ≡ some server

pub begin_req-running :
    (draws : Draws) (endname servername server : ℕ) (rn : Network) (r l : Bool)
    → begin_req draws endname rn ≡ running servername server r l
    → LeadsTo endname servername server rn
unfolding begin_req read_endname_info
begin_req-running draws endname servername server rn r l h =
    elim (Bool-cases (is_enabled endname rn)) [
      | inl on ↦ elim (Option-cases (connection_of endname rn)) [
        | inl nowhere ↦ absurd (ground arith)
        | inr (name, to) ↦ elim (Option-cases (server_of name rn)) [
          | inl missing ↦ absurd (ground arith)
          | inr (rs, there) ↦ ground arith
        ]
      ]
      | inr off ↦ absurd (ground arith)
    ]

pub running-begin_req :
    (draws : Draws) (endname servername server : ℕ) (rn : Network)
    → rn.reliable ≡ true
    → LeadsTo endname servername server rn
    → begin_req draws endname rn ≡ running servername server true rn.long_reordering
unfolding begin_req read_endname_info
running-begin_req draws endname servername server rn reliable h =
    rw (h.on, h.to, reliable) (rw h.there refl)

pub Begun-cases :
    (b : Begun)
    → ((d : ℕ) × (b ≡ unanswered d))
      ⊎ ((servername : ℕ) × (server : ℕ) × (reliable : Bool) × (reorders : Bool) × (b
            ≡ running servername server reliable reorders))
Begun-cases (unanswered d) = inl (d, refl)
Begun-cases (running name server r l) = inr (name, server, r, l, refl)

-- The loop ends: with the handler's reply, or at a poll that finds the server dead.
pub wait_handler-ticks :
    (endname servername server : ℕ) (polls : List Network) (rep : ReplyMsg)
    → (wait_handler endname servername server (ticks polls rep) ≡ some (some rep))
      ⊎ (wait_handler endname servername server (ticks polls rep) ≡ some none)
unfolding wait_handler ticks
wait_handler-ticks endname servername server [] rep = inl refl
wait_handler-ticks endname servername server (rn ∷ polls) rep =
    let rest = wait_handler-ticks endname servername server polls rep in
    elim (Bool-cases (is_server_dead endname servername server rn)) [
      | inl dead ↦ inr (ground (arith, dead))
      | inr alive ↦ ground (arith, alive)
    ]

pub finish_req-delivery :
    (draws : Draws) (endname servername server : ℕ) (r l : Bool) (reply : Option ReplyMsg)
    (rn : Network) (rep : ReplyMsg) (d : ℕ)
    → finish_req draws endname servername server r l reply rn ≡ delivery rep d
    → (reply ≡ some rep) × (is_server_dead endname servername server rn ≡ false)
unfolding finish_req
finish_req-delivery draws endname servername server r l none rn rep d e = absurd (ground arith)
finish_req-delivery draws endname servername server r l (some reply) rn rep d e =
    elim (Bool-cases (is_server_dead endname servername server rn)) [
      | inl dead ↦ absurd (ground arith)
      | inr alive ↦ (
        elim (Bool-cases (not r && ltb (draws.drop_reply % 1000) 100)) [
          | inl drops ↦ absurd (ground arith)
          | inr keeps ↦ elim (Bool-cases (l && ltb draws.reorder 600)) [
            | inl late ↦ ground arith
            | inr soon ↦ ground arith
          ]
        ],
        alive,
      )
    ]
