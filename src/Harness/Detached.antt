-- ===== src/Harness/Detached.antt =====
-- That a server that was detached from the network calls nobody and is called by nobody.
use cs426_spring2023_labs.Prelude.{
  ℕ, zero, suc, Bool, true, false, List, [], ◌∷◌, Option, none, some, GoString, nat_eq, get_elem?,
  ◌≡◌, subst, sym, arith, ◌⊎◌, inl, inr, Option-cases,
}
use cs426_spring2023_labs.Prelude.Map.{Map, lookup-insert}
use cs426_spring2023_labs.LabRpc.{Network, is_enabled, enable}
use cs426_spring2023_labs.LabRpc.Servers.{Gob, Server}
use cs426_spring2023_labs.LabRpc.Requests.{Draws, Later}
use cs426_spring2023_labs.LabRpc.Client.{Called, call}
use cs426_spring2023_labs.LabRpc.Delivery.{call_refused}
use cs426_spring2023_labs.Harness.{update_at}
use cs426_spring2023_labs.Harness.Wiring.{
  Wired, ends_of, disconnect_outgoing, disconnect_incoming, disconnect,
}

abbrev IsOff : ℕ → Network → Type 0
IsOff name rn = is_enabled name rn ≡ false

enable-IsOff : (name other : ℕ) (rn : Network) → IsOff name rn → IsOff name (enable other false rn)
unfolding enable
enable-IsOff name other rn off = ground (arith, lookup-insert name other false rn.enabled)

enable-false : (name : ℕ) (rn : Network) → IsOff name (enable name false rn)
unfolding enable
enable-false name rn =
    ground (arith, lookup-insert name name false rn.enabled, nat_eq.beq_iff name name)

disconnect_outgoing-IsOff :
    (name : ℕ) (names : List ℕ) (rn : Network)
    → IsOff name rn
    → IsOff name (disconnect_outgoing names rn)
unfolding disconnect_outgoing
disconnect_outgoing-IsOff name [] rn off = off
disconnect_outgoing-IsOff name (other ∷ names) rn off =
    disconnect_outgoing-IsOff name names (enable other false rn) (enable-IsOff name other rn off)

disconnect_outgoing-all :
    (names : List ℕ) (rn : Network) (j name : ℕ)
    → get_elem? names j ≡ some name
    → IsOff name (disconnect_outgoing names rn)
unfolding disconnect_outgoing
disconnect_outgoing-all [] rn j name at = absurd (ground arith)
disconnect_outgoing-all (first ∷ names) rn zero name at =
    let same : first ≡ name = ground arith in
    disconnect_outgoing-IsOff name names (enable first false rn)
      (subst (λ n. IsOff name (enable n false rn)) (sym same) (enable-false name rn))
disconnect_outgoing-all (first ∷ names) rn (suc j) name at =
    disconnect_outgoing-all names (enable first false rn) j name at

disconnect_incoming-IsOff :
    (i name : ℕ) (ends : List (Option (List ℕ))) (rn rn' : Network)
    → IsOff name rn
    → disconnect_incoming i ends rn ≡ some rn'
    → IsOff name rn'
unfolding disconnect_incoming
disconnect_incoming-IsOff i name [] rn rn' off e = ground arith
disconnect_incoming-IsOff i name (none ∷ ends) rn rn' off e =
    disconnect_incoming-IsOff i name ends rn rn' off e
disconnect_incoming-IsOff i name (some names ∷ ends) rn rn' off e =
    elim (Option-cases (get_elem? names i)) [
      | inl out ↦ absurd (ground arith)
      | inr (other, at) ↦
          disconnect_incoming-IsOff i name ends (enable other false rn) rn'
            (enable-IsOff name other rn off) (ground arith)
    ]

disconnect_incoming-all :
    (i : ℕ) (ends : List (Option (List ℕ))) (rn rn' : Network) (j : ℕ) (names : List ℕ) (name : ℕ)
    → disconnect_incoming i ends rn ≡ some rn'
    → get_elem? ends j ≡ some (some names)
    → get_elem? names i ≡ some name
    → IsOff name rn'
unfolding disconnect_incoming
disconnect_incoming-all i [] rn rn' j names name e at there = absurd (ground arith)
disconnect_incoming-all i (none ∷ ends) rn rn' zero names name e at there = absurd (ground arith)
disconnect_incoming-all i (some first ∷ ends) rn rn' zero names name e at there =
    disconnect_incoming-IsOff i name ends (enable name false rn) rn' (enable-false name rn)
      (ground arith)
disconnect_incoming-all i (none ∷ ends) rn rn' (suc j) names name e at there =
    disconnect_incoming-all i ends rn rn' j names name e at there
disconnect_incoming-all i (some first ∷ ends) rn rn' (suc j) names name e at there =
    elim (Option-cases (get_elem? first i)) [
      | inl out ↦ absurd (ground arith)
      | inr (other, here) ↦
          disconnect_incoming-all i ends (enable other false rn) rn' j names name (ground arith) at
            there
    ]

-- An end that server i sends from, or one that another server sends to it over.
abbrev pub IsEndOf : ℕ → ℕ → Wired → Type 0
IsEndOf i name cfg =
    ((j : ℕ) × (get_elem? (ends_of i cfg.endnames) j ≡ some name))
    ⊎ ((j : ℕ) × (names : List ℕ) × (get_elem? cfg.endnames j ≡ some (some names))
        × (get_elem? names i ≡ some name))

disconnect-IsOff :
    (i name : ℕ) (cfg cfg' : Wired)
    → disconnect i cfg ≡ some cfg'
    → IsEndOf i name cfg
    → IsOff name cfg'.net
unfolding disconnect
disconnect-IsOff i name cfg cfg' e is_end =
    let rn : Network = disconnect_outgoing (ends_of i cfg.endnames) cfg.net in
    elim (Option-cases (update_at i (λ old. false) cfg.connected)) [
      | inl out ↦ absurd (ground arith)
      | inr (connected, marked) ↦ elim (Option-cases (disconnect_incoming i cfg.endnames rn)) [
        | inl out ↦ absurd (ground arith)
        | inr (rn', ran) ↦
            let same : rn' ≡ cfg'.net = ground arith in
            subst (λ n. IsOff name n) same
              (elim is_end [
                | inl (j, at) ↦
                    disconnect_incoming-IsOff i name cfg.endnames rn rn'
                      (disconnect_outgoing-all (ends_of i cfg.endnames) cfg.net j name at) ran
                | inr (j, names, at, there) ↦
                    disconnect_incoming-all i cfg.endnames rn rn' j names name ran at there
              ])
      ]
    ]

-- After `disconnect` has detached server i, every call over an end that i sends from or is sent to
-- over, if gob can encode its arguments, answers false, runs no handler and leaves the reply variable
-- as it was.
pub disconnect_silences :
    (gob : Gob) (State : Type 0) (i name : ℕ) (cfg cfg' : Wired) (draws : Draws) (taken : Bool)
    (svc_meth : GoString) (args reply : gob.Value) (later : Later)
    (servers : Map ℕ (Server gob State)) (state : State)
    → disconnect i cfg ≡ some cfg'
    → IsEndOf i name cfg
    → (gob.encode args).1 ≡ true
    → (c : Called gob State) × (call gob State draws taken name svc_meth args reply cfg'.net later
          servers state
        ≡ some c)
      × (c.ok ≡ false)
      × (c.reply ≡ reply)
      × (c.servers ≡ servers)
      × (c.state ≡ state)
disconnect_silences gob State i name cfg cfg' draws taken svc_meth args reply later servers state e
      is_end encoded =
    let off : is_enabled name cfg'.net ≡ false = disconnect-IsOff i name cfg cfg' e is_end in
    call_refused gob State draws taken name svc_meth args reply cfg'.net later servers state encoded
      (λ servername server leads. absurd (ground (arith, leads.on)))
