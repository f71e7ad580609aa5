-- ===== src/Harness/Wiring.antt =====
-- lab3/raft/config.go: `connect` and `disconnect`, which attach a server to the network and detach it.
--
-- `none` is a panic: an index out of range.
use cs426_spring2023_labs.Prelude.{
  ℕ, Bool, true, false, List, [], ◌∷◌, Option, none, some, ◌>>=◌, get_elem?,
}
use cs426_spring2023_labs.LabRpc.{Network, enable}
use cs426_spring2023_labs.Harness.{update_at}

-- Whether each server is on the net, and the end names that each sends from, nil before it starts.
pub record Wired : Type 0 where
  pub net : Network
  pub connected : List Bool
  pub endnames : List (Option (List ℕ))

-- The loops of `connect`: the ends to, and from, the servers that are on the net.
unfoldable pub connect_outgoing : List Bool → List ℕ → Network → Option Network
connect_outgoing [] names rn = some rn
connect_outgoing (false ∷ connected) [] rn = connect_outgoing connected [] rn
connect_outgoing (true ∷ connected) [] rn = none
connect_outgoing (false ∷ connected) (name ∷ names) rn = connect_outgoing connected names rn
connect_outgoing (true ∷ connected) (name ∷ names) rn =
    connect_outgoing connected names (enable name true rn)

unfoldable pub connect_incoming : ℕ → List Bool → List (Option (List ℕ)) → Network → Option Network
connect_incoming i [] ends rn = some rn
connect_incoming i (on ∷ connected) [] rn = none
connect_incoming i (false ∷ connected) (names ∷ ends) rn = connect_incoming i connected ends rn
connect_incoming i (true ∷ connected) (names ∷ ends) rn = names >>= λ names.
    get_elem? names i >>= λ name. connect_incoming i connected ends (enable name true rn)

abbrev names_of : ℕ → List (Option (List ℕ)) → Option (List ℕ)
names_of i ends = elim (get_elem? ends i) [ none ↦ none | some names ↦ names ]

unfoldable pub connect : ℕ → Wired → Option Wired
connect i cfg = update_at i (λ old. true) cfg.connected >>= λ connected.
    names_of i cfg.endnames >>= λ names. connect_outgoing connected names cfg.net >>= λ rn.
    connect_incoming i connected cfg.endnames rn >>= λ rn.
    some (record cfg { net = rn; connected = connected })

-- The loops of `disconnect`: a server that has not started has no ends.
unfoldable pub disconnect_outgoing : List ℕ → Network → Network
disconnect_outgoing [] rn = rn
disconnect_outgoing (name ∷ names) rn = disconnect_outgoing names (enable name false rn)

unfoldable pub disconnect_incoming : ℕ → List (Option (List ℕ)) → Network → Option Network
disconnect_incoming i [] rn = some rn
disconnect_incoming i (none ∷ ends) rn = disconnect_incoming i ends rn
disconnect_incoming i (some names ∷ ends) rn =
    get_elem? names i >>= λ name. disconnect_incoming i ends (enable name false rn)

abbrev pub ends_of : ℕ → List (Option (List ℕ)) → List ℕ
ends_of i ends = elim (names_of i ends) [ none ↦ [] | some names ↦ names ]

unfoldable pub disconnect : ℕ → Wired → Option Wired
disconnect i cfg = update_at i (λ old. false) cfg.connected >>= λ connected.
    disconnect_incoming i cfg.endnames (disconnect_outgoing (ends_of i cfg.endnames) cfg.net)
    >>= λ rn. some (record cfg { net = rn; connected = connected })
