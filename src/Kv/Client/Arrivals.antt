-- ===== src/Kv/Client/Arrivals.antt =====
-- What the goroutines of a Set or a Delete send, and what the loop that receives makes of it.
use cs426_spring2023_labs.Prelude.{
  ℕ, ◌≡◌, =?_refl, ap, refl, sym, ◌∙◌, true, some, GoString, bytes_eq, arith, inl, inr, ◌⊎◌,
  Bool-cases, ◌=?◌, ◌↔◌, zero, suc, List, [], ◌∷◌, length,
}
use cs426_spring2023_labs.Prelude.Map.{member}
use cs426_spring2023_labs.Rpc.{GoError, Reply, ok, err}
use cs426_spring2023_labs.Kv.Client.{Order, collect, start_all}

Unit_eq : (u : Unit {0}) → u ≡ tt
Unit_eq tt = refl

-- Every value that is sent on the channel is received once: the number of the values and which they
-- are is enough.
abbrev pub Sent : Reply (Unit {0}) → List (Reply (Unit {0})) → Type 0
Sent r [] = ⊥
Sent r (x ∷ xs) = (r ≡ x) ⊎ Sent r xs

abbrev pub IsDelivery : Order → Type 0
IsDelivery order =
    (sent : List (Reply (Unit {0})))
    → (length (order sent) ≡ length sent)
      × ((r : Reply (Unit {0})) → Sent r (order sent) ↔ Sent r sent)

-- Nothing but nil was received, or an error of those received is the result.
abbrev pub LastError : List (Reply (Unit {0})) → Reply (Unit {0}) → Reply (Unit {0}) → Type 0
LastError received last r =
    (((x : Reply (Unit {0})) → Sent x received → x ≡ ok tt) × (r ≡ last))
    ⊎ ((e : GoError) × Sent (err e) received × (r ≡ err e))

pub collect-LastError :
    (n : ℕ) (last : Reply (Unit {0})) (received : List (Reply (Unit {0})))
    → length received ≡ n
    → (r : Reply (Unit {0})) × (collect n last received ≡ some r) × LastError received last r
unfolding collect
collect-LastError zero last [] len = (last, refl, inl (λ x h. absurd h, refl))
collect-LastError zero last (x ∷ xs) len = absurd (omega arith)
collect-LastError (suc n) last [] len = absurd (omega arith)
collect-LastError (suc n) last (ok u ∷ xs) len =
    let (r, done, what) = collect-LastError n last xs (omega arith) in
    (
      r,
      done,
      elim what [
        | inl (all, same) ↦
            inl (λ x h. elim h [ inl e ↦ e ∙ ap ok (Unit_eq u) | inr t ↦ all x t ], same)
        | inr (e, among, same) ↦ inr (e, inr among, same)
      ],
    )
collect-LastError (suc n) last (err e ∷ xs) len =
    let (r, done, what) = collect-LastError n (err e) xs (omega arith) in
    (
      r,
      done,
      elim what [
        | inl (all, same) ↦ inr (e, inl refl, same)
        | inr (x, among, same) ↦ inr (x, inr among, same)
      ],
    )

pub length-start_all :
    (call : GoString → Reply (Unit {0})) (nodes : List GoString)
    → length (start_all call nodes) ≡ length nodes
unfolding start_all
length-start_all call [] = refl
length-start_all call (n ∷ nodes) = ap (λ k. suc k) (length-start_all call nodes)

-- A node's answer is sent.
pub start_all-Sent :
    (call : GoString → Reply (Unit {0})) (node : GoString) (nodes : List GoString)
    → member node nodes ≡ true
    → Sent (call node) (start_all call nodes)
unfolding start_all member
start_all-Sent call node [] m = absurd (ground arith)
start_all-Sent call node (n ∷ nodes) m = elim (Bool-cases (n =? node)) [
  | inl same ↦ inl (ap call (sym ((bytes_eq.beq_iff n node).0 same)))
  | inr other ↦ inr (start_all-Sent call node nodes (ground arith))
]

-- What is sent is a node's answer.
pub Sent-start_all :
    (call : GoString → Reply (Unit {0})) (r : Reply (Unit {0})) (nodes : List GoString)
    → Sent r (start_all call nodes)
    → (node : GoString) × (member node nodes ≡ true) × (call node ≡ r)
unfolding start_all member
Sent-start_all call r [] h = absurd h
Sent-start_all call r (n ∷ nodes) (inl e) = (n, ground (arith, =?_refl n), sym e)
Sent-start_all call r (n ∷ nodes) (inr h) =
    let (node, m, e) = Sent-start_all call r nodes h in (node, ground arith, e)
