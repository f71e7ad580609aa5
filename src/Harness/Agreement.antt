-- ===== src/Harness/Agreement.antt =====
-- That servers whose messages the harness accepts have applied the same entries, in order.
use cs426_spring2023_labs.Prelude.{
  ℕ, zero, suc, ◌≤◌, true, false, not, ◌&&◌, List, [], ◌∷◌, some, GoString, nat_eq, bytes_eq, ◌==◌,
  ltb, get_elem?, if◌then◌else◌, is_some, ◌≡◌, ◌⊎◌, sym, ◌∙◌, ap, subst, arith, inl, inr,
  Bool-cases, Option-cases,
}
use cs426_spring2023_labs.Prelude.Map.{lookup, insert, lookup-insert}
use cs426_spring2023_labs.Harness.{
  Log, ApplyMsg, Logs, disagrees, update_at, has_before, check_logs, applier_step, applier,
}
use cs426_spring2023_labs.Harness.Slots.{update_at-here, update_at-elsewhere}

disagrees-false :
    (index : ℕ) (v : GoString) (logs : List Log) (i : ℕ) (log : Log) (old : GoString)
    → disagrees index v logs ≡ false
    → get_elem? logs i ≡ some log
    → lookup index log ≡ some old
    → old ≡ v
unfolding disagrees
disagrees-false index v [] i log old same there held = absurd (ground arith)
disagrees-false index v (first ∷ logs) zero log old same there held =
    ground (arith, bytes_eq.beq_iff old v)
disagrees-false index v (first ∷ logs) (suc i) log old same there held =
    disagrees-false index v logs i log old (ground arith) there held

-- Two servers that have applied an entry of an index have applied the same one, and a server that
-- has applied an entry has applied the ones before it.
pub record Agreed (cfg : Logs) : Type 0 where
  pub agree :
      (i j : ℕ) (a b : Log) (index : ℕ) (v w : GoString)
      → get_elem? cfg.logs i ≡ some a
      → get_elem? cfg.logs j ≡ some b
      → lookup index a ≡ some v
      → lookup index b ≡ some w
      → v ≡ w
  pub in_order :
      (i : ℕ) (a : Log) (index : ℕ)
      → get_elem? cfg.logs i ≡ some a
      → is_some (lookup (suc (suc index)) a) ≡ true
      → is_some (lookup (suc index) a) ≡ true
  pub up_to_max :
      (i : ℕ) (a : Log) (index : ℕ)
      → get_elem? cfg.logs i ≡ some a
      → is_some (lookup index a) ≡ true
      → index ≤ cfg.max_index

-- An accepted message.
module _ (cfg : Logs) (h : Agreed cfg) (i : ℕ) (m : ApplyMsg) (log : Log) (logs : List Log)
    (at : get_elem? cfg.logs i ≡ some log)
    (stored : update_at i (λ log. insert m.command_index m.command log) cfg.logs ≡ some logs)
    (same : disagrees m.command_index m.command cfg.logs ≡ false) where
  -- A log afterwards is the old one, with the message's entry in it if it is server i's.
  after_message :
      (j : ℕ) (a : Log) (index : ℕ) (v : GoString)
      → get_elem? logs j ≡ some a
      → lookup index a ≡ some v
      → ((index ≡ m.command_index) × (v ≡ m.command))
        ⊎ ((b : Log) × (get_elem? cfg.logs j ≡ some b) × (lookup index b ≡ some v))
  after_message j a index v there held = elim (Bool-cases (i == j)) [
    | inl own ↦
        let is_j : i ≡ j = (nat_eq.beq_iff i j).0 own in
        let new : get_elem? logs j ≡ some (insert m.command_index m.command log) =
          subst (λ j. get_elem? logs j ≡ some (insert m.command_index m.command log)) is_j
            (update_at-here i (λ log. insert m.command_index m.command log) cfg.logs logs log stored
              at) in
        let is_a : a ≡ insert m.command_index m.command log = ground arith in
        let found : lookup index (insert m.command_index m.command log) ≡ some v =
          ap (λ a. lookup index a) (sym is_a) ∙ held in
        elim (Bool-cases (m.command_index == index)) [
          | inl hit ↦ inl (
              ground (
                arith,
                nat_eq.beq_iff m.command_index index,
                lookup-insert index m.command_index m.command log,
              ))
          | inr miss ↦ inr (
            log,
            subst (λ j. get_elem? cfg.logs j ≡ some log) is_j at,
            ground (arith, lookup-insert index m.command_index m.command log),
          )
        ]
    | inr other ↦ inr (
      a,
      sym (
            update_at-elsewhere i j (λ log. insert m.command_index m.command log) cfg.logs logs
              stored (λ is_j. absurd (ground (arith, nat_eq.beq_iff i j))))
          ∙ there,
      held,
    )
  ]

  after_agree :
      (j k : ℕ) (a b : Log) (index : ℕ) (v w : GoString)
      → get_elem? logs j ≡ some a
      → get_elem? logs k ≡ some b
      → lookup index a ≡ some v
      → lookup index b ≡ some w
      → v ≡ w
  after_agree j k a b index v w at_j at_k in_a in_b =
      let one = after_message j a index v at_j in_a in
      let two = after_message k b index w at_k in_b in
      elim one [
        | inl (here, new) ↦ elim two [
          | inl (also, newer) ↦ new ∙ sym newer
          | inr (b0, there, old) ↦
              new
              ∙ sym (
                  disagrees-false m.command_index m.command cfg.logs k b0 w same there
                    (ap (λ n. lookup n b0) (sym here) ∙ old))
        ]
        | inr (a0, there, old) ↦ elim two [
          | inl (here, new) ↦
              disagrees-false m.command_index m.command cfg.logs j a0 v same there
                (ap (λ n. lookup n a0) (sym here) ∙ old)
              ∙ sym new
          | inr (b0, there_too, old_too) ↦ h.agree j k a0 b0 index v w there there_too old old_too
        ]
      ]

  after_log :
      (j : ℕ) (a : Log)
      → get_elem? logs j ≡ some a
      → (get_elem? cfg.logs j ≡ some a) ⊎ (a ≡ insert m.command_index m.command log)
  after_log j a there = elim (Bool-cases (i == j)) [
    | inl own ↦
        let is_j : i ≡ j = (nat_eq.beq_iff i j).0 own in
        let new : get_elem? logs j ≡ some (insert m.command_index m.command log) =
          subst (λ j. get_elem? logs j ≡ some (insert m.command_index m.command log)) is_j
            (update_at-here i (λ log. insert m.command_index m.command log) cfg.logs logs log stored
              at) in
        inr (ground arith)
    | inr other ↦ inl (
        sym (
          update_at-elsewhere i j (λ log. insert m.command_index m.command log) cfg.logs logs stored
            (λ is_j. absurd (ground (arith, nat_eq.beq_iff i j))))
        ∙ there)
  ]

  after_in_order :
      (ltb 1 m.command_index && not (has_before m.command_index log)) ≡ false
      → (j : ℕ) (a : Log) (index : ℕ) → get_elem? logs j ≡ some a
      → is_some (lookup (suc (suc index)) a) ≡ true
      → is_some (lookup (suc index) a) ≡ true
  after_in_order follows j a index there held = elim (after_log j a there) [
    | inl old ↦ h.in_order j a index old held
    | inr new ↦
        let below : is_some (lookup (suc index) log) ≡ true =
          elim (Bool-cases (m.command_index == suc (suc index))) [
            | inl hit ↦
                subst
                  (λ n.
                    (ltb 1 n && not (has_before n log)) ≡ false
                    → is_some (lookup (suc index) log) ≡ true)
                  (sym ((nat_eq.beq_iff m.command_index (suc (suc index))).0 hit))
                  (λ f. ground arith) follows
            | inr miss ↦
                h.in_order i log index at
                  (ground (arith, lookup-insert (suc (suc index)) m.command_index m.command log))
          ] in
        ground (arith, lookup-insert (suc index) m.command_index m.command log)
  ]

  after_up_to_max :
      (j : ℕ) (a : Log) (index : ℕ)
      → get_elem? logs j ≡ some a
      → is_some (lookup index a) ≡ true
      → index ≤ (if ltb cfg.max_index m.command_index then m.command_index else cfg.max_index)
  after_up_to_max j a index there held = elim (Option-cases (lookup index a)) [
    | inl nothing ↦ absurd (ground arith)
    | inr (v, found) ↦ elim (after_message j a index v there found) [
      | inl (here, _) ↦ ground arith
      | inr (b, old, kept) ↦
          let low : index ≤ cfg.max_index = h.up_to_max j b index old (ground arith) in ground arith
    ]
  ]

applier_step-Agreed :
    (i : ℕ) (m : ApplyMsg) (cfg cfg' : Logs)
    → Agreed cfg
    → applier_step i m cfg ≡ some cfg'
    → Agreed cfg'
unfolding applier_step check_logs
applier_step-Agreed i m cfg cfg' h e = elim (Bool-cases m.command_valid) [
  | inr other ↦ subst (λ cfg. Agreed cfg) (ground arith) h
  | inl valid ↦ elim (Option-cases (get_elem? cfg.logs i)) [
    | inl out ↦ absurd (ground arith)
    | inr (log, at) ↦
        elim (Option-cases (update_at i (λ log. insert m.command_index m.command log) cfg.logs)) [
          | inl out ↦ absurd (ground arith)
          | inr (logs, stored) ↦ elim (Bool-cases (disagrees m.command_index m.command cfg.logs)) [
            | inl wrong ↦ absurd (ground arith)
            | inr same ↦
                elim (Bool-cases (ltb 1 m.command_index && not (has_before m.command_index log))) [
                  | inl skips ↦ absurd (ground arith)
                  | inr follows ↦
                      let is_next : cfg' ≡ record {
                        logs = logs;
                        max_index =
                            if ltb cfg.max_index m.command_index
                            then m.command_index
                            else cfg.max_index;
                      } =
                        ground arith in
                      subst (λ cfg. Agreed cfg) (sym is_next)
                        (record {
                          agree = after_agree cfg h i m log logs at stored same;
                          in_order = after_in_order cfg h i m log logs at stored same follows;
                          up_to_max = after_up_to_max cfg h i m log logs at stored same;
                        })
                ]
          ]
        ]
  ]
]

-- As long as the harness accepts every message, whatever the order of the servers' messages, any two
-- servers that have applied an entry of an index have applied the same one, a server that has
-- applied an entry after the first has applied the one before it, and no index is above the
-- greatest one that the harness has noted, if this was so at the start.
pub applier-Agreed :
    (ms : List (ℕ × ApplyMsg)) (cfg cfg' : Logs)
    → Agreed cfg
    → applier ms cfg ≡ some cfg'
    → Agreed cfg'
unfolding applier
applier-Agreed [] cfg cfg' h e = subst (λ cfg. Agreed cfg) (ground arith) h
applier-Agreed ((i, m) ∷ ms) cfg cfg' h e = elim (Option-cases (applier_step i m cfg)) [
  | inl fatal ↦ absurd (ground arith)
  | inr (next, accepted) ↦
      applier-Agreed ms next cfg' (applier_step-Agreed i m cfg next h accepted) (ground arith)
]
