-- ===== src/Harness/Leaders.antt =====
-- What `checkOneLeader` finds.
use cs426_spring2023_labs.Prelude.{
  ℕ, zero, suc, ◌+◌, ◌≤◌, ◌<◌, true, false, ◌&&◌, List, [], ◌∷◌, ◌++◌, Option, none, some, nat_eq,
  ◌=?◌, ltb, get_elem?, length, if◌then◌else◌, is_some, ◌≡◌, refl, sym, ◌∙◌, ap, arith, ◌⊎◌, inl,
  inr, Bool-cases, Option-cases,
}
use cs426_spring2023_labs.Prelude.Map.{Map, lookup, insert, lookup-insert}
use cs426_spring2023_labs.Harness.{
  Answer, not_asked, state, leaders_of, collect_leaders, last_term_with_leader,
  check_one_leader_round, check_one_leader,
}

-- The servers that take themselves for the leader of a term, from server number i on.
unfoldable pub claims : ℕ → ℕ → List Answer → List ℕ
claims term i [] = []
claims term i (not_asked ∷ answers) = claims term (i + 1) answers
claims term i (state t is_leader ∷ answers) =
    let rest = claims term (i + 1) answers in if is_leader && (t =? term) then i ∷ rest else rest

append_assoc : (xs ys zs : List ℕ) → (xs ++ ys) ++ zs ≡ xs ++ (ys ++ zs)
append_assoc [] ys zs = refl
append_assoc (x ∷ xs) ys zs = ap (λ ws. x ∷ ws) (append_assoc xs ys zs)

append-nil : (xs : List ℕ) → xs ++ [] ≡ xs
append-nil [] = refl
append-nil (x ∷ xs) = ap (λ ws. x ∷ ws) (append-nil xs)

leaders_of-insert :
    (term t : ℕ) (is : List ℕ) (leaders : Map ℕ (List ℕ))
    → leaders_of term (insert t is leaders) ≡ (if t =? term then is else leaders_of term leaders)
unfolding leaders_of
leaders_of-insert term t is leaders = elim (Bool-cases (t =? term)) [
  | inl hit ↦ ground (arith, lookup-insert term t is leaders)
  | inr miss ↦ ground (arith, lookup-insert term t is leaders)
]

collect_leaders-claims :
    (term i : ℕ) (answers : List Answer) (leaders : Map ℕ (List ℕ))
    → leaders_of term (collect_leaders i answers leaders)
      ≡ leaders_of term leaders ++ claims term i answers
unfolding collect_leaders claims
collect_leaders-claims term i [] leaders = sym (append-nil (leaders_of term leaders))
collect_leaders-claims term i (not_asked ∷ answers) leaders =
    collect_leaders-claims term (i + 1) answers leaders
collect_leaders-claims term i (state t false ∷ answers) leaders =
    collect_leaders-claims term (i + 1) answers leaders
collect_leaders-claims term i (state t true ∷ answers) leaders =
    let rest : List ℕ = claims term (i + 1) answers in
    let more : Map ℕ (List ℕ) = insert t (leaders_of t leaders ++ (i ∷ [])) leaders in
    elim (Bool-cases (t =? term)) [
      | inl hit ↦
          let same : t ≡ term = (nat_eq.beq_iff t term).0 hit in
          ground (
            arith,
            collect_leaders-claims term (i + 1) answers more,
            leaders_of-insert term t (leaders_of t leaders ++ (i ∷ [])) leaders,
            append_assoc (leaders_of term leaders) (i ∷ []) rest,
            hit,
            same,
          )
      | inr miss ↦ ground (
        arith,
        collect_leaders-claims term (i + 1) answers more,
        leaders_of-insert term t (leaders_of t leaders ++ (i ∷ [])) leaders,
        miss,
      )
    ]

-- A term that the loop has met, or started with, is at most the one it ends with.
last-upper :
    (last : Option ℕ) (ls : Map ℕ (List ℕ)) (r : Option ℕ) (t : ℕ)
    → last_term_with_leader last ls ≡ some r
    → (last ≡ some t) ⊎ (is_some (lookup t ls) ≡ true)
    → (term : ℕ) × (r ≡ some term) × (t ≤ term)
unfolding last_term_with_leader lookup
last-upper last [] r t e (inl start) = (t, ground arith, omega arith)
last-upper last [] r t e (inr met) = absurd (ground arith)
last-upper none ((key, is) ∷ ls) r t e (inl start) = absurd (ground arith)
last-upper none ((key, is) ∷ ls) r t e (inr met) = elim (Bool-cases (key =? t)) [
  | inl hit ↦
      let same : key ≡ t = (nat_eq.beq_iff key t).0 hit in
      last-upper (some key) ls r t (ground arith) (inl (ap some same))
  | inr miss ↦ last-upper (some key) ls r t (ground arith) (inr (ground arith))
]
last-upper (some t0) ((key, is) ∷ ls) r t e start =
    let next : ℕ = if ltb t0 key then key else t0 in
    let on : last_term_with_leader (some next) ls ≡ some r = ground arith in
    let (term, is_r, high) = last-upper (some next) ls r next on (inl refl) in
    elim start [
      | inl from ↦ (term, is_r, ground arith)
      | inr met ↦ elim (Bool-cases (key =? t)) [
        | inl hit ↦ (term, is_r, ground (arith, nat_eq.beq_iff key t))
        | inr miss ↦ last-upper (some next) ls r t on (inr (ground arith))
      ]
    ]

last-single :
    (last : Option ℕ) (ls : Map ℕ (List ℕ)) (r : Option ℕ) (t : ℕ) (is : List ℕ)
    → last_term_with_leader last ls ≡ some r
    → lookup t ls ≡ some is
    → length is ≤ 1
unfolding last_term_with_leader lookup
last-single last [] r t is e there = absurd (ground arith)
last-single last ((key, first) ∷ ls) r t is e there = elim (Bool-cases (ltb 1 (length first))) [
  | inl two ↦ absurd (ground arith)
  | inr few ↦ elim (Bool-cases (key =? t)) [
    | inl hit ↦ ground arith
    | inr miss ↦
        last-single (some (elim last [ none ↦ key | some t0 ↦ if ltb t0 key then key else t0 ])) ls
          r t is (ground arith) (ground arith)
  ]
]

leaders-claims :
    (answers : List Answer) (t : ℕ)
    → leaders_of t (collect_leaders 0 answers []) ≡ claims t 0 answers
unfolding leaders_of lookup
leaders-claims answers t = collect_leaders-claims t 0 answers []

-- Exactly server i claims the term, no server claims a later one, and no term has two claims.
pub record IsLeader (answers : List Answer) (i term : ℕ) : Type 0 where
  pub alone : claims term 0 answers ≡ i ∷ []
  pub latest : (t j : ℕ) (js : List ℕ) → claims t 0 answers ≡ j ∷ js → (t ≤ term) × (js ≡ [])

-- A term that is claimed is one of the terms of the map, and has one claim.
claimed-last :
    (answers : List Answer) (r : Option ℕ) (t j : ℕ) (js : List ℕ)
    → last_term_with_leader none (collect_leaders 0 answers []) ≡ some r
    → claims t 0 answers ≡ j ∷ js
    → (js ≡ []) × ((term : ℕ) × (r ≡ some term) × (t ≤ term))
unfolding leaders_of lookup
claimed-last answers r t j js e claimed =
    let leaders : Map ℕ (List ℕ) = collect_leaders 0 answers [] in
    let all : leaders_of t leaders ≡ claims t 0 answers = collect_leaders-claims t 0 answers [] in
    elim (Option-cases (lookup t leaders)) [
      | inl nothing ↦ absurd (ground arith)
      | inr (is, there) ↦
          let is_all : is ≡ j ∷ js = ground arith in
          let few : length is ≤ 1 = last-single none leaders r t is e there in
          (single is j js is_all few, last-upper none leaders r t e (inr (ground arith)))
    ]
  where
    single : (is : List ℕ) (j : ℕ) (js : List ℕ) → is ≡ j ∷ js → length is ≤ 1 → js ≡ []
    single [] j js same few = absurd (ground arith)
    single (i ∷ []) j js same few = ground arith
    single (i ∷ k ∷ is) j js same few = absurd (omega arith)

-- `checkOneLeader` returns a server after a round of answers in which this server alone claims to
-- lead the last term that any server claims, and no term has two claims; in the rounds before no
-- server claims to lead.
pub check_one_leader_finds :
    (rounds : List (List Answer)) (i : ℕ)
    → check_one_leader rounds ≡ some i
    → (n : ℕ) × (answers : List Answer) × (term : ℕ) × (get_elem? rounds n ≡ some answers)
      × IsLeader answers i term
      × ((k : ℕ) (before : List Answer)
          → k < n
          → get_elem? rounds k ≡ some before
          → (t : ℕ) → claims t 0 before ≡ [])
unfolding check_one_leader check_one_leader_round
check_one_leader_finds [] i e = absurd (ground arith)
check_one_leader_finds (answers ∷ rounds) i e =
    let leaders : Map ℕ (List ℕ) = collect_leaders 0 answers [] in
    elim (Option-cases (last_term_with_leader none leaders)) [
      | inl fatal ↦ absurd (ground arith)
      | inr (none, found) ↦
          let (n, after, term, at, leads, quiet) = check_one_leader_finds rounds i (ground arith) in
          (
            suc n,
            after,
            term,
            at,
            leads,
            λ k before lt there t.
                earlier answers rounds n k before lt there quiet
                  (λ t. no_claim (claims t 0 answers) (λ j js claimed.
                    let (one, (term, is_none, le)) =
                      claimed-last answers none t j js found claimed in
                    absurd (ground arith)))
                  t,
          )
      | inr (some term, found) ↦ elim (Option-cases (get_elem? (leaders_of term leaders) 0)) [
        | inl nobody ↦ absurd (ground arith)
        | inr (j, first) ↦
            let all : leaders_of term leaders ≡ claims term 0 answers =
              leaders-claims answers term in
            let (js, is_js) = headed (leaders_of term leaders) j first in
            let is_i : j ≡ i = ground arith in
            let (alone, _) = claimed-last answers (some term) term j js found (sym all ∙ is_js) in
            (
              0,
              answers,
              term,
              refl,
              record {
                alone = ground arith;
                latest = λ t k ks claimed.
                    let (one, (last, same, le)) =
                      claimed-last answers (some term) t k ks found claimed in
                    (ground arith, one);
              },
              λ k before lt there t. absurd (omega arith),
            )
      ]
    ]
  where
    headed : (is : List ℕ) (j : ℕ) → get_elem? is 0 ≡ some j → (js : List ℕ) × (is ≡ j ∷ js)
    headed [] j there = absurd (ground arith)
    headed (i ∷ is) j there = (is, ground arith)

    no_claim : (is : List ℕ) → ((j : ℕ) (js : List ℕ) → ¬ (is ≡ j ∷ js)) → is ≡ []
    no_claim [] h = refl
    no_claim (i ∷ is) h = absurd (h i is refl)

    earlier :
        (answers : List Answer) (rounds : List (List Answer)) (n k : ℕ) (before : List Answer)
        → k < suc n
        → get_elem? (answers ∷ rounds) k ≡ some before
        → ((k : ℕ) (before : List Answer)
            → k < n
            → get_elem? rounds k ≡ some before
            → (t : ℕ) → claims t 0 before ≡ [])
        → ((t : ℕ) → claims t 0 answers ≡ [])
        → (t : ℕ) → claims t 0 before ≡ []
    earlier answers rounds n zero before lt there quiet now t =
        let same : answers ≡ before = ground arith in ap (λ a. claims t 0 a) (sym same) ∙ now t
    earlier answers rounds n (suc k) before lt there quiet now t =
        quiet k before (omega arith) there t
