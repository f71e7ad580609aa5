-- ===== src/Backend/Random/Users.antt =====
-- The users that the user service starts with.
use cs426_spring2023_labs.Prelude.{
  ℕ, zero, suc, ◌+◌, ◌<◌, ◌≤◌, Bool, true, false, ◌&&◌, ◌||◌, List, [], ◌∷◌, ◌++◌, some, nat_eq,
  ◌=?◌, ◌==◌, ltb, leb, if◌then◌else◌, ◌≡◌, refl, sym, subst, arith, is_some, inl, inr, Bool-cases,
}
use cs426_spring2023_labs.Prelude.Map.{Map, lookup, insert, member, lookup-insert}
use cs426_spring2023_labs.Backend.Users.{UserInfo}
use cs426_spring2023_labs.Backend.Random.{
  RandomSource, user_id_offset, video_id_offset, random_coeffs, random_subscribed, random_video_ids,
  make_random_user, random_users, make_random_users, video_count, user_count,
}

-- Every id of a list is one of `count` ids from `offset` on.
abbrev pub InRange : ℕ → ℕ → List ℕ → Type 0
InRange offset count ids = (j : ℕ) → member j ids ≡ true → (offset ≤ j) × (j < offset + count)

member-snoc : (j x : ℕ) (xs : List ℕ) → member j (xs ++ (x ∷ [])) ≡ (member j xs || (x =? j))
unfolding member
member-snoc j x [] = ground arith
member-snoc j x (y ∷ xs) = ground (arith, member-snoc j x xs)

InRange-snoc :
    (offset count x : ℕ) (xs : List ℕ)
    → x < count
    → InRange offset count xs
    → InRange offset count (xs ++ ((x + offset) ∷ []))
InRange-snoc offset count x xs lt all j here =
    ground (arith, member-snoc j (x + offset) xs, nat_eq.beq_iff (x + offset) j, all j)

pub random_video_ids-InRange :
    (rng : RandomSource) (max_videos n k : ℕ) (ids : List ℕ)
    → 0 < max_videos
    → InRange video_id_offset max_videos ids
    → InRange video_id_offset max_videos (random_video_ids rng max_videos n k ids).0
unfolding random_video_ids
random_video_ids-InRange rng max_videos zero k ids some_videos all = all
random_video_ids-InRange rng max_videos (suc n) k ids some_videos all =
    random_video_ids-InRange rng max_videos n (k + 1)
      (ids ++ ((rng.intn k max_videos + video_id_offset) ∷ [])) some_videos
      (InRange-snoc video_id_offset max_videos (rng.intn k max_videos) ids
        (rng.below k max_videos some_videos) all)

-- Known users, and not the user itself.
abbrev Follows : ℕ → ℕ → List ℕ → Type 0
Follows user_id max_users ids = InRange user_id_offset max_users ids × (member user_id ids ≡ false)

random_subscribed-Follows :
    (rng : RandomSource) (user_id max_users n k : ℕ) (ids : List ℕ)
    → 0 < max_users
    → Follows user_id max_users ids
    → Follows user_id max_users (random_subscribed rng user_id max_users n k ids).0
unfolding random_subscribed
random_subscribed-Follows rng user_id max_users zero k ids some_users all = all
random_subscribed-Follows rng user_id max_users (suc n) k ids some_users all =
    let drawn : ℕ = rng.intn k max_users + user_id_offset in
    let P : Bool → Type 0 = λ b.
      Follows user_id max_users
        (random_subscribed rng user_id max_users n (k + 1)
          (if b then ids else ids ++ (drawn ∷ []))).0 in
    elim (Bool-cases (drawn == user_id)) [
      | inl itself ↦
          subst P (sym itself)
            (random_subscribed-Follows rng user_id max_users n (k + 1) ids some_users all)
      | inr other ↦ subst P (sym other) (
          random_subscribed-Follows rng user_id max_users n (k + 1) (ids ++ (drawn ∷ [])) some_users
            (
              InRange-snoc user_id_offset max_users (rng.intn k max_users) ids
                  (rng.below k max_users some_users) all.0,
              ground (arith, member-snoc user_id drawn ids, nat_eq.beq_iff drawn user_id, all.1),
            ))
    ]

-- A user who follows only others, all of them known, and likes only videos that there are.
pub record IsConnected (max_users max_videos : ℕ) (user : UserInfo) : Type 0 where
  pub follows : InRange user_id_offset max_users user.subscribed_to
  pub not_itself : member user.user_id user.subscribed_to ≡ false
  pub likes : InRange video_id_offset max_videos user.liked_videos

make_random_user-IsConnected :
    (rng : RandomSource) (user_id max_users max_videos k : ℕ)
    → 0 < max_users
    → 0 < max_videos
    → IsConnected max_users max_videos (make_random_user rng user_id max_users max_videos k).0
unfolding make_random_user member
make_random_user-IsConnected rng user_id max_users max_videos k some_users some_videos =
    let coeffs : Map ℕ ℕ × ℕ = random_coeffs rng (rng.intn k 10 + 10) (k + 1) [] in
    let n : ℕ = rng.intn coeffs.1 50 + 10 in
    let subscribed : List ℕ × ℕ = random_subscribed rng user_id max_users n (coeffs.1 + 1) [] in
    let (follows, not_itself) =
      random_subscribed-Follows rng user_id max_users n (coeffs.1 + 1) [] some_users
        (λ j here. absurd (ground arith), refl) in
    record {
      follows = follows;
      not_itself = not_itself;
      likes =
          random_video_ids-InRange rng max_videos (rng.intn subscribed.1 20 + 5) (subscribed.1 + 1)
            [] some_videos (λ j here. absurd (ground arith));
    }

random_users-ids :
    (rng : RandomSource) (max_users max_videos n user_id k j : ℕ) (users : Map ℕ UserInfo)
    → is_some (lookup j (random_users rng max_users max_videos n user_id k users))
      ≡ (is_some (lookup j users) || (leb user_id j && ltb j (user_id + n)))
unfolding random_users
random_users-ids rng max_users max_videos zero user_id k j users = ground arith
random_users-ids rng max_users max_videos (suc n) user_id k j users =
    let made : UserInfo × ℕ = make_random_user rng user_id max_users max_videos k in
    ground (
      arith,
      random_users-ids rng max_users max_videos n (user_id + 1) made.1 j
          (insert user_id made.0 users),
      lookup-insert j user_id made.0 users,
      nat_eq.beq_iff user_id j,
    )

abbrev AllConnected : ℕ → ℕ → Map ℕ UserInfo → Type 0
AllConnected max_users max_videos users =
    (j : ℕ) (user : UserInfo) → lookup j users ≡ some user → IsConnected max_users max_videos user

random_users-AllConnected :
    (rng : RandomSource) (max_users max_videos n user_id k : ℕ) (users : Map ℕ UserInfo)
    → 0 < max_users
    → 0 < max_videos
    → AllConnected max_users max_videos users
    → AllConnected max_users max_videos (random_users rng max_users max_videos n user_id k users)
unfolding random_users
random_users-AllConnected rng max_users max_videos zero user_id k users some_users some_videos all =
    all
random_users-AllConnected rng max_users max_videos (suc n) user_id k users some_users some_videos
      all =
    let made : UserInfo × ℕ = make_random_user rng user_id max_users max_videos k in
    random_users-AllConnected rng max_users max_videos n (user_id + 1) made.1
      (insert user_id made.0 users) some_users some_videos
      (λ j user there. elim (Bool-cases (user_id =? j)) [
        | inl new ↦
            let it : made.0 ≡ user = ground (arith, lookup-insert j user_id made.0 users) in
            subst (λ u. IsConnected max_users max_videos u) it
              (make_random_user-IsConnected rng user_id max_users max_videos k some_users
                some_videos)
        | inr old ↦ all j user (ground (arith, lookup-insert j user_id made.0 users))
      ])

-- The ids of the users are the consecutive ones from 200000 on, at least 5000 of them.
pub make_random_users-ids :
    (rng : RandomSource) (j : ℕ)
    → is_some (lookup j (make_random_users rng))
      ≡ (leb user_id_offset j && ltb j (user_id_offset + user_count rng))
unfolding make_random_users lookup
make_random_users-ids rng j =
    random_users-ids rng (user_count rng) (video_count rng) (user_count rng) user_id_offset 2 j []

pub make_random_users-IsConnected :
    (rng : RandomSource) (j : ℕ) (user : UserInfo)
    → lookup j (make_random_users rng) ≡ some user
    → IsConnected (user_count rng) (video_count rng) user
unfolding make_random_users lookup
make_random_users-IsConnected rng =
    random_users-AllConnected rng (user_count rng) (video_count rng) (user_count rng) user_id_offset
      2 [] (omega arith) (omega arith) (λ j user there. absurd (ground arith))
