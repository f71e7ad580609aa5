-- ===== src/Backend/Exact.antt =====
-- When the services answer with the infos asked for.
use cs426_spring2023_labs.Prelude.{
  ℕ, ◌≤◌, false, List, [], ◌∷◌, ◌++◌, some, nat_eq, length, ◌≡◌, ◌↔◌, subst, refl, sym, ◌∙◌, ap,
  arith, inl, inr, Bool-cases, Option-cases,
}
use cs426_spring2023_labs.Prelude.Map.{Map, lookup, NoRepeats}
use cs426_spring2023_labs.Rpc.{ok}
use cs426_spring2023_labs.Backend.Injection.{Draws, maybe_inject}
use cs426_spring2023_labs.Backend.Dedup.{deduplicate_ids-same}
use cs426_spring2023_labs.Backend.Users.{UserInfo, UserServiceServer, find_users, get_user}
use cs426_spring2023_labs.Backend.Videos.{VideoInfo, VideoServiceServer, find_videos, get_video}

-- The infos are those of the ids, in the order of the ids.
abbrev pub Finds : {A : Type 0} → Map ℕ A → List ℕ → List A → Type 0
Finds db [] [] = Unit
Finds db [] (info ∷ infos) = ⊥
Finds db (id ∷ ids) [] = ⊥
Finds db (id ∷ ids) (info ∷ infos) = (lookup id db ≡ some info) × Finds db ids infos

append-nil : {A : Type 0} (xs : List A) → xs ++ [] ≡ xs
append-nil [] = refl
append-nil (x ∷ xs) = ap (λ ws. x ∷ ws) (append-nil xs)

append-snoc :
    {A : Type 0} (xs : List A) (x : A) (ys : List A) → (xs ++ (x ∷ [])) ++ ys ≡ xs ++ (x ∷ ys)
append-snoc [] x ys = refl
append-snoc (w ∷ xs) x ys = ap (λ ws. w ∷ ws) (append-snoc xs x ys)

find_videos-Finds :
    (db : Map ℕ VideoInfo) (ids : List ℕ) (acc infos : List VideoInfo)
    → find_videos db ids acc ≡ ok infos
    → (more : List VideoInfo) × (infos ≡ acc ++ more) × Finds db ids more
unfolding find_videos
find_videos-Finds db [] acc infos e = ([], ground (arith, append-nil acc), tt)
find_videos-Finds db (id ∷ ids) acc infos e = elim (Option-cases (lookup id db)) [
  | inl none_there ↦ absurd (ground arith)
  | inr (info, there) ↦
      let (more, all, found) = find_videos-Finds db ids (acc ++ (info ∷ [])) infos (ground arith) in
      (info ∷ more, all ∙ append-snoc acc info more, (there, found))
]

Finds-find_videos :
    (db : Map ℕ VideoInfo) (ids : List ℕ) (acc more : List VideoInfo)
    → Finds db ids more
    → find_videos db ids acc ≡ ok (acc ++ more)
unfolding find_videos
Finds-find_videos db [] acc [] h = ground (arith, append-nil acc)
Finds-find_videos db [] acc (info ∷ more) h = absurd h
Finds-find_videos db (id ∷ ids) acc [] h = absurd h
Finds-find_videos db (id ∷ ids) acc (info ∷ more) h =
    ground (
      arith,
      h.0,
      Finds-find_videos db ids (acc ++ (info ∷ [])) more h.1,
      append-snoc acc info more,
    )

find_users-Finds :
    (db : Map ℕ UserInfo) (ids : List ℕ) (acc infos : List UserInfo)
    → find_users db ids acc ≡ ok infos
    → (more : List UserInfo) × (infos ≡ acc ++ more) × Finds db ids more
unfolding find_users
find_users-Finds db [] acc infos e = ([], ground (arith, append-nil acc), tt)
find_users-Finds db (id ∷ ids) acc infos e = elim (Option-cases (lookup id db)) [
  | inl none_there ↦ absurd (ground arith)
  | inr (info, there) ↦
      let (more, all, found) = find_users-Finds db ids (acc ++ (info ∷ [])) infos (ground arith) in
      (info ∷ more, all ∙ append-snoc acc info more, (there, found))
]

Finds-find_users :
    (db : Map ℕ UserInfo) (ids : List ℕ) (acc more : List UserInfo)
    → Finds db ids more
    → find_users db ids acc ≡ ok (acc ++ more)
unfolding find_users
Finds-find_users db [] acc [] h = ground (arith, append-nil acc)
Finds-find_users db [] acc (info ∷ more) h = absurd h
Finds-find_users db (id ∷ ids) acc [] h = absurd h
Finds-find_users db (id ∷ ids) acc (info ∷ more) h =
    ground
      (arith, h.0, Finds-find_users db ids (acc ++ (info ∷ [])) more h.1, append-snoc acc info more)

-- GetVideo succeeds with some infos exactly if no failure is injected, the ids are not empty, not
-- more than a batch and without repeats, and the infos are those of the ids, in order.
pub get_video_exact :
    (draws : Draws) (db : VideoServiceServer) (ids : List ℕ) (infos : List VideoInfo)
    → (get_video draws db ids ≡ some (ok infos)) ↔ (
        (maybe_inject draws db.fi ≡ some false)
        × (1 ≤ length ids)
        × (length ids ≤ db.options.max_batch_size)
        × NoRepeats ids
        × Finds db.videos ids infos)
unfolding get_video
get_video_exact draws db ids infos = (
  λ e. elim (Option-cases (maybe_inject draws db.fi)) [
    | inl never ↦ absurd (ground arith)
    | inr (fails, came) ↦ elim (Bool-cases fails) [
      | inl injected ↦ absurd (ground arith)
      | inr passes ↦
          let found : find_videos db.videos ids [] ≡ ok infos = ground arith in
          let (more, all, h) = find_videos-Finds db.videos ids [] infos found in
          (
            ground arith,
            ground arith,
            ground arith,
            (deduplicate_ids-same ids).0 (ground arith),
            subst (λ infos. Finds db.videos ids infos) (sym all) h,
          )
    ]
  ],
  λ (passes, some_ids, few, once, found). ground (
    arith,
    passes,
    (deduplicate_ids-same ids).1 once,
    Finds-find_videos db.videos ids [] infos found,
  ),
)

-- GetUser succeeds with some infos exactly if no failure is injected, the ids are not empty and not
-- more than a batch, and the infos are those of the ids, in order.
pub get_user_exact :
    (draws : Draws) (db : UserServiceServer) (ids : List ℕ) (infos : List UserInfo)
    → (get_user draws db ids ≡ some (ok infos)) ↔ (
        (maybe_inject draws db.fi ≡ some false)
        × (1 ≤ length ids)
        × (length ids ≤ db.options.max_batch_size)
        × Finds db.users ids infos)
unfolding get_user
get_user_exact draws db ids infos = (
  λ e. elim (Option-cases (maybe_inject draws db.fi)) [
    | inl never ↦ absurd (ground arith)
    | inr (fails, came) ↦ elim (Bool-cases fails) [
      | inl injected ↦ absurd (ground arith)
      | inr passes ↦
          let found : find_users db.users ids [] ≡ ok infos = ground arith in
          let (more, all, h) = find_users-Finds db.users ids [] infos found in
          (
            ground arith,
            ground arith,
            ground arith,
            subst (λ infos. Finds db.users ids infos) (sym all) h,
          )
    ]
  ],
  λ (passes, some_ids, few, found).
      ground (arith, passes, Finds-find_users db.users ids [] infos found),
)
