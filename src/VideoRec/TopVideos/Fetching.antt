-- ===== src/VideoRec/TopVideos/Fetching.antt =====
-- The recommender's batches are ones that the video service takes.
use cs426_spring2023_labs.Prelude.{
  ℕ, zero, suc, ◌+◌, ◌-◌, ◌≤◌, ◌<◌, true, false, List, [], ◌∷◌, ◌++◌, none, some, ltb, length, take,
  drop, nat_eq, ◌≡◌, refl, ◌∙◌, ap, arith, inl, inr, Bool-cases, length-drop, length-take,
}
use Prim.Native.Nat.{min}
use cs426_spring2023_labs.Prelude.Map.{Map, member, NoRepeats}
use cs426_spring2023_labs.Rpc.{ok}
use cs426_spring2023_labs.Backend.Injection.{Draws, maybe_inject}
use cs426_spring2023_labs.Backend.Videos.{VideoInfo, VideoServiceServer, get_video}
use cs426_spring2023_labs.Backend.Exact.{Finds, get_video_exact}
use cs426_spring2023_labs.VideoRec.{Call, Clients, VideoRecServiceServer}
use cs426_spring2023_labs.VideoRec.Batches.{slice, batch, fetch_batches}
use cs426_spring2023_labs.VideoRec.Batches.Complete.{
  take-drop-min, drop-drop, drop-past, append_assoc, append-nil,
}
use cs426_spring2023_labs.VideoRec.TopVideos.{fetch_videos}

Finds-length :
    {A : Type 0} (db : Map ℕ A) (ids : List ℕ) (infos : List A)
    → Finds db ids infos
    → length infos ≡ length ids
Finds-length db [] [] h = refl
Finds-length db [] (i ∷ infos) h = absurd h
Finds-length db (id ∷ ids) [] h = absurd h
Finds-length db (id ∷ ids) (i ∷ infos) h = ap (λ n. suc n) (Finds-length db ids infos h.1)

Finds-drop :
    {A : Type 0} (n : ℕ) (db : Map ℕ A) (ids : List ℕ) (infos : List A)
    → Finds db ids infos
    → Finds db (drop n ids) (drop n infos)
Finds-drop zero db ids infos h = h
Finds-drop (suc n) db [] [] h = tt
Finds-drop (suc n) db [] (i ∷ infos) h = absurd h
Finds-drop (suc n) db (id ∷ ids) [] h = absurd h
Finds-drop (suc n) db (id ∷ ids) (i ∷ infos) h = Finds-drop n db ids infos h.1

Finds-take :
    {A : Type 0} (n : ℕ) (db : Map ℕ A) (ids : List ℕ) (infos : List A)
    → Finds db ids infos
    → Finds db (take n ids) (take n infos)
Finds-take zero db ids infos h = tt
Finds-take (suc n) db [] [] h = tt
Finds-take (suc n) db [] (i ∷ infos) h = absurd h
Finds-take (suc n) db (id ∷ ids) [] h = absurd h
Finds-take (suc n) db (id ∷ ids) (i ∷ infos) h = (h.0, Finds-take n db ids infos h.1)

member-take : (j n : ℕ) (ids : List ℕ) → member j ids ≡ false → member j (take n ids) ≡ false
unfolding member
member-take j zero ids h = refl
member-take j (suc n) [] h = refl
member-take j (suc n) (id ∷ ids) h = ground (arith, member-take j n ids)

NoRepeats-take : (n : ℕ) (ids : List ℕ) → NoRepeats ids → NoRepeats (take n ids)
NoRepeats-take zero ids h = tt
NoRepeats-take (suc n) [] h = tt
NoRepeats-take (suc n) (id ∷ ids) h = (member-take id n ids h.0, NoRepeats-take n ids h.1)

NoRepeats-drop : (n : ℕ) (ids : List ℕ) → NoRepeats ids → NoRepeats (drop n ids)
NoRepeats-drop zero ids h = h
NoRepeats-drop (suc n) [] h = tt
NoRepeats-drop (suc n) (id ∷ ids) h = NoRepeats-drop n ids h.1

-- A batch of the loop, answered by the service.
get_batch :
    (draws : Draws) (db : VideoServiceServer) (b lo : ℕ) (ids : List ℕ) (infos : List VideoInfo)
    → maybe_inject draws db.fi ≡ some false
    → 1 ≤ b
    → b ≤ db.options.max_batch_size
    → lo < length ids
    → NoRepeats ids
    → Finds db.videos ids infos
    → get_video draws db (batch b lo ids) ≡ some (ok (slice lo (min (lo + b) (length ids)) infos))
get_batch draws db b lo ids infos passes some_ids few more once found =
    let n : ℕ = min (lo + b) (length ids) - lo in
    let len : length (batch b lo ids) ≡ min n (length ids - lo) =
      length-take n (drop lo ids) ∙ ap (λ m. min n m) (length-drop lo ids) in
    (get_video_exact draws db (batch b lo ids) (take n (drop lo infos))).1 (
      passes,
      omega arith,
      omega arith,
      NoRepeats-take n (drop lo ids) (NoRepeats-drop lo ids once),
      Finds-take n db.videos (drop lo ids) (drop lo infos)
          (Finds-drop lo db.videos ids infos found),
    )

module _ (call : Call VideoInfo) (b : ℕ) (ids : List ℕ) (infos : List VideoInfo) where
  all_batches :
      (fuel k offset : ℕ) (acc : List VideoInfo)
      → 1 ≤ b
      → length infos ≡ length ids
      → ((k lo : ℕ)
          → lo < length ids
          → call k (batch b lo ids) ≡ some (ok (slice lo (min (lo + b) (length ids)) infos)))
      → length ids - offset < fuel
      → fetch_batches call b ids fuel k offset acc ≡ some (acc ++ drop offset infos, none)
  unfolding fetch_batches
  all_batches zero k offset acc some_ids len answers h = absurd (omega arith)
  all_batches (suc fuel) k offset acc some_ids len answers h =
      elim (Bool-cases (ltb offset (length ids))) [
        | inr done ↦ ground (arith, drop-past offset infos (ground arith), append-nil acc)
        | inl more ↦
            let part : List VideoInfo = slice offset (min (offset + b) (length ids)) infos in
            let joined : (acc ++ part) ++ drop (offset + b) infos ≡ acc ++ drop offset infos =
              append_assoc acc part (drop (offset + b) infos)
              ∙ ap (λ rest. acc ++ (part ++ rest)) (drop-drop offset b infos)
              ∙ ap (λ rest. acc ++ rest)
                  (take-drop-min (min (offset + b) (length ids) - offset) b (drop offset infos)
                    (ground (arith, length-drop offset infos))) in
            ground (
              arith,
              answers k offset (ground arith),
              all_batches fuel (k + 1) (offset + b) (acc ++ part) some_ids len answers
                  (ground arith),
              joined,
            )
      ]

-- With the service behind the mock client taking batches of the recommender's size and injecting no
-- failure, distinct ids that it has are all fetched, in their order.
pub fetch_videos-get_video :
    (c : Clients) (draws : ℕ → Draws) (db : VideoServiceServer) (s : VideoRecServiceServer)
    (ids : List ℕ) (infos : List VideoInfo)
    → s.mock_video_flag ≡ true
    → c.mock_get_video ≡ (λ k some_ids. get_video (draws k) db some_ids)
    → ((k : ℕ) → maybe_inject (draws k) db.fi ≡ some false)
    → 1 ≤ s.options.max_batch_size
    → s.options.max_batch_size ≤ db.options.max_batch_size
    → NoRepeats ids
    → Finds db.videos ids infos
    → fetch_videos c s ids ≡ some (s, ok infos)
unfolding fetch_videos
fetch_videos-get_video c draws db s ids infos mock service passes some_ids few once found =
    let b : ℕ = s.options.max_batch_size in
    ground (
      arith,
      all_batches c.mock_get_video b ids infos (suc (length ids)) 0 0 [] some_ids
          (Finds-length db.videos ids infos found)
          (λ k lo more.
            ap (λ (call : Call VideoInfo). call k (batch b lo ids)) service
            ∙ get_batch (draws k) db b lo ids infos (passes k) some_ids few more once found)
          (omega arith),
    )
