-- ===== src/Kv/ShardMap/Listeners/Delivery.antt =====
-- Who is notified by `Update`, and that it never sends on a closed channel.
use cs426_spring2023_labs.Prelude.{
  ℕ, ◌<◌, ◌≡◌, refl, subst, ◌==◌, true, false, List, [], ◌∷◌, none, some, nat_eq, =?_refl, arith,
  inl, inr, Bool-cases, Option-cases,
}
use cs426_spring2023_labs.Prelude.Map.{
  Map, lookup, delete, member, IsDistinct, lookup-insert, lookup-delete, insert-IsDistinct,
  delete-IsDistinct,
}
use cs426_spring2023_labs.Kv.ShardMap.{ShardMapState}
use cs426_spring2023_labs.Kv.ShardMap.Listeners.{
  ShardMap, ShardMapListener, make_listener, notify_all, update, close,
}

-- The channels of the registered listeners are open, and each belongs to one listener.
pub record IsConsistent (sm : ShardMap) : Type 0 where
  pub open_channels :
      (id ch : ℕ)
      → lookup id sm.update_channels ≡ some ch
      → (member ch sm.closed ≡ false) × (ch < sm.made) × (id < sm.update_channel_counter)
  pub closed_made : (ch : ℕ) → member ch sm.closed ≡ true → ch < sm.made
  pub separate :
      (i j ch : ℕ)
      → lookup i sm.update_channels ≡ some ch
      → lookup j sm.update_channels ≡ some ch
      → i ≡ j
  pub distinct : IsDistinct sm.update_channels

make_listener-IsConsistent : (sm : ShardMap) → IsConsistent sm → IsConsistent (make_listener sm).1
unfolding make_listener
make_listener-IsConsistent sm c = record {
  open_channels = λ id ch e. ground (
    arith,
    lookup-insert id sm.update_channel_counter sm.made sm.update_channels,
    c.open_channels id ch,
    c.closed_made sm.made,
  );
  closed_made = λ ch e. omega (arith, c.closed_made ch e);
  separate = λ i j ch ei ej. ground (
    arith,
    lookup-insert i sm.update_channel_counter sm.made sm.update_channels,
    lookup-insert j sm.update_channel_counter sm.made sm.update_channels,
    c.open_channels i ch,
    c.open_channels j ch,
    c.separate i j ch,
  );
  distinct = insert-IsDistinct sm.update_channel_counter sm.made sm.update_channels c.distinct;
}

close-eq :
    (l : ShardMapListener) (sm sm' : ShardMap)
    → close l sm ≡ some sm'
    → (record sm { update_channels = delete l.id sm.update_channels; closed = l.ch ∷ sm.closed })
      ≡ sm'
unfolding close
close-eq l sm sm' e = ground arith

-- What `Close` leaves of a consistent map is consistent.
close-IsConsistent :
    (l : ShardMapListener) (sm sm' : ShardMap)
    → IsConsistent sm
    → lookup l.id sm.update_channels ≡ some l.ch
    → close l sm ≡ some sm'
    → IsConsistent sm'
unfolding member
close-IsConsistent l sm sm' c r e = subst IsConsistent (close-eq l sm sm' e) (record {
  open_channels = λ id ch h. ground (
    arith,
    lookup-delete id l.id sm.update_channels,
    c.open_channels id ch,
    c.separate id l.id ch,
  );
  closed_made = λ ch h. ground (arith, c.closed_made ch, c.open_channels l.id l.ch);
  separate = λ i j ch hi hj. ground (
    arith,
    lookup-delete i l.id sm.update_channels,
    lookup-delete j l.id sm.update_channels,
    c.separate i j ch,
  );
  distinct = delete-IsDistinct l.id sm.update_channels c.distinct;
})

-- The channels that are listed under some key, in the order of the map.
channels : Map ℕ ℕ → List ℕ
channels [] = []
channels ((id, ch) ∷ m) = ch ∷ channels m

notify_all-channels :
    (closed : List ℕ) (m : Map ℕ ℕ)
    → IsDistinct m
    → ((id ch : ℕ) → lookup id m ≡ some ch → member ch closed ≡ false)
    → notify_all closed m ≡ some (channels m)
unfolding notify_all channels lookup
notify_all-channels closed [] d h = refl
notify_all-channels closed ((id, ch) ∷ m) d h = ground (
  arith,
  h id ch,
  =?_refl id,
  notify_all-channels closed m d.1 (λ i c e. h i c (ground (arith, nat_eq.beq_iff id i, d.0))),
)

channels_listed :
    (ch : ℕ) (m : Map ℕ ℕ)
    → IsDistinct m
    → member ch (channels m) ≡ true
    → (id : ℕ) × (lookup id m ≡ some ch)
unfolding channels lookup member
channels_listed ch [] d h = cc
channels_listed ch ((i, c) ∷ m) d h = elim (Bool-cases (c == ch)) [
  | inl same ↦ (i, ground (arith, =?_refl i))
  | inr other ↦
      let (id, e) = channels_listed ch m d.1 (ground arith) in
      (id, ground (arith, nat_eq.beq_iff i id, d.0))
]

listed_channels : (id ch : ℕ) (m : Map ℕ ℕ) → lookup id m ≡ some ch → member ch (channels m) ≡ true
unfolding channels lookup member
listed_channels id ch [] h = cc
listed_channels id ch ((i, c) ∷ m) h = ground (arith, listed_channels id ch m)

-- In a consistent map `Update` does not panic: it stores the new state, keeps all else, and
-- notifies exactly the channels of the registered listeners.
pub update_notifies :
    (state : ShardMapState) (sm : ShardMap)
    → IsConsistent sm
    → (sent : List ℕ) × (update state sm ≡ some (sent, record sm { state = some state }))
      × ((id ch : ℕ) → lookup id sm.update_channels ≡ some ch → member ch sent ≡ true)
      × ((ch : ℕ) → member ch sent ≡ true → (id : ℕ) × (lookup id sm.update_channels ≡ some ch))
unfolding update
update_notifies state sm c = (
  channels sm.update_channels,
  rw (
      notify_all-channels sm.closed sm.update_channels c.distinct
        (λ id ch e. (c.open_channels id ch e).0)),
  λ id ch e. listed_channels id ch sm.update_channels e,
  λ ch e. channels_listed ch sm.update_channels c.distinct e,
)

-- The calls that components make on a shard map.
pub data Step : ShardMap → ShardMap → Type 0 where
  listens : (sm : ShardMap) → Step sm (make_listener sm).1
  updates :
      (state : ShardMapState) (sent : List ℕ) (sm sm' : ShardMap)
      → update state sm ≡ some (sent, sm')
      → Step sm sm'
  closes :
      (l : ShardMapListener) (sm sm' : ShardMap)
      → lookup l.id sm.update_channels ≡ some l.ch
      → close l sm ≡ some sm'
      → Step sm sm'

pub update-state :
    (state : ShardMapState) (sent : List ℕ) (sm sm' : ShardMap)
    → update state sm ≡ some (sent, sm')
    → (record sm { state = some state }) ≡ sm'
unfolding update
update-state state sent sm sm' e = elim (Option-cases (notify_all sm.closed sm.update_channels)) [
  | inl stuck ↦ ground arith
  | inr (all, done) ↦ ground arith
]

Step-IsConsistent : {sm sm' : ShardMap} → Step sm sm' → IsConsistent sm → IsConsistent sm'
Step-IsConsistent (listens sm) c = make_listener-IsConsistent sm c
Step-IsConsistent (updates state sent sm sm' e) c =
    subst IsConsistent (update-state state sent sm sm' e) (record {
      open_channels = c.open_channels;
      closed_made = c.closed_made;
      separate = c.separate;
      distinct = c.distinct;
    })
Step-IsConsistent (closes l sm sm' r e) c = close-IsConsistent l sm sm' c r e

pub data Reach (sm : ShardMap) : ShardMap → Type 0 where
  here : Reach sm sm
  next : {t u : ShardMap} → Reach sm t → Step t u → Reach sm u

-- The zero value of the Go type: no state, no listeners.
abbrev pub new_shard_map : ShardMap
new_shard_map = record {
  state = none;
  update_channels = [];
  update_channel_counter = 0;
  made = 0;
  closed = [];
}

Reach-IsConsistent : {sm sm' : ShardMap} → IsConsistent sm → Reach sm sm' → IsConsistent sm'
Reach-IsConsistent c here = c
Reach-IsConsistent c (next r s) = Step-IsConsistent s (Reach-IsConsistent c r)

-- Whatever listeners were made and closed, each closed by its holder, and whatever was updated,
-- starting from the zero value: the channels of the registered listeners are open and distinct, so
-- that an `Update` finds no closed channel to send on.
pub reachable-IsConsistent : (sm : ShardMap) → Reach new_shard_map sm → IsConsistent sm
unfolding lookup member
reachable-IsConsistent sm r =
    Reach-IsConsistent
      (record {
        open_channels = λ id ch e. cc;
        closed_made = λ ch e. cc;
        separate = λ i j ch ei ej. cc;
        distinct = tt;
      })
      r
