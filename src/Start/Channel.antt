-- ===== src/Start/Channel.antt =====
-- What the reader of a service's LeaderCh is told: `listenLeaderCh` (service_raft.go) between raft and
-- the reader, each going on at its own pace.
use hraftd.Common.{
  ◌≡◌, refl, Bool, Option, none, some, List, [], ◌∷◌, ◌++◌, append_assoc, append-nil,
}
use hraftd.Start.{offer, listen_leader_ch}

-- A list with some of the elements of another one, in their order.
pub data Sublist {ℓ} {A : Type ℓ} : List A → List A → Type ℓ where
  empty : Sublist [] []
  drops : {x : A} {xs ys : List A} → Sublist xs ys → Sublist xs (x ∷ ys)
  keeps : {x : A} {xs ys : List A} → Sublist xs ys → Sublist (x ∷ xs) (x ∷ ys)

-- The changes that raft has told so far, those that the reader has taken, and what waits in LeaderCh.
pub data Told : List Bool → List Bool → Option Bool → Type 0 where
  begun : Told [] [] none
  offered :
      {changes taken : List Bool} {ch : Option Bool} (change : Bool)
      → Told changes taken ch
      → Told (changes ++ change ∷ []) taken (offer ch change)
  takes :
      {changes taken : List Bool} {change : Bool}
      → Told changes taken (some change)
      → Told changes (taken ++ change ∷ []) none

abbrev pub waiting : Option Bool → List Bool
waiting none = []
waiting (some b) = b ∷ []

Sublist-drop : {xs ys : List Bool} (b : Bool) → Sublist xs ys → Sublist xs (ys ++ b ∷ [])
Sublist-drop b empty = drops empty
Sublist-drop b (drops h) = drops (Sublist-drop b h)
Sublist-drop b (keeps h) = keeps (Sublist-drop b h)

Sublist-keep :
    {xs ys : List Bool} (b : Bool) → Sublist xs ys → Sublist (xs ++ b ∷ []) (ys ++ b ∷ [])
Sublist-keep b empty = keeps empty
Sublist-keep b (drops h) = drops (Sublist-keep b h)
Sublist-keep b (keeps h) = keeps (Sublist-keep b h)

Sublist-offer :
    (changes taken : List Bool) (ch : Option Bool) (b : Bool)
    → Sublist (taken ++ waiting ch) changes
    → Sublist (taken ++ waiting (offer ch b)) (changes ++ b ∷ [])
unfolding offer
Sublist-offer changes taken none b h = Sublist-keep b (rw (append-nil taken) at h)
Sublist-offer changes taken (some c) b h = Sublist-drop b h

Told-Sublist :
    {changes taken : List Bool} {ch : Option Bool}
    → Told changes taken ch
    → Sublist (taken ++ waiting ch) changes
Told-Sublist begun = empty
Told-Sublist (offered {changes = changes} {taken = taken} {ch = ch} b h) =
    Sublist-offer changes taken ch b (Told-Sublist h)
Told-Sublist (takes {taken = taken} {change = change} h) =
    rw (append-nil (taken ++ change ∷ [])) (Told-Sublist h)

-- the loop of listenLeaderCh is a run in which nobody takes
listen_leader_ch-Told :
    (later : List Bool) {changes taken : List Bool} {ch : Option Bool}
    → Told changes taken ch
    → Told (changes ++ later) taken (listen_leader_ch later ch)
unfolding listen_leader_ch
listen_leader_ch-Told [] {changes = changes} h = rw (append-nil changes) h
listen_leader_ch-Told (c ∷ later) {changes = changes} h =
    rw (append_assoc changes (c ∷ []) later) at (listen_leader_ch-Told later (offered c h))

listen_leader_ch-stale : (later : List Bool) (b : Bool) → listen_leader_ch later (some b) ≡ some b
unfolding listen_leader_ch offer
listen_leader_ch-stale [] b = refl
listen_leader_ch-stale (c ∷ later) b = listen_leader_ch-stale later b

-- Whatever the pace of the reader of LeaderCh, what it has taken and what waits there are changes
-- that raft has told, each at most once and in their order. While one waits, none of those that raft
-- tells gets there, however many they are: a reader who comes late is told of that one, whatever
-- state the node is in by then.
pub listen_leader_ch-Sublist :
    {changes taken : List Bool} {ch : Option Bool} (later : List Bool)
    → Told changes taken ch
    → Sublist (taken ++ waiting (listen_leader_ch later ch)) (changes ++ later)
      × ((b : Bool) → ch ≡ some b → listen_leader_ch later ch ≡ some b)
listen_leader_ch-Sublist later h =
    (Told-Sublist (listen_leader_ch-Told later h), λ b e. rw e (listen_leader_ch-stale later b))

-- What a reader has taken is among what raft has told.
pub Told-taken :
    {changes taken : List Bool} {ch : Option Bool} → Told changes taken ch → Sublist taken changes
Told-taken begun = empty
Told-taken (offered b h) = Sublist-drop b (Told-taken h)
Told-taken (takes {taken = taken} {change = change} h) = Told-Sublist h
