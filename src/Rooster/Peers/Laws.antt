-- ===== src/Rooster/Peers/Laws.antt =====
-- hammer/hammeregg_rooster/src/main.rs: the ids of peers.
use hammeregg.Prelude.{
  ℕ, ◌+◌, ◌≤◌, ◌<◌, ◌^◌, ◌≡◌, subst, refl, ◌==◌, if◌then◌else◌, none, some, List, [], ◌∷◌, arith,
  nat_keys, Option-cases, inl, inr,
}
use hammeregg.Prelude.HashMap
use hammeregg.Prelude.HashMap.{map_laws, get-remove, get-insert}
use hammeregg.Rooster.Peers.{Sender, DesktopAndPeers, new, insert_peer, get_peer, remove_peer}

-- Every id in use is below the counter.
pub record IsFresh (d : DesktopAndPeers) : Type 0 where
  pub below : (id : ℕ) (tx : Sender) → get_peer d id ≡ some tx → id < d.id_counter

pub new-IsFresh : (tx : Sender) → IsFresh (new tx)
unfolding new get_peer HashMap.get
new-IsFresh tx = record { below = λ id peer h. cc }

pub get_peer-new : (tx : Sender) (id : ℕ) → get_peer (new tx) id ≡ none
unfolding new get_peer HashMap.get
get_peer-new tx id = refl

pub get_peer-insert_peer :
    (d : DesktopAndPeers) (tx : Sender) (id : ℕ)
    → get_peer (insert_peer d tx).0 id ≡ (if d.id_counter == id then some tx else get_peer d id)
unfolding insert_peer get_peer
get_peer-insert_peer d tx id = get-insert d.id_counter id tx d.peers

pub get_peer-remove_peer :
    (d : DesktopAndPeers) (gone id : ℕ)
    → get_peer (remove_peer d gone) id ≡ (if gone == id then none else get_peer d id)
unfolding remove_peer get_peer
get_peer-remove_peer d gone id = get-remove gone id d.peers

id_counter-insert_peer :
    (d : DesktopAndPeers) (tx : Sender)
    → d.id_counter + 1 < 2 ^ 32
    → (insert_peer d tx).0.id_counter ≡ d.id_counter + 1
unfolding insert_peer
id_counter-insert_peer d tx room = omega arith

pub insert_peer-IsFresh :
    (d : DesktopAndPeers) (tx : Sender)
    → d.id_counter + 1 < 2 ^ 32
    → IsFresh d
    → IsFresh (insert_peer d tx).0
insert_peer-IsFresh d tx room f = record {
  below = λ id peer h.
      ground
        (arith, f.below id peer, get_peer-insert_peer d tx id, id_counter-insert_peer d tx room);
}

id_counter-remove_peer :
    (d : DesktopAndPeers) (gone : ℕ) → (remove_peer d gone).id_counter ≡ d.id_counter
unfolding remove_peer
id_counter-remove_peer d gone = refl

pub remove_peer-IsFresh :
    (d : DesktopAndPeers) (gone : ℕ) → IsFresh d → IsFresh (remove_peer d gone)
remove_peer-IsFresh d gone f = record {
  below = λ id peer h.
      ground
        (arith, f.below id peer, get_peer-remove_peer d gone id, id_counter-remove_peer d gone);
}

id-insert_peer : (d : DesktopAndPeers) (tx : Sender) → (insert_peer d tx).1 ≡ d.id_counter
unfolding insert_peer
id-insert_peer d tx = refl

unused_id : (d : DesktopAndPeers) → IsFresh d → get_peer d d.id_counter ≡ none
unused_id d f = elim (Option-cases (get_peer d d.id_counter)) [
  | inl e ↦ e
  | inr (tx, e) ↦ absurd (omega (arith, f.below d.id_counter tx e))
]

-- When all ids in use are below the counter, a peer that joins gets an id that nobody has, is
-- found under it, and every other peer is found as before.
pub insert_peer-displaces_nobody :
    (d : DesktopAndPeers) (tx : Sender)
    → IsFresh d
    → (get_peer d (insert_peer d tx).1 ≡ none)
      × (get_peer (insert_peer d tx).0 (insert_peer d tx).1 ≡ some tx)
      × ((id : ℕ) (peer : Sender)
          → get_peer d id ≡ some peer
          → get_peer (insert_peer d tx).0 id ≡ some peer)
insert_peer-displaces_nobody d tx f = rw (id-insert_peer d tx) (
  unused_id d f,
  ground (arith, get_peer-insert_peer d tx d.id_counter),
  λ id peer h. ground (arith, f.below id peer h, get_peer-insert_peer d tx id),
)

-- Peers come and go.
pub data Visit : Type 0 where
  join : Sender → Visit
  leave : ℕ → Visit

abbrev pub visit : DesktopAndPeers → Visit → DesktopAndPeers
visit d (join tx) = (insert_peer d tx).0
visit d (leave id) = remove_peer d id

abbrev pub visits : DesktopAndPeers → List Visit → DesktopAndPeers
visits d [] = d
visits d (v ∷ vs) = visits (visit d v) vs

abbrev pub joins : List Visit → ℕ
joins [] = 0
joins (join tx ∷ vs) = 1 + joins vs
joins (leave id ∷ vs) = joins vs

-- The ids that are handed out.
abbrev pub ids : DesktopAndPeers → List Visit → List ℕ
ids d [] = []
ids d (join tx ∷ vs) = (insert_peer d tx).1 ∷ ids (insert_peer d tx).0 vs
ids d (leave id ∷ vs) = ids (remove_peer d id) vs

-- The numbers rise, from `n` on.
abbrev pub IsRising : ℕ → List ℕ → Type 0
IsRising n [] = Unit
IsRising n (i ∷ is) = (n ≤ i) × IsRising (i + 1) is

-- As long as fewer than 2 ^ 32 ids are used up, the ids that are handed out to peers rise
-- strictly, whatever peers leave in between, and all ids in use stay below the counter.
pub ids-IsRising :
    (d : DesktopAndPeers) (vs : List Visit)
    → IsFresh d
    → d.id_counter + joins vs < 2 ^ 32
    → IsRising d.id_counter (ids d vs) × IsFresh (visits d vs)
ids-IsRising d [] f room = (tt, f)
ids-IsRising d (join tx ∷ vs) f room =
    let e = id_counter-insert_peer d tx (omega arith) in
    let next : (insert_peer d tx).0.id_counter ≡ (insert_peer d tx).1 + 1 =
      omega (arith, e, id-insert_peer d tx) in
    let (later, fresh) =
      ids-IsRising (insert_peer d tx).0 vs (insert_peer-IsFresh d tx (omega arith) f)
        (omega arith) in
    (
      (
        omega (arith, id-insert_peer d tx),
        subst (λ n. IsRising n (ids (insert_peer d tx).0 vs)) next later,
      ),
      fresh,
    )
ids-IsRising d (leave id ∷ vs) f room =
    let e = id_counter-remove_peer d id in
    let (later, fresh) =
      ids-IsRising (remove_peer d id) vs (remove_peer-IsFresh d id f) (omega (arith, e)) in
    (subst (λ n. IsRising n (ids (remove_peer d id) vs)) e later, fresh)
