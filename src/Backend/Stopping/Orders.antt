-- ===== src/Backend/Stopping/Orders.antt =====
-- hammer/hammeregg_backend/src/net.rs and hammer/rtp2rtc/main.go: what the two drops come to, in
-- whatever order they run.
use hammeregg.Prelude.{List, [], ◌∷◌, ◌++◌, Bool, true, false, ◌≡◌, ◌≢◌, refl, arith, ◌⊎◌, inl, inr}
use hammeregg.Backend.Stopping.{
  RemoteAt, loading, stopping, killing, dropped, ServerAt, starting, receiving, storing, sending,
  freeing, over, Drops, remote_turn, server_turn, Side, remote_side, server_side, side_turn,
  run_drops, replaced,
}

-- The server's drop has not got past its stop.
abbrev IsUnfreed : Drops → Type 0
IsUnfreed d = (d.freed ≡ false) × (d.server ≢ freeing)

IsUnfreed-side_turn : (turn : Side) (d : Drops) → IsUnfreed d → IsUnfreed (side_turn turn d)
unfolding side_turn remote_turn server_turn
IsUnfreed-side_turn remote_side d (unfreed, before) = ground arith
IsUnfreed-side_turn server_side d (unfreed, before) = ground arith

-- In whatever order the drop of a remote connection and the thread of its server run, a server
-- whose drop has not got past its stop never gets past it, so that its connection is never
-- freed.
pub never_freed :
    (turns : List Side) (d : Drops)
    → d.freed ≡ false
    → d.server ≢ freeing
    → (run_drops turns d).freed ≡ false
unfolding run_drops
never_freed [] d unfreed before = unfreed
never_freed (turn ∷ turns) d unfreed before =
    let (unfreed', before') = IsUnfreed-side_turn turn d (unfreed, before) in
    never_freed turns (side_turn turn d) unfreed' before'

-- The server waits for the stop of the drop, or is on the way to it, until the drop has sent it; and
-- a drop that is over has killed the video process.
abbrev IsServed : RemoteAt → Drops → Type 0
IsServed loading d = ((d.server ≡ starting) ⊎ (d.server ≡ receiving)) × (d.stop_notifier ≡ false)
IsServed stopping d = ((d.server ≡ starting) ⊎ (d.server ≡ receiving)) × (d.stop_notifier ≡ false)
IsServed killing d = Unit
IsServed dropped d = d.killed ≡ true

abbrev drops : RemoteAt → ServerAt → Bool → Bool → Bool → Drops
drops remote server stop_notifier killed freed = record {
  remote = remote;
  server = server;
  stop_notifier = stop_notifier;
  killed = killed;
  freed = freed;
}

module _ (k f : Bool) where
  remote_turn-IsServed :
      (r : RemoteAt) (v : ServerAt) (n : Bool)
      → IsServed r (drops r v n k f)
      → IsServed (remote_turn (drops r v n k f)).remote (remote_turn (drops r v n k f))
  unfolding remote_turn
  remote_turn-IsServed loading v true (h, e) = cc
  remote_turn-IsServed loading v false h = h
  remote_turn-IsServed stopping starting n h = h
  remote_turn-IsServed stopping receiving n h = tt
  remote_turn-IsServed stopping storing n h = h
  remote_turn-IsServed stopping sending n h = h
  remote_turn-IsServed stopping freeing n h = h
  remote_turn-IsServed stopping over n h = h
  remote_turn-IsServed killing v n h = refl
  remote_turn-IsServed dropped v n h = h

  server_turn-IsServed :
      (r : RemoteAt) (v : ServerAt) (n : Bool)
      → IsServed r (drops r v n k f)
      → IsServed (server_turn (drops r v n k f)).remote (server_turn (drops r v n k f))
  unfolding server_turn
  server_turn-IsServed loading starting n (h, e) = (inr refl, e)
  server_turn-IsServed stopping starting n (h, e) = (inr refl, e)
  server_turn-IsServed killing starting n h = tt
  server_turn-IsServed dropped starting n h = h
  server_turn-IsServed r receiving n h = h
  server_turn-IsServed loading storing n (inl e, e') = cc
  server_turn-IsServed loading storing n (inr e, e') = cc
  server_turn-IsServed stopping storing n (inl e, e') = cc
  server_turn-IsServed stopping storing n (inr e, e') = cc
  server_turn-IsServed killing storing n h = tt
  server_turn-IsServed dropped storing n h = h
  server_turn-IsServed r sending n h = h
  server_turn-IsServed loading freeing n (inl e, e') = cc
  server_turn-IsServed loading freeing n (inr e, e') = cc
  server_turn-IsServed stopping freeing n (inl e, e') = cc
  server_turn-IsServed stopping freeing n (inr e, e') = cc
  server_turn-IsServed killing freeing n h = tt
  server_turn-IsServed dropped freeing n h = h
  server_turn-IsServed r over n h = h

  -- Once the server has had a turn, three turns of the drop are enough.
  four_turns_from :
      (r : RemoteAt) (v : ServerAt) (n : Bool)
      → IsServed r (drops r v n k f)
      → let d = remote_turn (remote_turn (remote_turn (server_turn (drops r v n k f)))) in
        (d.remote ≡ dropped) × (d.killed ≡ true)
  unfolding remote_turn server_turn
  four_turns_from loading starting true (h, e) = cc
  four_turns_from loading receiving true (h, e) = cc
  four_turns_from loading starting false h = (refl, refl)
  four_turns_from loading receiving false h = (refl, refl)
  four_turns_from stopping starting n h = (refl, refl)
  four_turns_from stopping receiving n h = (refl, refl)
  four_turns_from killing v n h = ground arith
  four_turns_from dropped v n h = ground arith
  four_turns_from loading v n (inl e, e') = ground arith
  four_turns_from loading v n (inr e, e') = ground arith
  four_turns_from stopping v n (inl e, e') = ground arith
  four_turns_from stopping v n (inr e, e') = ground arith

IsServed-side_turn :
    (turn : Side) (d : Drops)
    → IsServed d.remote d
    → IsServed (side_turn turn d).remote (side_turn turn d)
unfolding side_turn
IsServed-side_turn remote_side d h =
    remote_turn-IsServed d.killed d.freed d.remote d.server d.stop_notifier h
IsServed-side_turn server_side d h =
    server_turn-IsServed d.killed d.freed d.remote d.server d.stop_notifier h

IsServed-run_drops :
    (turns : List Side) (d : Drops)
    → IsServed d.remote d
    → IsServed (run_drops turns d).remote (run_drops turns d)
unfolding run_drops
IsServed-run_drops [] d h = h
IsServed-run_drops (turn ∷ turns) d h =
    IsServed-run_drops turns (side_turn turn d) (IsServed-side_turn turn d h)

run_drops-append :
    (turns later : List Side) (d : Drops)
    → run_drops (turns ++ later) d ≡ run_drops later (run_drops turns d)
unfolding run_drops
run_drops-append [] later d = refl
run_drops-append (turn ∷ turns) later d = run_drops-append turns later (side_turn turn d)

abbrev four_turns : List Side
four_turns = server_side ∷ remote_side ∷ remote_side ∷ remote_side ∷ []

four_turns_end :
    (d : Drops)
    → IsServed d.remote d
    → ((run_drops four_turns d).remote ≡ dropped) × ((run_drops four_turns d).killed ≡ true)
unfolding run_drops side_turn
four_turns_end d h = four_turns_from d.killed d.freed d.remote d.server d.stop_notifier h

-- When a remote is replaced, in whatever order its drop and its server have run so far, one turn
-- of the server and three of the drop are enough for the drop to be over and the video process
-- killed.
pub video_stops :
    (turns : List Side)
    → ((run_drops
          (turns ++ server_side ∷ remote_side ∷ remote_side ∷ remote_side ∷ [])
          replaced).remote
        ≡ dropped)
      × ((run_drops
            (turns ++ server_side ∷ remote_side ∷ remote_side ∷ remote_side ∷ [])
            replaced).killed
          ≡ true)
video_stops turns =
    rw (run_drops-append turns four_turns replaced) (
      four_turns_end (run_drops turns replaced)
        (IsServed-run_drops turns replaced (inl refl, refl)))
