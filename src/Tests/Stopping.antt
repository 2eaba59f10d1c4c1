-- ===== src/Tests/Stopping.antt =====
-- hammer/hammeregg_backend/src/net.rs and hammer/rtp2rtc/main.go: the two drops in one order.
use hammeregg.Prelude.{[], ◌∷◌, true, false, ◌≡◌, refl}
use hammeregg.Backend.Stopping.{dropped, remote_side, server_side, run_drops, replaced}
use hammeregg.Backend.Stopping.Orders.{never_freed, video_stops}

never_freed_example :
    (run_drops
      (server_side ∷ remote_side ∷ remote_side ∷ server_side ∷ server_side ∷ [])
      replaced).freed
    ≡ false
never_freed_example =
    never_freed (server_side ∷ remote_side ∷ remote_side ∷ server_side ∷ server_side ∷ []) replaced
      refl (λ e. cc)

video_stops_example :
    ((run_drops
        (remote_side ∷ server_side ∷ remote_side ∷ remote_side ∷ remote_side ∷ [])
        replaced).remote
      ≡ dropped)
    × ((run_drops
          (remote_side ∷ server_side ∷ remote_side ∷ remote_side ∷ remote_side ∷ [])
          replaced).killed
        ≡ true)
video_stops_example = video_stops (remote_side ∷ [])
