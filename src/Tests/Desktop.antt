-- ===== src/Tests/Desktop.antt =====
-- hammer/hammeregg_backend at work: a desktop's handshake with the signalling server, input, and
-- the work thread.
use native.Mathlib.Nat.{zero-mul, one-mul}
use hammeregg.Prelude.{
  ℕ, Error, ◌≡◌, ◌*◌, refl, sym, ok_inj, Result, [], ◌∷◌, message, ok, err, true, false,
  string_keys,
}
use hammeregg.Prelude.Int.{pos}
use hammeregg.Prelude.Utf8.{is_utf8}
use hammeregg.Core.Packet.{Bytes, validate_init, new}
use hammeregg.Core.Wire.{Message, Codec, binary, serialize_packet}
use hammeregg.Core.Input.{InputPacket, mouse_move, mouse_scroll}
use hammeregg.Rooster.Peers.{DesktopAndPeers}
use hammeregg.Rooster.Task.{Shared}
use hammeregg.Backend.Stream.{MonitorBounds}
use hammeregg.Backend.Enigo.{Float}
use hammeregg.Backend.Input.{handle_input, input_callback}
use hammeregg.Backend.Input.Laws.{
  IsExact, IsDone, Command, move_to, recorder, input_callback_lem, handle_input-ignores_offset,
}
use hammeregg.Backend.Handshake.{hello}
use hammeregg.Prelude.{List}
use hammeregg.Backend.WorkThread.{
  Turn, spurious_turn, parent_turn, builder_turn, handle, returned, parking, spawned, run_threads,
  take_turn, builder_step, parent_step,
}
use hammeregg.Backend.WorkThread.Waking.{two_turns, parent_wakes, failed_build_hangs}
use hammeregg.Tests.Encoding.{small_env}

abbrev pub empty_map : Shared
empty_map = record { desktops = []; next_channel = 0; log = [] }

abbrev pub alone : DesktopAndPeers
alone = record { desktop_tx = 0; id_counter = 0; peers = [] }

abbrev pub home_map : Shared
home_map = record { desktops = ("home", alone) ∷ []; next_channel = 1; log = [] }

abbrev pub home_hello : Message
home_hello = binary (1 ∷ 1108003529997441637 ∷ 65536 ∷ 0 ∷ 0 ∷ [])

pub home_says_hello : hello ⦃inits = small_env.init_packets⦄ "home" ≡ ok home_hello
unfolding hello new validate_init serialize_packet
home_says_hello = refl

-- Numbers in the place of `f32`.
abbrev whole : Float ℕ
whole = record { of_u32 = λ n. n; mul = λ a b. a * b; round = λ a. a; as_i32 = pos }

abbrev right_monitor : MonitorBounds
right_monitor = record { x = pos 1920; y = pos 0; w = 1280; h = 720 }

abbrev left_monitor : MonitorBounds
left_monitor = record { x = pos 0; y = pos 0; w = 1280; h = 720 }

whole-IsExact : (side : ℕ) → IsExact ⦃float = whole⦄ 0 1 side
whole-IsExact side = record { at_zero = rw (zero-mul side) refl; at_one = rw (one-mul side) refl }

handle_input-ignores_offset_example :
    (handle_input ⦃enigo = recorder⦄ ⦃float = whole⦄ right_monitor (mouse_move 0 0) []
      ≡ move_to (pos 0) (pos 0) ∷ [])
    × (handle_input ⦃enigo = recorder⦄ ⦃float = whole⦄ right_monitor (mouse_move 1 0) []
        ≡ move_to (pos 1280) (pos 0) ∷ [])
    × (handle_input ⦃enigo = recorder⦄ ⦃float = whole⦄ right_monitor (mouse_move 0 1) []
        ≡ move_to (pos 0) (pos 720) ∷ [])
    × (handle_input ⦃enigo = recorder⦄ ⦃float = whole⦄ right_monitor (mouse_move 1 1) []
        ≡ move_to (pos 1280) (pos 720) ∷ [])
    × (handle_input ⦃enigo = recorder⦄ ⦃float = whole⦄ right_monitor (mouse_move 0 0) []
          ≡ move_to (pos 1920) (pos 0) ∷ []
        → (pos 1920 ≡ pos 0) × (pos 0 ≡ pos 0))
handle_input-ignores_offset_example =
    handle_input-ignores_offset ⦃float = whole⦄ right_monitor 0 1 (whole-IsExact 1280)
      (whole-IsExact 720)

-- Only scrolls to the right and down can be written, by their two distances.
abbrev write_scroll : InputPacket ℕ → Result Bytes
write_scroll (mouse_scroll (pos x) (pos y)) = ok (x ∷ y ∷ [])
write_scroll _ = err (message "no such scroll")

abbrev read_scroll : Bytes → Result (InputPacket ℕ)
read_scroll (x ∷ y ∷ []) = ok (mouse_scroll (pos x) (pos y))
read_scroll _ = err (message "no scroll")

abbrev scrolls : Codec (InputPacket ℕ)
scrolls = record { to_vec = write_scroll; from_slice = read_scroll }

read_scroll-write_scroll :
    (p : InputPacket ℕ) (b : Bytes) → write_scroll p ≡ ok b → read_scroll b ≡ ok p
read_scroll-write_scroll (mouse_scroll (pos x) (pos y)) b h = rw (sym (ok_inj h))
read_scroll-write_scroll _ b h = cc

input_callback_lem_example :
    ((p : InputPacket ℕ)
      → write_scroll p ≡ ok (0 ∷ 3 ∷ [])
      → (done : List Command) × (input_callback ⦃enigo = recorder⦄ ⦃float = whole⦄ scrolls
            left_monitor
            (0 ∷ 3 ∷ [])
            []
          ≡ ok done)
        × IsDone ⦃float = whole⦄ left_monitor p done)
    × ((e : Error) (s : List Command)
        → read_scroll (0 ∷ 3 ∷ []) ≡ err e
        → input_callback ⦃enigo = recorder⦄ ⦃float = whole⦄ scrolls left_monitor (0 ∷ 3 ∷ []) s
          ≡ ok s)
input_callback_lem_example =
    input_callback_lem ⦃float = whole⦄ scrolls left_monitor (0 ∷ 3 ∷ [])
      (record { from_slice-to_vec = read_scroll-write_scroll })

-- A character of four bytes is a text; an overlong zero, a surrogate and half a character are not.
hammer_is_text : is_utf8 (0xf0 ∷ 0x9f ∷ 0x94 ∷ 0xa8 ∷ []) ≡ true
unfolding is_utf8
hammer_is_text = refl

overlong_is_no_text : is_utf8 (0xc0 ∷ 0x80 ∷ []) ≡ false
unfolding is_utf8
overlong_is_no_text = refl

surrogate_is_no_text : is_utf8 (0xed ∷ 0xa0 ∷ 0x80 ∷ []) ≡ false
unfolding is_utf8
surrogate_is_no_text = refl

half_is_no_text : is_utf8 (65 ∷ 0xe2 ∷ 0x82 ∷ []) ≡ false
unfolding is_utf8
half_is_no_text = refl

-- The parent parks before the handle is there.
abbrev early_parent : List Turn
early_parent = parent_turn ∷ builder_turn (ok 7) ∷ builder_turn (ok 7) ∷ []

parent_wakes_example :
    (h : ℕ) × ((run_threads early_parent spawned).slot ≡ handle h)
    × ((two_turns (run_threads early_parent spawned)).parent ≡ returned (ok h))
parent_wakes_example =
    parent_wakes early_parent
      (unfold run_threads in unfold take_turn in unfold builder_step in unfold parent_step in refl)

-- The parent parks, and goes on being scheduled after the failure.
failed_build_hangs_example :
    ((run_threads
        (parent_turn
          ∷ builder_turn (err (message "no runtime"))
          ∷ parent_turn
          ∷ builder_turn (ok 7)
          ∷ [])
        spawned).parent
      ≡ parking)
    × ((run_threads (spurious_turn ∷ parent_turn ∷ []) (
          run_threads
            (parent_turn
              ∷ builder_turn (err (message "no runtime"))
              ∷ parent_turn
              ∷ builder_turn (ok 7)
              ∷ [])
            spawned)).parent
        ≡ returned (err (message "Work thread panicked!")))
failed_build_hangs_example =
    failed_build_hangs [] (parent_turn ∷ builder_turn (ok 7) ∷ []) (message "no runtime")
      (unfold run_threads in refl) refl
