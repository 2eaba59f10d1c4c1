-- ===== src/Backend/Input/Laws.antt =====
-- hammer/hammeregg_backend/src/input.rs: what a remote's input does.
use hammeregg.Core.Packet.{Bytes}
use hammeregg.Core.Wire.{Codec, IsCodec}
use hammeregg.Prelude.{
  ℕ, Error, ok, err, ◌≡◌, ◌↔◌, ◌∙◌, sym, refl, ap, arith, List, [], ◌∷◌, Option, none, some,
}
use hammeregg.Prelude.Int.{ℤ, pos, int_eq_iff}
use hammeregg.Core.Input.{
  InputPacket, key_down, key_up, mouse_down, mouse_up, mouse_move, mouse_scroll, KeyInput,
  special_key, alpha_key, raw_key, MouseButton, SpecialKeyInput,
}
use hammeregg.Backend.Stream.{MonitorBounds}
use hammeregg.Backend.Enigo.{Key, Button, Enigo, Float}
use hammeregg.Backend.Input.{
  convert_special_key, convert_key, convert_button, handle_input, input_callback,
}

-- The key input of which a key comes.
abbrev pub key_input : Key → KeyInput
key_input Key.alt = special_key SpecialKeyInput.alt
key_input Key.backspace = special_key SpecialKeyInput.backspace
key_input Key.caps_lock = special_key SpecialKeyInput.caps_lock
key_input Key.control = special_key SpecialKeyInput.control
key_input Key.delete = special_key SpecialKeyInput.delete
key_input Key.down_arrow = special_key SpecialKeyInput.down_arrow
key_input Key.end = special_key SpecialKeyInput.end
key_input Key.escape = special_key SpecialKeyInput.escape
key_input Key.f1 = special_key SpecialKeyInput.f1
key_input Key.f10 = special_key SpecialKeyInput.f10
key_input Key.f11 = special_key SpecialKeyInput.f11
key_input Key.f12 = special_key SpecialKeyInput.f12
key_input Key.f2 = special_key SpecialKeyInput.f2
key_input Key.f3 = special_key SpecialKeyInput.f3
key_input Key.f4 = special_key SpecialKeyInput.f4
key_input Key.f5 = special_key SpecialKeyInput.f5
key_input Key.f6 = special_key SpecialKeyInput.f6
key_input Key.f7 = special_key SpecialKeyInput.f7
key_input Key.f8 = special_key SpecialKeyInput.f8
key_input Key.f9 = special_key SpecialKeyInput.f9
key_input Key.home = special_key SpecialKeyInput.home
key_input Key.left_arrow = special_key SpecialKeyInput.left_arrow
key_input Key.meta = special_key SpecialKeyInput.meta
key_input Key.option = special_key SpecialKeyInput.option
key_input Key.page_down = special_key SpecialKeyInput.page_down
key_input Key.page_up = special_key SpecialKeyInput.page_up
key_input Key.return = special_key SpecialKeyInput.return
key_input Key.right_arrow = special_key SpecialKeyInput.right_arrow
key_input Key.shift = special_key SpecialKeyInput.shift
key_input Key.space = special_key SpecialKeyInput.space
key_input Key.tab = special_key SpecialKeyInput.tab
key_input Key.up_arrow = special_key SpecialKeyInput.up_arrow
key_input (Key.layout c) = alpha_key c
key_input (Key.raw c) = raw_key c

special-convert_special_key :
    (s : SpecialKeyInput) → key_input (convert_special_key s) ≡ special_key s
unfolding convert_special_key
special-convert_special_key SpecialKeyInput.alt = refl
special-convert_special_key _ = refl

key_input-convert_key : (k : KeyInput) → key_input (convert_key k) ≡ k
unfolding convert_key
key_input-convert_key (special_key s) = special-convert_special_key s
key_input-convert_key (alpha_key c) = refl
key_input-convert_key (raw_key c) = refl

convert_key-key_input : (k : Key) → convert_key (key_input k) ≡ k
unfolding convert_key
convert_key-key_input Key.alt = refl
convert_key-key_input _ = refl

-- A key input becomes a key exactly when it is the key input of that key: the conversion is
-- one-to-one and reaches every key that the program names.
pub convert_key_iff : (k : KeyInput) (key : Key) → (convert_key k ≡ key) ↔ (k ≡ key_input key)
convert_key_iff k key = (
  λ e. sym (key_input-convert_key k) ∙ ap key_input e,
  λ e. ap convert_key e ∙ convert_key-key_input key,
)

-- What `enigo` is asked to do.
pub data Command : Type 0 where
  press release : Key → Command
  press_button release_button : Button → Command
  move_to : ℤ → ℤ → Command
  scroll_x scroll_y : ℤ → Command

-- A computer that only notes what it is asked to do, the newest command first.
instance abbrev pub recorder : Enigo (List Command)
recorder = record {
  key_down = λ k s. press k ∷ s;
  key_up = λ k s. release k ∷ s;
  mouse_down = λ b s. press_button b ∷ s;
  mouse_up = λ b s. release_button b ∷ s;
  mouse_move_to = λ x y s. move_to x y ∷ s;
  mouse_scroll_x = λ n s. scroll_x n ∷ s;
  mouse_scroll_y = λ n s. scroll_y n ∷ s;
}

abbrev pub mouse_button : Button → MouseButton
mouse_button Button.left = MouseButton.left
mouse_button Button.middle = MouseButton.middle
mouse_button Button.right = MouseButton.right

mouse_button-convert_button : (b : MouseButton) → mouse_button (convert_button b) ≡ b
unfolding convert_button
mouse_button-convert_button MouseButton.left = refl
mouse_button-convert_button _ = refl

-- The packet that leads to the commands.
abbrev pub packet_of : {F : Type 0} → List Command → Option (InputPacket F)
packet_of [] = some (mouse_scroll (pos 0) (pos 0))
packet_of (press k ∷ []) = some (key_down (key_input k))
packet_of (release k ∷ []) = some (key_up (key_input k))
packet_of (press_button b ∷ []) = some (mouse_down (mouse_button b))
packet_of (release_button b ∷ []) = some (mouse_up (mouse_button b))
packet_of (scroll_x n ∷ []) = some (mouse_scroll n (pos 0))
packet_of (scroll_y n ∷ []) = some (mouse_scroll (pos 0) n)
packet_of (scroll_y n ∷ scroll_x m ∷ []) = some (mouse_scroll m n)
packet_of _ = none

abbrev pub IsMove : {F : Type 0} → InputPacket F → Type 0
IsMove (mouse_move x y) = Unit
IsMove _ = ⊥

pub packet_of-handle_input :
    {F : Type 0} ⦃float : Float F⦄ (bounds : MonitorBounds) (p : InputPacket F)
    → ¬ IsMove p
    → packet_of (handle_input bounds p []) ≡ some p
unfolding handle_input
packet_of-handle_input bounds (key_down k) h = rw (key_input-convert_key k)
packet_of-handle_input bounds (key_up k) h = rw (key_input-convert_key k)
packet_of-handle_input bounds (mouse_down b) h = rw (mouse_button-convert_button b)
packet_of-handle_input bounds (mouse_up b) h = rw (mouse_button-convert_button b)
packet_of-handle_input bounds (mouse_move x y) h = absurd (h tt)
packet_of-handle_input bounds (mouse_scroll x y) h =
    ground (arith, int_eq_iff x (pos 0), int_eq_iff y (pos 0))

-- A move goes to its share of the monitor's size, without the monitor's place; of the commands of
-- any other packet the packet can be told.
abbrev pub IsDone :
    {F : Type 0} ⦃float : Float F⦄ → MonitorBounds → InputPacket F → List Command → Type 0
IsDone ⦃float⦄ bounds (mouse_move x y) done =
    done
    ≡ move_to (float.as_i32 (float.round (float.mul x (float.of_u32 bounds.w))))
        (float.as_i32 (float.round (float.mul y (float.of_u32 bounds.h))))
      ∷ []
IsDone bounds packet done = packet_of done ≡ some packet

handle_input-IsDone :
    {F : Type 0} ⦃float : Float F⦄ (bounds : MonitorBounds) (p : InputPacket F)
    → IsDone bounds p (handle_input bounds p [])
unfolding handle_input
handle_input-IsDone bounds (key_down k) = packet_of-handle_input bounds (key_down k) (λ h. h)
handle_input-IsDone bounds (key_up k) = packet_of-handle_input bounds (key_up k) (λ h. h)
handle_input-IsDone bounds (mouse_down b) = packet_of-handle_input bounds (mouse_down b) (λ h. h)
handle_input-IsDone bounds (mouse_up b) = packet_of-handle_input bounds (mouse_up b) (λ h. h)
handle_input-IsDone bounds (mouse_move x y) = refl
handle_input-IsDone bounds (mouse_scroll x y) =
    packet_of-handle_input bounds (mouse_scroll x y) (λ h. h)

-- Bytes that the encoding wrote for an input packet give the computer that packet's commands: a
-- mouse move is one move to its share of the monitor's width and height, and of any other
-- packet the commands determine the packet; bytes whose reading is an error give none; if the
-- encoding reads back what it wrote.
pub input_callback_lem :
    {F : Type 0} ⦃float : Float F⦄ (inputs : Codec (InputPacket F)) (bounds : MonitorBounds)
    (b : Bytes)
    → IsCodec inputs
    → ((p : InputPacket F)
        → inputs.to_vec p ≡ ok b
        → (done : List Command) × (input_callback inputs bounds b [] ≡ ok done)
          × IsDone bounds p done)
      × ((e : Error) (s : List Command)
          → inputs.from_slice b ≡ err e
          → input_callback inputs bounds b s ≡ ok s)
unfolding input_callback
input_callback_lem inputs bounds b law = (
  λ p written. (
    handle_input bounds p [],
    rw (law.from_slice-to_vec p b written) refl,
    handle_input-IsDone bounds p,
  ),
  λ e s unread. rw unread refl,
)

moves_inj : {x y x' y' : ℤ} → move_to x y ∷ [] ≡ move_to x' y' ∷ [] → (x ≡ x') × (y ≡ y')
moves_inj h = ground arith

-- What `f32` and `i32` do at the ends of a monitor's side: 0.0 and 1.0 of it are its ends.
pub record IsExact {F : Type 0} ⦃float : Float F⦄ (zero one : F) (side : ℕ) : Type 0 where
  pub at_zero : float.as_i32 (float.round (float.mul zero (float.of_u32 side))) ≡ pos 0
  pub at_one : float.as_i32 (float.round (float.mul one (float.of_u32 side))) ≡ pos side

-- Moves to the four corners of the picture, which shows the monitor from its offset, go to the
-- corners of a rectangle of the monitor's width and height at the origin, wherever the monitor
-- is; the upper left corner is that of the monitor only if the monitor's offset is 0 on both
-- axes; if numbers are exact at the ends of the sides.
pub handle_input-ignores_offset :
    {F : Type 0} ⦃float : Float F⦄ (bounds : MonitorBounds) (zero one : F)
    → IsExact zero one bounds.w
    → IsExact zero one bounds.h
    → (handle_input bounds (mouse_move zero zero) [] ≡ move_to (pos 0) (pos 0) ∷ [])
      × (handle_input bounds (mouse_move one zero) [] ≡ move_to (pos bounds.w) (pos 0) ∷ [])
      × (handle_input bounds (mouse_move zero one) [] ≡ move_to (pos 0) (pos bounds.h) ∷ [])
      × (handle_input bounds (mouse_move one one) [] ≡ move_to (pos bounds.w) (pos bounds.h) ∷ [])
      × (handle_input bounds (mouse_move zero zero) [] ≡ move_to bounds.x bounds.y ∷ []
          → (bounds.x ≡ pos 0) × (bounds.y ≡ pos 0))
unfolding handle_input
handle_input-ignores_offset bounds zero one wide high = (
  rw (wide.at_zero, high.at_zero) refl,
  rw (wide.at_one, high.at_zero) refl,
  rw (wide.at_zero, high.at_one) refl,
  rw (wide.at_one, high.at_one) refl,
  λ e. moves_inj (sym (rw (wide.at_zero, high.at_zero) at e)),
)
