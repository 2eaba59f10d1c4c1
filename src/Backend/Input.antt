-- ===== src/Backend/Input.antt =====
-- hammer/hammeregg_backend/src/input.rs: a remote's input packet becomes input of the computer.
pub mod Laws
use hammeregg.Prelude.{ℕ, Bool, not, if◌then◌else◌, ◌==◌, Result, ok, err, panic, with_context}
use hammeregg.Core.Packet.{Bytes}
use hammeregg.Core.Wire.{Codec}
use hammeregg.Prelude.Int.{ℤ, pos, int_keys}
use hammeregg.Core.Input.{
  InputPacket, key_down, key_up, mouse_down, mouse_up, mouse_move, mouse_scroll, KeyInput,
  special_key, alpha_key, raw_key, MouseButton, SpecialKeyInput,
}
use hammeregg.Backend.Stream.{MonitorBounds}
use hammeregg.Backend.Enigo.{Key, Button, Enigo, Float}

convert_special_key : SpecialKeyInput → Key
convert_special_key SpecialKeyInput.alt = Key.alt
convert_special_key SpecialKeyInput.backspace = Key.backspace
convert_special_key SpecialKeyInput.caps_lock = Key.caps_lock
convert_special_key SpecialKeyInput.control = Key.control
convert_special_key SpecialKeyInput.delete = Key.delete
convert_special_key SpecialKeyInput.down_arrow = Key.down_arrow
convert_special_key SpecialKeyInput.end = Key.end
convert_special_key SpecialKeyInput.escape = Key.escape
convert_special_key SpecialKeyInput.f1 = Key.f1
convert_special_key SpecialKeyInput.f10 = Key.f10
convert_special_key SpecialKeyInput.f11 = Key.f11
convert_special_key SpecialKeyInput.f12 = Key.f12
convert_special_key SpecialKeyInput.f2 = Key.f2
convert_special_key SpecialKeyInput.f3 = Key.f3
convert_special_key SpecialKeyInput.f4 = Key.f4
convert_special_key SpecialKeyInput.f5 = Key.f5
convert_special_key SpecialKeyInput.f6 = Key.f6
convert_special_key SpecialKeyInput.f7 = Key.f7
convert_special_key SpecialKeyInput.f8 = Key.f8
convert_special_key SpecialKeyInput.f9 = Key.f9
convert_special_key SpecialKeyInput.home = Key.home
convert_special_key SpecialKeyInput.left_arrow = Key.left_arrow
convert_special_key SpecialKeyInput.meta = Key.meta
convert_special_key SpecialKeyInput.option = Key.option
convert_special_key SpecialKeyInput.page_down = Key.page_down
convert_special_key SpecialKeyInput.page_up = Key.page_up
convert_special_key SpecialKeyInput.return = Key.return
convert_special_key SpecialKeyInput.right_arrow = Key.right_arrow
convert_special_key SpecialKeyInput.shift = Key.shift
convert_special_key SpecialKeyInput.space = Key.space
convert_special_key SpecialKeyInput.tab = Key.tab
convert_special_key SpecialKeyInput.up_arrow = Key.up_arrow

unfoldable pub convert_key : KeyInput → Key
unfolding convert_special_key
convert_key (special_key s) = convert_special_key s
convert_key (alpha_key c) = Key.layout c
convert_key (raw_key c) = Key.raw c

unfoldable pub convert_button : MouseButton → Button
convert_button MouseButton.left = Button.left
convert_button MouseButton.middle = Button.middle
convert_button MouseButton.right = Button.right

abbrev is_zero : ℤ → Bool
is_zero n = n == pos 0

-- `(a * n as f32).round() as i32`
scale : {F : Type 0} ⦃float : Float F⦄ → F → ℕ → ℤ
scale ⦃float⦄ a n = float.as_i32 (float.round (float.mul a (float.of_u32 n)))

module _ {S F : Type 0} ⦃enigo : Enigo S⦄ ⦃float : Float F⦄ where
  unfoldable pub handle_input : MonitorBounds → InputPacket F → S → S
  unfolding scale
  handle_input bounds (key_down key) s = enigo.key_down (convert_key key) s
  handle_input bounds (key_up key) s = enigo.key_up (convert_key key) s
  handle_input bounds (mouse_down butt) s = enigo.mouse_down (convert_button butt) s
  handle_input bounds (mouse_up butt) s = enigo.mouse_up (convert_button butt) s
  handle_input bounds (mouse_move x y) s =
      enigo.mouse_move_to (scale x bounds.w) (scale y bounds.h) s
  handle_input bounds (mouse_scroll x y) s =
      let t = if is_zero x then s else enigo.mouse_scroll_x x s in
      if is_zero y then t else enigo.mouse_scroll_y y t

  abbrev pub on_packet : MonitorBounds → Result (InputPacket F) → S → Result S
  on_packet bounds (ok packet) s = ok (handle_input bounds packet s)
  on_packet bounds (err e) s = ok s
  on_packet bounds panic s = panic

  -- The callback for the input of a remote: what cannot be read is only logged.
  unfoldable pub input_callback : Codec (InputPacket F) → MonitorBounds → Bytes → S → Result S
  unfolding handle_input
  input_callback inputs bounds input_packet s =
      on_packet bounds
        (with_context (inputs.from_slice input_packet) "Failed to deserialize packet") s
