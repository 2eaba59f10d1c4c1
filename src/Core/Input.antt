-- ===== src/Core/Input.antt =====
-- hammer/hammeregg_core/src/lib.rs: the packets of the input stream.
use hammeregg.Prelude.{ℕ}
use hammeregg.Prelude.Int.{ℤ}

pub data MouseButton : Type 0 where
  left middle right : MouseButton

pub data SpecialKeyInput : Type 0 where
  alt backspace caps_lock control delete down_arrow end escape : SpecialKeyInput
  f1 f10 f11 f12 f2 f3 f4 f5 f6 f7 f8 f9 : SpecialKeyInput
  home left_arrow meta option page_down page_up return right_arrow : SpecialKeyInput
  shift space tab up_arrow : SpecialKeyInput

-- A `char` and a raw `u16` are numbers.
pub data KeyInput : Type 0 where
  special_key : SpecialKeyInput → KeyInput
  alpha_key : ℕ → KeyInput
  raw_key : ℕ → KeyInput

-- `F` stands for `f32`.
pub data InputPacket (F : Type 0) : Type 0 where
  key_down : KeyInput → InputPacket F
  key_up : KeyInput → InputPacket F
  mouse_down : MouseButton → InputPacket F
  mouse_up : MouseButton → InputPacket F
  mouse_move : F → F → InputPacket F
  mouse_scroll : ℤ → ℤ → InputPacket F
