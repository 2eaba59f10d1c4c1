-- ===== src/Backend/Enigo.antt =====
-- What hammer/hammeregg_backend/src/input.rs uses of the crate `enigo`, and of `f32`.
use hammeregg.Prelude.{ℕ}
use hammeregg.Prelude.Int.{ℤ}

-- The keys and buttons of `enigo` that the program names.
pub data Key : Type 0 where
  alt backspace caps_lock control delete down_arrow end escape : Key
  f1 f10 f11 f12 f2 f3 f4 f5 : Key
  f6 f7 f8 f9 home left_arrow meta option : Key
  page_down page_up return right_arrow shift space tab up_arrow : Key
  layout : ℕ → Key
  raw : ℕ → Key

pub data Button : Type 0 where
  left middle right : Button

-- `Enigo`, by its methods: each changes the state `S` of the computer's input devices.
pub record Enigo (S : Type 0) : Type 0 where
  pub key_down : Key → S → S
  pub key_up : Key → S → S
  pub mouse_down : Button → S → S
  pub mouse_up : Button → S → S
  pub mouse_move_to : ℤ → ℤ → S → S
  pub mouse_scroll_x : ℤ → S → S
  pub mouse_scroll_y : ℤ → S → S

-- `f32`, by the operations that the program uses: `n as f32`, `a * b`, `a.round()`, `a as i32`.
pub record Float (F : Type 0) : Type 0 where
  pub of_u32 : ℕ → F
  pub mul : F → F → F
  pub round : F → F
  pub as_i32 : F → ℤ
