-- ===== src/Backend/Stream.antt =====
-- hammer/hammeregg_backend/src/stream.rs: the monitor that is shared, and the command that streams
-- it.
use hammeregg.Prelude.{ℕ, String, List, [], ◌∷◌}
use hammeregg.Prelude.Int.{ℤ}

pub record MonitorBounds : Type 0 where
  pub x : ℤ
  pub y : ℤ
  pub w : ℕ
  pub h : ℕ

-- An argument of the command: a text as it stands, a printed number, `{}x{}`, and
-- `rtp://127.0.0.1:{}`.
pub data Argument : Type 0 where
  text : String → Argument
  integer : ℤ → Argument
  size : ℕ → ℕ → Argument
  address : ℕ → Argument

-- A flag and its value.
abbrev flag : String → Argument → List Argument → List Argument
flag name value rest = text name ∷ value ∷ rest

-- The arguments with which `stream_video` starts ffmpeg.
unfoldable pub ffmpeg_args : MonitorBounds → ℕ → List Argument
ffmpeg_args monitor_bounds port =
    text "-re"
    ∷ flag "-f" (text "gdigrab") (
        flag "-framerate" (text "30") (
          flag "-offset_x" (integer monitor_bounds.x) (
            flag "-offset_y" (integer monitor_bounds.y) (
              flag "-video_size" (size monitor_bounds.w monitor_bounds.h) (
                flag "-show_region" (text "1") (
                  flag "-i" (text "desktop") (
                    flag "-vf" (text "scale='min(1280,iw)':-2") (
                      flag "-vcodec" (text "libvpx") (
                        flag "-cpu-used" (text "5") (
                          flag "-deadline" (text "1") (
                            flag "-crf" (text "30") (
                              flag "-b:v" (text "2M") (
                                flag "-g" (text "10") (
                                  flag "-auto-alt-ref" (text "0")
                                    (flag "-f" (text "rtp") (address port ∷ []))))))))))))))))
