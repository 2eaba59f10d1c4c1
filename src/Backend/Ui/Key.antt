-- ===== src/Backend/Ui/Key.antt =====
-- hammer/hammeregg_backend/src/key.rs, the two keys, and hammer/hammeregg_backend/src/ui/running.rs,
-- the password that is made of them and saved.
use hammeregg.Prelude.{ℕ, String, Result, ok, ◌>>=◌, with_context, unwrap_result}
use hammeregg.Core.Packet.{Bytes}
use hammeregg.Backend.Ui.Platform.{Platform, Frame, RemotePassword}

abbrev pub bit_size : ℕ
bit_size = 4096

module _ ⦃platform : Platform⦄ where
  -- Each key with a generator of its own.
  unfoldable pub gen_home_and_remote_keys :
      platform.Rng → platform.Rng → Result (platform.PrivateKey × platform.PrivateKey)
  gen_home_and_remote_keys home_rng remote_rng = do
    home_private_key ← unwrap_result (platform.new_private_key home_rng bit_size)
    remote_private_key ← unwrap_result (platform.new_private_key remote_rng bit_size)
    ok (home_private_key, remote_private_key)

  -- The password that lets a remote connect.
  unfoldable pub remote_password : platform.PrivateKey × platform.PrivateKey → Result RemotePassword
  remote_password (home_private_key, remote_private_key) = do
    home_public_pem ←
        unwrap_result (platform.to_public_key_pem (platform.to_public_key home_private_key))
    remote_private_pem ← unwrap_result (platform.to_pkcs8_pem remote_private_key)
    ok (record { home_public_key = home_public_pem; remote_private_key = remote_private_pem })

  -- The `try` block of a click: the bytes that were written, if both steps succeed.
  unfoldable pub save : Frame → String → RemotePassword → Result Bytes
  save frame file password = do
    bson ← with_context (platform.to_vec password) "Failed to serialize password"
    written ← with_context (frame.write file bson) "Failed to write password"
    ok bson
