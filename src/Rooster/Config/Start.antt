-- ===== src/Rooster/Config/Start.antt =====
-- hammer/hammeregg_rooster/src/main.rs, `main`: its start, and the end of its loop.
use hammeregg.Prelude.{
  ℕ, String, List, [], ◌∷◌, ◌++◌, map, ◌≡◌, refl, ap, true, Result, ok, err, Error, Option, some,
  ◌>>=◌, with_context,
}
use hammeregg.Prelude.Net.{IpAddr, socket_addr}
use hammeregg.Core.Packet.{Bytes}
use hammeregg.Rooster.Config.{
  Machine, Arg, ip_arg, port_arg, certificates_arg, key_arg, Listening, validate_ip, validate_port,
  validate_certs, validate_key, start, accept_loop, init_logging, main,
}

-- The first error of accept ends the loop, whatever comes later.
accept_loop-stops :
    {A : Type 0} (streams : List A) (e : Error) (later : List (Result A))
    → accept_loop (map ok streams ++ err e ∷ later) ≡ (streams, true)
unfolding accept_loop
accept_loop-stops [] e later = refl
accept_loop-stops (stream ∷ streams) e later =
    ap (λ r. (stream ∷ r.0, r.1)) (accept_loop-stops streams e later)

module _ ⦃machine : Machine⦄ where
  -- The end of the start, with what the arguments stand for.
  abbrev listen : IpAddr → ℕ → List Bytes → Bytes → Result Listening
  listen ip port certs key = do
    config ← with_context (machine.with_single_cert certs key) "Invalid cert/key!"
    listener ← with_context (machine.bind (socket_addr ip port)) "Couldn't bind to port"
    ok (record { addr = socket_addr ip port; config = config; listener = listener })

  module _ (value_of : Arg → Option String) (ip_val port_val certs_val key_val : String)
      (ip : IpAddr) (port : ℕ) (certs : List Bytes) (key : Bytes)
      (has_ip : value_of ip_arg ≡ some ip_val) (has_port : value_of port_arg ≡ some port_val)
      (has_certs : value_of certificates_arg ≡ some certs_val)
      (has_key : value_of key_arg ≡ some key_val) (ip_valid : validate_ip ip_val ≡ ok ip)
      (port_valid : validate_port port_val ≡ ok port)
      (certs_valid : validate_certs certs_val ≡ ok certs)
      (key_valid : validate_key key_val ≡ ok key) where
    start-listen : start value_of ≡ listen ip port certs key
    unfolding start
    start-listen =
        rw
          (
            start, has_ip, ip_valid, has_port, port_valid, has_certs, certs_valid, has_key,
            key_valid,
          )
          refl

    -- When the logger starts, every argument is there and passes its validator at the start as it did
    -- before, and the certificates, the key and the address are taken, then every connection before
    -- the first error of `accept` gets a task, that error ends the server whatever comes later, and
    -- `main` reports no error.
    pub main_ends :
        {A : Type 0} (rust_log rust_log_style : Option String) (config : machine.ServerConfig)
        (listener : machine.TcpListener) (streams : List A) (e : Error) (later : List (Result A))
        → init_logging rust_log rust_log_style ≡ ok tt
        → machine.with_single_cert certs key ≡ ok config
        → machine.bind (socket_addr ip port) ≡ ok listener
        → main rust_log rust_log_style value_of (map ok streams ++ err e ∷ later)
          ≡ ok (streams, true)
    unfolding main
    main_ends rust_log rust_log_style config listener streams e later logs made bound =
        rw (main, logs, start-listen, made, bound, accept_loop-stops streams e later) refl
