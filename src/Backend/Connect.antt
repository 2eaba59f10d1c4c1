-- ===== src/Backend/Connect.antt =====
-- hammer/hammeregg_backend/src/net.rs: `init_signalling_connection`, from the root certificates to
-- the end of the handshake.
pub mod Success
use hammeregg.Prelude.{
  String, List, [], ◌∷◌, Bool, false, Result, ok, err, panic, ◌>>=◌, ◌>>◌, with_context, Option,
  none, some,
}
use hammeregg.Prelude.Net.{SocketAddr}
use hammeregg.Core.Packet.{Bytes, HandshakePacket, HandshakeInitPacket}
use hammeregg.Core.Wire.{Message, Codec}
use hammeregg.Backend.Handshake.{hello, signalling_handshake}

-- rustls and rustls_pemfile: the store of root certificates, and the reading of a file of them.
pub record Roots : Type 1 where
  pub RootCertStore : Type 0
  pub empty : RootCertStore
  pub add_server_trust_anchors : RootCertStore → RootCertStore
  pub add : Bytes → RootCertStore → Result RootCertStore
  pub open_file : String → Result Bytes
  pub certs : Bytes → Result (List Bytes)

-- tokio and tungstenite: a connection, and a websocket with what its `send` and `next` answer.
pub record Transport ⦃roots : Roots⦄ (Wss : Type 0) : Type 1 where
  pub TcpStream : Type 0
  pub connect : SocketAddr → Result TcpStream
  pub client_async_tls : String → TcpStream → roots.RootCertStore → Bool → Result Wss
  pub send : Wss → Message → Result (Unit {0})
  pub next : Wss → Option (Result Message)

module _ ⦃roots : Roots⦄ where
  -- The loop over the certificates of the file.
  unfoldable pub add_certs : List Bytes → roots.RootCertStore → Result roots.RootCertStore
  add_certs [] root_store = ok root_store
  add_certs (cert ∷ certs) root_store = do
    extended ← roots.add cert root_store
    add_certs certs extended

  unfoldable pub load_extra_ca : Option String → roots.RootCertStore → Result roots.RootCertStore
  unfolding add_certs
  load_extra_ca none root_store = ok root_store
  load_extra_ca (some extra_ca_path) root_store = do
    file ← with_context (roots.open_file extra_ca_path) "Couldn't open root certificate"
    certs ← roots.certs file
    add_certs certs root_store

  module _ {Wss : Type 0} ⦃transport : Transport Wss⦄ ⦃inits : Codec HandshakeInitPacket⦄
      ⦃packets : Codec HandshakePacket⦄ where
    -- `client_async_tls_with_config` takes the store, and that no server name is sent.
    unfoldable pub init_signalling_connection : String → SocketAddr → Option String → Result Wss
    unfolding load_extra_ca hello signalling_handshake
    init_signalling_connection desktop_name addr extra_ca = do
      root_store ← load_extra_ca extra_ca (roots.add_server_trust_anchors roots.empty)
      stream ← with_context (transport.connect addr) "Couldn't connect to signalling server"
      socket ←
          with_context
            (transport.client_async_tls "wss://hammeregg.default" stream root_store false)
            "Couldn't connect to signalling server: TLS or WebSocket handshake failed"
      signalling_handshake desktop_name (hello desktop_name >>= transport.send socket)
          (transport.next socket)
      ok socket
