-- ===== src/Backend/Connect/Success.antt =====
-- hammer/hammeregg_backend/src/net.rs: when `init_signalling_connection` returns a connection.
use hammeregg.Prelude.{
  String, List, [], ◌∷◌, false, ◌≡◌, ◌↔◌, refl, sym, ◌∙◌, subst, ap, ok, ◌>>=◌, Option, none, some,
  >>=-eq-ok, with_context-bind, ok_inj,
}
use hammeregg.Prelude.Net.{SocketAddr}
use hammeregg.Core.Packet.{
  Bytes, HandshakePacket, HandshakeInitPacket, home_init_response, accepted,
}
use hammeregg.Core.Wire.{Message, Codec, deserialize_packet}
use hammeregg.Backend.Handshake.{hello, signalling_handshake}
use hammeregg.Backend.Handshake.Accepted.{signalling_handshake_iff}
use hammeregg.Backend.Connect.{
  Roots, Transport, add_certs, load_extra_ca, init_signalling_connection,
}

module _ ⦃roots : Roots⦄ where
  -- Every certificate is added, one after the other.
  abbrev pub AddsTo : List Bytes → roots.RootCertStore → roots.RootCertStore → Type 0
  AddsTo [] before after = before ≡ after
  AddsTo (cert ∷ certs) before after =
      (between : roots.RootCertStore) × (roots.add cert before ≡ ok between)
      × AddsTo certs between after

  -- The store holds the roots of the web and those of the file, if one is given.
  abbrev pub Trusts : Option String → roots.RootCertStore → Type 0
  Trusts none root_store = roots.add_server_trust_anchors roots.empty ≡ root_store
  Trusts (some path) root_store =
      (file : Bytes) × (certs : List Bytes) × (roots.open_file path ≡ ok file)
      × (roots.certs file ≡ ok certs)
      × AddsTo certs (roots.add_server_trust_anchors roots.empty) root_store

  add_certs_iff :
      (certs : List Bytes) (before after : roots.RootCertStore)
      → (add_certs certs before ≡ ok after) ↔ AddsTo certs before after
  unfolding add_certs
  add_certs_iff [] before after = (ok_inj, ap ok)
  add_certs_iff (cert ∷ certs) before after = (
    λ h.
        let (between, added, rest) = >>=-eq-ok (roots.add cert before) _ h in
        (between, added, (add_certs_iff certs between after).0 rest),
    λ (between, added, rest). rw (add_certs, added) ((add_certs_iff certs between after).1 rest),
  )

  pub load_extra_ca_iff :
      (extra_ca : Option String) (root_store : roots.RootCertStore)
      → (load_extra_ca extra_ca (roots.add_server_trust_anchors roots.empty) ≡ ok root_store)
        ↔ Trusts extra_ca root_store
  unfolding load_extra_ca
  load_extra_ca_iff none root_store = (ok_inj, ap ok)
  load_extra_ca_iff (some path) root_store = (
    λ h.
        let (file, opened, h') = with_context-bind (roots.open_file path) _ _ h in
        let (certs, read, h'') = >>=-eq-ok (roots.certs file) _ h' in
        (file, certs, opened, read, (add_certs_iff certs _ root_store).0 h''),
    λ (file, certs, opened, read, added).
        rw (load_extra_ca, opened, read) ((add_certs_iff certs _ root_store).1 added),
  )

  module _ {Wss : Type 0} ⦃transport : Transport Wss⦄ ⦃inits : Codec HandshakeInitPacket⦄
      ⦃packets : Codec HandshakePacket⦄ where
    -- The first packet goes out and is accepted.
    abbrev pub IsAccepted : String → Wss → Type 0
    IsAccepted name socket =
        (m : Message) × (w : Message) × (hello name ≡ ok m)
        × (transport.send socket m ≡ ok tt)
        × (transport.next socket ≡ some (ok w))
        × (deserialize_packet w ≡ ok (home_init_response accepted))

    handshake_iff :
        (name : String) (socket : Wss)
        → (signalling_handshake name (hello name >>= transport.send socket) (transport.next socket)
            ≡ ok tt)
          ↔ IsAccepted name socket
    handshake_iff name socket =
        let (to, from) =
          signalling_handshake_iff name (hello name >>= transport.send socket)
            (transport.next socket) in
        (
          λ h.
              let (m, w, said, sent, there, decoded) = to h in
              (m, w, said, sym (ap (λ r. r >>= transport.send socket) said) ∙ sent, there, decoded),
          λ (m, w, said, sent, there, decoded).
              from (m, w, said, ap (λ r. r >>= transport.send socket) said ∙ sent, there, decoded),
        )

    -- A connection comes back exactly when the store has the roots of the web and every
    -- certificate of the extra file, if one is given, the address is reached, TLS without a
    -- server name and the websocket are agreed on, the first packet is sent and the answer is an
    -- acceptance.
    pub init_signalling_connection_iff :
        (name : String) (addr : SocketAddr) (extra_ca : Option String) (socket : Wss)
        → (init_signalling_connection name addr extra_ca ≡ ok socket) ↔ (
            (root_store : roots.RootCertStore) × Trusts extra_ca root_store
            × (stream : transport.TcpStream) × (transport.connect addr ≡ ok stream)
            × (transport.client_async_tls "wss://hammeregg.default" stream root_store false
                ≡ ok socket)
            × IsAccepted name socket)
    unfolding init_signalling_connection
    init_signalling_connection_iff name addr extra_ca socket = (
      λ h.
          let (root_store, loaded, h1) = >>=-eq-ok (load_extra_ca extra_ca _) _ h in
          let (stream, connected, h2) = with_context-bind (transport.connect addr) _ _ h1 in
          let (opened, secured, h3) =
            with_context-bind
              (transport.client_async_tls "wss://hammeregg.default" stream root_store false) _ _
              h2 in
          let (done, shaken, same) = >>=-eq-ok (signalling_handshake name _ _) _ h3 in
          let is_socket = ok_inj same in
          (
            root_store,
            (load_extra_ca_iff extra_ca root_store).0 loaded,
            stream,
            connected,
            secured ∙ ap ok is_socket,
            subst (IsAccepted name) is_socket ((handshake_iff name opened).0 shaken),
          ),
      λ (root_store, trusted, stream, connected, secured, is_accepted).
          rw
            (
              init_signalling_connection,
              (load_extra_ca_iff extra_ca root_store).1 trusted,
              connected,
              secured,
              (handshake_iff name socket).1 is_accepted,
            )
            refl,
    )
