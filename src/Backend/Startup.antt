-- ===== src/Backend/Startup.antt =====
-- hammer/hammeregg_backend/src: the way of a desktop from its form to the signalling server and back,
-- over ui/setup.rs, work.rs, net.rs and ui/keygen.rs, with hammer/hammeregg_rooster/src/main.rs at
-- the other end.
use hammeregg.Prelude.{
  suc, str_append, true, false, ◌∷◌, ◌≡◌, refl, ap, ◌∙◌, none, some, inl, inr, Result, ok, message,
  ◌>>=◌, length, string_keys,
}
use hammeregg.Prelude.HashMap
use hammeregg.Prelude.Net.{SocketAddr}
use hammeregg.Core.Packet.{accepted, home_init_response}
use hammeregg.Core.Wire.{Message, IsCodec, serialize_packet}
use hammeregg.Rooster.Peers.{DesktopAndPeers}
use hammeregg.Rooster.Task.{Env, Shared}
use hammeregg.Rooster.Home.{taken, free}
use hammeregg.Rooster.Home.Greet.{name_taken}
use hammeregg.Rooster.Server.{handshaking, home_greeting, received, connection_step}
use hammeregg.Backend.Handshake.{hello, signalling_handshake}
use hammeregg.Backend.Handshake.Agreement.{handshake_agrees, handshake_refused}
use hammeregg.Backend.Stream.{MonitorBounds}
use hammeregg.Backend.Connect.{Roots, Transport, init_signalling_connection}
use hammeregg.Backend.Connect.Success.{Trusts, load_extra_ca_iff}
use hammeregg.Backend.Ui.Platform
use hammeregg.Backend.Ui.Platform.{
  Platform, Frame, Poll, sent, thread_sent, Background, connect, generate_keys, serve, report_panic,
  RemotePassword,
}
use hammeregg.Backend.Ui.Screen.{SetupScreen, KeygenScreen, next, setup, keygen, running}
use hammeregg.Backend.Ui.Setup
use hammeregg.Backend.Ui.Setup.{try_parse_signalling_server_addr}
use hammeregg.Backend.Ui.Setup.Validation.{IsFilled}
use hammeregg.Backend.Ui.Setup.Update.{edited, update_starts}
use hammeregg.Backend.Ui.Key.{remote_password, gen_home_and_remote_keys}
use hammeregg.Backend.Ui.Running.{connected_label, monitor_bounds, start_serving}
use hammeregg.Backend.Ui.Keygen
use hammeregg.Backend.Ui.Running
use hammeregg.Backend.Ui.App.{update_screen}
use hammeregg.Backend.Ui.Consistent.{IsSound, IsKept}
use hammeregg.Backend.Ui.Consistent.Setup.{IsKept-kept_ca_field}
use hammeregg.Backend.Ui.Consistent.Pending.{update_pending}

module _ ⦃platform : Platform⦄ ⦃roots : Roots⦄ ⦃transport : Transport platform.Wss⦄ ⦃env : Env⦄
    (law : IsCodec env.packets) (init_law : IsCodec env.init_packets) (form : SetupScreen)
    (first second : Frame) (b : Background) (addr : SocketAddr) (s : Shared) (m w : Message)
    (root_store : roots.RootCertStore) (stream : transport.TcpStream) (wss : platform.Wss)
    (sound : IsSound second) (free_form : form.signalling_connection_init ≡ none)
    (clicked : first.button true ≡ true) (filled : IsFilled (edited first form))
    (parsed : try_parse_signalling_server_addr (edited first form) ≡ some addr)
    (trusted : Trusts (edited first form).extra_ca root_store)
    (reached : transport.connect addr ≡ ok stream)
    (secured : transport.client_async_tls "wss://hammeregg.default" stream root_store false
      ≡ ok wss)
    (said : hello ⦃inits = env.init_packets⦄ (edited first form).desktop_name ≡ ok m)
    (delivered : transport.send wss m ≡ ok tt) (answered : transport.next wss ≡ some (ok w))
    (finished : second.connection (length b.spawned)
      ≡ sent (
          init_signalling_connection ⦃inits = env.init_packets⦄ ⦃packets = env.packets⦄
            (edited first form).desktop_name
            addr
            (edited first form).extra_ca)) where
  abbrev pub waiting_form : SetupScreen
  waiting_form = record (edited first form) {
    error_msg = none;
    signalling_connection_init = some (length b.spawned);
  }

  abbrev pub waiting_background : Background
  waiting_background = record b {
    spawned =
        connect form.work_thread (edited first form).desktop_name addr (edited first form).extra_ca
        ∷ b.spawned;
  }

  waits : Setup.update first form b ≡ (ok (next (setup waiting_form) false), waiting_background)
  unfolding Setup.edit
  waits = update_starts first form b addr free_form clicked filled parsed

  -- The task comes to what its handshake comes to.
  connection_of :
      (outcome : Result (Unit {0}))
      → signalling_handshake ⦃inits = env.init_packets⦄ ⦃packets = env.packets⦄
          (edited first form).desktop_name
          (ok tt)
          (some (ok w))
        ≡ outcome
      → init_signalling_connection ⦃inits = env.init_packets⦄ ⦃packets = env.packets⦄
          (edited first form).desktop_name
          addr
          (edited first form).extra_ca
        ≡ (outcome >>= λ done. ok wss)
  unfolding init_signalling_connection
  connection_of outcome e =
      let loaded = (load_extra_ca_iff (edited first form).extra_ca root_store).1 trusted in
      let delivery = ap (λ r. r >>= transport.send wss) said ∙ delivered in
      rw (init_signalling_connection, loaded, reached, secured, delivery, answered, e)

  -- The second frame sees what the handshake comes to.
  joined :
      (outcome : Result (Unit {0}))
      → signalling_handshake ⦃inits = env.init_packets⦄ ⦃packets = env.packets⦄
          (edited first form).desktop_name
          (ok tt)
          (some (ok w))
        ≡ outcome
      → second.connection (length b.spawned) ≡ sent (outcome >>= λ done. ok wss)
  joined outcome e = finished ∙ ap sent (connection_of outcome e)

  form-IsKept : IsKept waiting_form.extra_ca
  unfolding Setup.edit
  form-IsKept = IsKept-kept_ca_field (first.ca_field true (Setup.editable_ca_field form.extra_ca))

  abbrev pub keygen_screen : KeygenScreen
  keygen_screen = record {
    work_thread = waiting_form.work_thread;
    desktop_name = waiting_form.desktop_name;
    signalling_server_addr = waiting_form.signalling_server_addr;
    extra_ca = waiting_form.extra_ca;
    wss = wss;
    error_msg = none;
    password_rx = length waiting_background.spawned;
  }

  abbrev pub keygen_background : Background
  keygen_background = record waiting_background {
    spawned = generate_keys ∷ waiting_background.spawned;
  }

  -- When the filled form is submitted, the server is reached over TLS with the given root
  -- certificates, has no desktop of the name and answers with an acceptance, then the second
  -- frame goes on to the generation of keys, and the frame that sees the keys shows the last
  -- screen under the name that the server has accepted, with a task that answers offers over
  -- that connection with the first of the keys.
  pub desktop_starts :
      (third : Frame) (home_rng remote_rng : platform.Rng) (home remote : platform.PrivateKey)
      (bounds : MonitorBounds) (password : RemotePassword)
      → HashMap.get (edited first form).desktop_name s.desktops ≡ none
      → serialize_packet ⦃c = env.packets⦄ (home_init_response accepted) ≡ ok w
      → third.keys (suc (length b.spawned))
        ≡ thread_sent (gen_home_and_remote_keys home_rng remote_rng)
      → gen_home_and_remote_keys home_rng remote_rng ≡ ok (home, remote)
      → monitor_bounds third ≡ ok bounds
      → remote_password (home, remote) ≡ ok password
      → (connection_step handshaking (received (ok m)) s
          ≡ (home_greeting (edited first form).desktop_name (free w), s))
        × (update_screen first (setup form) b
            ≡ (ok (next (setup waiting_form) false), waiting_background))
        × (update_screen second (setup waiting_form) waiting_background
            ≡ (ok (next (keygen keygen_screen) true), keygen_background))
        × (update_screen third (keygen keygen_screen) keygen_background ≡ (
          ok (
              next
                (running (record {
                  work_thread = form.work_thread;
                  connected_label = connected_label (edited first form).desktop_name;
                  password = some password;
                  error_msg = none;
                }))
                true),
          record keygen_background {
            spawned =
                report_panic form.work_thread (length keygen_background.spawned)
                ∷ serve form.work_thread wss home (platform.to_public_key remote) bounds
                ∷ keygen_background.spawned;
          },
        ))
  unfolding update_screen Keygen.update Keygen.show_keys Keygen.take_keys Running.new start_serving
  desktop_starts third home_rng remote_rng home remote bounds password unknown written looked
        generated monitor made =
      let (agrees, shaken) =
        handshake_agrees law init_law (edited first form).desktop_name s m w said unknown written in
      (
        agrees,
        waits,
        update_pending second waiting_form waiting_background (length b.spawned)
            (Platform.received (inr wss)) sound form-IsKept refl (joined (ok tt) shaken),
        ap (λ answer. Keygen.take_keys third keygen_screen answer keygen_background)
              (looked ∙ ap thread_sent generated)
            ∙ rw (Running.new, monitor, made) refl,
      )

  -- When the filled form is submitted, the first frame starts the task that connects, and no
  -- other, and waits for it; if the server is then reached over TLS and refuses the name
  -- because it has a desktop of that name, the second frame shows the refusal as the error of
  -- the form, which is as it was and can be edited again, and nothing else was started.
  pub taken_name_is_shown :
      (d : DesktopAndPeers)
      → HashMap.get (edited first form).desktop_name s.desktops ≡ some d
      → serialize_packet ⦃c = env.packets⦄ name_taken ≡ ok w
      → (connection_step handshaking (received (ok m)) s
          ≡ (home_greeting (edited first form).desktop_name (taken w), s))
        × (update_screen first (setup form) b
            ≡ (ok (next (setup waiting_form) false), waiting_background))
        × (update_screen second (setup waiting_form) waiting_background ≡ (
          ok (
              next
                (setup (record (edited first form) {
                  error_msg = some (
                      str_append "Error: "
                        (platform.display (message "Requested desktop name was already taken")));
                  signalling_connection_init = none;
                }))
                false),
          waiting_background,
        ))
  unfolding update_screen
  taken_name_is_shown d known written =
      let (refuses, shaken) =
        handshake_refused law init_law (edited first form).desktop_name s m w said d known
          written in
      (
        refuses,
        waits,
        update_pending second waiting_form waiting_background (length b.spawned)
            (Platform.received (inl (message "Requested desktop name was already taken"))) sound
            form-IsKept refl (joined _ shaken),
      )
