-- ===== src/Lib.antt =====
-- Hammeregg, a remote desktop: a model of its signalling server and of the desktop behind it.
--
-- Rooster (hammer/hammeregg_rooster) is the signalling server. Desktops and remotes connect to it,
-- introduce themselves with a first packet, and from then on Rooster passes the offers of a remote to
-- the desktop that it asked for and the desktop's answers back to the remote. The desktop
-- (hammer/hammeregg_backend) opens an offer, starts a Pion server that streams its screen, seals
-- the answer, and later does the remote's input. Its window leads from a form over the generation of
-- keys to the password that a remote needs. Both use the packets of hammer/hammeregg_core.
--
-- Prelude          results (`anyhow::Result` and panics), hash maps, wrapping integers, UTF-8, texts,
--                  the addresses of `std::net` with their parser, and actions that read and change a
--                  state and may fail, with triples to prove things of them.
-- Core/Packet, Core/Wire, Core/Input
--                  hammer/hammeregg_core/src/lib.rs: the packets, their validators and their encoding.
--                  Core/Validation and Core/RoundTrip hold the proofs.
-- Rooster/Peers    hammer/hammeregg_rooster/src/main.rs, `DesktopAndPeers` and its methods.
-- Rooster/Task     the map behind its lock, the channels, and a task's access to them.
-- Rooster/Home, Rooster/Remote
--                  `handle_home_init` and `handle_remote_init`, each in the pieces that run between two
--                  waits: the answer to the first packet, the registration, one incoming packet (the
--                  body of the closure of `try_for_each`), and the code after `// Disconnect`.
-- Rooster/Server   `handle_connection` as a state machine over these pieces, and the server as its
--                  connections with a schedule of their steps.
-- Rooster/Rendezvous, Rooster/Races
--                  runs of several tasks: one that goes well and three that do not.
-- Rooster/Directory
--                  what the map of the server stands for, and what may happen to it.
-- Rooster/Config   `main` with the start and the loop of accept, `init_logging`, and the validators of
--                  the command line.
-- Backend/Connect, Backend/Handshake
--                  hammer/hammeregg_backend/src/net.rs, `init_signalling_connection`: the way to the
--                  server, and the first packets.
-- Backend/Host     net.rs and pion.rs: what a desktop holds, what it calls, and what its drops do.
-- Backend/Pion     net.rs, `start_pion_server` with its thread, and stream.rs, `stream_video`.
-- Backend/Seal     net.rs, the cryptography of `handle_remote_offer`, and key.rs, the sizes.
-- Backend/Offer    net.rs, `handle_remote_offer` and `handle_signalling_requests`.
-- Backend/Handles  proofs about the connections of the Pion library.
-- Backend/Stopping net.rs, the two drops of a remote and its server, over the channel of
--                  hammer/rtp2rtc/main.go.
-- Backend/Closure  pion.rs, `make_c_closure`.
-- Backend/Input, Backend/Enigo, Backend/Stream
--                  input.rs, `handle_input`, the input closure of net.rs, and stream.rs.
-- Backend/WorkThread
--                  work.rs, `WorkThread::new`.
-- Backend/Ui       hammer/hammeregg_backend/src/ui: Platform has what a frame tells the screens and what
--                  they start (`spawn_task` of work.rs); Setup, Keygen, Running and App are setup.rs,
--                  keygen.rs, running.rs and mod.rs; Screen has the types, Key the keys of key.rs.
--                  Consistent and Packing hold proofs about whole sessions.
-- Backend/Conversation
--                  an offer from a remote through the server to the desktop, and the reply back.
-- Backend/Startup  the form, the task, the server and the screens after them in one run.
-- Tests            small instances of everything foreign, runs, and the theorems at work.
--
-- How code became definitions. A task of Rooster is cut where it waits. Each piece between two waits
-- takes the lock of the map once, so the pieces of all tasks, on however many threads, come in some
-- order: a schedule is any list of them. The look-up of a name and its later
-- insertion are two steps, since the response is sent in between. A channel is a number; what
-- `unbounded_send` answers is a parameter that may depend on all that was done with the channels
-- before. The end of a task drops the receiver of its channel. What an incoming packet is, whether
-- a response could be sent, and when a socket or a channel ends are inputs of the steps. That a channel
-- ends when an entry of the map that had its only sender is removed or replaced is not tied to it: the
-- end may come at any step.
--
-- On the desktop, `start_pion_server` and its thread wait for each other until the thread streams, so
-- they are one sequence of calls; from then on the end of the thread is an incident of its own, at any
-- time. All calls of the Pion library, of the operating system and into the stop flags are recorded
-- in their order, and what they answer is a parameter that may depend on the calls before. A drop is
-- one step there, between two items of the loop, and every stop returns; Backend/Stopping takes the two
-- drops apart, over the channel on which a server's own stop waits for ever. A place
-- of the stack in Backend/Closure ends when it is moved from or its block ends; to read it then is
-- undefined behaviour, which is a result of its own.
--
-- A frame of the window is a function of the screen and of the outside of the frame: what the fields
-- and the button of egui do when they are enabled or not, and what the receivers show, the file dialog
-- answers and the operating system writes. A task or thread that a screen starts is recorded, and its
-- number is the receiver. A session is a list of frames.
--
-- Foreign code is a parameter: the encoding (`Codec`, with the law that it reads back what it wrote),
-- channels (`Env`), cryptography, random numbers, processes and the Pion library (`Services`), the
-- crate enigo and `f32` (`Enigo`, `Float`), rsa, bson and winit under the window (`Platform`), rustls,
-- tokio and tungstenite (`Roots`, `Transport`, `Machine`). The standard library is written out where
-- it matters: `parse` of addresses and ports as the toolchain of the repository has it, on the
-- characters of a text. A `u32` counter wraps at 2 ^ 32, as in a release build. A
-- hash map is an association list. A panic is a third outcome beside success and error. No
-- definition takes fuel but the printing of a number, whose fuel is above the number: the loops are
-- recursions over lists of packets, incidents, frames or steps, and an address has eight groups.
--
-- Not modelled: what clap, TLS and the websocket do inside, the logger, what egui draws, the zeroing of
-- keys, the scheduling of tasks by tokio, the rest of the Go code behind the C interface, and the
-- browser client.
pub mod Prelude
pub mod Core
pub mod Rooster
pub mod Backend
mod Tests
