-- ===== src/Lib.antt =====
-- t2_bus: a message bus for one machine or a network. Clients publish messages to topics, subscribe
-- to topics with wildcards, serve topics and send requests to whoever serves one. One server task
-- owns the state of the bus, each client has a task of its own, and they exchange length-prefixed
-- CBOR frames over a transport.
--
-- Parts, and the files that model them:
--   Base, Base/*          lists, maps and tests over the native numbers; a HashMap is an association
--                         list and a HashSet a list without duplicates
--   Text, Topic, Topic/*  src/topic.rs: texts, paths, topics and their segments; Parse has validation,
--                         parsing and the wire form, RoundTrip and Joining are about them and segments
--   Err                   src/err.rs: BusError, and results with a panic beside the error
--   Exec, Exec/Keeps      methods on `&mut self`: a state goes in, a result and a state come out; and
--                         the rules by which methods keep an invariant
--   Directory             src/directory.rs: `struct Directory` is the data type Directory, each method
--                         the function of its name; `_get_subscribers` is collect_step and its
--                         recursion collect_subscribers, `_drop_client` is drop_client_from
--   Directory/View        the abstract view: an owner and a set of subscribers for each topic;
--                         Claims, Subscriptions and Drop say what each operation does to it, Overlap,
--                         Concrete and Matching what the search finds, Routing puts them together,
--                         Reports is about what drop_client returns, WellFormed about duplicates
--   Directory/Registry    a specification without a tree, and operations one after the other;
--                         Refinement is about the tree and the registry, Search about the recursion of
--                         the search
--   Protocol              src/protocol.rs: the messages, and the compression of payloads
--   Codec, Codec/Bounds   src/transport/cbor_codec.rs: decode and encode on a byte buffer
--   Stopper, Stopper/All  src/stopper.rs: BasicStopper and MultiStopper, the latter the functions that
--                         begin with multi
--   Memory                src/transport/memory.rs: the listener, the connector and MemoryTransport, over
--                         tokio's channels, which are a parameter
--   Sockets               src/transport/tcp.rs, unix.rs: opening, accepting and connecting
--   Sockets/Tls           src/transport/tls.rs, connect, TlsListener and the loading of files; Loading is
--                         about files that cannot be read, Accepting about a listener over TLS
--   Server                src/server/core.rs and src/server/mod.rs: `Core` is the record Core, and
--                         process_task, process_msg, request, respond, publish, deliver and run are
--                         the functions of these names; handle is the dispatch of process_msg
--   Server/Invariant      the invariant of the state, along the operations on it; Handlers and Tasks
--                         go on to the handlers and to the loop
--   Server/Requests       requests, responses and timeouts, over Delivery, the branches of deliver;
--                         Publishing and Interruption are about publish, Departure about
--                         deregister_client
--   Server/Stub           src/server/client_stub.rs: serve and its loop, which stand between the server
--                         and a client's transport; Forwarding is about the tasks that it hands on
--   Server/Listen         src/server/listen.rs: the loop that takes connections
--   Server/Builder        src/server/builder.rs: ServerBuilder; Asking and Building are about what is built,
--                         Stopping about a stop message and the tasks of the server
--   Client, Client/*      src/client/core.rs: `ClientCore`, with send, before_send (prepare is its
--                         match), after_receive (receive_ack, receive_rsp, receive_pub, receive_req)
--                         and main_loop (round is one turn of its loop)
--   Client/Api, Calls     src/client/mod.rs: publish_bytes, request, request_bytes, respond, stop_bus and
--                         subscribe_bytes_into, up to the task that each hands to the main loop
--   Client/Typed          src/client/mod.rs and src/client/subscription.rs: the typed publish, serve and
--                         subscribe_into, stop (stop_client), and the tasks that they spawn (forward);
--                         Forwarding is about these, Serving about a task to serve in the main loop
--   System, System/*      a client and the server together: Subscribing, Unsubscribing and Requesting go
--                         from a task of the client to a callback, Calling and Returning from a
--                         request of one client to the other and back; Steps has the states that the
--                         two reach, Owed, Answers, Asking, Sending and Waiting follow the answers to a
--                         request through them, and Safety is about what the client is sent
--   Cli, Cli/*            src/bin/t2.rs: the arms of run are run_register, run_unregister, run_serve,
--                         sub_line, list_topics and pub_payload; Config is about the file, Names about
--                         what names stand for, Serving about run_serve, Values about what is published
--                         and printed
--   Examples, Examples/*  tests, and the properties at concrete inputs
--
-- How they interact: the server and every client keep a Directory each. A client's directory holds its
-- callbacks under message ids, the server's holds client ids. Client 0 is the server itself, which is
-- subscribed to the kill topic.
--
-- Numbers and bounds: u32 counters wrap around, as in a release build. The lists stand in the order
-- in which a HashMap or HashSet is read, which can be any: no theorem depends on it but through the
-- list itself. The search for subscribers runs on fuel 2 * height + 2 * length + 1, where height is
-- that of the tree and length that of the topic: every two calls go one step down the tree or along
-- the topic, so the fuel is never used up. All other functions recurse on the structure
-- of their arguments.
--
-- Parameters: the regex library (Patterns), with what the two patterns of src/topic.rs match as its law;
-- the CBOR library (Cbor) and the gzip library (Gzip), both with their round trip as the one
-- law; the patterns of the command line tool, with what they match, and floating-point numbers; the
-- calls of sockets; the TLS library (Rustls); the channels of the transport in memory (Tokio); and the
-- texts of errors that other libraries print.
--
-- Channels: the channel to a client is its queue and whether the receiver exists. A callback of a
-- client is a number, and what it has been handed is a list of events. The transport of a client is
-- the list of what was sent, and the error that it answers with when it is broken. The task that
-- sleeps until a request times out is an entry in the list of timers; its RequestTimeout arrives among
-- the tasks.
--
-- A connection between a client and the server: what the client has sent waits until the server
-- handles it, and what the server has sent waits in the client's channel, both in their order. The
-- stub and the transport between them are not steps of their own.
--
-- The loop of the server is modelled over the tasks that arrive. That it returns with success on its
-- stop signal is left to the process of a stopper. Opening a listener gives the same result whenever
-- the address is the same, so a builder that is told the same address twice opens both or neither.
--
-- A process: how it stands, whether it still listens for its stop signal, and how it ends on that.
-- The receiver of a typed subscription may be dropped between any two messages.
--
-- Not modelled: the inside of sockets and of TLS, and the connectors; the parsing of command line
-- arguments, which clap does; and debug output.
pub mod Base
pub mod Text
pub mod Topic
pub mod Err
pub mod Exec
pub mod Directory
pub mod Protocol
pub mod Codec
pub mod Memory
pub mod Sockets
pub mod Stopper
pub mod Server
pub mod Client
pub mod System
pub mod Cli
mod Examples
