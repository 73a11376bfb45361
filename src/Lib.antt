-- ===== src/Lib.antt =====
-- Loophole: a server that exposes local web servers under subdomains, and its client.
--
-- The client (expose/) connects to the server (server/) over a web socket and registers a
-- subdomain with a token. The server keeps the tunnel in a registry. A visitor's request for a
-- registered subdomain opens a stream through the tunnel; the client forwards it to the local
-- server, and the response comes back the same way. Paths are from the repository's src/ folder.
--
-- Which module models what:
--   Base, Text, Map, Http   lists, results, `str` methods, maps, and the end of a block of headers
--   Proto, Socket           proto/messages.rs, and what a web socket delivers
--   Server.Registry         server/registry.rs: `validate_subdomain`, `register`, `deregister`; Order
--                           and View forget the order of its entries
--   Server.Tunnel           server/tunnel.rs: the counters, `get_stream`
--   Server.Config           server/config.rs: `from_env`, `load`, `load_or_from_env`, the tokens, and
--                           (Toml) what serde makes of a document
--   Server.Proxy            server/proxy.rs: `proxy_request`, in parts of the same order
--   Server.Acme             server/acme.rs: `ChallengeStore`, `request_certificate`,
--                           `certificate_renewal_task`, (Account) the account of the client, and
--                           (Files) the files of a certificate
--   Server.Tls              server/tls.rs: `CertManager`; Requests has its requests side by side,
--                           and Restart joins it with those files
--   Server.Router           server/router.rs: the handlers, the admin API, the routes
--   Server.Handler          server/handler.rs: `handle_websocket`
--   Server.Cleanup          server/mod.rs: `idle_tunnel_cleanup_task`
--   Server.Start            server/mod.rs: `run`, from the configuration to the servers, and its end
--   Server.Sessions         connections, visitors, admin calls and cleanups in any order, as steps
--   Server.Compat           server/compat.rs: a web socket as a stream of bytes
--   Expose.Client           expose/client.rs: `connect` and the waits for the certificate
--   Expose.Run              expose/mod.rs: `run` before its loop (Command) and the loop that connects
--                           again; Connects joins it with the server's handler
--   Expose.Reconnect        expose/reconnect.rs: `next_delay`
--   Expose.Forwarder        expose/forwarder.rs: `handle_tunnel_stream`, `rewrite_host_header`
--   Expose.Stream           expose/tunnel.rs: the client's copy of the stream, `run_tunnel`; Same sets
--                           the copies side by side
--   Console                 the prompts of init.rs and login.rs: a command as steps on the lines of
--                           the terminal and the files
--   Setup                   init.rs: the whole command; Document is its file as a TOML document
--   Cli                     main.rs, client_config.rs, login.rs, test.rs, status.rs: the command line
--                           and the other commands; Status.Admin joins status with the admin API
--   Visit                   a visit through both ends of the tunnel: the server's router and proxy,
--                           and the client's forwarder; Opened begins at the registration
--   Journey                 init, the start of the server's configuration, and login together
--
-- State is passed explicitly: a function takes the registry, the manager or the store and returns
-- the one after the call. Texts are lists of code points, bytes lists of numbers, maps association
-- lists. What other crates, the clock, the network and the file system do is an argument: the list
-- of what the reads of a stream give, whether a write is taken, what the ACME server answers. Where
-- such a list runs out before a loop ends the result says so (`waiting`, `none`); the theorems of
-- termination give lengths that are enough: 65,545 rounds for the head of a response, 31 polls for
-- each wait on the ACME server. JSON texts are an argument, with their round trip as a hypothesis.
--
-- Where commands print and write files, a step is a function from the console to the console and a
-- result (Console.Defs); the rules of its bind, and what steps keep, are in Console.Rules.
--
-- Not modelled: log lines and colours; the listeners, TLS handshakes and signals that server/mod.rs
-- waits for, which are named by what they are started with; the syntax of TOML and JSON, of command
-- lines and of URLs, which other crates read; the wording of errors that come from other crates; a
-- file that is there and cannot be read, save the client's.
-- Floats in the delay of the client are exact numbers here, and the text of a quotient with one
-- decimal (`format_count` of status.rs) is an argument. Paths have no `.` components, and a directory
-- is only what a file may be created in.
pub mod Base
pub mod Text
pub mod Map
pub mod Http
pub mod Proto
pub mod Socket
pub mod Server
pub mod Expose
pub mod Cli
pub mod Console
pub mod Setup
pub mod Journey
pub mod Visit
