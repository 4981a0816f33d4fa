-- ===== src/Lib.antt =====
-- ruci: a proxy framework. A connection passes through a chain of maps; each map strips or adds one
-- layer and hands on the target address `a`, the bytes that it read too far `b`, the stream `c`, the
-- data `d` and the error `e` (Map). The layers here are trojan and SOCKS5, over the address format
-- that both put on the wire.
--
-- Paths below are from the repository's root.
--   Prelude    lists, bytes, big-endian words and the monad `Buf` of a reader of `BytesMut`
--   Utf8       `String::from_utf8_lossy`; a text is its bytes in UTF-8; splitting and numbers
--   Net        src/net: addr.rs (Net/Addr, and its text in Net/Addr/Url), mod.rs (Net/Cid),
--              http.rs (Net/Http), helpers.rs (Net/Helpers, Net/EarlyData, Net/Mock over tokio's
--              Net/ReadBuf), and the connection that the handshakes read and write (Net/Conn)
--   User       src/user.rs: users and the map that authenticates them
--   Map        src/map/mod.rs: `Stream`, `MapResult`, and a map with its fields (Map/Ext); fold.rs:
--              `fold` over an iterator of maps (Map/Fold), and the tasks that fold what a listener
--              accepts (Map/Listen); http_filter.rs, http_proxy.rs and counter.rs
--   Chain      rucimp/src/modes/chain/config/dynamic.rs: iterators whose next map depends on what
--              the maps before it reported (Chain/Dynamic), which `fold` takes as well
--   Socks5     src/map/socks5: mod.rs (Consts, Diagram), client.rs (Client) and server/mod.rs (Session,
--              Server), where the local variables of the handshake are a record, and its steps
--              a monad over it;
--              the datagrams of both sides are udp.rs (Udp), server/udp2.rs (Server/Udp2), which the
--              handshake calls, and server/udp.rs (Server/Udp), a listener that nothing calls
--   Trojan     src/map/trojan: mod.rs (Consts, Users), client.rs (Client), server.rs (Server) and
--              udp.rs (Writer, Reader)
--   Route      rucimp/src/route/mod.rs: rule sets, and the selector of an outbound (Route/RuleSet);
--              src/relay/route.rs: the other selectors (Route/Selectors)
--   Tests      concrete runs
--
-- How the code is modelled. `&mut self` and `&mut BytesMut` are a state that goes in and comes out.
-- A result is `ok`, `err` or `panic`: a `get_u16` beyond the end panics, and so does a subtraction
-- below zero, as in a debug build. A connection is the list of what its reads will answer, and the
-- bytes written to it; a write succeeds. A poll of a stream is an argument: pending, failed, or the
-- bytes it gave. The hash map is an association list, since nothing depends on its order. SHA-224
-- comes from the sha2 crate and is a parameter, of which the handshake theorems ask 28 bytes.
--
-- A map is a function of the identifier, the behavior and its parameters: what its own reads and
-- writes give is in its answer. The tasks of a listener are a state, and an event is what one of
-- them does next, so that a list of events is one interleaving.
--
-- Fuel. `from_utf8_lossy` takes at least one byte a round, and its fuel is the length. The server's
-- read loop reads at least one byte a round and ends at 1024, which is its fuel. `fold` takes a round
-- for each map that its iterator gives; an iterator may give maps forever, and then there is no fuel.
-- Buffers keep their sizes: a listener of datagrams receives into 1500 bytes, and a longer datagram
-- is cut.
--
-- Not modelled: sockets, TLS, the transports of rucimp, configuration and the command line, which
-- are I/O or calls of other crates; and the relay.
-- Arguments of the definitions: the parser of a textual ip, what the datagram sockets of SOCKS5 give,
-- the resolver of names, the passing of a time limit, base64, URLs, the selectors that Lua
-- implements, ip ranges, regular expressions and the country database.
pub mod Prelude
pub mod Utf8
pub mod Net
pub mod User
pub mod Map
pub mod Socks5
pub mod Trojan
pub mod Route
pub mod Chain
pub mod Tests
