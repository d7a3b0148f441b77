-- ===== src/Lib.antt =====
-- Verification library of bitprim-network, the peer-to-peer network layer of a bitcoin node.
--
-- The parts of the program. A node (src/p2p.cpp) keeps a pool of addresses of other nodes
-- (src/hosts.cpp), settings (src/settings.cpp), and the collections of its channels. Sessions
-- (src/sessions) make channels: each connects (src/connector.cpp) or accepts (src/acceptor.cpp), registers
-- the channel with the node and attaches protocols to it. A channel (src/channel.cpp over src/proxy.cpp)
-- reads messages from a socket, one after another, and passes each to the subscribers of its type
-- (src/message_subscriber.cpp). Protocols (src/protocols) subscribe to
-- messages, to the stop of their channel and to a timer, and send messages in turn: the handshake of
-- versions, the heartbeat, the exchange of addresses, the seeding of the pool.
--
-- The files. Base and its children pass on the library's names and hold the lists, tests and word
-- arithmetic that the parts share; Code has the error codes of libbitcoin that the program names; Library
-- has libbitcoin's subscribers, with an instance for the tests.
--   Hosts      src/hosts.cpp, include/bitcoin/network/hosts.hpp. The record Hosts is the state, each method
--              a function of its name; Hosts/Calls has the sequences of calls.
--   Messages   src/message_subscriber.cpp and its header: 27 subscribers and the dispatch of a message.
--   Channel    src/proxy.cpp (Channel/Proxy) and src/channel.cpp (Channel/Talk). Channel/Events has what
--              can happen to a channel: reads, sends and timers that end, calls of protocols. Channel/Sending
--              has the queue of messages to send.
--   Protocols  src/protocols. Events and Timer are the base classes; Version, Ping, Seed, Address and
--              Reject the derived ones, where two classes that derive from one another are told apart by
--              a Level. Handshake, Ping/Pending, Seed/Steps and Address/Exchange have what can happen to each.
--   Network    the collections of channels of src/p2p.cpp; Network/Holding has what the calls make of them.
--   Node       the rest of src/p2p.cpp: its start, run and stop sequences. Node/Sequence has what can
--              happen to a node; Node/Broadcast is a message to all channels (p2p.hpp), Node/Pool has the calls
--              that go to the pool.
--   Connector  src/connector.cpp, and in Race what can happen to a connector.
--   Sessions   src/sessions/session.cpp, and in Manual, Batch, Outbound, Inbound and Seed the sessions
--              of these names. A session lists what it asks of others, and what it waits for.
--   Acceptor   src/acceptor.cpp.
--   Settings   src/settings.cpp and its header: the defaults.
-- The modules Examples hold tests and the theorems at concrete inputs.
--
-- How the code is modelled. Each method is one step on its object's state, so that its critical section
-- is whole; calls that libbitcoin makes later, on another thread, are further steps, in any order. A
-- handler is a function on the state where the code calls it on the spot, and else an entry in a list of
-- outputs. Numbers are natural numbers. Where a size_t wraps or an addition saturates, as in
-- Hosts.gap and in the loop of the bulk store, that is written out.
--
-- What libbitcoin does is a parameter: addresses and their text, the circular buffer, random numbers
-- (Hosts/Library), subscribers (Library), the parsers and the checksum (Messages, Channel/Proxy), the
-- synchronizer (Protocols/Library, Sessions/Library), the sequencer (Channel/Library), the collection of
-- pointers (Network/Library). The records that stand for them hold the laws that the code relies on, and
-- each has an instance in the tests.
--
-- Fuel. The loop of the bulk store runs on one more step than the list has addresses; its stride is at
-- least one, so that it ends before. Everything else recurs on a
-- list or on a number that the code counts down.
--
-- What is not modelled: locks and threads, sockets and resolvers, logs, files but for the lines of the
-- hosts file, the time.
pub mod Base
pub mod Code
pub mod Library
pub mod Hosts
pub mod Messages
pub mod Channel
pub mod Protocols
pub mod Network
pub mod Sessions
pub mod Connector
pub mod Acceptor
pub mod Node
pub mod Settings
