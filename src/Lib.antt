-- ===== src/Lib.antt =====
-- A remote procedure call library and the parts of a game around it: serialisation, packages of
-- packets, connections, sessions, and chains of asynchronous calls. All but the search of the
-- map, the choice of moves and the operations of a player is in common/rrpc.
--
-- How the parts work together. A session (old/session.hpp) turns a call into a packet: a header
-- and the arguments, saved by an archive (trivial_binary_oarchive.hpp) that encodes integers by
-- encode.hpp. A package (old/package.hpp) collects packets and their sizes. A connection
-- (old/connection.hpp) sends packages, takes a received package apart, and hands each packet to
-- the session that its header names. The macros of old/idl.hpp make the two sides of each method
-- of an interface, which call a session and are called by one. connection.hpp is a second
-- connection that queues packets and frames them itself. async_ops.hpp orders callbacks on an
-- io_service. container_device.hpp makes a container a device for the archives, object_pool.hpp
-- keeps objects for reuse, mpsc_queue.hpp holds pointers in a ring, session.hpp sends datagrams
-- again until they are reported, conversion.hpp changes byte orders, and old/integer_sequence.hpp
-- computes with sequences of template arguments.
--
-- Which file models which part, with the source under common/rrpc:
--   Codec: encode.hpp, decode.hpp and fixed.hpp; encode and decode as encode_unsigned,
--     decode_unsigned and so on, a function for each kind of type, and Codec.Kinds the choice.
--   Archive and Archive.Trivial: the archives, as an interface and its instance by the codec.
--     Archive.Strings: the strings of trivial_binary_oarchive.hpp.
--   Endian: conversion.hpp.    Seq: old/integer_sequence.hpp.    Header: old/header.hpp.
--   Package: package and ipackage of old/package.hpp.    Session: old/session.hpp.
--   Dispatch: old/connection.hpp.    Connection: connection.hpp.
--   Chain: async_ops.hpp, one thread at a time, and Chain.Threads: complete and run of chain_impl by
--     several threads, a step at a time, with their mutex.
--   Device: container_device.hpp.    Datagram: session.hpp.
--   Idl: old/idl.hpp, InterfaceInvoker of old/session.hpp, and the call of an implementation by
--     local_client.hpp.    Remote: a client and a server, from the call of a method, or a
--     batch of calls, to what the server does and answers.
--   Interface: idl.hpp and local_client.hpp.    Pool: object_pool.hpp.    Ring: mpsc_queue.hpp.
--   Search and Think: the two functions of src/logic/visitor.h, not under common/rrpc.
--   Operation: src/logic/operation.h, not under common/rrpc.
--   Base and Io: numbers, lists, bytes and the byte streams that the other files share.
-- A class is a record of its members, and a member function is a function from the record before
-- to the record after, under the name of the source without its underscore; a fault is none.
-- Sockets, timers and io_services are outside: a pending operation is part of the state and its
-- completion is a call of the handler. The archive, the functions of the interfaces and what they
-- read are parameters.
--
-- Integers are natural numbers, and a signed integer is its bit pattern. The wrap-around of a type is
-- written out where the code computes with sizes, ids, shifts and positions, and the `int` of a
-- vector's loop past its range is an outcome of its own; elsewhere, as in the counters of a chain, a
-- number is not bounded. The decoder has eleven rounds, one more than the ten groups of a 64-bit
-- number: a shift beyond its width ends it earlier. The choice of the best moves recurses as deep
-- as the game is long, and needs more fuel than a rank that each move lowers. The loop over
-- packet sizes has rounds given by its caller, of which it uses one for each size and one for the
-- end. The loops of seq recurse on a distance, with as many rounds as the caller gives. The ring
-- has 16 bits for an index, as the second queue of its file has.
--
-- Not modelled: boost::serialization, to which the archives fall back, the lifetime of shared
-- objects (a destructor is the call of run that it makes), the game's rules and map beside the
-- two functions of visitor.h and the operations, files that are commented out for the most part
-- (packet.hpp, old/streambuf.hpp) or have the text of another one (connection_old.hpp,
-- old/conversion.hpp), and the programs that print.
pub mod Base
pub mod Io
pub mod Chain
pub mod Codec
pub mod Datagram
pub mod Device
pub mod Dispatch
pub mod Endian
pub mod Pool
pub mod Ring
pub mod Search
pub mod Seq
pub mod Archive
pub mod Header
pub mod Package
pub mod Operation
pub mod Idl
pub mod Interface
pub mod Connection
pub mod Session
pub mod Think
pub mod Remote
