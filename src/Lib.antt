-- ===== src/Lib.antt =====
-- HAM-router passes packets between amateur radio tranceivers. A tranceiver receives packets (over
-- a KISS serial line, UDP, a LoRa radio and others), makes messages of them and queues them; the main
-- program takes each message from its queue and gives it to the switchboard, which hands it to other
-- tranceivers: to those that a bridge connects with its origin, if the message passes the bridge's
-- filter, and to those of the routes whose regular expressions match its callsigns.
--
-- The parts and their files, each named for the source file that it translates:
--   Common       shared names, lists over the native numbers, bit operations, string keyed maps
--   Crc          crc_ppp.cpp (Crc/Ppp), crc_32.c and hashing.cpp (Crc/Ccitt32), over a bit serial
--                register (Crc/Register) and a bytewise one (Crc/Bytewise, Crc/Table)
--   Net          net.cpp: the byte order functions and WRITE, with the system's write as a parameter
--   Buffer       buffer.cpp: the reads, which throw where too few bytes are left
--   Kiss         tranceiver-kiss.cpp: send_mkiss, recv_mkiss and the thread (Kiss/Thread)
--   Text         str.cpp, and what it and filter.cpp use of std::string
--   Message      message.cpp and db-common.cpp (Message/Types: the types of the fields; Message/Json:
--                the JSON text)
--   Filter       filter.cpp: execute_filter as a scanner (Filter), the expressions and their meaning
--                (Filter/Syntax), and the proof that the scanner computes it
--   Switchboard  switchboard.cpp: the maps and put_message, with regexec and the tranceivers as
--                parameters
--   Ax25         ax25.cpp: addresses and packets
--   Snmp         snmp-elem.cpp: the encoding of replies (Snmp/Oids for object identifiers); snmp.cpp:
--                the reading of requests (Snmp/Requests) and the replies (Snmp/Reply); snmp-data.cpp:
--                the tree of object identifiers (Snmp/Data), and their order (Snmp/Data/Successor)
--   Stats        stats.cpp: the counters in shared memory
--   Gps          gps.cpp: the positions in APRS texts
--   Dissect      dissect-packet.cpp: the fields of a packet (Dissect/Fields for AX.25, Dissect/Total,
--                Dissect/Types)
--   Seen         seen.cpp and rate-limiter.cpp: the filter for repetitions
--   Tranceiver   tranceiver.cpp: the incoming queue, which fills the work list (Tranceiver/Types: the
--                types of the fields of its messages)
--   Axudp        tranceiver-axudp.cpp: sending, receiving and distribution, over Net/Udp
--   Router       main.cpp and work.h: a round of the main thread, and the interleavings of the threads
--   AprsSi       tranceiver-aprs-si.cpp: sending to a server of APRS-IS
--   Lora         tranceiver-lora-sx1278.cpp: receiving and sending (Lora/Waiting for its waits)
--   Beacon       tranceiver-beacon.cpp: a round of the thread, and gps_double_to_aprs of gps.cpp
--   Mqtt         tranceiver-mqtt.cpp and tranceiver-ws.cpp: receiving and sending
--   Database     tranceiver-db.cpp, and the insertion of db-mongodb.cpp
--   Clock        time.cpp: get_us and myusleep
--   Settings     the trees of settings of libconfig, as far as the program reads them
--   Config       configuration.cpp, and the instantiate functions: of the limiter and the position
--                (Config/Limits), of the tranceivers (Config/Devices), the filters (Config/Filters), the
--                mappings (Config/Mappings), the counters (Config/Registry) and the file as a whole
--                (Config/Load). What is shown of them: Config/Connections and Config/Delivery for the
--                mappings, Config/Names for the settings, Config/Identities and Config/Sections
--   Transmit     the results of a transmission in tranceiver.h
--   Runs         runs on concrete inputs
--
-- Names are those of the source in this language's spelling. Bytes and machine integers are numbers
-- with their wrap around written out: a std::size_t wraps at 2^64 (Text.add_size, Text.sub_size) and
-- npos is 2^64 - 1. Strings and byte arrays are lists, a std::map is a list of entries, a tranceiver is a
-- number, a double is its bits. Errors are values: an Outcome tells a result from an exception, the
-- end of the program and a loop that does not end. Mutexes are left out: an operation is
-- modelled as if no other thread came between its parts, also where it takes a lock for a part of it only, as
-- queue_incoming_message and register_stat do. Router.Step takes queue_incoming_message apart at its two
-- locks. Memory that is not released is not modelled.
--
-- Fuel: execute_filter has fuel because there are filters on which it does not end; more fuel than the
-- filter has bytes is enough for every filter that is written as an expression. WRITE has a unit of fuel
-- for each byte, and each round of it writes at least one. The loop of recv_mkiss takes the reads of the
-- device as a list, which ends where the program terminates. The reading of an SNMP request has a unit for
-- each round and each call: two more than the buffer has bytes keep it from running out on every
-- packet; a read behind the buffer stops the model.
--
-- The waits of the radio end after 60 s of its clock; with sleeps of 101 ms or more 596 rounds are enough, and
-- without the fuel the model says that the thread still waits. myusleep has a round for each 100 ms, and one
-- more for the rest.
--
-- The arithmetic on doubles, std::sort, regcomp, regexec and the calls of the operating system are
-- parameters, and so are libconfig, jansson, the clients of MongoDB and mosquitto, the Base64 encoder and
-- the radio driver. The constructors of the tranceivers are their settings and counters; what they open is
-- not part of the model. The threads are modelled where they share the queues: Router.Step has a step for
-- each critical section.
--
-- Not modelled: the terminals and interfaces that the constructors open, the radio driver (a copy of a
-- library), the web interface with its queries of the data base, logging, the printing of the tree of object
-- identifiers, the opening of the shared memory, and the destructors. They are calls of libraries and of the
-- operating system.
pub mod Common
pub mod Config
pub mod Crc
pub mod Transmit
pub mod Net
pub mod Buffer
pub mod Kiss
pub mod Text
pub mod Message
pub mod Filter
pub mod Switchboard
pub mod Ax25
pub mod Settings
pub mod Snmp
pub mod Stats
pub mod Gps
pub mod Dissect
pub mod Seen
pub mod Tranceiver
pub mod Axudp
pub mod AprsSi
pub mod Database
pub mod Lora
pub mod Beacon
pub mod Mqtt
pub mod Clock
pub mod Router
pub mod Runs
