-- ===== src/Lib.antt =====
-- The DongLoRa client, a Python library (donglora/) that drives a LoRa USB device over a serial port
-- or a socket. Commands and events are payloads in frames; a frame has a type, a tag and a CRC, and
-- is sent under COBS with a 0x00 behind it. A Session sends commands under fresh tags and waits while
-- its reader thread reads frames and gives each response to the command with its tag. A Dongle is what
-- the user holds; it rebuilds a session that has died and sends a lost configuration again.
--
-- Which file models which part:
--   Prelude, Prelude/*: tests, lists, bits and integers over the native numbers.
--   Python, Python/*: exceptions as results, struct.pack and struct.unpack_from, IntEnum, dict, and
--     the floating-point operations that RX events need.
--   Crc: donglora/crc.py, bit by bit. Crc/Steps and Crc/Detection: its error detection.
--   Frame: donglora/frame.py. encode_frame, decode_frame (parse_frame behind COBS), read_frame over a
--     list of what the transport's reads will give, iter_frames.
--   Modulation, Modulation/*: donglora/modulation.py. A configuration class is a record, its encode
--     and decode are functions of its module. Modulation/Bytewise: the payloads as byte strings.
--   Commands: donglora/commands.py. Errors, Errors/Code: donglora/errors.py. Info, Info/Chip:
--     donglora/info.py. Events, Events/Enums, Events/Rx: donglora/events.py.
--   Session/*: donglora/session.py. State: the attributes; the _Pending objects stand in a list, and
--     a reference to one is its index there, because the dict of pending commands and a waiting thread
--     share it. Send: the calling thread, `begin` up to the wait and `finish` behind it. Response:
--     what a frame does to the command with its tag. Reader: _dispatch, one round of _reader_loop, its
--     exit, close and the queues. Cases: the branches of _dispatch. Loop: the whole _reader_loop.
--     Threads: the threads of a session as a step relation; its children hold what every interleaving
--     keeps. Wire and Carried: what a command and a configuration are on the wire.
--   Connect: _prepare_config of donglora/connect.py. Connect/Open: _open_and_init and _session_on, over
--     an interface for the session.
--   Connect/Transport: which transport donglora/connect.py opens, and _used_mux; Transport/Open: the
--     functions that open one, up to _session_on. Connect/Dial: these functions as a whole, over an
--     interface for the session (Sessions). Discovery: donglora/discovery.py. They are over Host, an
--     interface for the operating system and pyserial. Python/Text: what they use of str.
--   Mux: donglora/transport.py, with what its reads are to read_frame. Codec: donglora/codec.py.
--   Default: donglora/_top_level.py over an interface for connect() and the methods of a Dongle.
--   Dongle: donglora/dongle.py over an interface for the session and the reopener. Dongle/Keepalive:
--     one round of the keepalive thread, and the RX iterator. Dongle/Clock,
--     Dongle/Clock/Gap: its clock. Dongle/Methods: any sequence of methods.
--   Live: the whole client against a device. The interfaces of Dongle and Connect/Open are filled by the
--     sessions of Session/*, over a device that takes wire forms and gives reads. Live/Answers: what a
--     device may answer; Live/Exchange and Live/Commands: one command; Live/Tx, Live/Opening,
--     Live/Quickstart, Live/Recovery and Live/Receive: transmission, connect(), reconnection, reception; Live/Tidy and
--     Live/Methods: what any device leaves behind.
--   Examples/*: runs on concrete inputs.
--
-- An integer field is an unbounded integer, as in Python, and packing it into bytes raises outside the
-- range of the code. An exception is its class; messages are left out. An operation of the Session is
-- one step: threads interleave between operations, not inside one, as the locks and the interpreter
-- give for the dict and the queues; a wait that ends without its event set is a timeout. In Live one
-- thread calls, and the reader thread has handled all that the device gives for a command, or while
-- next_rx waits, before that thread goes on; its fuel is more than the reads, which suffices.
-- The loops of frame.py recur on their input and those of crc.py on a count. The reconnection loop of
-- the Dongle retries for ever, so it recurs on fuel, one unit for each attempt; the theorems about it
-- give fuel for more attempts than fail. The reader loop and the waits for a device and for a socket
-- recur on fuel in the same way, one unit for each round.
--
-- Parameters: the package cobs (Frame.Cobs, with what it documents as Frame.IsCobs); division by ten
-- and rounding of floating-point numbers (Python.Float); the session, the reopener and the wait as a
-- Dongle calls them (Dongle.Services), the session as connect() calls it (Connect/Open.Link), the
-- operating system (Host), the session on a transport (Connect/Dial.Sessions), the dongles of the module
-- functions (Default.Dongles), and the device with the way to it (Live.Device).
--
-- Not modelled: names for display, logging, the times of waits but for those of the keepalive thread,
-- the timeouts of transports, and the re-exports of donglora/__init__.py. int() and lower() are those of ASCII.
pub mod Codec
pub mod Commands
pub mod Connect
pub mod Crc
pub mod Default
pub mod Discovery
pub mod Dongle
pub mod Errors
pub mod Events
pub mod Examples
pub mod Frame
pub mod Host
pub mod Info
pub mod Live
pub mod Modulation
pub mod Mux
pub mod Prelude
pub mod Python
pub mod Session
