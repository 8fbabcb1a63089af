-- ===== src/Lib.antt =====
-- A model of aiobt, a BitTorrent library on asyncio (src/aiobt), with the theorems that its parts
-- do what they are for.
--
-- How the program's parts work together: torrent files and resume files are bencoded
-- (src/aiobt/bencode.py). A torrent session keeps a piece tracker (src/aiobt/piece.py) that knows
-- which pieces are had, pending or failed and how rare each is, and a choking manager
-- (src/aiobt/choking.py) that decides which peers may download. A peer connection
-- (src/aiobt/peer.py) frames the messages of src/aiobt/protocol.py on a socket; the engine
-- (src/aiobt/engine.py) exchanges bit fields, picks pieces from the tracker, requests their blocks
-- and assembles them. The pieces that are had are saved and loaded by src/aiobt/resume.py.
--
-- Which file models what:
--   * Bencode: src/aiobt/bencode.py. `decode`, `decode_all` and `encode` are the public functions,
--     `decode_any`, `decode_list`, `decode_dict`, `decode_int`, `decode_bytes`, `encode_any` and
--     the others the private ones of these names. A memory view with a position is the list of the
--     bytes from the position on; a function returns its value with the bytes behind it.
--   * Piece: src/aiobt/piece.py. The record PieceTracker has the fields of the class, and a method
--     is a function from the tracker to the next one.
--   * Bitfield: Bitfield.has_piece of src/aiobt/protocol.py, the conversions of
--     src/aiobt/engine.py and those of src/aiobt/resume.py.
--   * Protocol: src/aiobt/protocol.py, and PeerConnection.receive_message of src/aiobt/peer.py on
--     the stream of bytes that the peer sends before it closes the connection.
--   * Resume: src/aiobt/resume.py. The payload of save_resume, and load_resume on what the file
--     held, or none where it could not be read.
--   * Storage: src/aiobt/storage. Files is the file queue of queue.py on files by path, without its
--     threads; Disk and Compact are the two backends, and Backend has StorageBackend of base.py and
--     what its documentation promises of it. How pathlib joins the parts of a path is a parameter.
--   * Tracker: src/aiobt/tracker.py. Waiters has the futures of _UDPTrackerProtocol, Udp the connect
--     and announce exchanges, Http the parsing of HTTP responses, Dispatch the choice between them.
--     What arrives while an attempt waits for its future, the HTTP GET and what
--     urllib.parse.urlparse returns are parameters.
--   * Mse: from src/aiobt/mse.py the class RC4 (Rc4), the Diffie-Hellman exchange and the derived
--     keys (Keys), EncryptedStream over a reader that is the list of chunks in which the bytes
--     arrive (Stream), the choice of the crypto method (Negotiation), the reading loops and scans
--     (Wire), and the two sides _mse_initiate_inner and _mse_receive_inner (Handshake). sha1, the
--     private keys and the random paddings are parameters.
--   * Torrent: src/aiobt/torrent.py. Parse has parse_torrent_bytes and its helpers; a text is its
--     bytes, as decoding with surrogateescape loses nothing. hashlib.sha1 is a parameter.
--   * Create: src/aiobt/create.py. _hash_pieces on the contents of the files; Create/Serialize is
--     torrent_to_bytes, and Create/Build create_torrent on what the scan of the paths found
--     and what reading the files gives then. Which
--     texts are UTF-8, the time, and the floating-point logarithm of the piece size are parameters.
--   * Choking: src/aiobt/choking.py. `rechoke` is ChokingManager._rechoke, which returns the next
--     state and the messages that it hands to the connections. random.choice is a parameter.
--   * Engine: from src/aiobt/engine.py the requests for a piece, the cancels of the endgame, the
--     assembly of a piece, in Engine/Endgame the class EndgameState, and in Engine/Start
--     _start_piece. Engine/Loop is run_peer, on the state of Engine/Peer: the local variables and
--     the objects that other tasks share with it; a turn is a message of the peer or a change that others made
--     between two messages, and what is sent and emitted is collected in `out`. Sending succeeds.
--     Where _start_piece raises, the state is the one before its call. The storage is any backend,
--     in the proofs one that meets LinearStorage of Storage/Backend, as both backends do; which peers of the session are connected is a
--     parameter.
--   * Python: what the source uses of the language and its standard library: byte strings, int()
--     and str(), struct, sets and dicts of integers, range and sorted, exceptions as values.
--   * Prelude: Boolean tests and lists over the native numbers.
-- A module's definitions are in the file of its name or, for Bencode, in Value, Decode and Encode;
-- the other files below it hold the proofs, and its Examples runs of the definitions.
--
-- hashlib.sha1 is a parameter wherever it is used. Where a theorem needs that it tells pieces apart,
-- it says so of the byte strings that can be put together from what the peer sent, and of no others.
--
-- Numbers: sizes, offsets, counters and piece indices are natural numbers, as the source keeps
-- them non-negative; bencoded integers are signed and unbounded. Integers of 32 bits are packed
-- with struct.error outside their range. int() and str() refuse more than 4300 digits, as the
-- interpreter does by default.
--
-- Fuel: `decode` starts with twice the length of the buffer and two more, `decode_all` with the
-- length and one more; each call of `decode_any` inside another stands behind a byte that was
-- read, and between two rounds of a loop at least one byte is read, so both are enough for every
-- buffer. The loops over the blocks of a piece have the length of the piece as fuel, and each
-- block has a byte at least. The search of _start_piece has the number of pieces as fuel: each
-- round makes one more piece pending. A UDP request takes nine attempts, as the source does.
-- read_exactly of Mse/Stream, and the loops of Mse/Wire, have the number of bytes that are left
-- to arrive and one more: each round reads a byte.
--
-- Not modelled: sockets, files, timers and tasks; what another task does between two steps of a
-- coroutine, but for the turns of Engine/Loop; the interpreter's memory and its recursion limit, so
-- that `decode` and `load_resume` are not said to raise nothing else; the
-- messages of exceptions as far as the program formats values into them; the Cython variants in
-- src/aiobt/*.pyx; the scan of directories in src/aiobt/create.py, the timeouts of the handshakes,
-- discovery, events, network configuration, and the client.
mod Prelude
pub mod Python
pub mod Bencode
pub mod Piece
pub mod Protocol
pub mod Bitfield
pub mod Resume
pub mod Choking
pub mod Engine
pub mod Storage
pub mod Torrent
pub mod Tracker
pub mod Mse
pub mod Create
