-- ===== src/Lib.antt =====
-- NetReplay: a network forensics tool that captures packets, follows their flows, reassembles TCP streams,
-- filters what it stored, and replays captures.
--
-- The parts and the files that model them (paths from the repository's root):
-- - Packets: the parsed packet of netreplay/core/packets/models.py, which the flow engine reads.
-- - Flows: netreplay/core/flows. Flows/Serial and Flows/Stream are reassembly.py (`seq_lt` and the others,
--   `TcpStream.feed`, `_drain` and `flush`, `TcpReassembler`); Flows/TcpState is `TcpStateMachine` of models.py;
--   Flows/Tracker is `FlowTracker` and `flow_key` of tracker.py; Flows/Lifecycle is lifecycle.py; Flows/Metrics is
--   `TcpMetrics` of tcp_metrics.py; Flows/Conversation is conversation.py, which joins streams, metrics and stream analysers.
-- - Filter: netreplay/core/display_filter.py. Filter/Syntax holds the words and the tree, Filter/Lexer `_tokenize`,
--   Filter/Parser `_Parser` and `compile_filter`, Filter/Eval `_field_value`, `_compare` and `Filter.select`.
-- - Replay: netreplay/core/replay. Replay/Bytes holds slices and big-endian integers, Replay/Checksum, Remap and Address
--   are remap.py (Checksum is its `_checksum`; Replay/Validate/Checksum is the `_ipv4_checksum` of validate.py), and Replay/Validate, Selection, Stats, Timing and Mutation are the files of these names.
-- - Protocols: netreplay/core/protocols. Protocols/Framing is the loop that TlsStreamParser and Http2Parser of streams.py
--   share, a buffer from whose front records are taken; Protocols/TlsStream and Http2 are its two uses, TlsHello the
--   parsers of the hellos, Http1 `Http1Parser`, Streams `analyze_stream_direction`; Tls is tls.py, and Http and Quic, with
--   `analyze_http2` in Http2, are http.py. Hex and Split are formatting and the byte-string methods that these files use.
-- - Jobs: netreplay/core/jobs.py. Jobs is a job and its worker thread as a step relation, Jobs/Registry is `JobManager`.
-- - Storage/Flush: netreplay/core/storage/flush.py. Proxy/Bridge: `_drain_queue` and the status of
--   netreplay/core/proxy/bridge.py. Events/Graph: `EventGraph` of netreplay/core/events/models.py, with `ancestors` in
--   Events/Chains; Events/Closed says what a graph holds. Loss: `_to_markers` of netreplay/core/loss.py.
-- - Sanitize: netreplay/core/sanitize.py, the `Redactor` and, in Sanitize/Session, `sanitize_session` between two databases.
-- - Compare: netreplay/core/compare.py. Compare/Flows and Compare/Identical say when two captures are identical.
-- - Common: lists over native numbers, sorting by a key, dictionaries in insertion order, and the order of texts.
--
-- How they interact: the parser's packets go to `FlowTracker.feed`, which finds the flow of a packet by its key and drives the
-- state machine of a TCP flow; the changes of state become lifecycle events. A conversation takes the TCP packets of a flow:
-- their payloads go to the streams of a `TcpReassembler`, and what it puts together to the stream analysers. Rows of stored
-- packets pass the filters and the selections. A replay takes the selected rows, paces them by the schedule, mutates and
-- remaps their frames and checks them. The sanitizer rewrites frames by the same remapping, with a configuration that it
-- makes of its pseudonyms.
--
-- State is passed explicitly: an operation of a class takes its record and returns the new one, with its result.
-- Python's exceptions are `none`, or a constructor of `Result`. Times are microseconds as natural numbers, and a
-- difference that the code cuts off at 0 is subtraction on naturals. The texts of issues, reasons and summaries are data.
-- `str.lower` and `str.upper` act on ASCII letters. Python's floats are parameters: `Floats` of the filter, and the scaling
-- of a replay's speed. A job's function is a parameter: it returns or raises. The regular
-- expressions of the sanitizer are a parameter: they cut a text into matches and what lies between. So is the order
-- of a comparison's keys by their `repr`.
--
-- Recursion: the parser's fuel is five times the number of tokens and six more, the lexer's is the length of the text and
-- one more, and the fold of a checksum has the sum itself. They are enough since a token is reached through at most five
-- levels of the grammar, a round of the lexer takes a character, and a round of the fold makes the sum smaller. The loops of
-- the stream parsers have the length of the buffer and one more, since what is taken off a buffer makes it shorter, and that
-- of `ancestors` the number of ids and one more, since no id is passed twice; digits are printed with the number itself. In the
-- model of jobs every block that a lock guards, and each test of the worker, is one step.
--
-- Not modelled: the packet parser, the capture backends and the injection, which call scapy; the database, which is SQL; the
-- decryption, which calls cryptography; the DNS analyser, which reads scapy's layers; the web API, the command line and the
-- service, which join the parts; the loop of the bridge and the reports of the other files.
pub mod Common
pub mod Packets
pub mod Flows
pub mod Filter
pub mod Replay
pub mod Jobs
pub mod Storage
pub mod Proxy
pub mod Events
pub mod Loss
pub mod Protocols
pub mod Sanitize
pub mod Compare
