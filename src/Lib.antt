-- ===== src/Lib.antt =====
-- claude-tap, a proxy between coding agents and the API of a model that records every call by
-- session: a model of its core in Python, with the theorems that make it correct.
--
-- Parts and files. Paths are from the repository's root.
--   Sse       claude_tap/sse.py: `SSEReassembler`. `feed_bytes` cuts a stream of bytes into lines
--             (Sse, `drain`), `_feed_line` collects the lines of a frame, `add_event` records an
--             event and `_accumulate` builds the snapshot: content blocks in Sse/Blocks, chunks of
--             chat completions in Sse/Chat with its Steps and Tools; what the snapshot shares
--             with recorded events is in Sse/Sharing.
--   Session   claude_tap/claw_session.py (Claw), session_index.py (Index), trace.py (Trace) and
--             session_dispatcher.py (Dispatcher). The dispatcher names a session's directory,
--             hands out its turns, and writes its records by one writer a session; the index keeps
--             one row a session and its last turn.
--   Upstream  claude_tap/upstream_config.py (Config): the target from a file that is polled;
--             gateway_llm.py (Llm): the active model read from the tables of a database, and
--             gateway_upstream.py (Gateway): the store that keeps it.
--   Proxy     claude_tap/proxy.py: headers (Headers), the path allowlist and URLs (Paths), the
--             bodies of WebSocket traces (Websocket), the records of calls (Records), and
--             a call of the API (Handler, on the types of Messages), a WebSocket connection with
--             its relay as a step relation (Relay), and `proxy_handler`, which joins the other
--             parts (Entry).
--   Forward   claude_tap/forward_proxy.py: the bytes to the client (Wire), the requests in a
--             connection's bytes (Reading), what is done with each (Exchange; Upgrade for a
--             WebSocket), the loop over the requests of a CONNECT tunnel (Tunnel), and a whole
--             connection (Client).
--   Live      claude_tap/live.py: what the live viewer keeps of the watched sessions (Buffers), how
--             records are read from a session's file (Loading), and its handlers (Requests).
--   Cursor    claude_tap/cursor_transcript.py: the messages and steps of a transcript (Transcript),
--             and their records (Records).
--   Viewer    claude_tap/viewer.py: what the page needs of a record (Records), and how records are
--             embedded in it (Embedding).
--   Export    claude_tap/export.py: the records of a trace in order, and the JSON format.
--   Command   claude_tap/cli.py: how a client is started, and the removal of old sessions.
--   Identity  claude_tap/cluster_identity.py: the URL of the database and the cluster's hash.
--   Json      the values of `json.loads`; Base has the shared helpers.
-- State is a record that operations take and return; an exception is `none`, `raised` or `failed`,
-- with the state as the code leaves it. A method of the source is a definition of its name, without
-- a leading underscore; a branch that a theorem splits on is a helper by clauses.
--
-- Parameters. `json.loads`, `json.dumps`, `int`, `bytes.decode`, the SHA-256 digest, hexadecimal
-- and AES decoding, decompression, the upstream's answers, the answers of database queries, and
-- what is on disk when a file is opened are arguments. A digest is assumed to have only characters
-- that a slug may have (IsDigest), and the time of modification of the configuration file to tell
-- its texts apart (IsStamped).
--
-- Conventions. Texts and bytes are lists of codes, and `lower` is for ASCII. JSON numbers are
-- integers. Times and dates are numbers. Values are copied; where sse.py lets the snapshot and a
-- recorded event share an object, Sse/Sharing keeps account of it. A turn that a record has as a
-- text is read as 0.
--
-- Fuel. `drain`, the loop of `feed_bytes`, has as many rounds as the buffer has bytes. Each round
-- takes a line with its newline off the buffer, so this is enough: the loop then equals a machine
-- that reads byte by byte, which has no fuel (Sse/Lines). The loops of Forward over the lines of
-- headers and over requests have a round more than there are bytes, and each round takes a byte at
-- least; a loop out of rounds would be `none`, which never comes of them (Forward/Client/Total).
-- `evict` of Live has a round for each buffer and takes one away in each, and
-- `without_timestamps` of Cursor a round for each character and takes some away in each.
--
-- Not modelled: writes of the dispatcher that interleave with others, a client that goes
-- away, the files that are deleted with sessions, the TLS relay of the forward proxy and the
-- timeouts of its connections, the frames of a WebSocket, the Markdown
-- export, the metadata of the page's lazy mode, certificates, the parsing of the command line
-- and the processes it starts, and the port to Rust.
pub mod Base
pub mod Json
pub mod Sse
pub mod Session
pub mod Upstream
pub mod Proxy
pub mod Forward
pub mod Live
pub mod Cursor
pub mod Viewer
pub mod Export
pub mod Command
pub mod Identity
