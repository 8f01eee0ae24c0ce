-- ===== src/Lib.antt =====
-- The SMS relay: ingress connectors (HTTP, SMPP, CSV) put messages on a queue, the engine runs them
-- through a pipeline, and egress connectors submit them to providers, over HTTP or SMPP.
--
-- The files, by the code that they are about:
--   Smpp.Constants     src/relay/smpp/constants.py: ids, statuses, `classify`
--   Smpp.Pdu           src/relay/smpp/pdu.py: Wire (bytes, exceptions), Reader, Writer, Tlv, Types (the
--                      PDU classes), Encode, Decode; Fields, Layout, RoundTrip and Robust hold proofs
--   Smpp.Encoding      src/relay/smpp/encoding.py: Alphabet, Packing, Split, Utf16, Message, Segment
--   Smpp.Server        src/relay/smpp/server.py: `authenticate`, `tps_ok`, `dispatch`, and `serve`, the
--                      loop of `_handle`; Connections (several of them over one server, `Step`,
--                      `Reach`), and the proofs Binds, Overlaps, Rate and Replies
--   Smpp.Session       src/relay/smpp/session.py: the sequence numbers; State (what each task does up to its
--                      next await), Step (their interleavings, `Reach`), and the proofs Flights, Matching,
--                      Closing, Window and Reachable
--   Common.Ids         src/relay/common/ids.py
--   Common.Message     src/relay/common/message.py
--   Common.Numerals    the conversions that the SMPP connectors apply to attributes
--   Common.Config      src/relay/common/config.py
--   Queues.Factory     src/relay/queues/factory.py
--   Queues.Memory      src/relay/queues/memory.py
--   Queues.Sqs         src/relay/queues/sqs.py: sending with retries, deletion, Consumer (`receive`), Urls;
--                      its bodies are in Queues.Bodies, with Queues.Utf8 and Queues.Base64
--   Engine.Pipeline    src/relay/engine/pipeline.py
--   Engine.Handle      src/relay/engine/main.py: `handle`; src/relay/common/worker.py: `worker`
--   Egress.Shaper      src/relay/egress/shaper.py
--   Egress.SmppConnector  src/relay/egress/smpp_connector.py: the submit path; Receipts (`_on_deliver_sm` and
--                      its pattern), Supervise (`_supervise`, with `backoff_delays` of session.py)
--   Egress.HttpConnector  src/relay/egress/http_connector.py
--   Ingress.Publisher  the publisher workers of both network ingresses (`Step`, `Reach`), with the
--                      proofs Drain and Ends
--   Ingress.Http, Ingress.Smpp, Ingress.Csv  src/relay/ingress/*_connector.py
--   Tools.Sink         tools/smpp_sink.py: the simulated provider
--   Base               numbers, lists, texts and dictionaries; Tests runs the code at concrete inputs
--
-- How the code is modelled. Bytes and characters are numbers below 256 and code points; a function
-- that raises returns a Result, an Option or a value of its own. An operation on an object takes the
-- state and returns the new one; an asynchronous operation runs to its end before the next one
-- starts, except where steps that run from one await to the next interleave: in Smpp.Session,
-- Smpp.Server.Connections (whose steps cut a bind only) and Ingress.Publisher. In
-- Egress.SmppConnector, the awaits are parameters that give the state behind them. What the code
-- calls outside the repository is a parameter: the provider behind a session, the SQS and the HTTP
-- client, the serializing libraries, Python's conversions of YAML values, the clock and the random
-- draws. Times are whole microseconds or milliseconds, rates are thousandths, so that floating-point
-- rounding is not modelled.
--
-- Fuel. The loop of `decode_tlvs`, the loop of a connection, the CSV chunks and the SQS chunks take
-- as much fuel as there are bytes or items, of which each round takes one at least. `acquire` of the
-- token bucket counts its rounds.
--
-- Not modelled: what other connections of the server do during the callback of a submit, failed
-- writes and a message id that the response does not hold, sockets, reading of files, the start and
-- stop of the processes, metrics and logging, the load generators and the benchmarks.
pub mod Base
pub mod Smpp
pub mod Common
pub mod Queues
pub mod Engine
pub mod Egress
pub mod Ingress
pub mod Tools
pub mod Tests
