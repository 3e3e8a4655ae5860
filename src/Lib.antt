-- ===== src/Lib.antt =====
-- The agentica server: the part of it that keeps clients, agents, invocations and logs.
--
-- A client opens a session, creates agents in it and opens one socket. The multiplexer of the
-- socket takes the client's messages, starts one task for each invocation and sends back what the
-- agents produce. An agent lets its sandbox and the reading of its inbox run as two tasks, answers
-- the sandbox's calls one at a time, and runs the interaction loop, in which the model writes code
-- and the sandbox executes it. The loop is a computation on the chat, whose actions insert text,
-- capture values and ask the model for a delta, within limits on tokens and rounds. The session
-- manager owns the agents of all sessions, the limit on concurrent invocations that all sockets
-- share, and the log holder, which keeps the last messages of each agent for readers and calls
-- listeners. Each call of an agent goes to a hybrid notifier, which sends a message, writes it to the
-- log holder and tells OpenTelemetry, which traces the agent's session, invocations, requests and
-- tool calls. Code in the sandbox runs on an event loop of its own. A development tool stores the
-- messages of the log and answers queries. The names of models are checked where agents are created,
-- and the versions of SDKs in the routes.
--
-- Files, and the code they are about:
--   Base                    Python's dict, deque and int; Boolean tests; lists
--   Messages/Holder         src/messages/holder.py: `maxdefaultdict` (Bounded) and `Holder`
--   Messages/Notifier       src/messages/notifier.py: `Notifier`, messages to the client and the log
--   Messages/Hybrid         src/messages/hybrid_notifier.py: `HybridNotifier`, both notifiers at once
--   Messages/Otel           src/messages/otel_notifier.py: the spans of one agent
--   Sessions                src/server_session_manager/server_session_manager.py: `Session`
--                           (Members), `ServerSessionManager`, its constructor and spans (Spans),
--                           `loop_on_socket` (Socket), cleanups step by step (Interleaving)
--   Inference               src/com/deltas.py, gen_model.py, actions_model.py, exceptions.py: deltas
--                           and their gluing, token and round limits, retries, errors by status
--   Monads                  src/com/abstract.py, monads_basic.py, actions_basic.py, context.py: the
--                           monad of computations on the chat, its actions and the loop that runs it
--   Interaction             src/agentic/monads/repl_tool/multi_turn/openai.py: the loop of prompts,
--                           code and its results (Rounds, Kept), its chat (Chat), code blocks
--                           (Fences), and the monad of the system message with its examples, from
--                           there and src/agentic/monads/prompter.py (SystemPrompt, SystemChat)
--   Conversion              src/com/conversion: the chat as messages for OpenAI (OpenAi, Texts) or
--                           Anthropic (Anthropic, Turns, Groups), the request with its marks for
--                           the cache (Completions, Breakpoints), responses as deltas (Choices, Answers)
--   Agent                   src/agentic/agent.py: what an agent runs (Running), one task (Prompts), the
--                           system message (System), the two tasks of asyncio (Tasks), the inbox
--                           (Inbox), the end of an agent (Closing)
--   Multiplexer             src/server_session_manager/multiplexer.py: the handlers of client
--                           messages; `_run_invocation` as the stretches between its awaits
--                           (Steps); the end of `run` (Endings, Shutdown); the session manager as
--                           the server behind it (Shared)
--   Transport               src/server_session_manager/transport.py: `WebSocketSender`, the order of its
--                           messages (Order) and failing sends (Failures)
--   Tags                    src/agentic/monads/common.py: the scanner for nested tags
--   PollLoop                src/sandbox/guest/poll_loop.py: the event loop, with `heapq` as an interface
--                           (Heapq), its turns (Turns), their order (Order, Fifo), timers (Timers),
--                           exceptions (Endings), and the policy of loops (Policy)
--   ModelNames              src/agentic/models.py: `ProviderModel`, its parsing and identifiers
--   SdkVersions             src/agentic/version_policy.py: `check_sdk_version`
--   LogStore                src/development/fancy_logger/src/fancy_logger/store.py: `LogStore`
--
-- A definition has the name of its method, without a leading underscore, and takes the object's
-- state last; a method returns what it returns first and the new state last. Ids (uid, iid, cid,
-- match ids) are only compared by the code, and are numbers; 0 stands for the empty text. Log
-- messages, listeners, spans, agents and callbacks are type parameters. What an await can interleave
-- with is written out as separate steps, which may come in any order.
--
-- Fuel: the loops of the tag scanner run on it, where one more than the number of characters is
-- enough when no tag is empty, since each turn consumes a tag; the loop over the timers that are
-- due needs more than the number of timers, and the loop over turns more than the turns until the
-- future is done; the interaction loop one more than the rounds that are left. Every other loop is
-- over a list, over the number of retries, or over the tree of actions (`whileM`, whose tree may
-- be infinite, is left out); a continuation that raises is a leaf of that tree. The limits are the
-- source's: 256 keys, 1024 messages and 128 listeners in a holder, `max_concurrent_invocations`
-- slots, the rounds, retries and tokens of an invocation.
--
-- Not modelled: routes, command line, terminal interface, metrics and HTTP clients (input and
-- output around the parts above); the sandbox host and the code that runs in the sandbox beside
-- its event loop; of that loop `run_forever`, `create_task` and the methods that only refuse; the
-- rendering of templates, which gives a text or an exception; the calls of tools and the check of
-- schemas in the conversion, which the program disables; the defaults that the telemetry events
-- get; the diagnostics of garbage collection, the files of sandbox logs, the attributes of spans.
-- The inference endpoint, which answers a round with a delta that is converted already, the
-- constructor of the sandbox, heaps, versions and their order, the network and the server's own
-- event loop are parameters.
pub mod Base
pub mod Messages
pub mod Sessions
pub mod Multiplexer
pub mod Inference
pub mod Monads
pub mod Tags
pub mod PollLoop
pub mod Interaction
pub mod Agent
pub mod LogStore
pub mod ModelNames
pub mod SdkVersions
pub mod Transport
pub mod Conversion
