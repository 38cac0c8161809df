-- ===== src/Lib.antt =====
-- M365-Copilot2API serves the OpenAI, Anthropic and Responses protocols on top of the chat service of
-- Microsoft 365. This library models the Go code that keeps its state and makes its decisions.
--
-- A request passes the checks of Admin and ApiKeys, then Conversation and Ledger; it gets a tone from
-- Models and an account from Accounts; the chat service answers through Chat and Events; Answers sends
-- the text on, and Tools reads the tool calls in it.
--
-- Conversation.antt: internal/web/tool_state.go, `validateToolConversation`, one message per step.
-- Message.antt and Json.antt: `oaiMsg` of internal/web/server.go and the values of encoding/json.
-- Proxy.antt: `Pool` of internal/outbound/pool.go; Proxy/Health.antt: `Check` and `CheckAll` of
-- internal/outbound/health.go; Proxy/Registry.antt: internal/outbound/proxy.go, which holds the
-- process-wide pool and rebuilds it on every change. `pick` starts every search at `next`, the
-- traffic of the pool calls `mark`, and so does the health check.
-- Admin.antt and Admin/Handlers.antt: internal/web/admin_security.go and the administrator's handlers
-- of internal/web/server.go, which call the limit on failed logins and share the table of sessions
-- with the middleware.
-- ApiKeys.antt: internal/web/keys.go with `adminKeys` and `validAPIKey` of internal/web/server.go; the
-- middleware asks it for every path under `/v1/`.
-- Accounts.antt: internal/auth/cache.go; `EnsureValid` calls `Upsert` with a refreshed token.
-- Accounts/Login.antt: `startPKCE`, `callbackPKCE`, `pkceStatus` and the handlers of the accounts in
-- internal/web/server.go. A callback is two steps, with the request to the identity service between.
-- Ledger.antt and its children: internal/web/agent_ledger.go, which reads the messages that
-- Conversation.antt checks.
-- Sessions.antt: internal/web/sessions.go and internal/web/conversations.go.
-- Settings.antt: internal/web/settings.go. Models.antt: `modelTone` of internal/web/server.go;
-- Models/Catalog.antt: internal/web/codex_catalog.go, on the rows that the settings hold.
-- Schema.antt: internal/web/tooldecision.go.
-- Events.antt: internal/chathub/stream_events.go. Chat.antt, Chat/Deltas.antt, Chat/Frames.antt and
-- Chat/Rounds.antt: internal/chathub/client.go, the text passes, `emitSnapshot`, a frame and the loop of
-- `chatWithHandlers`; a chat is the list of what its socket delivers.
-- Completions.antt and its children: `openaiChat` of internal/web/server.go as a whole, with
-- internal/web/multimodal.go, prompt.go and json_format.go. Completions/Checks.antt calls Conversation,
-- Ledger, Models, Sessions and Accounts in the order of the code, Completions/Routing.antt and
-- Completions/Answering.antt the parsers of Tools, and the chat service, which is a function of all that it
-- was asked before.
-- Answers.antt: the streamed path of `openaiChat`, internal/web/server.go, a handler of those events.
-- Tools.antt: internal/web/toolloop.go; Tools/Fenced.antt, Tools/Native.antt and Tools/Decision.antt:
-- internal/web/fenced_tools.go, internal/web/native_tools.go and internal/web/model_tool_router.go.
-- Protocols.antt, Protocols/Responses.antt and Protocols/Anthropic.antt: internal/web/protocol_compat.go and
-- the blocks of internal/web/protocol_response.go; what they make is a request of Completions.
-- Mcp.antt: internal/mcp/queue.go and internal/mcp/tools.go; Mcp/Dequeue.antt: the blocking `Dequeue`, with
-- its mutex and its condition variable, in steps. Mcp/Server.antt and its children:
-- internal/mcp/server.go, whose handlers are cut into steps where another handler may come in between.
-- Prelude.antt passes on what the modules share.
--
-- Stateful code takes and returns its state; what a mutex guards is one step. The clock, random
-- bytes, files, the environment, the network, regular expressions and the JSON of encoding/json are
-- arguments. A Go string is its list of bytes, a map an association list, a time the nanoseconds since
-- Go's zero time.
--
-- Loops recurse on their list. `first_ready` counts the rounds left of the ring, and starts with one for
-- each entry; `decimal_from` has more fuel than the number has digits; the stripping of white space and
-- `without_spaces` have the length of the text. Failure counts and cooldowns wrap at 64 bits as in Go.
--
-- Not modelled: sockets, HTTP transports, the OAuth endpoints, logging, the file formats on disk, the
-- bytes of a reply, the MCP client, providers of MCP tools that block, panic or change the server themselves,
-- and the streams that translate an answer between wire formats.
pub mod Prelude
pub mod Json
pub mod Message
pub mod Completions
pub mod Conversation
pub mod Protocols
pub mod Proxy
pub mod Admin
pub mod Answers
pub mod ApiKeys
pub mod Accounts
pub mod Ledger
pub mod Sessions
pub mod Tools
pub mod Settings
pub mod Mcp
pub mod Models
pub mod Chat
pub mod Events
pub mod Schema
