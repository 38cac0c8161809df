-- ===== src/Completions.antt =====
-- internal/web/server.go: `openaiChat`, the handler of /v1/chat/completions. Content and Prompt make the
-- text for the chat service of a conversation (multimodal.go, prompt.go), Checks is what the handler tests
-- before it asks the service, Routing and Answering what it asks and answers. This file has the request,
-- the chat service as an argument, and what the handler takes from other packages.
pub mod Content
pub mod Prompt
pub mod Checks
pub mod Routing
pub mod Answering
pub mod Serving
mod Samples
mod Tests
use m365_copilot2api.Prelude.{
  ℕ, ◌+◌, List, [], ◌∷◌, ◌++◌, Option, none, some, Bool, Text, Result, ok, err,
}
use m365_copilot2api.Json.{Value, Fields}
use m365_copilot2api.Message.{Message}
use m365_copilot2api.Accounts.{AccountToken, Ambient, Renewal}
use m365_copilot2api.Ledger
use m365_copilot2api.Ledger.{ToolEvidence}
use m365_copilot2api.Sessions
use m365_copilot2api.Tools
use m365_copilot2api.Tools.Native.{Native}
use m365_copilot2api.Tools.Fenced.{Fences}
use m365_copilot2api.Models.{Fold}
use m365_copilot2api.Settings.{ModelMapping}
use m365_copilot2api.Events.{StreamEvent}

-- `chathub.Attachment`, without the fields that JSON leaves out.
pub record Attachment : Type 0 where
  pub kind : Text
  pub url : Text
  pub name : Text
  pub mime_type : Text
  pub detail : Text

-- `chathub.Tool`; the function is JSON text.
pub record Tool : Type 0 where
  pub kind : Text
  pub function : Text

-- `oaiReq`; of `response_format` its type, of `reasoning` its effort. A value that is missing is null.
pub record OaiReq : Type 0 where
  pub model : Text
  pub response_format : Option Text
  pub messages : List Message
  pub stream : Bool
  pub user : Text
  pub account_id : Text
  pub conversation_id : Text
  pub session_id : Text
  pub session_key : Text
  pub attachments : List Attachment
  pub tools : List Tool
  pub functions : List Text
  pub tool_choice : Value
  pub function_call : Value
  pub reasoning : Option Text
  pub reasoning_effort : Text

-- `chathub.Request`, as far as this handler fills it.
pub record ChatRequest : Type 0 where
  pub text : Text
  pub tone : Text
  pub conversation_id : Text
  pub session_id : Text
  pub attachments : List Attachment
  pub tools : List Tool
  pub tool_choice : Value

-- `chathub.Result`, as far as this handler reads it.
pub record ChatResult : Type 0 where
  pub text : Text
  pub conversation_id : Text
  pub session_id : Text
  pub request_id : Text
  pub events : List Text
  pub images : List Text

-- `s.chat`: what it answers to a request may depend on the requests before it.
pub record Upstream : Type 0 where
  pub chat : List ChatRequest → ChatRequest → Result Text ChatResult
  pub chat_events : List ChatRequest → ChatRequest → List StreamEvent × Result Text ChatResult

-- The settings that the handler reads, with the two variables of the environment that come first.
pub record Limits : Type 0 where
  pub planning_mode : Text
  pub model_mappings : List ModelMapping
  pub max_tool_rounds : ℕ
  pub max_tool_calls_per_turn : ℕ
  pub rounds_env : Option Text
  pub calls_env : Option Text

-- What the handler takes from other packages: encoders and decoders of JSON (`decode` that of the request,
-- `decode_function` and `decode_name` those of the function of a tool, `claims` that of a part of a token), `strconv.Atoi` of a number that is not negative, `sort.Strings`,
-- `%v` of a list of texts, the hash of `scopedCallID`, what the store of accounts meets when it refreshes a token, and random
-- identifiers.
pub record Env : Type 0 where
  pub ledger : Ledger.Env
  pub tools : Tools.Env
  pub native : Native
  pub fences : Fences
  pub fold : Fold
  pub ambient : Ambient
  pub limits : Limits
  pub renewal : Renewal
  pub decode : Text → Option OaiReq
  pub decode_function : Text → Option Fields
  pub decode_name : Text → Text
  pub decode_calls : Text → Option (List (Text × Option Fields))
  pub claims : Text → Option Fields
  pub encode_tools : List Fields → Text
  pub encode_calls : List Fields → Text
  pub encode_evidence : List ToolEvidence → List ToolEvidence → Bool → Text
  pub atoi : Text → Option ℕ
  pub sort : List Text → List Text
  pub print_list : List Text → Text
  pub call_hash : Text → Text
  pub uuid : ℕ → Text
  pub can_flush : Bool

-- What the handler changes; `asked` are the requests that the chat service got.
pub record World : Type 0 where
  pub accounts : List AccountToken
  pub sessions : Sessions.Store
  pub asked : List ChatRequest

-- `s.chat.Chat`.
unfoldable pub ask : Upstream → ChatRequest → World → World × Result Text ChatResult
ask up r w = (record w { asked = w.asked ++ r ∷ [] }, up.chat w.asked r)

-- `s.chat.ChatWithEvents`, with the events that its handler gets.
unfoldable pub ask_events :
    Upstream → ChatRequest → World → World × List StreamEvent × Result Text ChatResult
ask_events up r w =
    let (events, answer) = up.chat_events w.asked r in
    (record w { asked = w.asked ++ r ∷ [] }, events, answer)
