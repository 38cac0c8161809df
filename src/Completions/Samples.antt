-- ===== src/Completions/Samples.antt =====
-- Requests for one tool, a service that answers them, and an account: the samples of the tests of
-- `openaiChat`.
use m365_copilot2api.Json
use m365_copilot2api.Prelude.{
  none, some, ok, err, true, false, Text, List, [], ◌∷◌, Bool, Result, codes, map, text_eq,
}
use m365_copilot2api.Json.{Fields}
use m365_copilot2api.Message.{Message}
use m365_copilot2api.Completions.{Env, Upstream, World, OaiReq, ChatRequest, ChatResult}
use m365_copilot2api.Completions.Checks.{Accepted, tool_map}
use m365_copilot2api.Completions.Routing.{Reply, tool_response}
use m365_copilot2api.Accounts.{AccountToken}
use m365_copilot2api.Ledger.{ToolEvidence}
use m365_copilot2api.Ledger.Tally.{empty_ledger}

abbrev pub text_ends : Text → Text
text_ends t = t

abbrev pub read_fields : Fields
read_fields = Json.field (codes "name") (Json.str (codes "read")) Json.end

abbrev pub hello : Message
hello = record {
  role = codes "user";
  content = Json.str (codes "hello");
  name = [];
  tool_call_id = [];
  tool_calls = [];
}

-- A request with the tool `read`.
abbrev pub request_of : Bool → Text → OaiReq
request_of streams choice = record {
  model = codes "gpt";
  response_format = none;
  messages = hello ∷ [];
  stream = streams;
  user = [];
  account_id = [];
  conversation_id = [];
  session_id = [];
  session_key = codes "k";
  attachments = [];
  tools = record { kind = codes "function"; function = codes "{}" } ∷ [];
  functions = [];
  tool_choice = Json.str choice;
  function_call = Json.null;
  reasoning = none;
  reasoning_effort = [];
}

-- Every text decodes as the same streamed request, with the token of an account that lacks its identifiers.
abbrev pub env_of : Text → Env
env_of mode = record {
  ledger = record {
    failure_signal = λ t. false;
    unsupported_success = λ t. false;
    lower = text_ends;
    sprint = λ v. [];
    canonical_json = λ t. none;
  };
  tools = record {
    decode = λ t. some (Json.obj Json.end);
    encode = λ v. codes "{}";
    call_id = λ name args i. name;
    lower = text_ends;
  };
  native = record { decode = λ t. none; encode = λ v. []; call_id = λ name args. name };
  fences = record { generic = λ t. []; named = λ t. []; is_tool_call = λ t. false };
  fold = record { lower = text_ends; equal_fold = text_eq };
  ambient = record { now = 5; stamp = []; client_id = [] };
  limits = record {
    planning_mode = mode;
    model_mappings = [];
    max_tool_rounds = 8;
    max_tool_calls_per_turn = 4;
    rounds_env = none;
    calls_env = none;
  };
  renewal = record {
    now = 5;
    refresh = λ t. err [];
    meanwhile = λ es. es;
    later = record { now = 5; stamp = []; client_id = [] };
    unsaved = none;
  };
  decode = λ t. some (request_of true (codes "auto"));
  decode_function = λ t. some read_fields;
  decode_name = λ t. codes "read";
  decode_calls = λ t. some [];
  claims = λ t. some (
      Json.field (codes "oid") (Json.str (codes "o"))
        (Json.field (codes "tid") (Json.str (codes "t")) Json.end));
  encode_tools = λ ts. [];
  encode_calls = λ cs. [];
  encode_evidence = λ cs ps b. [];
  atoi = λ t. none;
  sort = λ ts. ts;
  print_list = λ ts. [];
  call_hash = λ t. t;
  uuid = λ n. [];
  can_flush = true;
}

abbrev pub routing : Env
routing = env_of (codes "router")

abbrev pub says : Text → Result Text ChatResult
says text = ok (record {
  text = text;
  conversation_id = codes "c";
  session_id = codes "s";
  request_id = [];
  events = [];
  images = [];
})

-- A service that is first not understood, then chooses no tool, and in the end the tool.
abbrev pub slow_chat : List ChatRequest → ChatRequest → Result Text ChatResult
slow_chat [] r = says (codes "well")
slow_chat (q ∷ []) r = says (codes "{}")
slow_chat (q ∷ p ∷ qs) r = says (codes "CALL_TOOL: read({})")

abbrev pub slow : Upstream
slow = record { chat = slow_chat; chat_events = λ qs r. ([], says (codes "fine")) }

-- A service that chooses the tool at once.
abbrev pub quick : Upstream
quick = record {
  chat = λ qs r. says (codes "CALL_TOOL: read({})");
  chat_events = λ qs r. ([], says (codes "fine"));
}

abbrev pub account : AccountToken
account = record {
  id = codes "a";
  email = [];
  display_name = [];
  status = [];
  access_token = codes "x.y.z";
  refresh_token = [];
  expires_at = 9000000000000000;
  updated_at = 0;
  oid = [];
  tid = [];
  client_id = [];
}

abbrev pub world : World
world = record { accounts = account ∷ []; sessions = []; asked = [] }

abbrev pub read_before : ToolEvidence
read_before = record {
  id = codes "1";
  name = codes "read";
  arguments = codes "{}";
  result = codes "text";
  failed = false;
}

abbrev pub ready : Bool → Text → Accepted
ready streams choice = record {
  body = request_of streams choice;
  tone = codes "Magic";
  ledger = record empty_ledger { completed = read_before ∷ [] };
  prompt = codes "hello";
  account = record account { oid = codes "o"; tid = codes "t" };
  tool_maps = tool_map routing (record { kind = codes "function"; function = [] }) ∷ [];
}

abbrev pub names_of : Reply → List Text
names_of (tool_response streams model calls res) = map (λ c. c.name) calls
names_of r = []
