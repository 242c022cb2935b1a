-- ===== src/Message/Method.antt =====
-- The method names of crates/mcpdef-core/src/lib.rs that the models use.
use mcpdef.Str.{Str, str}

abbrev pub initialize : Str
initialize = str "initialize"

abbrev pub tools_call : Str
tools_call = str "tools/call"

abbrev pub resources_read : Str
resources_read = str "resources/read"

abbrev pub prompts_get : Str
prompts_get = str "prompts/get"

abbrev pub elicitation_create : Str
elicitation_create = str "elicitation/create"

abbrev pub sampling_create_message : Str
sampling_create_message = str "sampling/createMessage"

abbrev pub roots_list : Str
roots_list = str "roots/list"
