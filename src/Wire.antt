-- ===== src/Wire.antt =====
-- The two revisions of the wire: `WireModel`, `WireMode`, `UpstreamSpec`, `SpecSetting`, the keys of
-- `_meta`, the headers, and what a request says of itself, of crates/mcpdef-core/src/wire.rs. The
-- child modules hold the request's metadata, the headers, the server's replies, the interim results
-- and the parameters that go into headers.
pub mod Meta
pub mod Headers
pub mod Schema
pub mod Params
pub mod Replies
use mcpdef.Prelude.{List, [], ◌∷◌, Option, none, some, Bool, true, false, ◌||◌, if◌then◌else◌}
use mcpdef.Str.{Str, str, str_eq, is_some}
use mcpdef.Json.{Value, get_member}
use mcpdef.Message.{Message, then_get, then_str}
use mcpdef.Message.Method

abbrev pub spec_2025_11_25 : Str
spec_2025_11_25 = str "2025-11-25"

abbrev pub spec_2026_07_28 : Str
spec_2026_07_28 = str "2026-07-28"

abbrev pub known_spec_versions : List Str
known_spec_versions = spec_2026_07_28 ∷ spec_2025_11_25 ∷ []

abbrev pub meta_version : Str
meta_version = str "io.modelcontextprotocol/protocolVersion"

abbrev pub meta_client : Str
meta_client = str "io.modelcontextprotocol/clientInfo"

abbrev pub meta_capabilities : Str
meta_capabilities = str "io.modelcontextprotocol/clientCapabilities"

abbrev pub header_version : Str
header_version = str "mcp-protocol-version"

abbrev pub header_method : Str
header_method = str "mcp-method"

abbrev pub header_name : Str
header_name = str "mcp-name"

abbrev pub param_prefix : Str
param_prefix = str "mcp-param-"

pub data WireModel : Type 0 where
  legacy modern : WireModel

pub data WireMode : Type 0 where
  only_legacy dual only_modern : WireMode

pub data UpstreamSpec : Type 0 where
  v_2025_11_25 v_2026_07_28 : UpstreamSpec

pub data SpecSetting : Type 0 where
  auto set_2025_11_25 set_2026_07_28 : SpecSetting

unfoldable pub pinned : SpecSetting → Option UpstreamSpec
pinned auto = none
pinned set_2025_11_25 = some v_2025_11_25
pinned set_2026_07_28 = some v_2026_07_28

unfoldable pub era : UpstreamSpec → WireModel
era v_2025_11_25 = legacy
era v_2026_07_28 = modern

unfoldable pub version : UpstreamSpec → Str
version v_2025_11_25 = spec_2025_11_25
version v_2026_07_28 = spec_2026_07_28

unfoldable pub served : WireMode → List Str
served only_legacy = spec_2025_11_25 ∷ []
served dual = known_spec_versions
served only_modern = spec_2026_07_28 ∷ []

unfoldable pub serves_legacy : WireMode → Bool
serves_legacy only_legacy = true
serves_legacy dual = true
serves_legacy only_modern = false

unfoldable pub serves_modern : WireMode → Bool
serves_modern only_legacy = false
serves_modern dual = true
serves_modern only_modern = true

unfoldable pub spec_version : WireModel → Str
spec_version legacy = spec_2025_11_25
spec_version modern = spec_2026_07_28

-- `meta`.
abbrev pub meta : Message → Option Value
meta m = then_get m.params (str "_meta")

unfoldable pub protocol_version : Message → Option Str
protocol_version m = then_str (then_get (meta m) meta_version)

unfoldable pub client_info : Message → Option Value
client_info m = then_get (meta m) meta_client

unfoldable pub client_capabilities : Message → Option Value
client_capabilities m = then_get (meta m) meta_capabilities

-- `msg.method() == Some(name)`.
abbrev pub is_method : Message → Str → Bool
is_method m name = elim m.method [ none ↦ false | some called ↦ str_eq called name ]

-- `WireModel::of`.
unfoldable pub of : Message → Option WireModel
unfolding protocol_version str_eq
of m =
    if is_some (protocol_version m)
    then some modern
    else if is_method m Method.initialize
    then some legacy
    else none

unfoldable pub name_field : Str → Option Str
unfolding str_eq
name_field m =
    if str_eq m Method.tools_call || str_eq m Method.prompts_get
    then some (str "name")
    else if str_eq m Method.resources_read
    then some (str "uri")
    else none

abbrev pub field_value : Message → Option Str → Option Str
field_value m none = none
field_value m (some field) = then_str (then_get m.params field)

abbrev pub method_field : Option Str → Option Str
method_field none = none
method_field (some m) = name_field m

unfoldable pub name_value : Message → Option Str
unfolding name_field get_member
name_value m = field_value m (method_field m.method)
