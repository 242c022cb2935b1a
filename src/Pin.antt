-- ===== src/Pin.antt =====
-- The pin store: `PinCheck`, `DiffKind`, `ToolDiff` and `PinStore` of crates/mcpdef-pin/src/lib.rs.
-- The `BTreeMap`s are tables, whose order matters nowhere but in `diff`, which sorts its result.
pub mod Laws
pub mod Diff
pub mod Hash
use mcpdef.Prelude.{
  ℕ, ◌+◌, List, [], ◌∷◌, ◌++◌, Option, none, some, Bool, true, false, not, if◌then◌else◌, length,
  ◌==◌,
}
use mcpdef.Str.{Str, str_eq, is_some}
use mcpdef.Table
use mcpdef.Table.{str_key, get, contains_key}

pub data PinCheck : Type 0 where
  unchanged drift new_tool : PinCheck

pub data DiffKind : Type 0 where
  added removed changed : DiffKind

pub record ToolDiff : Type 0 where
  pub tool : Str
  pub kind : DiffKind

abbrev pub Pins : Type 0
Pins = List (Str × Str)

pub record PinStore : Type 0 where
  pub servers : List (Str × Pins)

abbrev pub find_pin : Option Pins → Str → Option Str
find_pin none tool = none
find_pin (some pins) tool = get pins tool

unfoldable pub pinned_hash : PinStore → Str → Str → Option Str
unfolding get str_eq
pinned_hash s server tool = find_pin (get s.servers server) tool

abbrev pub against : Option Str → Str → PinCheck
against none hash = new_tool
against (some pinned) hash = if str_eq pinned hash then unchanged else drift

unfoldable pub check : PinStore → Str → Str → Str → PinCheck
unfolding pinned_hash
check s server tool hash = against (pinned_hash s server tool) hash

abbrev pub or_default : Option Pins → Pins
or_default none = []
or_default (some pins) = pins

-- `record`.
unfoldable pub record_pin : PinStore → Str → Str → Str → PinStore
unfolding Table.insert get str_eq
record_pin s server tool hash = record {
  servers =
      Table.insert s.servers server (Table.insert (or_default (get s.servers server)) tool hash);
}

abbrev pub sum_lengths : List (Str × Pins) → ℕ
sum_lengths [] = 0
sum_lengths ((server, pins) ∷ rest) = length pins + sum_lengths rest

unfoldable pub len : PinStore → ℕ
len s = sum_lengths s.servers

unfoldable pub is_empty : PinStore → Bool
unfolding len
is_empty s = len s == 0

-- What a current tool adds to the differences.
abbrev pub current_diff : Option Str → Str → Str → List ToolDiff
current_diff none tool hash = record { tool = tool; kind = added } ∷ []
current_diff (some p) tool hash =
    if str_eq p hash then [] else record { tool = tool; kind = changed } ∷ []

-- The loop over the current tools.
unfoldable pub current_diffs : Option Pins → Pins → List ToolDiff
unfolding get str_eq
current_diffs pinned [] = []
current_diffs pinned ((tool, hash) ∷ current) =
    current_diff (find_pin pinned tool) tool hash ++ current_diffs pinned current

-- The loop over the pinned tools that are gone.
unfoldable pub removed_diffs : Pins → Pins → List ToolDiff
unfolding get str_eq
removed_diffs current [] = []
removed_diffs current ((tool, hash) ∷ pinned) =
    let rest = removed_diffs current pinned in
    if not (contains_key current tool) then record { tool = tool; kind = removed } ∷ rest else rest

-- `diff`. The library's `sort_by`, by the tool's name, is a parameter.
unfoldable pub diff : (List ToolDiff → List ToolDiff) → PinStore → Str → Pins → List ToolDiff
unfolding get str_eq current_diffs removed_diffs
diff sort_by s server current = sort_by (
    current_diffs (get s.servers server) current
    ++ removed_diffs current (or_default (get s.servers server)))
