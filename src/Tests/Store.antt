-- ===== src/Tests/Store.antt =====
-- The pin store of crates/mcpdef-pin at concrete pins.
use mcpdef.Prelude.{[], ◌∷◌, ◌≡◌, ◌≢◌, ◌↔◌, refl, none, some, In}
use mcpdef.Str.{Str, str}
use mcpdef.Pin.{
  PinStore, Pins, added, unchanged, drift, new_tool, pinned_hash, check, record_pin, diff,
}
use mcpdef.Pin.Laws.{pinned_hash-record_pin, check-cases}
use mcpdef.Pin.Diff.{Differs, diff_iff}

abbrev pins : PinStore
pins = record { servers = (str "github", (str "get_file", str "7b20") ∷ []) ∷ [] }

abbrev current : Pins
current = (str "get_file", str "ffff") ∷ (str "fetch", str "e9c2") ∷ []

pinned_hash-record_pin_example :
    (pinned_hash
        (record_pin pins (str "github") (str "fetch") (str "e9c2"))
        (str "github")
        (str "fetch")
      ≡ some (str "e9c2"))
    × ((server' tool' : Str)
        → ¬ ((server' ≡ str "github") × (tool' ≡ str "fetch"))
        → pinned_hash (record_pin pins (str "github") (str "fetch") (str "e9c2")) server' tool'
          ≡ pinned_hash pins server' tool')
pinned_hash-record_pin_example =
    pinned_hash-record_pin pins (str "github") (str "fetch") (str "e9c2")

check-cases_example :
    ((check pins (str "github") (str "get_file") (str "ffff") ≡ unchanged)
      ↔ (pinned_hash pins (str "github") (str "get_file") ≡ some (str "ffff")))
    × ((check pins (str "github") (str "get_file") (str "ffff") ≡ drift) ↔ (
        (pinned : Str) × (pinned_hash pins (str "github") (str "get_file") ≡ some pinned)
        × (pinned ≢ str "ffff")))
    × ((check pins (str "github") (str "get_file") (str "ffff") ≡ new_tool)
        ↔ (pinned_hash pins (str "github") (str "get_file") ≡ none))
check-cases_example = check-cases pins (str "github") (str "get_file") (str "ffff")

check_run : check pins (str "github") (str "get_file") (str "ffff") ≡ drift
unfolding check
check_run = refl

no_repeat : str "get_file" ≢ str "fetch"
no_repeat e = cc e

pins_once : (str "get_file" ≢ str "fetch") × Unit {0}
pins_once = (no_repeat, tt)

diff_iff_example :
    In (record { tool = str "fetch"; kind = added }) (diff (λ l. l) pins (str "github") current)
    ↔ Differs pins (str "github") current (str "fetch") added
unfolding diff
diff_iff_example =
    diff_iff (λ l. l) (λ d l. (λ h. h, λ h. h)) pins (str "github") current (pins_once, (tt, tt))
      (tt, tt) (str "fetch") added
