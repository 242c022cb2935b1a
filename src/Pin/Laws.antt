-- ===== src/Pin/Laws.antt =====
-- What the store says of a tool after a change, and what `diff` lists.
use mcpdef.Prelude.{
  Option, none, some, ◌≡◌, ◌≢◌, ◌↔◌, inl, inr, refl, sym, ap, ◌∙◌, Bool-cases, eq-false_iff, subst,
}
use mcpdef.Str.{Str, str_eq}
use mcpdef.Str.Laws.{str_eq_iff}
use mcpdef.Table
use mcpdef.Table.{str_key, get, IsMap, contains_key}
use mcpdef.Table.Laws.{get-insert_self, get-insert_ne}
use mcpdef.Pin.{
  unchanged, drift, new_tool, Pins, PinStore, find_pin, pinned_hash, against, check, or_default,
  record_pin,
}

-- After `record`, the tool's pin is the hash given, and a tool of another name or of another
-- server has the pin it had.
pub pinned_hash-record_pin :
    (s : PinStore) (server tool hash : Str)
    → (pinned_hash (record_pin s server tool hash) server tool ≡ some hash)
      × ((server' tool' : Str)
          → ¬ ((server' ≡ server) × (tool' ≡ tool))
          → pinned_hash (record_pin s server tool hash) server' tool' ≡ pinned_hash s server' tool')
unfolding pinned_hash record_pin
pinned_hash-record_pin s server tool hash = (own, others)
  where
    pins : Pins
    pins = or_default (get s.servers server)

    now_there :
        get (Table.insert s.servers server (Table.insert pins tool hash)) server
        ≡ some (Table.insert pins tool hash)
    now_there = get-insert_self s.servers server (Table.insert pins tool hash)

    own :
        find_pin (get (Table.insert s.servers server (Table.insert pins tool hash)) server) tool
        ≡ some hash
    own = rw now_there (get-insert_self pins tool hash)

    default_pin : (o : Option Pins) (t : Str) → get (or_default o) t ≡ find_pin o t
    default_pin none t = refl
    default_pin (some p) t = refl

    others :
        (server' tool' : Str)
        → ¬ ((server' ≡ server) × (tool' ≡ tool))
        → find_pin (get (Table.insert s.servers server (Table.insert pins tool hash)) server') tool'
          ≡ find_pin (get s.servers server') tool'
    others server' tool' d = elim (Bool-cases (str_eq server' server)) [
      | inl e ↦
          let same : server' ≡ server = (str_eq_iff server' server).0 e in
          subst
            (λ x.
              find_pin (get (Table.insert s.servers server (Table.insert pins tool hash)) x) tool'
              ≡ find_pin (get s.servers x) tool')
            (sym same)
            (ap (λ o. find_pin o tool') now_there
              ∙ get-insert_ne pins tool tool' hash (λ t. d (same, t))
              ∙ default_pin (get s.servers server) tool')
      | inr e ↦
          ap (λ o. find_pin o tool')
            (get-insert_ne s.servers server server' (Table.insert pins tool hash)
              ((eq-false_iff (str_eq server' server) (str_eq_iff server' server)).0 e))
    ]

content : {a b : Str} → some a ≡ some b → a ≡ b
content h = cc

-- A drift is a pinned tool whose pin is not its current hash, a match is one whose pin is, and a
-- new tool is one without a pin.
pub check-cases :
    (s : PinStore) (server tool hash : Str)
    → ((check s server tool hash ≡ unchanged) ↔ (pinned_hash s server tool ≡ some hash))
      × ((check s server tool hash ≡ drift)
          ↔ ((pinned : Str) × (pinned_hash s server tool ≡ some pinned) × (pinned ≢ hash)))
      × ((check s server tool hash ≡ new_tool) ↔ (pinned_hash s server tool ≡ none))
unfolding check
check-cases s server tool hash = cases (pinned_hash s server tool)
  where
    cases :
        (o : Option Str)
        → ((against o hash ≡ unchanged) ↔ (o ≡ some hash))
          × ((against o hash ≡ drift) ↔ ((pinned : Str) × (o ≡ some pinned) × (pinned ≢ hash)))
          × ((against o hash ≡ new_tool) ↔ (o ≡ none))
    cases none = ((λ e. cc e, λ e. cc e), (λ e. cc e, λ e. cc e.1), (λ _. refl, λ _. refl))
    cases (some p) = elim (Bool-cases (str_eq p hash)) [
      | inl e ↦
          let same : p ≡ hash = (str_eq_iff p hash).0 e in
          rw e (
            (λ _. ap some same, λ _. refl),
            (λ h. cc h, λ (q, f, d). absurd (d (sym (content f) ∙ same))),
            (λ h. cc h, λ h. cc h),
          )
      | inr e ↦
          let apart : p ≢ hash = (eq-false_iff (str_eq p hash) (str_eq_iff p hash)).0 e in
          rw e (
            (λ h. cc h, λ h. absurd (apart (content h))),
            (λ _. (p, refl, apart), λ _. refl),
            (λ h. cc h, λ h. cc h),
          )
    ]
