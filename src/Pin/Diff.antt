-- ===== src/Pin/Diff.antt =====
-- What `diff` lists.
use mcpdef.Prelude.{
  List, [], ◌∷◌, ◌++◌, Option, none, some, true, false, not, ◌≡◌, ◌↔◌, ◌⊎◌, inl, inr, refl, sym, ap,
  ◌∙◌, Any, In, Bool-cases, Option-cases, subst, In-append_left, In-append_right, In-append,
}
use mcpdef.Str.{Str, str_eq}
use mcpdef.Table.{str_key, get, IsMap, contains_key}
use mcpdef.Table.Laws.{Any-get, get-Any}
use mcpdef.Pin.{
  drift, new_tool, DiffKind, added, removed, changed, ToolDiff, Pins, PinStore, find_pin,
  pinned_hash, against, check, or_default, current_diff, current_diffs, removed_diffs, diff,
}

-- How a tool differs: an added tool is a current one that `check` calls new, a changed one is a
-- current one that `check` calls a drift, and a removed one is pinned and not current.
abbrev pub Differs : PinStore → Str → Pins → Str → DiffKind → Type 0
Differs s server current tool added =
    (hash : Str) × (get current tool ≡ some hash) × (check s server tool hash ≡ new_tool)
Differs s server current tool changed =
    (hash : Str) × (get current tool ≡ some hash) × (check s server tool hash ≡ drift)
Differs s server current tool removed =
    (pinned : Str) × (pinned_hash s server tool ≡ some pinned) × (get current tool ≡ none)

abbrev item : Str → DiffKind → ToolDiff
item tool kind = record { tool = tool; kind = kind }

-- The kind that an entry of the current tools is listed with.
abbrev Listed : Option Str → Str → DiffKind → Type 0
Listed o hash added = against o hash ≡ new_tool
Listed o hash changed = against o hash ≡ drift
Listed o hash removed = ⊥

unlisted : (p hash : Str) (kind : DiffKind) → str_eq p hash ≡ true → ¬ Listed (some p) hash kind
unlisted p hash added e h = cc (rw e at h)
unlisted p hash changed e h = cc (rw e at h)
unlisted p hash removed e h = h

Listed-kind : (p hash : Str) (kind : DiffKind) → Listed (some p) hash kind → kind ≡ changed
Listed-kind p hash added h = elim (Bool-cases (str_eq p hash)) [
  | inl e ↦ cc (rw e at h)
  | inr e ↦ cc (rw e at h)
]
Listed-kind p hash changed h = refl
Listed-kind p hash removed h = absurd h

current_diff_iff :
    (o : Option Str) (t hash tool : Str) (kind : DiffKind)
    → In (item tool kind) (current_diff o t hash) ↔ ((t ≡ tool) × Listed o hash kind)
current_diff_iff none t hash tool added = (
  λ h. elim h [ inl e ↦ (ap (λ d. d.tool) e, refl) | inr g ↦ absurd g ],
  λ h. inl (ap (λ x. item x added) h.0),
)
current_diff_iff none t hash tool changed =
    (λ h. elim h [ inl e ↦ cc (ap (λ d. d.kind) e) | inr g ↦ absurd g ], λ h. cc h.1)
current_diff_iff none t hash tool removed =
    (λ h. elim h [ inl e ↦ cc (ap (λ d. d.kind) e) | inr g ↦ absurd g ], λ h. absurd h.1)
current_diff_iff (some p) t hash tool kind = elim (Bool-cases (str_eq p hash)) [
  | inl e ↦ (λ h. absurd (rw e at h), λ h. absurd (unlisted p hash kind e h.1))
  | inr e ↦ (
    λ h. elim (rw e at h) [
      | inl f ↦ (ap (λ d. d.tool) f, subst (Listed (some p) hash) (ap (λ d. d.kind) f) (rw e refl))
      | inr g ↦ absurd g
    ],
    λ h. rw e (inl (rw (h.0, Listed-kind p hash kind h.1) refl)),
  )
]

current_diffs_iff :
    (pinned : Option Pins) (current : Pins) (tool : Str) (kind : DiffKind)
    → In (item tool kind) (current_diffs pinned current)
      ↔ Any (λ e. (e.0 ≡ tool) × Listed (find_pin pinned e.0) e.1 kind) current
unfolding current_diffs
current_diffs_iff pinned [] tool kind = (λ h. absurd h, λ h. absurd h)
current_diffs_iff pinned ((t, hash) ∷ current) tool kind =
    let (to, from) = current_diff_iff (find_pin pinned t) t hash tool kind in
    let (later, earlier) = current_diffs_iff pinned current tool kind in
    let first = current_diff (find_pin pinned t) t hash in
    (
      λ h. elim (In-append (item tool kind) first (current_diffs pinned current) h) [
        | inl g ↦ inl (to g)
        | inr g ↦ inr (later g)
      ],
      λ h. elim h [
        | inl g ↦ In-append_left (item tool kind) first (current_diffs pinned current) (from g)
        | inr g ↦ In-append_right (item tool kind) first (current_diffs pinned current) (earlier g)
      ],
    )

contains_key-cases :
    (current : Pins) (t : Str)
    → ((get current t ≡ none) × (not (contains_key current t) ≡ true))
      ⊎ ((not (contains_key current t) ≡ false) × ¬ (get current t ≡ none))
contains_key-cases current t = elim (Option-cases (get current t)) [
  | inl e ↦ inl (e, rw e refl)
  | inr (v, e) ↦ inr (rw e refl, λ h. cc (sym h ∙ e))
]

removed_diffs_iff :
    (current pinned : Pins) (tool : Str) (kind : DiffKind)
    → In (item tool kind) (removed_diffs current pinned)
      ↔ Any (λ e. (removed ≡ kind) × (e.0 ≡ tool) × (get current e.0 ≡ none)) pinned
unfolding removed_diffs
removed_diffs_iff current [] tool kind = (λ h. absurd h, λ h. absurd h)
removed_diffs_iff current ((t, hash) ∷ pinned) tool kind =
    let (to, from) = removed_diffs_iff current pinned tool kind in
    elim (contains_key-cases current t) [
      | inl (gone, e) ↦ rw e (
        λ h. elim h [
          | inl f ↦ inl (ap (λ d. d.kind) f, ap (λ d. d.tool) f, gone)
          | inr g ↦ inr (to g)
        ],
        λ h. elim h [ inl (k, f, _) ↦ inl (rw (k, f) refl) | inr g ↦ inr (from g) ],
      )
      | inr (e, there) ↦
          rw e (
            λ h. inr (to h),
            λ h. elim h [ inl (_, _, gone) ↦ absurd (there gone) | inr g ↦ from g ],
          )
    ]

pins_of : (o : Option Pins) (t : Str) → get (or_default o) t ≡ find_pin o t
unfolding get
pins_of none t = refl
pins_of (some pins) t = refl

-- An entry of a map with the tool's name that satisfies `P` is what `get` finds.
at_tool :
    (P : Str → Str → Type 0) (pins : Pins) (tool : Str)
    → IsMap pins
    → Any (λ e. (e.0 ≡ tool) × P e.0 e.1) pins ↔ ((v : Str) × (get pins tool ≡ some v) × P tool v)
at_tool P pins tool m = (
  λ h.
      let (k, v, e, p) = Any-get (λ k v. (k ≡ tool) × P k v) pins m h in
      (v, ap (get pins) (sym p.0) ∙ e, subst (λ x. P x v) p.0 p.1),
  λ (v, e, p). get-Any (λ k v. (k ≡ tool) × P k v) pins tool v e (refl, p),
)

module _ (sort_by : List ToolDiff → List ToolDiff)
    (same_items : (d : ToolDiff) (l : List ToolDiff) → In d (sort_by l) ↔ In d l) (s : PinStore)
    (server : Str) (current : Pins) (current_once : IsMap current)
    (pinned_once : IsMap (or_default (get s.servers server))) where
  abbrev pinned : Option Pins
  pinned = get s.servers server

  Listed-now :
      (tool : Str) (kind : DiffKind)
      → Any (λ e. (e.0 ≡ tool) × Listed (find_pin pinned e.0) e.1 kind) current
        ↔ ((hash : Str) × (get current tool ≡ some hash) × Listed (find_pin pinned tool) hash kind)
  Listed-now tool kind =
      at_tool (λ t hash. Listed (find_pin pinned t) hash kind) current tool current_once

  gone_now :
      (tool : Str) (kind : DiffKind)
      → Any (λ e. (removed ≡ kind) × (e.0 ≡ tool) × (get current e.0 ≡ none)) (or_default pinned)
        ↔ ((removed ≡ kind)
            × ((p : Str) × (find_pin pinned tool ≡ some p) × (get current tool ≡ none)))
  gone_now tool kind = (
    λ h.
        let (k, v, e, p) =
          Any-get (λ k v. (removed ≡ kind) × (k ≡ tool) × (get current k ≡ none))
            (or_default pinned) pinned_once h in
        (
          p.0,
          (
            v,
            sym (pins_of pinned tool) ∙ ap (get (or_default pinned)) (sym p.1) ∙ e,
            ap (get current) (sym p.1) ∙ p.2,
          ),
        ),
    λ (is_removed, found).
        get-Any (λ k v. (removed ≡ kind) × (k ≡ tool) × (get current k ≡ none)) (or_default pinned)
          tool found.0 (pins_of pinned tool ∙ found.1) (is_removed, refl, found.2),
  )

  either :
      (tool : Str) (kind : DiffKind)
      → (((hash : Str) × (get current tool ≡ some hash) × Listed (find_pin pinned tool) hash kind)
          ⊎ ((removed ≡ kind)
              × ((p : Str) × (find_pin pinned tool ≡ some p) × (get current tool ≡ none))))
        ↔ Differs s server current tool kind
  unfolding check pinned_hash
  either tool added = (λ h. elim h [ inl g ↦ g | inr (e, _) ↦ cc e ], λ h. inl h)
  either tool changed = (λ h. elim h [ inl g ↦ g | inr (e, _) ↦ cc e ], λ h. inl h)
  either tool removed =
      (λ h. elim h [ inl (_, _, f) ↦ absurd f | inr (_, g) ↦ g ], λ h. inr (refl, h))

  -- For maps of current and of pinned tools, and a sort that keeps the items, `diff` lists exactly
  -- the tools that differ, each with its kind: added if `check` calls the current tool new, changed
  -- if it calls it a drift, and removed if the tool is pinned and not current.
  pub diff_iff :
      (tool : Str) (kind : DiffKind)
      → In (record { tool = tool; kind = kind }) (diff sort_by s server current)
        ↔ Differs s server current tool kind
  unfolding diff
  diff_iff tool kind =
      let now = current_diffs pinned current in
      let gone = removed_diffs current (or_default pinned) in
      let (to_now, from_now) = current_diffs_iff pinned current tool kind in
      let (to_gone, from_gone) = removed_diffs_iff current (or_default pinned) tool kind in
      let (found, put) = same_items (item tool kind) (now ++ gone) in
      (
        λ h. elim (In-append (item tool kind) now gone (found h)) [
          | inl a ↦ (either tool kind).0 (inl ((Listed-now tool kind).0 (to_now a)))
          | inr b ↦ (either tool kind).0 (inr ((gone_now tool kind).0 (to_gone b)))
        ],
        λ h. put (elim ((either tool kind).1 h) [
          | inl a ↦ In-append_left (item tool kind) now gone (from_now ((Listed-now tool kind).1 a))
          | inr b ↦ In-append_right (item tool kind) now gone (from_gone ((gone_now tool kind).1 b))
        ]),
      )
