-- ===== src/Wire/Replies/Declares.antt =====
-- What a client declares that it can answer, and the tests of `unanswerable_input` in
-- crates/mcpdef-core/src/wire.rs that read it.
use mcpdef.Prelude.{
  some-injective, Option, none, some, Bool, true, false, ◌≡◌, ◌↔◌, ◌⊎◌, inl, inr, refl, sym, ap,
  subst, false≢true, not, ◌||◌, if◌then◌else◌,
}
use mcpdef.Str.{Str, str, is_some}
use mcpdef.Str.Laws.{str_eq_iff}
use mcpdef.Json.{Value, null, boolean, number, string, array, object, get_member}
use mcpdef.Message.{then_str, then_get}
use mcpdef.Wire.Replies.{is_string, in_url_mode, elicits}

-- The object has a member of the key.
abbrev pub Has : Value → Str → Type 0
Has v key = (w : Value) × (get_member v key ≡ some w)

-- The elicitation is one of a URL: `params.mode` is the string `url`.
abbrev pub AsksUrl : Value → Type 0
AsksUrl request =
    (params : Value) × (get_member request (str "params") ≡ some params)
    × (get_member params (str "mode") ≡ some (string (str "url")))

-- What an elicitation needs of the declared modes: `url` for one of a URL; for one of a form, `form`,
-- or no `url`, since an empty declaration means forms.
abbrev pub Serves : Value → Value → Type 0
Serves modes request =
    (AsksUrl request × Has modes (str "url"))
    ⊎ ((¬ AsksUrl request) × (Has modes (str "form") ⊎ (¬ Has modes (str "url"))))

-- The capabilities declare what the method asks for.
abbrev pub Declares : Value → Value → Str → Type 0
Declares capabilities request method =
    ((method ≡ str "elicitation/create")
      × ((modes : Value) × (get_member capabilities (str "elicitation") ≡ some modes)
          × Serves modes request))
    ⊎ (((method ≡ str "sampling/createMessage") × Has capabilities (str "sampling"))
        ⊎ ((method ≡ str "roots/list") × Has capabilities (str "roots")))

pub then_str_iff : (o : Option Value) (t : Str) → (then_str o ≡ some t) ↔ (o ≡ some (string t))
then_str_iff none t = (λ e. cc e, λ e. cc e)
then_str_iff (some (string s)) t = (λ e. cc e, λ e. cc e)
then_str_iff (some null) t = (λ e. cc e, λ e. cc e)
then_str_iff (some (boolean b)) t = (λ e. cc e, λ e. cc e)
then_str_iff (some (number n)) t = (λ e. cc e, λ e. cc e)
then_str_iff (some (array vs)) t = (λ e. cc e, λ e. cc e)
then_str_iff (some (object ms)) t = (λ e. cc e, λ e. cc e)

is_string_iff : (o : Option Str) (t : Str) → (is_string o t ≡ true) ↔ (o ≡ some t)
is_string_iff none t = (λ e. cc e, λ e. cc e)
is_string_iff (some s) t =
    (λ e. ap some ((str_eq_iff s t).0 e), λ e. (str_eq_iff s t).1 (some-injective e))

pub is_some_iff : (o : Option Value) → (is_some o ≡ true) ↔ ((w : Value) × (o ≡ some w))
is_some_iff none = (λ e. cc e, λ (w, e). cc e)
is_some_iff (some w) = (λ e. (w, refl), λ _. refl)

then_get_iff :
    (o : Option Value) (key : Str) (w : Value)
    → (then_get o key ≡ some w) ↔ ((v : Value) × (o ≡ some v) × (get_member v key ≡ some w))
then_get_iff none key w = (λ e. cc e, λ (v, e, _). cc e)
then_get_iff (some v) key w = (
  λ e. (v, refl, e),
  λ (u, e, f). subst (λ x. get_member x key ≡ some w) (sym (some-injective e)) f,
)

in_url_mode_iff : (request : Value) → (in_url_mode request ≡ true) ↔ AsksUrl request
in_url_mode_iff request =
    let params = get_member request (str "params") in
    let mode = then_get params (str "mode") in
    let text = is_string_iff (then_str mode) (str "url") in
    let read = then_str_iff mode (str "url") in
    let way = then_get_iff params (str "mode") (string (str "url")) in
    (λ e. way.0 (read.0 (text.0 e)), λ h. text.1 (read.1 (way.1 h)))

choice_iff :
    {A U F : Type 0} (a u f : Bool)
    → (a ≡ true) ↔ A
    → (u ≡ true) ↔ U
    → (f ≡ true) ↔ F
    → ((if a then u else f || not u) ≡ true) ↔ ((A × U) ⊎ ((¬ A) × (F ⊎ (¬ U))))
choice_iff true u f asks url form = (
  λ e. inl (asks.0 refl, url.0 e),
  λ h. elim h [ inl (_, w) ↦ url.1 w | inr (n, _) ↦ absurd (n (asks.0 refl)) ],
)
choice_iff false u true asks url form =
    (λ e. inr (λ x. false≢true (asks.1 x), inl (form.0 refl)), λ h. refl)
choice_iff false false false asks url form =
    (λ e. inr (λ x. false≢true (asks.1 x), inr (λ x. false≢true (url.1 x))), λ h. refl)
choice_iff false true false asks url form = (
  λ e. absurd (false≢true e),
  λ h. elim h [
    | inl (x, _) ↦ asks.1 x
    | inr (_, inl w) ↦ form.1 w
    | inr (_, inr n) ↦ absurd (n (url.0 refl))
  ],
)

Serves-iff :
    (modes request : Value)
    → (elicits (in_url_mode request) (some modes) ≡ true) ↔ Serves modes request
Serves-iff modes request =
    let asks = in_url_mode_iff request in
    let url = is_some_iff (get_member modes (str "url")) in
    let form = is_some_iff (get_member modes (str "form")) in
    choice_iff (in_url_mode request) _ _ asks url form

pub elicits_iff :
    (request : Value) (o : Option Value)
    → (elicits (in_url_mode request) o ≡ true)
      ↔ ((modes : Value) × (o ≡ some modes) × Serves modes request)
elicits_iff request none = (λ e. cc e, λ h. cc h.1)
elicits_iff request (some modes) = (
  λ e. (modes, refl, (Serves-iff modes request).0 e),
  λ (other, e, h).
      (Serves-iff modes request).1 (subst (λ m. Serves m request) (sym (some-injective e)) h),
)
