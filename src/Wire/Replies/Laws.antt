-- ===== src/Wire/Replies/Laws.antt =====
-- Which interim results a client can answer, and what MCPdef declares for it.
use mcpdef.Prelude.{
  some-injective, Option, none, some, Bool, true, false, ◌≡◌, ◌≢◌, ◌↔◌, ◌⊎◌, inl, inr, refl, sym,
  ap, ◌∙◌, subst, Bool-cases, eq-false_iff, false≢true,
}
use mcpdef.Str.{Str, str, str_eq}
use mcpdef.Str.Laws.{different, str_eq_iff}
use mcpdef.Json.{
  Value, null, boolean, number, string, array, object, Members, no_members, member, get_member,
  as_object,
}
use mcpdef.Json.Laws.{object-cases}
use mcpdef.Message.{then_str}
use mcpdef.Message.Method
use mcpdef.Wire.Replies.Declares.{Declares, then_str_iff, is_some_iff, elicits_iff}
use mcpdef.Wire.Replies.{
  undeclared, refuse_request, first_some, refuse_requests, refuse_object, refuse_inputs,
  is_bad_state, unanswerable_input,
}

abbrev pub EachDeclared : Value → Members → Type 0
EachDeclared capabilities no_members = Unit
EachDeclared capabilities (member key request rest) =
    ((method : Str) × (get_member request (str "method") ≡ some (string method))
      × Declares capabilities request method)
    × EachDeclared capabilities rest

undeclared_iff :
    (key method : Str) (request : Value) (b : Bool)
    → (undeclared key method request b ≡ none) ↔ (b ≡ true)
undeclared_iff key method request true = (λ _. refl, λ _. refl)
undeclared_iff key method request false = (λ e. cc e, λ e. cc e)

elicitation≢sampling : Method.elicitation_create ≢ Method.sampling_create_message
unfolding str_eq
elicitation≢sampling = different Method.elicitation_create Method.sampling_create_message refl

elicitation≢roots : Method.elicitation_create ≢ Method.roots_list
unfolding str_eq
elicitation≢roots = different Method.elicitation_create Method.roots_list refl

sampling≢roots : Method.sampling_create_message ≢ Method.roots_list
unfolding str_eq
sampling≢roots = different Method.sampling_create_message Method.roots_list refl

module _ (capabilities : Value) (key : Str) (request : Value) (method : Str) where
  refuse_request_iff :
      (refuse_request capabilities key request (some method) ≡ none)
      ↔ Declares capabilities request method
  refuse_request_iff = elim (Bool-cases (str_eq method Method.elicitation_create)) [
    | inl e ↦
        let same = (str_eq_iff method Method.elicitation_create).0 e in
        let asked = get_member capabilities (str "elicitation") in
        rw e (
          λ h.
              inl (same, (elicits_iff request asked).0 ((undeclared_iff key method request _).0 h)),
          λ d. elim d [
            | inl (_, declared) ↦
                (undeclared_iff key method request _).1 ((elicits_iff request asked).1 declared)
            | inr (inl (other, _)) ↦ absurd (elicitation≢sampling (sym same ∙ other))
            | inr (inr (other, _)) ↦ absurd (elicitation≢roots (sym same ∙ other))
          ],
        )
    | inr e ↦ elim (Bool-cases (str_eq method Method.sampling_create_message)) [
      | inl f ↦
          let same = (str_eq_iff method Method.sampling_create_message).0 f in
          let sampled = is_some_iff (get_member capabilities (str "sampling")) in
          rw (e, f)
            (
              λ h. inr (inl (same, sampled.0 ((undeclared_iff key method request _).0 h))),
              λ d. elim d [
                | inl (other, _) ↦ absurd (elicitation≢sampling (sym other ∙ same))
                | inr (inl (_, declared)) ↦
                    (undeclared_iff key method request _).1 (sampled.1 declared)
                | inr (inr (other, _)) ↦ absurd (sampling≢roots (sym same ∙ other))
              ],
            )
      | inr f ↦ elim (Bool-cases (str_eq method Method.roots_list)) [
        | inl g ↦
            let same = (str_eq_iff method Method.roots_list).0 g in
            let rooted = is_some_iff (get_member capabilities (str "roots")) in
            rw (e, f, g)
              (
                λ h. inr (inr (same, rooted.0 ((undeclared_iff key method request _).0 h))),
                λ d. elim d [
                  | inl (other, _) ↦ absurd (elicitation≢roots (sym other ∙ same))
                  | inr (inl (other, _)) ↦ absurd (sampling≢roots (sym other ∙ same))
                  | inr (inr (_, declared)) ↦
                      (undeclared_iff key method request _).1 (rooted.1 declared)
                ],
              )
        | inr g ↦
            rw (e, f, g)
              (
                λ h. cc h,
                λ d. elim d [
                  | inl (other, _) ↦
                      absurd
                        ((eq-false_iff _ (str_eq_iff method Method.elicitation_create)).0 e other)
                  | inr (inl (other, _)) ↦ absurd (
                      (eq-false_iff _ (str_eq_iff method Method.sampling_create_message)).0 f other)
                  | inr (inr (other, _)) ↦
                      absurd ((eq-false_iff _ (str_eq_iff method Method.roots_list)).0 g other)
                ],
              )
      ]
    ]
  ]

object-injective : {a b : Members} → object a ≡ object b → a ≡ b
object-injective h = cc h

none≢some : {A : Type 0} {a : A} → ¬ (none ≡ some a)
none≢some h = cc h

first_some_iff : (o p : Option Str) → (first_some o p ≡ none) ↔ ((o ≡ none) × (p ≡ none))
first_some_iff none p = (λ e. (refl, e), λ h. h.1)
first_some_iff (some s) p = (λ e. cc e, λ h. cc h.0)

any_request_iff :
    (capabilities : Value) (key : Str) (request : Value) (o : Option Str)
    → (refuse_request capabilities key request o ≡ none)
      ↔ ((method : Str) × (o ≡ some method) × Declares capabilities request method)
any_request_iff capabilities key request none = (λ e. cc e, λ h. cc h.1)
any_request_iff capabilities key request (some method) =
    let r = refuse_request_iff capabilities key request method in
    (
      λ e. (method, refl, r.0 e),
      λ (other, same, d). r.1 (subst (Declares capabilities request) (sym (some-injective same)) d),
    )

refuse_requests_iff :
    (capabilities : Value) (requests : Members)
    → (refuse_requests capabilities requests ≡ none) ↔ EachDeclared capabilities requests
refuse_requests_iff capabilities no_members = (λ _. tt, λ _. refl)
refuse_requests_iff capabilities (member key request rest) =
    let now =
      any_request_iff capabilities key request (then_str (get_member request (str "method"))) in
    let read = then_str_iff (get_member request (str "method")) in
    let later = refuse_requests_iff capabilities rest in
    let both =
      first_some_iff
        (refuse_request capabilities key request (then_str (get_member request (str "method"))))
        (refuse_requests capabilities rest) in
    (
      λ e.
          let (method, named, declared) = now.0 (both.0 e).0 in
          ((method, (read method).0 named, declared), later.0 (both.0 e).1),
      λ ((method, named, declared), rest).
          both.1 (now.1 (method, (read method).1 named, declared), later.1 rest),
    )

refuse_object_iff :
    (capabilities v : Value)
    → (refuse_object capabilities (as_object v) ≡ none) ↔ (
        (requests : Members) × (some v ≡ some (object requests))
        × EachDeclared capabilities requests)
refuse_object_iff capabilities v = elim (object-cases v) [
  | inl (requests, e) ↦ rw e (
    λ h. (requests, refl, (refuse_requests_iff capabilities requests).0 h),
    λ (others, same, d).
        (refuse_requests_iff capabilities requests).1
          (subst (EachDeclared capabilities) (sym (object-injective (some-injective same))) d),
  )
  | inr (e, _) ↦ rw e (
    λ h. cc h,
    λ (requests, same, d). absurd (none≢some (sym e ∙ ap as_object (some-injective same))),
  )
]

-- The requests, or a state in their place.
abbrev Asked : Value → Option Value → Option Value → Type 0
Asked capabilities state requests =
    ((requests ≡ none) × ((s : Str) × (state ≡ some (string s))))
    ⊎ ((asked : Members) × (requests ≡ some (object asked)) × EachDeclared capabilities asked)

-- The state, where there is one, is a string.
abbrev IsState : Option Value → Type 0
IsState state = (state ≡ none) ⊎ ((s : Str) × (state ≡ some (string s)))

is_bad_state_iff : (state : Option Value) → (is_bad_state state ≡ false) ↔ IsState state
is_bad_state_iff none = (λ _. inl refl, λ _. refl)
is_bad_state_iff (some (string s)) = (λ _. inr (s, refl), λ _. refl)
is_bad_state_iff (some null) = (λ e. cc e, λ h. elim h [ inl e ↦ cc e | inr (s, e) ↦ cc e ])
is_bad_state_iff (some (boolean b)) = (λ e. cc e, λ h. elim h [ inl e ↦ cc e | inr (s, e) ↦ cc e ])
is_bad_state_iff (some (number n)) = (λ e. cc e, λ h. elim h [ inl e ↦ cc e | inr (s, e) ↦ cc e ])
is_bad_state_iff (some (array vs)) = (λ e. cc e, λ h. elim h [ inl e ↦ cc e | inr (s, e) ↦ cc e ])
is_bad_state_iff (some (object ms)) = (λ e. cc e, λ h. elim h [ inl e ↦ cc e | inr (s, e) ↦ cc e ])

Asked-iff :
    (capabilities : Value) (state : Option Value) (v : Value)
    → (refuse_object capabilities (as_object v) ≡ none) ↔ Asked capabilities state (some v)
Asked-iff capabilities state v =
    let r = refuse_object_iff capabilities v in
    (λ e. inr (r.0 e), λ h. elim h [ inl (e, _) ↦ cc e | inr asked ↦ r.1 asked ])

refuse_inputs_iff :
    (capabilities : Value) (state requests : Option Value)
    → IsState state
    → (refuse_inputs capabilities state requests ≡ none) ↔ Asked capabilities state requests
refuse_inputs_iff capabilities none none h =
    (λ e. cc e, λ h. elim h [ inl (_, (_, s)) ↦ cc s | inr (_, e, _) ↦ cc e ])
refuse_inputs_iff capabilities (some state) none (inl e) = cc e
refuse_inputs_iff capabilities (some state) none (inr known) = (λ e. inl (refl, known), λ h. refl)
refuse_inputs_iff capabilities none (some v) h = Asked-iff capabilities none v
refuse_inputs_iff capabilities (some state) (some v) h = Asked-iff capabilities (some state) v

-- What an interim result must hold for its client to answer it.
abbrev pub Answerable : Value → Value → Type 0
Answerable result capabilities =
    ((get_member result (str "requestState") ≡ none)
      ⊎ ((s : Str) × (get_member result (str "requestState") ≡ some (string s))))
    × (((get_member result (str "inputRequests") ≡ none)
          × ((s : Str) × (get_member result (str "requestState") ≡ some (string s))))
        ⊎ ((requests : Members) × (get_member result (str "inputRequests") ≡ some (object requests))
            × EachDeclared capabilities requests))

-- An interim result is not refused just where its state, if any, is a string, and it holds either a
-- state and no requests, or an object of requests, each for something the client declared.
pub unanswerable_input_iff :
    (result capabilities : Value)
    → (unanswerable_input result capabilities ≡ none) ↔ Answerable result capabilities
unfolding unanswerable_input
unanswerable_input_iff result capabilities =
    let state = get_member result (str "requestState") in
    let known = is_bad_state_iff state in
    elim (Bool-cases (is_bad_state state)) [
      | inl e ↦ rw e (λ h. cc h, λ h. absurd (false≢true (sym (known.1 h.0) ∙ e)))
      | inr e ↦
          let r =
            refuse_inputs_iff capabilities state (get_member result (str "inputRequests"))
              (known.0 e) in
          rw e (λ h. (known.0 e, r.0 h), λ h. r.1 h.1)
    ]
