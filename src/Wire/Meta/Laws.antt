-- ===== src/Wire/Meta/Laws.antt =====
-- What a request says of itself after it is stamped, and after its metadata is taken off.
use mcpdef.Prelude.{some, true, ◌≡◌, ◌≢◌, inl, inr, refl, sym, ap, ◌∙◌, Bool-cases}
use mcpdef.Str.{Str, str, str_eq}
use mcpdef.Str.Laws.{different}
use mcpdef.Json.{Value, string, object, Members, find_member, insert_member, get_member}
use mcpdef.Json.Laws.{
  find-insert_self, find-insert_ne, insert-insert_self, insert-insert_ne, object-cases,
}
use mcpdef.Message.{Message, is_request, then_str}
use mcpdef.Wire.{
  meta_version, meta_client, meta_capabilities, protocol_version, client_info, client_capabilities,
}
use mcpdef.Wire.Meta.{or_object, stamped, stamp_request_offering}

pub version≢client : meta_version ≢ meta_client
unfolding str_eq
version≢client = different meta_version meta_client refl

pub version≢capabilities : meta_version ≢ meta_capabilities
unfolding str_eq
version≢capabilities = different meta_version meta_capabilities refl

pub client≢capabilities : meta_client ≢ meta_capabilities
unfolding str_eq
client≢capabilities = different meta_client meta_capabilities refl

-- The members of `_meta` after a stamp.
abbrev Says : Members → Str → Value → Value → Type 0
Says m version client capabilities =
    (find_member m meta_version ≡ some (string version))
    × (find_member m meta_client ≡ some client)
    × (find_member m meta_capabilities ≡ some capabilities)

stamped-Says :
    (version : Str) (client capabilities : Value) (m : Members)
    → Says (stamped version client capabilities m) version client capabilities
stamped-Says version client capabilities m =
    let one = insert_member m meta_version (string version) in
    let two = insert_member one meta_client client in
    (
      find-insert_ne two meta_capabilities meta_version capabilities
            (λ e. version≢capabilities (sym e))
          ∙ find-insert_ne one meta_client meta_version client (λ e. version≢client (sym e))
          ∙ find-insert_self m meta_version (string version),
      find-insert_ne two meta_capabilities meta_client capabilities
            (λ e. client≢capabilities (sym e))
          ∙ find-insert_self one meta_client client,
      find-insert_self two meta_capabilities capabilities,
    )

-- The request's parameters and their `_meta` are objects, or absent.
abbrev pub IsStampable : Message → Type 0
IsStampable m =
    (params : Members) × (metas : Members) × (or_object m.params ≡ object params)
    × (or_object (find_member params (str "_meta")) ≡ object metas)

-- A stamped request says the version, the client and the capabilities it was stamped with, if its
-- parameters and their `_meta` are objects or absent.
pub protocol_version-stamp :
    (m : Message) (version : Str) (client capabilities : Value)
    → is_request m ≡ true
    → IsStampable m
    → (protocol_version (stamp_request_offering m version client capabilities) ≡ some version)
      × (client_info (stamp_request_offering m version client capabilities) ≡ some client)
      × (client_capabilities (stamp_request_offering m version client capabilities)
          ≡ some capabilities)
unfolding protocol_version client_info client_capabilities stamp_request_offering get_member
protocol_version-stamp m version client capabilities asks (params, metas, p, q) =
    let (v, c, k) = stamped-Says version client capabilities metas in
    rw (asks, p, q)
      (rw
        (find-insert_self params (str "_meta") (object (stamped version client capabilities metas)))
        (ap then_str v, c, k))

stamped-stamped :
    (v v' : Str) (c k c' k' : Value) (m : Members)
    → stamped v' c' k' (stamped v c k m) ≡ stamped v' c' k' m
stamped-stamped v v' c k c' k' m =
    let one = insert_member m meta_version (string v) in
    let two = insert_member one meta_client c in
    let new = insert_member m meta_version (string v') in
    let there = find-insert_self m meta_version (string v) in
    let client_there = find-insert_self new meta_client c in
    let first : insert_member (insert_member two meta_capabilities k) meta_version (string v')
        ≡ insert_member (insert_member new meta_client c) meta_capabilities k =
      insert-insert_ne two meta_version meta_capabilities (string v') k (string v)
        version≢capabilities
        (find-insert_ne one meta_client meta_version c (λ e. version≢client (sym e)) ∙ there)
      ∙ ap (λ x. insert_member x meta_capabilities k)
          (insert-insert_ne one meta_version meta_client (string v') c (string v) version≢client
              there
            ∙ ap (λ x. insert_member x meta_client c)
                (insert-insert_self m meta_version (string v) (string v'))) in
    ap (λ x. insert_member (insert_member x meta_client c') meta_capabilities k') first
    ∙ ap (λ x. insert_member x meta_capabilities k')
        (insert-insert_ne (insert_member new meta_client c) meta_client meta_capabilities c' k c
            client≢capabilities client_there
          ∙ ap (λ x. insert_member x meta_capabilities k) (insert-insert_self new meta_client c c'))
    ∙ insert-insert_self (insert_member new meta_client c') meta_capabilities k k'

-- Stamping a message again replaces what the first stamp said.
pub stamp-stamp :
    (m : Message) (v v' : Str) (c k c' k' : Value)
    → stamp_request_offering (stamp_request_offering m v c k) v' c' k'
      ≡ stamp_request_offering m v' c' k'
unfolding stamp_request_offering is_request
stamp-stamp m v v' c k c' k' = elim (Bool-cases (is_request m)) [
  | inr e ↦ rw e (rw e refl)
  | inl e ↦ elim (object-cases (or_object m.params)) [
    | inr (p, _) ↦ rw (e, p) (rw (e, p) refl)
    | inl (params, p) ↦ elim (object-cases (or_object (find_member params (str "_meta")))) [
      | inr (q, _) ↦ rw (e, p, q) (rw (e, q) refl)
      | inl (metas, q) ↦
          rw (e, p, q)
            (rw (e, find-insert_self params (str "_meta") (object (stamped v c k metas)))
              (ap (λ ms. record m { params = some (object ms) })
                (insert-insert_self params (str "_meta") _ _
                  ∙ ap (λ x. insert_member params (str "_meta") (object x))
                      (stamped-stamped v v' c k c' k' metas))))
    ]
  ]
]
