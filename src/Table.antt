-- ===== src/Table.antt =====
-- The maps of the source, `HashMap` and `BTreeMap`, as association lists that hold a key once.
pub mod Laws
use mcpdef.Prelude.{
  List, [], ◌∷◌, Option, none, some, Bool, true, false, not, ◌&&◌, if◌then◌else◌, ◌≡◌, ◌↔◌, ◌≢◌,
  All, any,
}
use mcpdef.Str.{Str, str_eq, is_some}
use mcpdef.Str.Laws.{str_eq_iff}

-- What a map asks of its keys.
pub record Key (K : Type 0) : Type 0 where
  pub same : K → K → Bool
  pub same_iff : (a b : K) → (same a b ≡ true) ↔ (a ≡ b)

instance abbrev pub str_key : Key Str
str_key = record { same = str_eq; same_iff = str_eq_iff }

module _ {K V : Type 0} ⦃key : Key K⦄ where
  unfoldable pub get : List (K × V) → K → Option V
  get [] k = none
  get ((k', v) ∷ t) k = if key.same k k' then some v else get t k

  -- `insert` puts the value in the key's place, at the end if the key is new.
  unfoldable pub insert : List (K × V) → K → V → List (K × V)
  insert [] k v = (k, v) ∷ []
  insert ((k', v') ∷ t) k v =
      let rest = insert t k v in if key.same k k' then (k, v) ∷ t else (k', v') ∷ rest

  abbrev pub contains_key : List (K × V) → K → Bool
  contains_key t k = is_some (get t k)

  -- No key stands twice.
  abbrev pub IsMap : List (K × V) → Type 0
  IsMap [] = Unit
  IsMap ((k, v) ∷ t) = All (λ entry. k ≢ entry.0) t × IsMap t
