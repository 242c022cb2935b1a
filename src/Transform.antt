-- ===== src/Transform.antt =====
-- The edits of a tool call's arguments: `EditOp`, `ArgEdit`, `OnError`, `Transform::apply`,
-- `ArgEdit::apply`, `holder`, `clamp`, `compare`, `integer` and `kind` of
-- crates/mcpdef-policy/src/transform.rs. An edit returns the arguments after it; an edit
-- that is refused leaves them as they were.
pub mod Laws
use Prim.Native.Nat.{compare as nat_compare, Ordering}
use mcpdef.Prelude.{
  ℕ, List, [], ◌∷◌, ◌++◌, Option, none, some, Bool, true, false, not, ◌||◌, if◌then◌else◌,
}
use mcpdef.Str.{Str, str, split}
pub use mcpdef.Json.{ℤ, pos, negsuc}
use mcpdef.Json.{
  Value, null, boolean, number, string, array, object, Members, no_members, find_member,
  insert_member, remove_member,
}

-- What is used of `serde_json`: equality of values, and the readings of a number.
pub record Serde : Type 0 where
  pub same_value : Value → Value → Bool
  pub as_i64 : Str → Option ℤ
  pub as_u64 : Str → Option ℕ
  -- Both as floats, compared; none where one is no float.
  pub compare_floats : Str → Str → Option Ordering

pub data EditOp : Type 0 where
  set : Value → EditOp
  default : Value → EditOp
  remove : EditOp
  clamp_op : (min max : Option Str) → EditOp

pub record ArgEdit : Type 0 where
  pub path : Str
  pub op : EditOp

pub data OnError : Type 0 where
  deny_call skip_rule : OnError

-- `Result<_, String>`.
pub data Edited {ℓ} (A : Type ℓ) : Type ℓ where
  done : A → Edited A
  refused : Str → Edited A

abbrev pub kind : Value → Str
kind null = str "null"
kind (boolean b) = str "a boolean"
kind (number n) = str "a number"
kind (string s) = str "a string"
kind (array v) = str "an array"
kind (object m) = str "an object"

abbrev pub compare_int : ℤ → ℤ → Ordering
compare_int (pos a) (pos b) = nat_compare a b
compare_int (pos a) (negsuc b) = Ordering.gt
compare_int (negsuc a) (pos b) = Ordering.lt
compare_int (negsuc a) (negsuc b) = nat_compare b a

-- `join(".")`.
abbrev pub join : List Str → Str
join [] = []
join (key ∷ []) = key
join (key ∷ (next ∷ keys)) = key ++ (str "." ++ join (next ∷ keys))

-- What stands at a key on the way: nothing, an object, or what no step goes through.
pub data Opening : Type 0 where
  missing : Opening
  into : Members → Opening
  blocked : Value → Opening

abbrev pub made : Bool → Opening
made true = into no_members
made false = missing

abbrev pub opened : Bool → Option Value → Opening
opened make none = made make
opened make (some null) = made make
opened make (some (object m)) = into m
opened make (some (boolean b)) = blocked (boolean b)
opened make (some (number n)) = blocked (number n)
opened make (some (string s)) = blocked (string s)
opened make (some (array v)) = blocked (array v)

-- An edit of the object that holds the last key: whether it changed, and the object after it.
abbrev pub Step : Type 0
Step = Members → Edited (Bool × Members)

abbrev pub put_back : Members → Str → Edited (Bool × Members) → Edited (Bool × Members)
put_back m key (refused why) = refused why
put_back m key (done (changed, inner)) = done (changed, insert_member m key (object inner))

-- `holder`, and the edit made to what it finds; without a holder nothing changes.
unfoldable pub in_holder : Bool → List Str → List Str → Step → Step
unfolding find_member insert_member
in_holder make before [] edit m = edit m
in_holder make before (key ∷ keys) edit m = elim (opened make (find_member m key)) [
  | missing ↦ done (false, m)
  | into inner ↦ put_back m key (in_holder make (before ++ (key ∷ [])) keys edit inner)
  | blocked other ↦ refused (
      str "`"
      ++ (join (before ++ (key ∷ [])) ++ (str "` is " ++ (kind other ++ str ", not an object"))))
]

abbrev pub as_changed : Edited (Bool × Members) → Edited (Bool × Value)
as_changed (refused why) = refused why
as_changed (done (changed, m)) = done (changed, object m)

abbrev pub in_args : Bool → List Str → Step → Value → Edited (Bool × Value)
in_args true keys edit null = as_changed (in_holder true [] keys edit no_members)
in_args false keys edit null = done (false, null)
in_args make keys edit (object m) = as_changed (in_holder make [] keys edit m)
in_args make keys edit (boolean b) = refused (str "the arguments are a boolean, not an object")
in_args make keys edit (number n) = refused (str "the arguments are a number, not an object")
in_args make keys edit (string s) = refused (str "the arguments are a string, not an object")
in_args make keys edit (array v) = refused (str "the arguments are an array, not an object")

-- `split_last`.
abbrev pub last_key : List Str → Option (List Str × Str)
last_key [] = none
last_key (key ∷ []) = some ([], key)
last_key (key ∷ (next ∷ keys)) = elim (last_key (next ∷ keys)) [
  | none ↦ none
  | some found ↦ some (key ∷ found.0, found.1)
]

module _ (S : Serde) where
  abbrev pub integer : Str → Option ℤ
  integer n = elim (S.as_i64 n) [
    | some i ↦ some i
    | none ↦ elim (S.as_u64 n) [ some u ↦ some (pos u) | none ↦ none ]
  ]

  abbrev pub or_equal : Option Ordering → Ordering
  or_equal none = Ordering.eq
  or_equal (some o) = o

  abbrev pub compare_read : Option ℤ → Option ℤ → Str → Str → Ordering
  compare_read (some a) (some b) n m = compare_int a b
  compare_read (some a) none n m = or_equal (S.compare_floats n m)
  compare_read none b n m = or_equal (S.compare_floats n m)

  abbrev pub compare : Str → Str → Ordering
  compare n m = compare_read (integer n) (integer m) n m

  abbrev pub below : Str → Option Str → Option Str
  below n none = none
  below n (some min) = elim (compare n min) [ Ordering.lt ↦ some min | _ ↦ none ]

  abbrev pub above : Str → Option Str → Option Str
  above n none = none
  above n (some max) = elim (compare n max) [ Ordering.gt ↦ some max | _ ↦ none ]

  -- Whether the number moved, and where it is after.
  abbrev pub clamp : Str → Option Str → Option Str → Bool × Str
  clamp n min max = elim (below n min) [
    | some low ↦ (true, low)
    | none ↦ elim (above n max) [ some high ↦ (true, high) | none ↦ (false, n) ]
  ]

  abbrev pub differs : Option Value → Value → Bool
  differs none v = true
  differs (some old) v = not (S.same_value old v)

  abbrev pub put_default : Option Value → Str → Value → Step
  put_default none last v m = done (true, insert_member m last v)
  put_default (some null) last v m = done (true, insert_member m last v)
  put_default (some (boolean b)) last v m = done (false, m)
  put_default (some (number n)) last v m = done (false, m)
  put_default (some (string s)) last v m = done (false, m)
  put_default (some (array w)) last v m = done (false, m)
  put_default (some (object w)) last v m = done (false, m)

  abbrev pub not_number : Str → Value → Edited (Bool × Members)
  not_number path v =
      refused (str "`" ++ (path ++ (str "` is " ++ (kind v ++ str ", not a number"))))

  abbrev pub clamp_at : Str → Option Str → Option Str → Option Value → Str → Step
  clamp_at path min max none last m = done (false, m)
  clamp_at path min max (some null) last m = done (false, m)
  clamp_at path min max (some (number n)) last m =
      done ((clamp n min max).0, insert_member m last (number (clamp n min max).1))
  clamp_at path min max (some (boolean b)) last m = not_number path (boolean b)
  clamp_at path min max (some (string s)) last m = not_number path (string s)
  clamp_at path min max (some (array w)) last m = not_number path (array w)
  clamp_at path min max (some (object w)) last m = not_number path (object w)

  abbrev pub gone : Option Value → Bool
  gone none = false
  gone (some v) = true

  unfoldable pub edit_at : EditOp → Str → List Str → Str → Value → Edited (Bool × Value)
  unfolding in_holder find_member insert_member remove_member
  edit_at (set v) path keys last args =
      in_args true keys (λ m. done (differs (find_member m last) v, insert_member m last v)) args
  edit_at (default v) path keys last args =
      in_args true keys (λ m. put_default (find_member m last) last v m) args
  edit_at remove path keys last args =
      in_args false keys (λ m. done (gone (find_member m last), remove_member m last)) args
  edit_at (clamp_op min max) path keys last args =
      in_args false keys (λ m. clamp_at path min max (find_member m last) last m) args

  unfoldable pub apply_edit : ArgEdit → Value → Edited (Bool × Value)
  unfolding edit_at split
  apply_edit e args = elim (last_key (split b'.' e.path)) [
    | none ↦ done (false, args)
    | some (keys, last) ↦ edit_at e.op e.path keys last args
  ]

  -- `Transform::apply`, from what the edits before have changed.
  unfoldable pub apply_from : Bool → List ArgEdit → Value → Edited (Bool × Value)
  unfolding apply_edit
  apply_from changed [] args = done (changed, args)
  apply_from changed (e ∷ edits) args = elim (apply_edit e args) [
    | refused why ↦ refused why
    | done (now, args') ↦ apply_from (changed || now) edits args'
  ]

  unfoldable pub apply : List ArgEdit → Value → Edited (Bool × Value)
  unfolding apply_from
  apply edits args = apply_from false edits args

  -- The arguments as `Transform::apply` leaves them, where an edit is refused those that the edits
  -- before it made.
  unfoldable pub left_by : List ArgEdit → Value → Value
  unfolding apply_edit
  left_by [] args = args
  left_by (e ∷ edits) args = elim (apply_edit e args) [
    | refused why ↦ args
    | done (now, args') ↦ left_by edits args'
  ]
