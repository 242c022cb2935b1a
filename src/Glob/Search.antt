-- ===== src/Glob/Search.antt =====
-- The search over pairs of positions that `patterns_overlap` and `paths_overlap` of
-- crates/mcpdef-policy/src/glob.rs share: a stack of nodes and a table of the cells seen. The nodes
-- are a parameter, with a node's cell in the table, the test for the end, and what a node pushes.
pub mod Laws
use mcpdef.Prelude.{
  ℕ, zero, suc, List, [], ◌∷◌, Option, none, some, Bool, true, false, get_elem?, set,
}

-- `out_of_bounds` is the panic of an index outside `seen`; `out_of_fuel` is the model's own.
pub data Outcome : Type 0 where
  answer : Bool → Outcome
  out_of_bounds : Outcome
  out_of_fuel : Outcome

-- The top of the stack is the head of the list: what is pushed last is popped first.
unfoldable pub push_all {ℓ} : {N : Type ℓ} → List N → List N → List N
push_all [] todo = todo
push_all (n ∷ ns) todo = push_all ns (n ∷ todo)

unfoldable pub search :
    {N : Type 0} (cell : N → ℕ) (goal : N → Bool) (next : N → List N) (fuel : ℕ) (seen : List Bool)
    (todo : List N)
    → Outcome
unfolding push_all
search cell goal next zero seen todo = out_of_fuel
search cell goal next (suc f) seen [] = answer false
search cell goal next (suc f) seen (n ∷ todo) = elim (get_elem? seen (cell n)) [
  | none ↦ out_of_bounds
  | some was ↦ elim was [
    | true ↦ search cell goal next f seen todo
    | false ↦ elim (goal n) [
      | true ↦ answer true
      | false ↦ search cell goal next f (set seen (cell n) true) (push_all (next n) todo)
    ]
  ]
]
