-- ===== src/Glob/Search/Laws.antt =====
-- The search answers whether a node of the stack leads to the end.
use native.Mathlib.Decide.{ℕ_discrete}
use mcpdef.Prelude.{
  ℕ, zero, suc, ◌+◌, ◌*◌, ◌≤◌, ◌<◌, List, [], ◌∷◌, ◌≡◌, ◌≢◌, ◌↔◌, ◌⊎◌, inl, inr, refl, sym, ap, ◌∙◌,
  some, Bool, true, false, false≢true, get_elem?, set, length, replicate, length-replicate, Any-In,
  length-set, get_elem?-set_self, get_elem?-set_ne, get_elem?-some, Any, All, In, All-In, subst,
  arith, Bool-cases,
}
use mcpdef.Glob.Search.{Outcome, answer, out_of_bounds, out_of_fuel, push_all, search}

-- The cells that are left to visit.
abbrev unseen : List Bool → ℕ
unseen [] = 0
unseen (true ∷ seen) = unseen seen
unseen (false ∷ seen) = suc (unseen seen)

unseen-set :
    (seen : List Bool) (i : ℕ)
    → get_elem? seen i ≡ some false
    → suc (unseen (set seen i true)) ≡ unseen seen
unseen-set [] i e = ground arith
unseen-set (false ∷ seen) zero e = refl
unseen-set (true ∷ seen) zero e = ground arith
unseen-set (false ∷ seen) (suc i) e = ap suc (unseen-set seen i e)
unseen-set (true ∷ seen) (suc i) e = unseen-set seen i e

module _ {N : Type 0} where
  length-push_all : (ns todo : List N) → length (push_all ns todo) ≡ length ns + length todo
  unfolding push_all
  length-push_all [] todo = omega arith
  length-push_all (n ∷ ns) todo = omega (arith, length-push_all ns (n ∷ todo))

  In-push_all_old : (m : N) (ns todo : List N) → In m todo → In m (push_all ns todo)
  unfolding push_all
  In-push_all_old m [] todo h = h
  In-push_all_old m (n ∷ ns) todo h = In-push_all_old m ns (n ∷ todo) (inr h)

  In-push_all_new : (m : N) (ns todo : List N) → In m ns → In m (push_all ns todo)
  unfolding push_all
  In-push_all_new m [] todo h = absurd h
  In-push_all_new m (n ∷ ns) todo (inl e) = In-push_all_old m ns (n ∷ todo) (inl e)
  In-push_all_new m (n ∷ ns) todo (inr h) = In-push_all_new m ns (n ∷ todo) h

module _ {N : Type 0} (P : N → Type 0) where
  All-push_all : (ns todo : List N) → All P ns → All P todo → All P (push_all ns todo)
  unfolding push_all
  All-push_all [] todo h k = k
  All-push_all (n ∷ ns) todo (p, h) k = All-push_all ns (n ∷ todo) h (p, k)

  Any-push_all : (ns todo : List N) → Any P (push_all ns todo) → Any P ns ⊎ Any P todo
  unfolding push_all
  Any-push_all [] todo h = inr h
  Any-push_all (n ∷ ns) todo h = elim (Any-push_all ns (n ∷ todo) h) [
    | inl a ↦ inl (inr a)
    | inr b ↦ elim b [ inl p ↦ inl (inl p) | inr q ↦ inr q ]
  ]

module _ {N : Type 0} (cell : N → ℕ) (goal : N → Bool) (next : N → List N) where
  -- A chain of pushes from the node to one that passes the test.
  pub data Leads : N → Type 0 where
    here : {n : N} → goal n ≡ true → Leads n
    there : {n m : N} → In m (next n) → Leads m → Leads n

  abbrev IsSeen : List Bool → N → Type 0
  IsSeen seen n = get_elem? seen (cell n) ≡ some true

  -- The answer is right about the nodes that are seen or on the stack.
  abbrev pub Verdict : (N → Type 0) → List Bool → List N → Outcome → Type 0
  Verdict InB seen todo (answer true) = Any Leads todo
  Verdict InB seen todo (answer false) = (n : N) → InB n → IsSeen seen n ⊎ In n todo → ¬ Leads n
  Verdict InB seen todo _ = ⊥

  -- The nodes in bounds have cells of their own in the table, and push at most three such nodes.
  pub record IsBounded (InB : N → Type 0) (size : ℕ) : Type 0 where
    pub fits : (n : N) → InB n → cell n < size
    pub apart : (n m : N) → InB n → InB m → cell n ≡ cell m → n ≡ m
    pub kept : (n : N) → InB n → All InB (next n)
    pub few : (n : N) → length (next n) ≤ 3

  module _ (InB : N → Type 0) (size : ℕ) (bounded : IsBounded InB size) where
    -- What was seen is no end, and all that it pushes is seen or on the stack.
    record Inv (seen : List Bool) (todo : List N) : Type 0 where
      sized : length seen ≡ size
      stacked : All InB todo
      no_end : (n : N) → InB n → IsSeen seen n → goal n ≡ false
      closed : (n : N) → InB n → IsSeen seen n → (m : N) → In m (next n) → IsSeen seen m ⊎ In m todo

    not-Leads : (seen : List Bool) → Inv seen [] → (n : N) → InB n → IsSeen seen n → ¬ Leads n
    not-Leads seen i n b s (here g) = cc (i.no_end n b s)
    not-Leads seen i n b s (there {m = m} h l) = elim (i.closed n b s m h) [
      | inl s' ↦ not-Leads seen i m (All-In InB (next n) (bounded.kept n b) h) s' l
      | inr h' ↦ absurd h'
    ]

    Inv-pop :
        (seen : List Bool) (n : N) (todo : List N)
        → Inv seen (n ∷ todo)
        → IsSeen seen n
        → Inv seen todo
    Inv-pop seen n todo i s = record {
      sized = i.sized;
      stacked = i.stacked.1;
      no_end = i.no_end;
      closed = λ k b sk m h. elim (i.closed k b sk m h) [
        | inl sm ↦ inl sm
        | inr (inl e) ↦ inl (subst (IsSeen seen) e s)
        | inr (inr rest) ↦ inr rest
      ];
    }

    module _ (seen : List Bool) (n : N) (fresh : get_elem? seen (cell n) ≡ some false)
        (sized : length seen ≡ size) (b : InB n) where
      IsSeen-self : IsSeen (set seen (cell n) true) n
      IsSeen-self = get_elem?-set_self seen (cell n) true (rw sized (bounded.fits n b))

      IsSeen-before : (m : N) → IsSeen seen m → IsSeen (set seen (cell n) true) m
      IsSeen-before m s = elim (ℕ_discrete (cell n) (cell m)) [
        | yes e ↦ cc (ap (get_elem? seen) e)
        | no d ↦ get_elem?-set_ne seen (cell n) (cell m) true d ∙ s
      ]

      IsSeen-after : (m : N) → InB m → IsSeen (set seen (cell n) true) m → (n ≡ m) ⊎ IsSeen seen m
      IsSeen-after m bm s = elim (ℕ_discrete (cell n) (cell m)) [
        | yes e ↦ inl (bounded.apart n m b bm e)
        | no d ↦ inr (sym (get_elem?-set_ne seen (cell n) (cell m) true d) ∙ s)
      ]

      Inv-visit :
          (todo : List N)
          → Inv seen (n ∷ todo)
          → goal n ≡ false
          → Inv (set seen (cell n) true) (push_all (next n) todo)
      Inv-visit todo i g = record {
        sized = length-set seen (cell n) true ∙ sized;
        stacked = All-push_all InB (next n) todo (bounded.kept n b) i.stacked.1;
        no_end =
            λ k bk sk. elim (IsSeen-after k bk sk) [ inl e ↦ rw (← e) g | inr s ↦ i.no_end k bk s ];
        closed = λ k bk sk m h. elim (IsSeen-after k bk sk) [
          | inl e ↦ inr (In-push_all_new m (next n) todo (subst (λ x. In m (next x)) (sym e) h))
          | inr s ↦ elim (i.closed k bk s m h) [
            | inl sm ↦ inl (IsSeen-before m sm)
            | inr (inl e) ↦ inl (subst (IsSeen (set seen (cell n) true)) e IsSeen-self)
            | inr (inr rest) ↦ inr (In-push_all_old m (next n) todo rest)
          ]
        ];
      }

    Verdict-pop :
        (seen : List Bool) (n : N) (todo : List N) (o : Outcome)
        → IsSeen seen n
        → Verdict InB seen todo o
        → Verdict InB seen (n ∷ todo) o
    Verdict-pop seen n todo (answer true) s v = inr v
    Verdict-pop seen n todo (answer false) s v = λ k b at. elim at [
      | inl sk ↦ v k b (inl sk)
      | inr (inl e) ↦ v k b (inl (subst (IsSeen seen) e s))
      | inr (inr m) ↦ v k b (inr m)
    ]
    Verdict-pop seen n todo out_of_bounds s v = v
    Verdict-pop seen n todo out_of_fuel s v = v

    Verdict-visit :
        (seen : List Bool) (n : N) (todo : List N) (o : Outcome)
        → get_elem? seen (cell n) ≡ some false
        → length seen ≡ size
        → InB n
        → Verdict InB (set seen (cell n) true) (push_all (next n) todo) o
        → Verdict InB seen (n ∷ todo) o
    Verdict-visit seen n todo (answer true) fresh sized b v =
        elim (Any-push_all Leads (next n) todo v) [
          | inl a ↦ let (m, h, l) = Any-In Leads (next n) a in inl (there h l)
          | inr rest ↦ inr rest
        ]
    Verdict-visit seen n todo (answer false) fresh sized b v = λ k bk at. elim at [
      | inl sk ↦ v k bk (inl (IsSeen-before seen n fresh sized b k sk))
      | inr (inl e) ↦
          v k bk
            (inl (subst (IsSeen (set seen (cell n) true)) e (IsSeen-self seen n fresh sized b)))
      | inr (inr m) ↦ v k bk (inr (In-push_all_old k (next n) todo m))
    ]
    Verdict-visit seen n todo out_of_bounds fresh sized b v = v
    Verdict-visit seen n todo out_of_fuel fresh sized b v = v

    visit_cost :
        (seen : List Bool) (n : N) (todo : List N) (f : ℕ)
        → get_elem? seen (cell n) ≡ some false
        → suc (length todo) + 3 * unseen seen < suc f
        → length (push_all (next n) todo) + 3 * unseen (set seen (cell n) true) < f
    visit_cost seen n todo f fresh h =
        omega (arith, length-push_all (next n) todo, bounded.few n, unseen-set seen (cell n) fresh)

    -- Enough fuel: each round pops a node, and a node pushes three at most, once for its cell.
    search-Verdict :
        (f : ℕ) (seen : List Bool) (todo : List N)
        → Inv seen todo
        → length todo + 3 * unseen seen < f
        → Verdict InB seen todo (search cell goal next f seen todo)
    unfolding search
    search-Verdict zero seen todo i h = absurd (omega arith)
    search-Verdict (suc f) seen [] i h =
        λ n b at. elim at [ inl s ↦ not-Leads seen i n b s | inr none_left ↦ absurd none_left ]
    search-Verdict (suc f) seen (n ∷ todo) i h =
        let (was, e) = get_elem?-some seen (cell n) (rw i.sized (bounded.fits n i.stacked.0)) in
        elim (Bool-cases was) [
          | inl old ↦
              let s : IsSeen seen n = e ∙ ap some old in
              rw (s, search)
                (Verdict-pop seen n todo _ s
                  (search-Verdict f seen todo (Inv-pop seen n todo i s) (omega arith)))
          | inr new ↦
              let fresh : get_elem? seen (cell n) ≡ some false = e ∙ ap some new in
              elim (Bool-cases (goal n)) [
                | inl g ↦ rw (fresh, search) (rw (g, search) (inl (here g)))
                | inr g ↦
                    rw (fresh, search)
                      (rw (g, search)
                        (Verdict-visit seen n todo _ fresh i.sized i.stacked.0 (
                          search-Verdict f (set seen (cell n) true) (push_all (next n) todo)
                            (Inv-visit seen n fresh i.sized i.stacked.0 todo i g)
                            (visit_cost seen n todo f fresh h))))
              ]
        ]

    get_elem?-replicate : (k : ℕ) (i : ℕ) → get_elem? (replicate k false) i ≢ some true
    get_elem?-replicate zero i e = cc e
    get_elem?-replicate (suc k) zero e = cc e
    get_elem?-replicate (suc k) (suc i) e = get_elem?-replicate k i e

    unseen-replicate : (k : ℕ) → unseen (replicate k false) ≡ k
    unseen-replicate zero = refl
    unseen-replicate (suc k) = ap suc (unseen-replicate k)

    Verdict-answer :
        (seen : List Bool) (n : N) (o : Outcome)
        → InB n
        → Verdict InB seen (n ∷ []) o
        → (b : Bool) × (o ≡ answer b) × ((b ≡ true) ↔ Leads n)
    Verdict-answer seen n (answer true) b (inl l) = (true, refl, (λ _. l, λ _. refl))
    Verdict-answer seen n (answer true) b (inr h) = absurd h
    Verdict-answer seen n (answer false) b v =
        (false, refl, (λ e. absurd (false≢true e), λ l. absurd (v n b (inr (inl refl)) l)))
    Verdict-answer seen n out_of_bounds b v = absurd v
    Verdict-answer seen n out_of_fuel b v = absurd v

    -- From a fresh table, on the fuel given, the search answers whether the start leads to the end.
    pub search-start :
        (n : N)
        → InB n
        → (b : Bool) × (search cell goal next (2 + 3 * size) (replicate size false) (n ∷ [])
            ≡ answer b)
          × ((b ≡ true) ↔ Leads n)
    search-start n inb = Verdict-answer (replicate size false) n _ inb (
        search-Verdict (2 + 3 * size) (replicate size false) (n ∷ [])
          (record {
            sized = length-replicate size false;
            stacked = (inb, tt);
            no_end = λ k b s. absurd (get_elem?-replicate size (cell k) s);
            closed = λ k b s. absurd (get_elem?-replicate size (cell k) s);
          })
          (omega (arith, unseen-replicate size)))
