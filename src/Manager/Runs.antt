-- ===== src/Manager/Runs.antt =====
-- cmd/main.go: the calls of main up to the first that fails.
use horizon_issuer.Common.{
  Bool, true, false, none, some, List, [], ◌∷◌, ◌++◌, ◌≡◌, refl, ◌∙◌, sym, subst, ap, arith, inl,
  inr, Option-cases, Bool-cases, if◌then◌else◌,
}
use horizon_issuer.Errors.{Error}
use horizon_issuer.Manager.{System, Step, start, finished, failed, run}

nil_right : {A : Type 0} (xs : List A) → xs ++ [] ≡ xs
nil_right [] = refl
nil_right (x ∷ xs) = ap (λ ys. x ∷ ys) (nil_right xs)

append-cons : {A : Type 0} (xs : List A) (x : A) (ys : List A) → (xs ++ x ∷ []) ++ ys ≡ xs ++ x ∷ ys
append-cons [] x ys = refl
append-cons (y ∷ xs) x ys = ap (λ zs. y ∷ zs) (append-cons xs x ys)

-- Every step is answered with no error, after the ones before it.
abbrev pub AllTaken : System → (before todo : List Step) → Type 0
AllTaken sys before [] = Unit
AllTaken sys before (step ∷ todo) =
    (sys.answer before step ≡ none) × AllTaken sys (before ++ step ∷ []) todo

-- The steps of a run that ends with an error: those before it, it, and those left out.
pub record StopsAt (sys : System) (before todo performed : List Step) (step : Step) (e : Error)
    : Type 0 where
  pub earlier : List Step
  pub left_out : List Step
  pub planned : todo ≡ earlier ++ step ∷ left_out
  pub made : performed ≡ (before ++ earlier) ++ step ∷ []
  pub taken : AllTaken sys before earlier
  pub refused : sys.answer (before ++ earlier) step ≡ some e

failed-injective : (s t : Step) (d e : Error) → failed s d ≡ failed t e → (s ≡ t) × (d ≡ e)
failed-injective s t d e h = ground arith

module _ (sys : System) where
  run_taken :
      (before : List Step) (step : Step) (todo : List Step)
      → sys.answer before step ≡ none
      → run sys before (step ∷ todo) ≡ run sys (before ++ step ∷ []) todo
  unfolding run
  run_taken before step todo h = rw (run, h)

  run_refused :
      (before : List Step) (step : Step) (todo : List Step) (e : Error)
      → sys.answer before step ≡ some e
      → run sys before (step ∷ todo) ≡ (before ++ step ∷ [], failed step e)
  unfolding run
  run_refused before step todo e h = rw (run, h)

  pub run-StopsAt :
      (before todo : List Step) (step : Step) (e : Error)
      → (run sys before todo).1 ≡ failed step e
      → StopsAt sys before todo (run sys before todo).0 step e
  unfolding run
  run-StopsAt before [] step e h = cc
  run-StopsAt before (first ∷ todo) step e h = elim (Option-cases (sys.answer before first)) [
    | inl taken ↦
        let rest = run-StopsAt (before ++ first ∷ []) todo step e (ground (arith, taken, h)) in
        let longer = append-cons before first rest.earlier in
        record {
          earlier = first ∷ rest.earlier;
          left_out = rest.left_out;
          planned = ap (λ xs. first ∷ xs) rest.planned;
          made =
              ap (λ q. q.0) (run_taken before first todo taken)
              ∙ (rest.made ∙ ap (λ xs. xs ++ step ∷ []) longer);
          taken = (taken, rest.taken);
          refused = subst (λ xs. sys.answer xs step ≡ some e) longer rest.refused;
        }
    | inr (e', refused) ↦
        let (same, same_error) = failed-injective first step e' e (ground (arith, refused, h)) in
        record {
          earlier = [];
          left_out = todo;
          planned = ap (λ x. x ∷ todo) same;
          made =
              ap (λ q. q.0) (run_refused before first todo e' refused)
              ∙ (ap (λ x. before ++ x ∷ []) same
                  ∙ ap (λ xs. xs ++ step ∷ []) (sym (nil_right before)));
          taken = tt;
          refused =
              ap (λ xs. sys.answer xs step) (nil_right before)
              ∙ (ap (sys.answer before) (sym same) ∙ (refused ∙ ap some same_error));
        }
  ]

  pub run-finished :
      (before todo : List Step)
      → AllTaken sys before todo
      → run sys before todo ≡ (before ++ todo, finished)
  unfolding run
  run-finished before [] all = ap (λ steps. (steps, finished)) (sym (nil_right before))
  run-finished before (step ∷ todo) (taken, all) =
      ground
        (arith, taken, run-finished (before ++ step ∷ []) todo all, append-cons before step todo)

  pub run-taken :
      (before todo : List Step) → (run sys before todo).1 ≡ finished → AllTaken sys before todo
  unfolding run
  run-taken before [] h = tt
  run-taken before (step ∷ todo) h = elim (Option-cases (sys.answer before step)) [
    | inl taken ↦ (taken, run-taken (before ++ step ∷ []) todo (ground (arith, taken, h)))
    | inr (e, refused) ↦ ground (arith, refused, h)
  ]

-- Whether the manager's run is among the calls.
abbrev pub starts : Step → Bool
starts start = true
starts _ = false

abbrev pub is_started : List Step → Bool
is_started [] = false
is_started (step ∷ calls) = if starts step then true else is_started calls

not_started :
    (step : Step) (todo : List Step)
    → is_started (step ∷ todo) ≡ false
    → (is_started (step ∷ []) ≡ false) × (is_started todo ≡ false)
not_started step todo h = elim (Bool-cases (starts step)) [
  | inl s ↦ ground (arith, s, h)
  | inr s ↦ ground (arith, s, h)
]

is_started-append :
    (xs ys : List Step)
    → is_started xs ≡ false
    → is_started ys ≡ false
    → is_started (xs ++ ys) ≡ false
is_started-append [] ys h k = k
is_started-append (x ∷ xs) ys h k = elim (Bool-cases (starts x)) [
  | inl s ↦ ground (arith, s, h)
  | inr s ↦ ground (arith, s, is_started-append xs ys (ground (arith, s, h)) k)
]

started-append : (xs ys : List Step) → is_started ys ≡ true → is_started (xs ++ ys) ≡ true
started-append [] ys k = k
started-append (x ∷ xs) ys k = ground (arith, started-append xs ys k)

-- A run that ends with the start makes it only after all that comes before it is taken.
pub run-started :
    (sys : System) (before todo : List Step)
    → is_started before ≡ false
    → is_started todo ≡ false
    → is_started (run sys before (todo ++ start ∷ [])).0 ≡ true
    → AllTaken sys before todo
unfolding run
run-started sys before [] out rest h = tt
run-started sys before (step ∷ todo) out rest h =
    let (first, others) = not_started step todo rest in
    let longer = is_started-append before (step ∷ []) out first in
    elim (Option-cases (sys.answer before step)) [
      | inl taken ↦ (
        taken,
        run-started sys (before ++ step ∷ []) todo longer others (ground (arith, taken, h)),
      )
      | inr (e, refused) ↦ ground (arith, refused, h, longer)
    ]

pub run-start :
    (sys : System) (before todo : List Step)
    → AllTaken sys before todo
    → is_started (run sys before (todo ++ start ∷ [])).0 ≡ true
unfolding run
run-start sys before [] all = elim (Option-cases (sys.answer before start)) [
  | inl taken ↦ ground (arith, taken, started-append before (start ∷ []) refl)
  | inr (e, refused) ↦ ground (arith, refused, started-append before (start ∷ []) refl)
]
run-start sys before (step ∷ todo) (taken, all) =
    ground (arith, taken, run-start sys (before ++ step ∷ []) todo all)
