-- ===== src/Script/Eval/Cases.antt =====
-- The branches of `eval`.
use mathlib.Core.Option.{some-injective}
use mathlib.Core.Path.{subst}
use gtksudoku.Prelude.{
  ℕ, zero, suc, ◌<◌, ◌≡◌, refl, sym, ◌∙◌, ap, Bool, ◌&&◌, arith, Option, none, some,
}
use gtksudoku.Prelude.{
  List, [], ◌∷◌, ◌++◌, ◌==◌, ==→≡, leb, length, get_or, same_text, Bool-cases, Option-cases, inl,
  inr, pos, negsuc,
}
use gtksudoku.Constants.{digits}
use gtksudoku.Tools.Files.{codes}
use gtksudoku.Script.Board.{Board, Result}
use gtksudoku.Script.Session.{Session, push, print_blank_board, Reply, said}
use gtksudoku.Script.Commands.{Command, nargs, name_of}
use gtksudoku.Script.Commands.Facts.{Held}
use gtksudoku.Script.Pairs.Laws.{InDigits}
use gtksudoku.Script.Eval.{
  Arg, number, text, Help, numbers, do_help, do_edit, printed, answer, after_rule, run_command,
  eval_command, eval_other, eval, help_line,
}
use gtksudoku.Script.Eval.{find_command, asks_help, first_text, text_of}

-- The arguments are as many numbers from 1 to 9.
abbrev Checked : List Arg → List ℕ → Type 0
Checked args ns = (length args ≡ length ns) × ((i : ℕ) → i < length ns → InDigits (get_or ns i 0))

inside_cons :
    (n : ℕ) (ns : List ℕ)
    → InDigits n
    → ((i : ℕ) → i < length ns → InDigits (get_or ns i 0))
    → (i : ℕ) → i < length (n ∷ ns)
    → InDigits (get_or (n ∷ ns) i 0)
inside_cons n ns here h zero lt = here
inside_cons n ns here h (suc j) lt = h j (omega (arith, lt))

Checked-cons :
    (n : ℕ) (args : List Arg) (ns : List ℕ)
    → InDigits n
    → Checked args ns
    → Checked (number (pos n) ∷ args) (n ∷ ns)
Checked-cons n args ns here (same_length, h) = (ap suc same_length, inside_cons n ns here h)

numbers-Checked : (args : List Arg) (ns : List ℕ) → numbers args ≡ some ns → Checked args ns
unfolding numbers
numbers-Checked [] ns h =
    let empty : Checked [] [] = (refl, λ i lt. absurd (omega (arith, lt))) in
    subst (λ ns. Checked [] ns) (some-injective [] ns h) empty
numbers-Checked (number (negsuc n) ∷ args) ns h = cc
numbers-Checked (text t ∷ args) ns h = cc
numbers-Checked (number (pos n) ∷ args) ns h = elim (Bool-cases (leb 1 n && leb n digits)) [
  | inr out ↦ absurd (ground (arith, out, h))
  | inl inside ↦ elim (Option-cases (numbers args)) [
    | inl e ↦ absurd (ground (arith, inside, e, h))
    | inr (rest, e) ↦
        let made : numbers (number (pos n) ∷ args) ≡ some (n ∷ rest) =
          rw (numbers, inside, e) refl in
        let here : InDigits n = (ground (arith, inside), ground (arith, inside)) in
        subst (λ ns. Checked (number (pos n) ∷ args) ns)
          (some-injective (n ∷ rest) ns (sym made ∙ h))
          (Checked-cons n args rest here (numbers-Checked args rest e))
  ]
]

-- A command with a rule, or without one.
pub on_rule :
    (Q : Reply → Type 0) (P : (Board → Result) → Type 0)
    (o : Option (Board → Result × Option (List ℕ))) (b : Board) (st : Session)
    (r : Session × Bool × Option (List ℕ))
    → Held P o
    → ((rule : Board → Result × Option (List ℕ)) → P (λ b. (rule b).0) → Q (after_rule (rule b) st))
    → Q (printed r.0 (answer r.1 r.2))
    → Q (elim o [ some rule ↦ after_rule (rule b) st | none ↦ printed r.0 (answer r.1 r.2) ])
on_rule Q P none b st r held h other = other
on_rule Q P (some rule) b st r held h other = h rule held

module _ (Q : Reply → Type 0) (help : Help) (edit : Option (List ℕ) → Option (List ℕ))
    (st : Session) where
  -- What is said without a change.
  abbrev Plain : Type 0
  Plain = (message : Option (List ℕ)) (shown : Option (List ℕ)) → Q (said message st [] shown)

  do_help-plain : (topic : Option (List ℕ)) → Plain → Q (do_help help topic st)
  unfolding do_help
  do_help-plain none plain = plain none (some help.intro)
  do_help-plain (some topic) plain = elim (Option-cases (help.topic topic)) [
    | inl e ↦ rw (do_help, e) (plain (some (codes "no help entry for " ++ topic)) none)
    | inr (s, e) ↦ rw (do_help, e) (plain none (some s))
  ]

  eval_other-cases :
      (name : List ℕ) (args : List Arg)
      → Plain
      → Q (do_edit edit st)
      → Q (eval_other help edit name args st)
  unfolding eval_other
  eval_other-cases name args plain edits = elim (Bool-cases (same_text name (codes "edit"))) [
    | inl e ↦ rw (eval_other, e) edits
    | inr e ↦ elim (Bool-cases (same_text name (codes "help"))) [
      | inl f ↦ rw (eval_other, e, f) (do_help-plain (first_text args) plain)
      | inr f ↦ elim (Bool-cases (same_text name (codes "index"))) [
        | inl g ↦ rw (eval_other, e, f, g) (do_help-plain (some name) plain)
        | inr g ↦
            rw (eval_other, e, f, g)
              (plain (some (codes "command " ++ (name ++ codes " unknown"))) none)
      ]
    ]
  ]

  abbrev Run : Type 0
  Run =
      (x : Command) (a : ℕ → ℕ) (b : Board)
      → st.it ≡ some b
      → ((i : ℕ) → i < nargs x → InDigits (a i))
      → Q (run_command x a b (push st))

  abbrev Blank : Type 0
  Blank = st.it ≡ none → Q (said (some (codes "no board")) st print_blank_board none)

  eval_command-cases :
      (x : Command) (args : List Arg) → Plain → Blank → Run → Q (eval_command x args st)
  unfolding eval_command
  eval_command-cases x args plain blank run = elim (Bool-cases (length args == nargs x)) [
    | inr e ↦ rw (eval_command, e) (plain (some (help_line x)) none)
    | inl e ↦ elim (Option-cases (numbers args)) [
      | inl f ↦ rw (eval_command, e, f) (plain (some (help_line x)) none)
      | inr (ns, f) ↦ elim (Option-cases st.it) [
        | inl g ↦ rw (eval_command, e, f, g) (blank g)
        | inr (b, g) ↦
            let (same_length, inside) = numbers-Checked args ns f in
            rw (eval_command, e, f, g)
              (run x (λ i. get_or ns i 0) b g
                (λ i lt. inside i (omega (arith, lt, same_length, ==→≡ (length args) (nargs x) e))))
      ]
    ]
  ]

  -- A predicate on the replies holds of what `eval` answers, if it holds of each of its branches.
  pub eval-cases :
      (name : Arg) (args : List Arg)
      → Plain
      → Q (do_edit edit st)
      → Blank
      → Run
      → Q (eval help edit name args st)
  unfolding eval
  eval-cases name args plain edits blank run = elim (Option-cases (find_command name)) [
    | inl e ↦ rw (eval, e) (eval_other-cases (text_of name) args plain edits)
    | inr (x, e) ↦ elim (Bool-cases (asks_help args)) [
      | inl f ↦ rw (eval, e, f) (do_help-plain (some (name_of x)) plain)
      | inr f ↦ rw (eval, e, f) (eval_command-cases x args plain blank run)
    ]
  ]
