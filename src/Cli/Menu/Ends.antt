-- ===== src/Cli/Menu/Ends.antt =====
-- The menu ends on every input: each round that goes on has taken a line off it.
use ankiced.Base.{
  ℕ, zero, suc, ◌≡◌, ◌<◌, refl, sym, subst, if◌then◌else◌, inl, inr, true, false, Bool, some, ◌++◌,
  Bool-cases, arith,
}
use ankiced.Text.{Text, codes, trim_space}
use ankiced.Errors.{eof, is}
use ankiced.Config.{Settings}
use ankiced.Action.{
  Outcome, ok, fail, Action, ◌>>=◌, ◌>>◌, Preserves, seq, lifted, continue, Outcome-cases,
}
use ankiced.Services.Ports.{Services}
use ankiced.Services.Stable.{IsStable}
use ankiced.Cli.Terminal.{Term, line_count, write, read_string}
use ankiced.Cli.Terminal.Lines.{AtMost, write-AtMost, read_string_takes}
use ankiced.Cli.Reading.{Env, write_lines}
use ankiced.Cli.App.{
  list_decks_action, rename_deck_action, search_decks_action, list_notes_action, find_note_by_id,
  search_notes_all_decks, edit_note, preview_cleaner_action, run_cleaner_action,
}
use ankiced.Cli.App.Input.{
  write_lines-AtMost, list_decks_action-AtMost, rename_deck_action-AtMost,
  search_decks_action-AtMost, list_notes_action-AtMost, find_note_by_id-AtMost,
  search_notes_all_decks-AtMost, edit_note-AtMost, preview_cleaner_action-AtMost, IsStableRun,
  run_cleaner_action-AtMost,
}
use ankiced.Cli.Menu.{
  Choice, listing, renaming, deck_search, notes, editing, preview, dry_run, applying, by_id,
  note_search, exit, unknown, menu, choice_of, settled, settle, act_on, message, round, run,
}

after :
    {W A : Type 0} (o : Outcome A) (f : A → Action (Term W) Bool) (u : Term W) (n : ℕ)
    → ((a : A) → o ≡ ok a → (f a u).0 ≡ ok true → line_count (f a u).1 < n)
    → (continue o f u).0 ≡ ok true
    → line_count (continue o f u).1 < n
after (ok a) f u n k h = k a refl h
after (fail e) f u n k h = cc

module _ {W : Type 0} (s : Services (Term W)) (env : Env W) (cfg : Settings) where
  settled-AtMost : (n : ℕ) (o : Outcome (Unit {0})) → Preserves (AtMost n) (settled s env cfg o)
  unfolding settled
  settled-AtMost n (ok a) t h = h
  settled-AtMost n (fail e) t h =
      let shown =
        (seq (AtMost n) (write (message s env cfg e), write-AtMost n (message s env cfg e))
          (lifted (AtMost n) (ok true))) in
      elim (Bool-cases (is e eof)) [
        | inl ends ↦ subst (λ b. AtMost n (if b then (fail e, t) else shown.0 t).1) (sym ends) h
        | inr goes_on ↦
            subst (λ b. AtMost n (if b then (fail e, t) else shown.0 t).1) (sym goes_on)
              (shown.1 t h)
      ]

  settle-AtMost :
      (n : ℕ) (act : Action (Term W) (Unit {0}))
      → Preserves (AtMost n) act
      → Preserves (AtMost n) (settle s env cfg act)
  unfolding settle settled
  settle-AtMost n act k t h = settled-AtMost n (act t).0 (act t).1 (k t h)

  -- Nothing behind the ports, and no run of the workers, adds to the input.
  abbrev pub IsClosed : Type 0
  IsClosed =
      ((n : ℕ) → IsStable (AtMost n) s)
      × ((n : ℕ) (h : IsStable (AtMost n) s) → IsStableRun n s h env cfg)

  module _ (closed : IsClosed) where
    act_on-AtMost : (n : ℕ) (c : Choice) → Preserves (AtMost n) (act_on s env cfg c)
    unfolding act_on
    act_on-AtMost n listing =
        settle-AtMost n (list_decks_action s env cfg)
          (list_decks_action-AtMost n s (closed.0 n) env cfg)
    act_on-AtMost n renaming =
        settle-AtMost n (rename_deck_action s env cfg)
          (rename_deck_action-AtMost n s (closed.0 n) env cfg)
    act_on-AtMost n deck_search =
        settle-AtMost n (search_decks_action s env cfg)
          (search_decks_action-AtMost n s (closed.0 n) env cfg)
    act_on-AtMost n notes =
        settle-AtMost n (list_notes_action s env cfg)
          (list_notes_action-AtMost n s (closed.0 n) env cfg)
    act_on-AtMost n editing =
        settle-AtMost n (edit_note s env cfg) (edit_note-AtMost n s (closed.0 n) env cfg)
    act_on-AtMost n preview =
        settle-AtMost n (preview_cleaner_action s env cfg)
          (preview_cleaner_action-AtMost n s (closed.0 n) env cfg)
    act_on-AtMost n dry_run =
        settle-AtMost n (run_cleaner_action s env cfg true)
          (run_cleaner_action-AtMost n s (closed.0 n) env cfg (closed.1 n (closed.0 n)) true)
    act_on-AtMost n applying =
        settle-AtMost n (run_cleaner_action s env cfg false)
          (run_cleaner_action-AtMost n s (closed.0 n) env cfg (closed.1 n (closed.0 n)) false)
    act_on-AtMost n by_id =
        settle-AtMost n (find_note_by_id s env cfg)
          (find_note_by_id-AtMost n s (closed.0 n) env cfg)
    act_on-AtMost n note_search =
        settle-AtMost n (search_notes_all_decks s env cfg)
          (search_notes_all_decks-AtMost n s (closed.0 n) env cfg)
    act_on-AtMost n exit = λ t p. p
    act_on-AtMost n unknown =
        (seq (AtMost n)
          (
            write (codes "Unknown option" ++ codes "\n"),
            write-AtMost n (codes "Unknown option" ++ codes "\n"),
          )
          (lifted (AtMost n) (ok true))).1

    abbrev answer : Text → Action (Term W) Bool
    answer line = act_on s env cfg (choice_of (trim_space line))

    answer_takes :
        (t : Term W) (line : Text)
        → (read_string t).0 ≡ ok line
        → line_count (answer line (read_string t).1).1 < line_count t
    answer_takes t line found =
        let fewer = read_string_takes t line found in
        let u = (read_string t).1 in
        let same = act_on-AtMost (line_count u) (choice_of (trim_space line)) u (omega arith) in
        omega (arith, fewer, same)

    asking_takes :
        (t : Term W)
        → ((write_lines menu >> (read_string >>= answer)) t).0 ≡ ok true
        → line_count ((write_lines menu >> (read_string >>= answer)) t).1 < line_count t
    asking_takes t =
        let u = (write_lines menu t).1 in
        let kept = write_lines-AtMost (line_count t) menu t (omega arith) in
        after (write_lines menu t).0 (λ _. read_string >>= answer) u (line_count t)
          λ _ _.
            after (read_string u).0 answer (read_string u).1 (line_count t)
              λ line found _. omega (arith, kept, answer_takes u line found)

    round_takes :
        (t : Term W)
        → (round s env cfg t).0 ≡ ok true
        → line_count (round s env cfg t).1 < line_count t
    unfolding round
    round_takes t = elim (Bool-cases (env.is_done t)) [
      | inl done ↦ rw done (λ h. cc)
      | inr going ↦ rw going (asking_takes t)
    ]

    -- If nothing behind the ports and no run of the workers adds to the input, the menu ends after
    -- fewer rounds than any number above the number of line feeds in the input, whatever is typed.
    pub run_ends :
        (fuel : ℕ) (t : Term W)
        → line_count t < fuel
        → (r : Outcome (Unit {0}) × Term W) × (run s env cfg fuel t ≡ some r)
    unfolding run
    run_ends zero t h = let none_left : ⊥ = omega (arith, h) in elim none_left [ ]
    run_ends (suc fuel) t h = elim (Outcome-cases (round s env cfg t).0) [
      | inr (e, failed) ↦ ((fail e, (round s env cfg t).1), cc)
      | inl (true, on) ↦
          let fewer = round_takes t on in
          let (r, ended) = run_ends fuel (round s env cfg t).1 (omega arith) in (r, cc)
      | inl (false, off) ↦ ((ok tt, (round s env cfg t).1), cc)
    ]
