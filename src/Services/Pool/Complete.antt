-- ===== src/Services/Pool/Complete.antt =====
-- What a run of the workers without an error has done.
use ankiced.Base.{
  ◌≡◌, ◌+◌, ℕ, suc, ℤ, eq_ℤ, refl, subst, sym, ap, ◌∙◌, ◌⊎◌, inl, inr, true, false, Option, none,
  some, List, [], ◌∷◌, ◌++◌, map, All, All-append, arith, if◌then◌else◌,
}
use ankiced.Errors.{Err}
use ankiced.Domain.{Note, NoteField, DiffRecord, Model}
use ankiced.Action.{Outcome, ok, fail, lift, and_then, bind-Keeps, Outcome-cases}
use ankiced.Services.Ports.{Services, Template}
use ankiced.Services.Ports.Reads.{IsReadOnly}
use ankiced.Services.Notes.{get_note, with_fields, clean_fields}
use ankiced.Services.Notes.Laws.{get_note-Keeps}
use ankiced.Services.Notes.RoundTrip.{answers}
use ankiced.Services.Pool.{
  Processed, sent, first_error, Pool, new_pool, IsFinal, transform, Step, feed, feed_end, feed_stop,
  finish, break, panic, interrupt, cancel, Steps, done, next,
}

-- How often an id stands in a list.
abbrev pub count : ℤ → List ℤ → ℕ
count x [] = 0
count x (y ∷ ys) = let rest = count x ys in if eq_ℤ x y then suc rest else rest

count-append : (x : ℤ) (xs ys : List ℤ) → count x (xs ++ ys) ≡ count x xs + count x ys
count-append x [] ys = omega arith
count-append x (y ∷ xs) ys = ground (arith, count-append x xs ys)

count-taken :
    (x : ℤ) (taken before after : List ℤ) (id : ℤ)
    → taken ≡ before ++ id ∷ after
    → count x taken ≡ count x (before ++ after) + count x (id ∷ [])
count-taken x taken before after id e =
    ground (arith, ap (count x) e, count-append x before (id ∷ after), count-append x before after)

abbrev pub ids_of : List Processed → List ℤ
ids_of rs = map (λ r. r.note_id) rs

ids_of-append : (xs ys : List Processed) → ids_of (xs ++ ys) ≡ ids_of xs ++ ids_of ys
ids_of-append [] ys = refl
ids_of-append (x ∷ xs) ys = ap (λ l. x.note_id ∷ l) (ids_of-append xs ys)

note_id-sent :
    (id : ℤ) (o : Outcome (List NoteField × List DiffRecord)) (r : Processed)
    → sent id o ≡ ok r
    → r.note_id ≡ id
note_id-sent id (ok (fields, [])) r h = cc
note_id-sent id (ok (fields, d ∷ ds)) r h = cc
note_id-sent id (fail e) r h = cc

module _ {W : Type 0} (s : Services W) (apply : Template) (h : IsReadOnly (answers s) s) where
  -- GetNote as a function of what the queries answer.
  abbrev reading : (ℤ → Outcome Note) × (ℤ → Outcome Model) → ℤ → Outcome Note
  reading a id = and_then (a.0 id) λ n. and_then (a.1 n.model_id) λ m. with_fields s n m

  get_note-reading : (id : ℤ) (w : W) → (get_note s id w).0 ≡ reading (answers s w) id
  unfolding get_note
  get_note-reading id w = elim (Outcome-cases (s.notes.get_note id w).0) [
    | inr (e, bad) ↦ rw bad refl
    | inl (n, found) ↦ rw found (
        let e : (s.get_model_by_id n.model_id (s.notes.get_note id w).1).0
            ≡ (s.get_model_by_id n.model_id w).0 =
          ap (λ a. a.1 n.model_id) (h.get_note id w) in
        rw e (elim (Outcome-cases (s.get_model_by_id n.model_id w).0) [
          | inr (e', bad) ↦ rw bad refl
          | inl (m, typed) ↦ rw typed refl
        ]))
  ]

  abbrev cleaned : ℤ → Outcome Note → Outcome Processed
  cleaned id o = and_then o λ n. sent id (clean_fields apply n.id n.fields)

  transform-cleaned : (id : ℤ) (w : W) → (transform s apply id w).0 ≡ cleaned id (get_note s id w).0
  unfolding transform
  transform-cleaned id w = elim (Outcome-cases (get_note s id w).0) [
    | inl (n, e) ↦ rw e refl
    | inr (x, e) ↦ rw e refl
  ]

  transform_world : (id : ℤ) (w : W) → answers s (transform s apply id w).1 ≡ answers s w
  unfolding transform
  transform_world id =
      bind-Keeps (answers s) (get_note s id)
        (λ n. lift (sent id (clean_fields apply n.id n.fields))) (get_note-Keeps (answers s) s h id)
        (λ n w. refl)

  transform_same :
      (id : ℤ) (w w' : W)
      → answers s w ≡ answers s w'
      → (transform s apply id w).0 ≡ (transform s apply id w').0
  transform_same id w w' e =
      transform-cleaned id w
      ∙ ap (cleaned id)
          (get_note-reading id w ∙ ap (λ a. reading a id) e ∙ sym (get_note-reading id w'))
      ∙ sym (transform-cleaned id w')

  note_id-transform :
      (id : ℤ) (w : W) (r : Processed) → (transform s apply id w).0 ≡ ok r → r.note_id ≡ id
  unfolding transform
  note_id-transform id w r e = elim (Outcome-cases (get_note s id w).0) [
    | inl (n, g) ↦
        note_id-sent id (clean_fields apply n.id n.fields) r
          (sym (ap (cleaned id) g) ∙ sym (transform-cleaned id w) ∙ e)
    | inr (x, g) ↦ absurd (let k = sym (ap (cleaned id) g) ∙ sym (transform-cleaned id w) ∙ e in cc)
  ]

  -- Of a run on `ids` that began in the state `w0`.
  record Accounts (ids : List ℤ) (w0 : W) (p : Pool W) : Type 0 where
    pub same : answers s p.world ≡ answers s w0
    pub sound : All (λ r. (transform s apply r.note_id w0).0 ≡ ok r) p.results
    pub whole :
        p.error ≡ none
        → (x : ℤ) → count x p.waiting + count x p.taken + count x (ids_of p.results) ≡ count x ids
    pub fed : p.feeding ≡ false → (p.waiting ≡ []) ⊎ (p.cancelled ≡ true)
    pub quiet : (p.error ≡ none) ⊎ (p.cancelled ≡ true)

  not_none : (o : Option Err) (e : Err) {A : Type 0} → first_error o e ≡ none → A
  not_none none e h = cc
  not_none (some e') e h = cc

  Accounts-Step :
      (ids : List ℤ) (w0 : W) (p q : Pool W)
      → Accounts ids w0 p
      → Step s apply p q
      → Accounts ids w0 q
  Accounts-Step ids w0 p _ a (feed id rest n f w i) = record {
    same = a.same;
    sound = a.sound;
    whole = λ e x. let k = a.whole e x in ground (arith, ap (count x) w);
    fed = λ g. cc;
    quiet = a.quiet;
  }
  Accounts-Step ids w0 p _ a (feed_end f w) = record {
    same = a.same;
    sound = a.sound;
    whole = a.whole;
    fed = λ _. inl w;
    quiet = a.quiet;
  }
  Accounts-Step ids w0 p _ a (feed_stop f c) = record {
    same = a.same;
    sound = a.sound;
    whole = a.whole;
    fed = λ _. inr c;
    quiet = a.quiet;
  }
  Accounts-Step ids w0 p _ a (finish before after id r t e) = record {
    same = transform_world id p.world ∙ a.same;
    sound =
        All-append (λ r. (transform s apply r.note_id w0).0 ≡ ok r) p.results (r ∷ []) a.sound
          (
            subst (λ j. (transform s apply j w0).0 ≡ ok r) (sym (note_id-transform id p.world r e))
                (transform_same id w0 p.world (sym a.same) ∙ e),
            tt,
          );
    whole = λ e' x.
        let own : count x (r.note_id ∷ []) ≡ count x (id ∷ []) =
          ap (λ j. count x (j ∷ [])) (note_id-transform id p.world r e) in
        let parts : count x (ids_of (p.results ++ r ∷ []))
            ≡ count x (ids_of p.results) + count x (id ∷ []) =
          ap (count x) (ids_of-append p.results (r ∷ []))
          ∙ count-append x (ids_of p.results) (r.note_id ∷ [])
          ∙ ap (λ k. count x (ids_of p.results) + k) own in
        let k = a.whole e' x in omega (arith, count-taken x p.taken before after id t);
    fed = a.fed;
    quiet = a.quiet;
  }
  Accounts-Step ids w0 p _ a (break before after id e t h') = record {
    same = transform_world id p.world ∙ a.same;
    sound = a.sound;
    whole = λ g x. not_none p.error e g;
    fed = λ _. inr refl;
    quiet = inr refl;
  }
  Accounts-Step ids w0 p _ a (panic before after id text t) = record {
    same = get_note-Keeps (answers s) s h id p.world ∙ a.same;
    sound = a.sound;
    whole = λ g x. not_none p.error _ g;
    fed = λ _. inr refl;
    quiet = inr refl;
  }
  Accounts-Step ids w0 p _ a (interrupt before after id e t c) = record {
    same = a.same;
    sound = a.sound;
    whole = λ g x. not_none p.error e g;
    fed = λ _. inr refl;
    quiet = inr refl;
  }
  Accounts-Step ids w0 p _ a (cancel c) = record {
    same = a.same;
    sound = a.sound;
    whole = a.whole;
    fed = λ _. inr refl;
    quiet = inr refl;
  }

  Accounts-new_pool : (workers : ℕ) (ids : List ℤ) (w : W) → Accounts ids w (new_pool workers ids w)
  Accounts-new_pool workers ids w = record {
    same = refl;
    sound = tt;
    whole = λ _ x. omega arith;
    fed = λ g. cc;
    quiet = inl refl;
  }

  Accounts-Steps :
      (ids : List ℤ) (w0 : W) (p q : Pool W)
      → Accounts ids w0 p
      → Steps s apply p q
      → Accounts ids w0 q
  Accounts-Steps ids w0 p _ a done = a
  Accounts-Steps ids w0 p r a (next {q = q} st rest) =
      Accounts-Steps ids w0 q r (Accounts-Step ids w0 p q a st) rest

  -- If reading changes nothing that the queries for notes and models answer, then where the
  -- context was not cancelled a run that is over has reported no error and has sent, in whatever
  -- order, one result for each occurrence of an id in the list, each being what reading and
  -- cleaning this note gives in the state in which the run began.
  pub run_complete :
      (workers : ℕ) (ids : List ℤ) (w : W) (p : Pool W)
      → Steps s apply (new_pool workers ids w) p
      → IsFinal p
      → p.cancelled ≡ false
      → (p.error ≡ none)
        × All (λ r. (transform s apply r.note_id w).0 ≡ ok r) p.results
        × ((x : ℤ) → count x (ids_of p.results) ≡ count x ids)
  run_complete workers ids w p run (ended, idle) calm =
      let a =
        Accounts-Steps ids w (new_pool workers ids w) p (Accounts-new_pool workers ids w) run in
      let none' : p.error ≡ none = elim a.quiet [ inl e ↦ e | inr c ↦ cc ] in
      let all_fed : p.waiting ≡ [] = elim (a.fed ended) [ inl e ↦ e | inr c ↦ cc ] in
      (
        none',
        a.sound,
        λ x. let k = a.whole none' x in omega (arith, ap (count x) all_fed, ap (count x) idle),
      )

  -- The state in which a run ends answers the queries as the one in which it began.
  pub run_same :
      (workers : ℕ) (ids : List ℤ) (w : W) (p : Pool W)
      → Steps s apply (new_pool workers ids w) p
      → answers s p.world ≡ answers s w
  run_same workers ids w p run =
      (Accounts-Steps ids w (new_pool workers ids w) p (Accounts-new_pool workers ids w) run).same
