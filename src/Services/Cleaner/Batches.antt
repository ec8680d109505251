-- ===== src/Services/Cleaner/Batches.antt =====
-- Writing in batches, each in a transaction.
use ankiced.Base.{
  ◌≡◌, ◌≤◌, ◌*◌, ◌+◌, refl, sym, ap, ◌∙◌, ℕ, zero, suc, false, List, [], ◌∷◌, ◌++◌, length, take,
  drop, length-drop, inl, inr, arith,
}
use ankiced.Errors.{Err}
use ankiced.Action.{Outcome, ok, fail, Action, continue, Outcome-cases}
use ankiced.Services.Ports.{Services}
use ankiced.Services.Notes.{update_note_with}
use ankiced.Services.Pool.{Processed}
use ankiced.Services.Cleaner.{batch_size, write_all, write_batches}

take-nil : {A : Type 0} (n : ℕ) → take {A = A} n [] ≡ []
take-nil zero = refl
take-nil (suc n) = refl

take_add : {A : Type 0} (a k : ℕ) (xs : List A) → take (a + k) xs ≡ take a xs ++ take k (drop a xs)
take_add zero k xs = ap (λ n. take n xs) (omega arith)
take_add (suc a) k [] = take-nil (suc a + k) ∙ sym (take-nil k)
take_add (suc a) k (x ∷ xs) =
    let e : suc a + k ≡ suc (a + k) = omega arith in
    ap (λ n. take n (x ∷ xs)) e ∙ ap (λ l. x ∷ l) (take_add a k xs)

module _ {W : Type 0} (s : Services W) where
  -- What WithTx promises: a function that reports no error is committed, after an error all that
  -- it did is undone.
  pub record IsTransactional : Type 0 where
    pub committed : (m : Action W (Unit {0})) (w : W) → (m w).0 ≡ ok tt → s.with_tx m w ≡ m w
    pub undone :
        (m : Action W (Unit {0})) (w : W) (e : Err) → (m w).0 ≡ fail e → s.with_tx m w ≡ (fail e, w)

  append_step :
      (xs ys : List Processed)
      → ((w : W)
          → write_all s (xs ++ ys) w
            ≡ continue (write_all s xs w).0 (λ _. write_all s ys) (write_all s xs w).1)
      → (o : Outcome (Unit {0})) (w : W)
      → continue o (λ _. write_all s (xs ++ ys)) w
        ≡ continue
            (continue o (λ _. write_all s xs) w).0
            (λ _. write_all s ys)
            (continue o (λ _. write_all s xs) w).1
  append_step xs ys ih (ok tt) w = ih w
  append_step xs ys ih (fail e) w = refl

  write_all-append :
      (xs ys : List Processed) (w : W)
      → write_all s (xs ++ ys) w
        ≡ continue (write_all s xs w).0 (λ _. write_all s ys) (write_all s xs w).1
  unfolding write_all
  write_all-append [] ys w = refl
  write_all-append (x ∷ xs) ys w =
      append_step xs ys (write_all-append xs ys) (update_note_with s x.note_id x.fields false w).0
        (update_note_with s x.note_id x.fields false w).1

  -- The batches of `items` from `w` on ended with `r` after the first `j` batches were stored.
  pub record IsStored (items : List Processed) (w : W) (r : Outcome (Unit {0}) × W) : Type 0 where
    pub batches : ℕ
    pub accepted : (write_all s (take (batches * batch_size) items) w).0 ≡ ok tt
    pub state : r.1 ≡ (write_all s (take (batches * batch_size) items) w).1
    pub all : r.0 ≡ ok tt → length items ≤ batches * batch_size
    pub failed :
        (e : Err)
        → r.0 ≡ fail e
        → (write_all s (take (suc batches * batch_size) items) w).0 ≡ fail e

  stored_more :
      (a k : ℕ) (items : List Processed) (w : W)
      → (write_all s (take a items) w).0 ≡ ok tt
      → write_all s (take (a + k) items) w
        ≡ write_all s (take k (drop a items)) (write_all s (take a items) w).1
  stored_more a k items w h =
      ap (λ l. write_all s l w) (take_add a k items)
      ∙ write_all-append (take a items) (take k (drop a items)) w
      ∙ ap
          (λ o.
            continue o (λ _. write_all s (take k (drop a items))) (write_all s (take a items) w).1)
          h

  next_batch :
      (items : List Processed) (w : W) (r : Outcome (Unit {0}) × W)
      → (write_all s (take batch_size items) w).0 ≡ ok tt
      → IsStored (drop batch_size items) (write_all s (take batch_size items) w).1 r
      → IsStored items w r
  next_batch items w r h k =
      let more : (j : ℕ)
          → write_all s (take (suc j * batch_size) items) w
            ≡ write_all s (take (j * batch_size) (drop batch_size items))
                (write_all s (take batch_size items) w).1 =
        λ j.
          ap (λ n. write_all s (take n items) w) (omega arith)
          ∙ stored_more batch_size (j * batch_size) items w h in
      record {
        batches = suc k.batches;
        accepted = ap (λ p. p.0) (more k.batches) ∙ k.accepted;
        state = k.state ∙ ap (λ p. p.1) (sym (more k.batches));
        all = λ e. let few = k.all e in omega (arith, length-drop batch_size items);
        failed = λ e f. ap (λ p. p.0) (more (suc k.batches)) ∙ k.failed e f;
      }

  no_batches : (w : W) → IsStored [] w (ok tt, w)
  unfolding write_all
  no_batches w = record {
    batches = 0;
    accepted = refl;
    state = refl;
    all = λ _. omega arith;
    failed = λ e h. cc;
  }

  first_failed :
      (items : List Processed) (w : W) (e : Err)
      → (write_all s (take batch_size items) w).0 ≡ fail e
      → IsStored items w (fail e, w)
  unfolding write_all
  first_failed items w e h = record {
    batches = 0;
    accepted = refl;
    state = refl;
    all = λ g. cc;
    failed = λ e' g. h ∙ g;
  }

  -- If transactions keep what they promise, the writer stores the notes of whole batches, in the
  -- order of the results, as if they were written one by one: all of them where it reports no
  -- error, and else those of the batches before the first that fails, whose error it returns.
  pub write_batches-IsStored :
      (fuel : ℕ) (items : List Processed) (w : W)
      → IsTransactional
      → length items ≤ fuel
      → IsStored items w (write_batches s fuel items w)
  unfolding write_batches
  write_batches-IsStored zero [] w t h = no_batches w
  write_batches-IsStored zero (r ∷ rs) w t h = absurd (omega arith)
  write_batches-IsStored (suc fuel) [] w t h = no_batches w
  write_batches-IsStored (suc fuel) (r ∷ rs) w t h =
      elim (Outcome-cases (write_all s (take batch_size (r ∷ rs)) w).0) [
        | inl (tt, e) ↦
            rw (t.committed (write_all s (take batch_size (r ∷ rs))) w e, e)
              (next_batch (r ∷ rs) w _ e (
                write_batches-IsStored fuel (drop batch_size (r ∷ rs)) _ t
                  (omega (arith, length-drop batch_size (r ∷ rs)))))
        | inr (x, e) ↦
            rw (t.undone (write_all s (take batch_size (r ∷ rs))) w x e)
              (first_failed (r ∷ rs) w x e)
      ]
