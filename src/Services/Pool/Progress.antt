-- ===== src/Services/Pool/Progress.antt =====
-- The workers always come to an end.
use ankiced.Base.{
  ◌≡◌, ◌<◌, ◌≤◌, ◌+◌, ◌*◌, ℕ, suc, ℤ, refl, ap, ◌⊎◌, inl, inr, Bool, true, false, List, ◌∷◌, ◌++◌,
  length, length-append, arith,
}
use ankiced.Services.Ports.{Services, Template}
use ankiced.Services.Pool.{
  Pool, new_pool, Step, feed, feed_end, feed_stop, finish, break, panic, interrupt, cancel, Steps,
  done, next,
}

abbrev one_if : Bool → ℕ
one_if true = 1
one_if false = 0

abbrev zero_if : Bool → ℕ
zero_if true = 0
zero_if false = 1

-- How many steps a pool can still make.
abbrev pub remaining : {W : Type 0} → Pool W → ℕ
remaining p =
    length p.waiting + length p.waiting + length p.taken + one_if p.feeding + zero_if p.cancelled

-- A worker that ended early has cancelled the run.
pub record HasWorkers {W : Type 0} (workers : ℕ) (p : Pool W) : Type 0 where
  pub some_worker : 0 < workers
  pub ended : (p.idle + length p.taken ≡ workers) ⊎ (p.cancelled ≡ true)

pub length-taken :
    (taken before after : List ℤ) (id : ℤ)
    → taken ≡ before ++ id ∷ after
    → length taken ≡ suc (length (before ++ after))
length-taken taken before after id e =
    omega (arith, ap length e, length-append before (id ∷ after), length-append before after)

zero_if-true : (b : Bool) → b ≡ false → zero_if b ≡ 1
zero_if-true b h = rw h refl

one_if-true : (b : Bool) → b ≡ true → one_if b ≡ 1
one_if-true b h = rw h refl

module _ {W : Type 0} (s : Services W) (apply : Template) where
  -- Every step leaves fewer steps to be made, so that no run goes on for ever.
  pub remaining-Step : (p q : Pool W) → Step s apply p q → remaining q < remaining p
  remaining-Step p _ (feed id rest n f w i) = omega (arith, ap length w)
  remaining-Step p _ (feed_end f w) = omega (arith, one_if-true p.feeding f)
  remaining-Step p _ (feed_stop f c) = omega (arith, one_if-true p.feeding f)
  remaining-Step p _ (finish before after id r t e) =
      omega (arith, length-taken p.taken before after id t)
  remaining-Step p _ (break before after id e t h) =
      omega (arith, length-taken p.taken before after id t)
  remaining-Step p _ (panic before after id text t) =
      omega (arith, length-taken p.taken before after id t)
  remaining-Step p _ (interrupt before after id e t h) =
      omega (arith, length-taken p.taken before after id t)
  remaining-Step p _ (cancel c) = omega (arith, zero_if-true p.cancelled c)

  HasWorkers-Step :
      (workers : ℕ) (p q : Pool W) → HasWorkers workers p → Step s apply p q → HasWorkers workers q
  HasWorkers-Step workers p _ v (feed id rest n f w i) = record {
    some_worker = v.some_worker;
    ended = elim v.ended [ inl e ↦ inl (omega arith) | inr c ↦ inr c ];
  }
  HasWorkers-Step workers p _ v (feed_end f w) = record {
    some_worker = v.some_worker;
    ended = v.ended;
  }
  HasWorkers-Step workers p _ v (feed_stop f c) = record {
    some_worker = v.some_worker;
    ended = v.ended;
  }
  HasWorkers-Step workers p _ v (finish before after id r t e) = record {
    some_worker = v.some_worker;
    ended = elim v.ended [
      | inl e ↦ inl (omega (arith, length-taken p.taken before after id t))
      | inr c ↦ inr c
    ];
  }
  HasWorkers-Step workers p _ v (break before after id e t h) = record {
    some_worker = v.some_worker;
    ended = inr refl;
  }
  HasWorkers-Step workers p _ v (panic before after id text t) = record {
    some_worker = v.some_worker;
    ended = inr refl;
  }
  HasWorkers-Step workers p _ v (interrupt before after id e t h) = record {
    some_worker = v.some_worker;
    ended = inr refl;
  }
  HasWorkers-Step workers p _ v (cancel c) = record {
    some_worker = v.some_worker;
    ended = inr refl;
  }

  pub HasWorkers-Steps :
      (workers : ℕ) (p q : Pool W) → HasWorkers workers p → Steps s apply p q → HasWorkers workers q
  HasWorkers-Steps workers p _ v done = v
  HasWorkers-Steps workers p r v (next {q = q} st rest) =
      HasWorkers-Steps workers q r (HasWorkers-Step workers p q v st) rest

  abbrev pub CanStep : Pool W → Type 0
  CanStep p = (q : Pool W) × Step s apply p q

  abbrev pub count_steps : {p q : Pool W} → Steps s apply p q → ℕ
  count_steps done = 0
  count_steps (next st rest) = suc (count_steps rest)

  count_steps-le :
      (p q : Pool W) (run : Steps s apply p q) → count_steps run + remaining q ≤ remaining p
  count_steps-le p _ done = omega arith
  count_steps-le p r (next {q = q} st rest) =
      omega (arith, remaining-Step p q st, count_steps-le q r rest)

  -- No run of the workers on a list of ids makes more than two steps for each id and two more.
  pub count_steps-le-ids :
      (workers : ℕ) (ids : List ℤ) (w : W) (p : Pool W)
      (run : Steps s apply (new_pool workers ids w) p)
      → count_steps run ≤ 2 * length ids + 2
  count_steps-le-ids workers ids w p run =
      omega (arith, count_steps-le (new_pool workers ids w) p run)
