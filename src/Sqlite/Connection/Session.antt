-- ===== src/Sqlite/Connection/Session.antt =====
-- Open and Close, and the calls of Reconnect between them.
use ankiced.Base.{
  ◌≡◌, ◌≢◌, refl, ◌⊎◌, ℕ, ◌==◌, ==_refl, not, Option, none, some, List, [], ◌∷◌, keep, Option-cases,
  inl, inr, arith,
}
use ankiced.Text.{codes}
use ankiced.Errors.{Err}
use ankiced.Action.{Outcome, ok, fail}
use ankiced.Sqlite.Pragmas.{Pragmas}
use ankiced.Sqlite.Connection.{
  Db, Faults, close_handle, open_handle, ping_failed, reconnect, IsSingle, IsFailed, IsSwapped,
  reconnect_cases,
}

-- A driver without a handle.
abbrev pub no_handle : ℕ → Db
no_handle n = record { sql = none; opened = []; next = n }

-- Open; the first argument is what normalize gives.
unfoldable pub open_db : Outcome Pragmas → Faults → Db → Option Err × Db
open_db (fail e) f d = (some e, d)
open_db (ok p) f d = elim f.open_new [
  | some e ↦ (some e, d)
  | none ↦ elim f.ping_new [
    | some e ↦ (
      some (ping_failed (codes "close db after ping failure: ") f.close_new e),
      close_handle d.next (open_handle d),
    )
    | none ↦ (none, record (open_handle d) { sql = some d.next })
  ]
]

-- Close, with the error that the driver reports.
unfoldable pub close_db : Option Err → Db → Option Err × Db
close_db fault d = elim d.sql [ none ↦ (none, d) | some h ↦ (fault, close_handle h d) ]

unfoldable pub reconnects : List Faults → Db → Db
unfolding reconnect
reconnects [] d = d
reconnects (f ∷ fs) d = reconnects fs (reconnect f d).1

closed_alone : (h : ℕ) → keep (λ k. not (k == h)) (h ∷ []) ≡ []
closed_alone h = rw (==_refl h) refl

-- What Open leaves: an error and no handle, or the only one.
open_db_cases :
    (p : Outcome Pragmas) (f : Faults) (n : ℕ)
    → (((open_db p f (no_handle n)).0 ≢ none) × ((open_db p f (no_handle n)).1.opened ≡ []))
      ⊎ (((open_db p f (no_handle n)).0 ≡ none) × IsSingle (open_db p f (no_handle n)).1)
unfolding open_db
open_db_cases (fail e) f n = inl ((λ h. cc), refl)
open_db_cases (ok p) f n = elim (Option-cases f.open_new) [
  | inr (e, o) ↦ rw o (inl ((λ h. cc), refl))
  | inl o ↦ elim (Option-cases f.ping_new) [
    | inr (e, k) ↦ rw (o, k) (inl ((λ h. cc), closed_alone n))
    | inl k ↦
        rw (o, k)
          (inr (refl, record { handle = n; current = refl; only = refl; fresh = omega arith }))
  ]
]

reconnect-IsSingle : (f : Faults) (d : Db) → IsSingle d → IsSingle (reconnect f d).1
reconnect-IsSingle f d s = elim (reconnect_cases f d s) [
  | inl failed ↦ failed.single
  | inr swapped ↦ swapped.single
]

reconnects-IsSingle : (fs : List Faults) (d : Db) → IsSingle d → IsSingle (reconnects fs d)
unfolding reconnects
reconnects-IsSingle [] d s = s
reconnects-IsSingle (f ∷ fs) d s = reconnects-IsSingle fs _ (reconnect-IsSingle f d s)

close_db-opened : (fault : Option Err) (d : Db) → IsSingle d → (close_db fault d).1.opened ≡ []
unfolding close_db
close_db-opened fault d s = rw (s.current, s.only) (closed_alone s.handle)

-- If Open returns an error no handle is left open. Otherwise, after any calls of Reconnect, whatever
-- fails in them, the handle in use is open and no other is, the next Reconnect either returns an error
-- and leaves that handle in use or swaps it for the new one, and Close leaves no handle open.
pub session_cases :
    (p : Outcome Pragmas) (first f : Faults) (fs : List Faults) (fault : Option Err) (n : ℕ)
    → (((open_db p first (no_handle n)).0 ≢ none) × ((open_db p first (no_handle n)).1.opened ≡ []))
      ⊎ (let d = reconnects fs (open_db p first (no_handle n)).1 in
          IsSingle d
          × (IsFailed d (reconnect f d) ⊎ IsSwapped f d (reconnect f d))
          × ((close_db fault d).1.opened ≡ []))
session_cases p first f fs fault n = elim (open_db_cases p first n) [
  | inl refused ↦ inl refused
  | inr (fine, s) ↦
      let d = reconnects fs (open_db p first (no_handle n)).1 in
      let k = reconnects-IsSingle fs (open_db p first (no_handle n)).1 s in
      inr (k, reconnect_cases f d k, close_db-opened fault d k)
]
