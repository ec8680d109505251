-- ===== src/Sqlite/Transaction.antt =====
-- WithTx. A transaction works on the state and is undone where it is not committed.
use ankiced.Base.{
  ◌≡◌, refl, Bool, true, false, Option, none, some, Bool-cases, Option-cases, inl, inr, [],
}
use ankiced.Text.{codes}
use ankiced.Errors.{Err, external, fmt_wrap, join}
use ankiced.Action.{Outcome, ok, fail, Action}
use ankiced.Services.Ports.{Services}

-- What goes wrong in a call.
pub record Faults : Type 0 where
  pub connected : Bool
  pub begin : Option Err
  pub rollback : Option Err
  pub commit : Option Err

abbrev pub no_faults : Faults
no_faults = record { connected = true; begin = none; rollback = none; commit = none }

abbrev rolled_back : Option Err → Err → Err
rolled_back none e = e
rolled_back (some r) e = join e (fmt_wrap (codes "rollback transaction: ") r [])

module _ {W : Type 0} where
  abbrev committed : Option Err → W → W → Outcome (Unit {0}) × W
  committed none w w' = (ok tt, w')
  committed (some e) w w' = (fail e, w)

  unfoldable pub close_tx : Faults → W → Outcome (Unit {0}) × W → Outcome (Unit {0}) × W
  close_tx f w (ok _, w') = committed f.commit w w'
  close_tx f w (fail e, w') = (fail (rolled_back f.rollback e), w)

  abbrev begin_tx : Faults → Option Err → Action W (Unit {0}) → W → Outcome (Unit {0}) × W
  unfolding close_tx
  begin_tx f (some e) m w = (fail e, w)
  begin_tx f none m w = close_tx f w (m w)

  -- WithTx
  unfoldable pub with_tx : Faults → Action W (Unit {0}) → Action W (Unit {0})
  unfolding begin_tx
  with_tx f m w = elim f.connected [
    | false ↦ (fail (external (codes "db not connected")), w)
    | true ↦ begin_tx f f.begin m w
  ]

  close_tx_failed :
      (f : Faults) (w w' : W) (o : Outcome (Unit {0})) (e : Err)
      → (close_tx f w (o, w')).0 ≡ fail e
      → (close_tx f w (o, w')).1 ≡ w
  unfolding close_tx
  close_tx_failed f w w' (fail x) e h = refl
  close_tx_failed f w w' (ok _) e h = elim (Option-cases f.commit) [
    | inr (c, k) ↦ rw k refl
    | inl k ↦ absurd (let z : ok tt ≡ fail e = rw k at h in cc)
  ]

  -- Whatever goes wrong, a WithTx that returns an error has changed nothing.
  pub with_tx_failed :
      (f : Faults) (m : Action W (Unit {0})) (w : W) (e : Err)
      → (with_tx f m w).0 ≡ fail e
      → (with_tx f m w).1 ≡ w
  unfolding with_tx begin_tx
  with_tx_failed f m w e h = elim (Bool-cases f.connected) [
    | inr c ↦ rw c refl
    | inl c ↦ elim (Option-cases f.begin) [
      | inr (x, b) ↦ rw (c, b) refl
      | inl b ↦ rw (c, b) (close_tx_failed f w (m w).1 (m w).0 e (rw (c, b) at h))
    ]
  ]
