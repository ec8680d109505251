-- ===== src/Services/Decks/Laws.antt =====
-- When a deck is renamed.
use ankiced.Base.{◌≡◌, refl, ◌∙◌, ◌⊎◌, inl, inr, ℤ, true, false, Option-cases}
use ankiced.Text.{Text, trim_space}
use ankiced.Domain.{validate_deck_rename}
use ankiced.Domain.Laws.{IsDeckName, validate_deck_rename-eq-none_iff}
use ankiced.Action.{Outcome, ok, Outcome-cases}
use ankiced.Services.Ports.{Services, backup_first}
use ankiced.Services.Ports.Reads.{IsReadOnly, IsRefused, backup_first-Keeps}
use ankiced.Services.Decks.{rename_deck}

module _ {W V : Type 0} (view : W → V) (s : Services W) (h : IsReadOnly view s) where
  -- The call went through to the repository: the name is proper, the deck exists, no other deck has
  -- the name, a backup was ensured, and what follows is the repository's own rename, to the trimmed
  -- name, in a state that shows no change.
  pub record IsRenaming (id : ℤ) (name : Text) (r : Outcome (Unit {0}) × W) (w : W) : Type 0 where
    pub proper : IsDeckName (trim_space name)
    pub found : (s.decks.deck_exists id w).0 ≡ ok true
    pub free :
        (s.decks.deck_name_exists (trim_space name) id (s.decks.deck_exists id w).1).0 ≡ ok false
    pub before : W
    pub same : view before ≡ view w
    pub backup : (w' : W) × ((backup_first s w').0 ≡ ok tt) × ((backup_first s w').1 ≡ before)
    pub written : r ≡ s.decks.rename_deck id (trim_space name) before

  -- If the reading ports and the backups change nothing that `view` shows, RenameDeck either stops
  -- with an error and no such change, or it is the repository's rename to the trimmed name, made
  -- once after all the checks and a backup.
  pub rename_deck_cases :
      (id : ℤ) (name : Text) (w : W)
      → IsRefused view (rename_deck s id name w) w ⊎ IsRenaming id name (rename_deck s id name w) w
  unfolding rename_deck
  rename_deck_cases id name w = elim (Option-cases (validate_deck_rename name)) [
    | inr (d, bad) ↦ inl (rw bad ((_, refl), refl))
    | inl good ↦ rw good (
        let w1 = (s.decks.deck_exists id w).1 in
        let e1 : view w1 ≡ view w = h.deck_exists id w in
        elim (Outcome-cases (s.decks.deck_exists id w).0) [
          | inr (e, bad) ↦ inl (rw bad ((e, refl), e1))
          | inl (false, absent) ↦ inl (rw absent ((_, refl), e1))
          | inl (true, found) ↦ rw found (
              let w2 = (s.decks.deck_name_exists (trim_space name) id w1).1 in
              let e2 : view w2 ≡ view w = h.deck_name_exists (trim_space name) id w1 ∙ e1 in
              elim (Outcome-cases (s.decks.deck_name_exists (trim_space name) id w1).0) [
                | inr (e, bad) ↦ inl (rw bad ((e, refl), e2))
                | inl (true, taken) ↦ inl (rw taken ((_, refl), e2))
                | inl (false, free) ↦ rw free (
                    let w3 = (backup_first s w2).1 in
                    let e3 : view w3 ≡ view w = backup_first-Keeps view s h w2 ∙ e2 in
                    elim (Outcome-cases (backup_first s w2).0) [
                      | inr (e, bad) ↦ inl (rw bad ((e, refl), e3))
                      | inl (tt, done) ↦ inr (
                          rw done record {
                            proper = (validate_deck_rename-eq-none_iff name).0 good;
                            found = found;
                            free = free;
                            before = w3;
                            same = e3;
                            backup = (w2, done, refl);
                            written = refl;
                          })
                    ])
              ])
        ])
  ]
