-- ===== src/Services/Decks.antt =====
-- The use cases of decks.
pub mod Laws
use ankiced.Base.{ℤ, Bool, true, false, Option, none, some, List, if◌then◌else◌}
use ankiced.Text.{Text, is_empty, trim_space}
use ankiced.Errors.{Err, sentinel, domain, application, deck_not_found}
use ankiced.Domain.{DomainError, Deck, deck_search_empty, deck_name_conflict, validate_deck_rename}
use ankiced.Action.{Outcome, ok, fail, Action, pure, lift, ◌>>=◌, ◌>>◌}
use ankiced.Services.Ports.{Services, backup_first}

abbrev pub refused : {A : Type 0} → DomainError → Outcome A
refused d = fail (sentinel (domain d))

abbrev pub validated : Option DomainError → Outcome (Unit {0})
validated none = ok tt
validated (some d) = refused d

abbrev pub need : Bool → Err → Outcome (Unit {0})
need true e = ok tt
need false e = fail e

abbrev pub deny : Bool → Err → Outcome (Unit {0})
deny true e = fail e
deny false e = ok tt

module _ {W : Type 0} (s : Services W) where
  unfoldable pub list_decks : Action W (List Deck)
  list_decks = s.decks.list_decks

  unfoldable pub search_decks : Text → Action W (List Deck)
  unfolding trim_space
  search_decks search =
      if is_empty (trim_space search)
      then lift (refused deck_search_empty)
      else s.decks.search_decks (trim_space search)

  unfoldable pub rename_deck : ℤ → Text → Action W (Unit {0})
  unfolding validate_deck_rename trim_space backup_first
  rename_deck id name = do
    lift (validated (validate_deck_rename name))
    found ← s.decks.deck_exists id
    lift (need found (sentinel (application deck_not_found)))
    taken ← s.decks.deck_name_exists (trim_space name) id
    lift (deny taken (sentinel (domain deck_name_conflict)))
    backup_first s
    s.decks.rename_deck id (trim_space name)
