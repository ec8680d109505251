-- ===== src/Api/Handlers/Decks.antt =====
-- handleDecks, handleDeckSearch and handleDeckByID.
pub mod Pages
use ankiced.Base.{
  ◌≡◌, ℕ, ℤ, pos, pos_part, ltb, ltb_ℤ, Bool, ◌||◌, Option, none, some, List, [], ◌∷◌, length, take,
  drop, if◌then◌else◌,
}
use ankiced.Text.{Text, codes}
use ankiced.Text.Number.{show_nat, show_int}
use ankiced.Errors.{Err, domain, application, deck_not_found, is, error_text}
use ankiced.Domain.{
  Deck, Pagination, empty_deck_name, deck_name_invalid, deck_name_too_long, deck_name_conflict,
  deck_search_empty,
}
use ankiced.Presentation.{switch}
use ankiced.Services.Ports.{Services}
use ankiced.Services.Decks.{list_decks, search_decks, rename_deck}
use ankiced.Api.Helpers.{clamp_pagination, parse_path_id, parse_int64_default}
use ankiced.Api.Site.{
  get, patch, Request, deck_page, deck_list, done, Shared, Machine, Serve, ◌>>=◌, ◌>>◌, pure, stop,
  call, write_json, correlation_id, log, write_error, write_message_error, or_stop, body_or_stop,
  need_method,
}

-- What handleDecks cuts out of the list: the decks, the limit and the offset that it reports.
pub record DeckPage : Type 0 where
  pub items : List Deck
  pub limit : ℤ
  pub offset : ℕ

abbrev cut_limit : ℕ → List Deck → List Deck
cut_limit limit page = if ltb limit (length page) then take limit page else page

unfoldable pub deck_page_of : (raw_limit raw_offset : ℤ) → List Deck → DeckPage
deck_page_of raw_limit raw_offset decks =
    let pg : Pagination = clamp_pagination raw_limit raw_offset (pos 0) in
    let offset : ℕ =
      (if ltb (length decks) (pos_part pg.offset) then length decks else pos_part pg.offset) in
    if ltb_ℤ (pos 0) raw_limit
    then record {
      items = cut_limit (pos_part pg.limit) (drop offset decks);
      limit = pg.limit;
      offset = offset;
    }
    else record { items = drop offset decks; limit = pos 0; offset = offset }

-- The id in the path, or a response with the error of parsePathID.
unfoldable pub id_or_stop :
    {W : Type 0} → Machine W → (path prefix message code operation : Text) → Serve W ℤ
unfolding correlation_id write_message_error parse_path_id or_stop error_text
id_or_stop m path prefix message code operation =
    or_stop (parse_path_id m.num_error path prefix)
      λ e. correlation_id m >>= write_message_error m 400 message code (error_text e) operation

module _ {W : Type 0} (s : Services (Shared W)) (m : Machine W) where
  unfoldable pub handle_decks : Request → Serve W (Unit {0})
  unfolding need_method correlation_id log call or_stop write_error write_json list_decks
      parse_int64_default deck_page_of
  handle_decks r = do
    need_method m get r (codes "list_decks")
    cid ← correlation_id m
    log m (codes "info") (codes "list_decks") cid (codes "request started") []
    answer ← call (list_decks s)
    decks ← or_stop answer (λ e. write_error m 500 e (codes "list_decks") cid)
    let page =
        deck_page_of (parse_int64_default (r.query (codes "limit")) (pos 0))
          (parse_int64_default (r.query (codes "offset")) (pos 0)) decks
    write_json 200 (deck_page page.items (pos (length decks)) page.limit (pos page.offset))
    log m (codes "info") (codes "list_decks") cid (codes "request finished") (
        (codes "count", show_nat (length page.items))
        ∷ (codes "total", show_nat (length decks))
        ∷ [])

  abbrev search_status : Err → ℕ
  search_status e = if is e (domain deck_search_empty) then 400 else 500

  unfoldable pub handle_deck_search : Request → Serve W (Unit {0})
  unfolding need_method correlation_id log call or_stop write_error write_json search_decks is
  handle_deck_search r = do
    need_method m get r (codes "search_decks")
    cid ← correlation_id m
    log m (codes "info") (codes "search_decks") cid (codes "request started")
        ((codes "q", r.query (codes "q")) ∷ [])
    answer ← call (search_decks s (r.query (codes "q")))
    decks ← or_stop answer (λ e. write_error m (search_status e) e (codes "search_decks") cid)
    write_json 200 (deck_list decks)
    log m (codes "info") (codes "search_decks") cid (codes "request finished")
        ((codes "count", show_nat (length decks)) ∷ [])

  abbrev pub rename_status : Err → ℕ
  rename_status e =
      switch
        ((
          is e (domain empty_deck_name)
              || (is e (domain deck_name_invalid)
                  || (is e (domain deck_name_too_long) || is e (domain deck_name_conflict))),
          400,
        )
          ∷ (is e (application deck_not_found), 404)
          ∷ [])
        500

  unfoldable pub handle_deck_by_id : Request → Serve W (Unit {0})
  unfolding need_method correlation_id log call or_stop body_or_stop write_error write_json
      rename_deck id_or_stop is
  handle_deck_by_id r = do
    need_method m patch r (codes "rename_deck")
    id ←
        id_or_stop m r.path (codes "/api/v1/decks/") (codes "invalid deck id")
          (codes "DECK_ID_INVALID") (codes "rename_deck")
    name ← body_or_stop m (m.decode_name r.body) (codes "rename_deck")
    cid ← correlation_id m
    log m (codes "info") (codes "rename_deck") cid (codes "request started")
        ((codes "deck_id", show_int id) ∷ [])
    answer ← call (rename_deck s id name)
    or_stop answer (λ e. write_error m (rename_status e) e (codes "rename_deck") cid)
    write_json 200 done
    log m (codes "info") (codes "rename_deck") cid (codes "request finished") []
