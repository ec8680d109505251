-- ===== src/Api/Logs/Tests.antt =====
-- The hub on concrete events.
use ankiced.Base.{ℕ, ◌≡◌, refl, some, [], ◌∷◌, pos, arith}
use ankiced.Text.{codes}
use ankiced.Api.Logs.{LogEvent, new_hub, publish_all, since, log}
use ankiced.Api.Logs.Buffer.{since-publish_all}

abbrev event : ℕ → LogEvent
event n = record {
  id = pos n;
  timestamp = [];
  level = codes "info";
  operation = [];
  message = [];
  details = [];
  correlation_id = [];
}

since-publish_all_example :
    since (pos 1) (publish_all (event 1 ∷ event 2 ∷ []) new_hub) ≡ some (event 2 ∷ [])
since-publish_all_example =
    since-publish_all (pos 1) (event 1 ∷ []) (event 2 ∷ []) (refl, tt) (refl, tt) (omega arith)
      (λ e. cc)

first_log :
    (log (codes "info") [] [] [] [] [] (record { log_seq = 0; hub = new_hub })).hub.buf
    ≡ event 1 ∷ []
unfolding log
first_log = refl
