-- ===== src/Api/Site/Ids.antt =====
-- Correlation ids, which are also the ids of cleaner operations.
use ankiced.Base.{
  ℕ, ◌+◌, ◌<◌, ◌≡◌, ◌≢◌, refl, ap, sym, ◌∙◌, true, false, some, [], ◌∷◌, ◌++◌, any, ◌==◌, ==_refl,
  if◌then◌else◌, append_assoc, arith, All-append,
}
use Prim.Native.Nat.{◌^◌}
use ankiced.Text.{Text, codes}
use ankiced.Text.Parts.{Lacks, any_of_Lacks}
use ankiced.Text.Number.{show_nat, show_int}
use ankiced.Text.Number.Print.{show_nat-Lacks, show_int-Lacks, show_nat_injective}
use ankiced.Api.Logs.{next_seq}
use ankiced.Api.Site.{Site, Machine, correlation_id}

-- The text behind the last occurrence of a rune, all of it if there is none.
after_last : ℕ → Text → Text
after_last r [] = []
after_last r (c ∷ s) =
    let rest = after_last r s in if any (λ d. d == r) s then rest else (if c == r then s else c ∷ s)

any-append_sep : (r : ℕ) (a s : Text) → any (λ d. d == r) (a ++ r ∷ s) ≡ true
any-append_sep r [] s = rw (==_refl r) refl
any-append_sep r (c ∷ a) s = ground (arith, any-append_sep r a s)

after_last-append : (r : ℕ) (a s : Text) → Lacks r s → after_last r (a ++ r ∷ s) ≡ s
unfolding after_last
after_last-append r [] s h = rw (any_of_Lacks r s h, ==_refl r) refl
after_last-append r (c ∷ a) s h = rw (any-append_sep r a s) (after_last-append r a s h)

module _ {W : Type 0} (m : Machine W) where
  -- The id that is taken at a site, and the site afterwards.
  abbrev pub rest_at : Site W → Text
  rest_at σ = show_int (m.millis σ.shared.behind).0 ++ (codes "-" ++ show_nat (next_seq σ.seq))

  abbrev pub id_at : Site W → Text
  id_at σ = codes "req-" ++ rest_at σ

  pub correlation_id_lem : (σ : Site W) → (correlation_id m σ).0 ≡ some (id_at σ)
  unfolding correlation_id
  correlation_id_lem σ = refl

  number_of_id : (σ : Site W) → after_last b'-' (id_at σ) ≡ show_nat (next_seq σ.seq)
  number_of_id σ =
      ap (after_last b'-') (
        sym (
          append_assoc (codes "req-") (show_int (m.millis σ.shared.behind).0)
            (b'-' ∷ show_nat (next_seq σ.seq))))
      ∙ after_last-append b'-' (codes "req-" ++ show_int (m.millis σ.shared.behind).0) _
          (show_nat-Lacks b'-' (next_seq σ.seq) refl)

-- An id has no slash in it.
pub id_at-no_slash :
    {W : Type 0} (m : Machine W) (σ : Site W) → any (λ c. c == b'/') (id_at m σ) ≡ false
id_at-no_slash m σ = any_of_Lacks b'/' (id_at m σ) (
    All-append (λ c. c ≢ b'/') (codes "req-") _ (omega arith)
      (All-append (λ c. c ≢ b'/') (show_int (m.millis σ.shared.behind).0) _
        (show_int-Lacks b'/' _ refl refl)
        ((λ e. absurd (omega arith)), show_nat-Lacks b'/' (next_seq σ.seq) refl)))

-- Two ids that are taken at different counts of the handler differ, whatever the clock shows, as long
-- as the counter of 64 bits has not wrapped around; taking an id makes the count one higher.
pub correlation_id_distinct :
    {W : Type 0} (m : Machine W) (σ τ : Site W)
    → σ.seq + 1 < 2 ^ 64
    → τ.seq + 1 < 2 ^ 64
    → σ.seq ≢ τ.seq
    → ((correlation_id m σ).0 ≢ (correlation_id m τ).0) × ((correlation_id m σ).1.seq ≡ σ.seq + 1)
unfolding correlation_id
correlation_id_distinct m σ τ hs ht n = (
  (λ e.
      let same : id_at m σ ≡ id_at m τ = cc (correlation_id_lem m σ, correlation_id_lem m τ) in
      let counts : next_seq σ.seq ≡ next_seq τ.seq =
        show_nat_injective _ _
          (sym (number_of_id m σ) ∙ ap (after_last b'-') same ∙ number_of_id m τ) in
      n (omega arith)),
  omega arith,
)
