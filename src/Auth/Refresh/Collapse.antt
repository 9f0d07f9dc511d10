-- ===== src/Auth/Refresh/Collapse.antt =====
-- aws_auth/cache.rs: refreshes of many tasks collapse into one fetch.
use http_dragonfly.Prelude.{
  ℕ, ◌+◌, ◌/◌, ◌≤◌, ◌<◌, ◌≡◌, refl, ◌∙◌, Option, none, some, true, OnSome, arith,
}
use http_dragonfly.Auth.Cache.{
  CachedEntry, ProviderResult, provided, provider_error, is_before, half_life, fresh_entry,
  new_entry, after_fetch,
}
use http_dragonfly.Auth.Refresh.{
  System, Step, tick, begin, read_hit, read_miss, write_hit, write_miss, fetch_done, leave,
}
use http_dragonfly.Auth.Refresh.SingleFlight.{clock-Step, fresh_entry-fresh}
use http_dragonfly.Auth.Service.{fetched}

-- Credentials that are valid for a time at least.
abbrev pub Lasting : ℕ → ℕ → ProviderResult → Type 0
Lasting validity now (provided c) = OnSome (λ expiry. now + validity ≤ expiry) c.expiry
Lasting validity now (provider_error e) = ⊥

-- Steps in which every fetch brings such credentials.
pub data Run (validity : ℕ) (s : System) : System → Type 0 where
  started : Run validity s s
  going :
      {t u : System}
      → Run validity s t
      → (st : Step t u) → OnSome (Lasting validity t.clock) (fetched st)
      → Run validity s u

abbrev NotDue : ℕ → CachedEntry → Type 0
NotDue due entry = (t : ℕ) → t < due → is_before t entry.refresh_at ≡ true

-- `n` fetches have been made before, and one at most since.
data Stage (due n : ℕ) (s : System) : Type 0 where
  before : s.writer ≡ none → s.calls ≡ n → Stage due n s
  during : (i : ℕ) → s.writer ≡ some i → s.calls ≡ n + 1 → Stage due n s
  after :
      (entry : CachedEntry)
      → s.cache ≡ some entry
      → NotDue due entry
      → s.writer ≡ none
      → s.calls ≡ n + 1
      → Stage due n s

Stage_kept :
    {due n : ℕ} {s u : System}
    → u.cache ≡ s.cache
    → u.writer ≡ s.writer
    → u.calls ≡ s.calls
    → Stage due n s
    → Stage due n u
Stage_kept c w k (before free count) = before (w ∙ free) (k ∙ count)
Stage_kept c w k (during i held count) = during i (w ∙ held) (k ∙ count)
Stage_kept c w k (after entry cached not_due free count) =
    after entry (c ∙ cached) not_due (w ∙ free) (k ∙ count)

half_life-NotDue :
    (validity start now : ℕ) (expiry : Option ℕ)
    → start ≤ now
    → OnSome (λ e. now + validity ≤ e) expiry
    → (t : ℕ) → t < start + validity / 2
    → is_before t (half_life now expiry) ≡ true
half_life-NotDue validity start now none h l t k = refl
half_life-NotDue validity start now (some e) h l t k = ground arith

module _ (validity start n : ℕ) where
  fetched_entry :
      (s : System) (t : ℕ) (r : ProviderResult)
      → start ≤ s.clock
      → Lasting validity s.clock r
      → (entry : CachedEntry) × ((after_fetch t s.clock s.cache r).1 ≡ some entry)
        × NotDue (start + validity / 2) entry
  unfolding after_fetch new_entry
  fetched_entry s t (provided c) h l =
      (new_entry s.clock c, refl, half_life-NotDue validity start s.clock c.expiry h l)
  fetched_entry s t (provider_error e) h l = absurd l

  missed-Stage :
      (s : System) (i : ℕ) {u : System}
      → u.calls ≡ s.calls + 1
      → u.writer ≡ some i
      → s.writer ≡ none
      → fresh_entry s.clock s.cache ≡ none
      → s.clock < start + validity / 2
      → Stage (start + validity / 2) n s
      → Stage (start + validity / 2) n u
  missed-Stage s i k held w f l (before free count) = during i held (rw k (omega arith))
  missed-Stage s i k held w f l (during j writing count) = cc (w, writing)
  missed-Stage s i k held w f l (after entry cached not_due free count) =
      absurd (fresh_entry-fresh s.clock entry s.cache cached (not_due s.clock l) f)

  done-Stage :
      (s : System) (i t : ℕ) (r : ProviderResult) {u : System}
      → u.cache ≡ (after_fetch t s.clock s.cache r).1
      → u.writer ≡ none
      → u.calls ≡ s.calls
      → s.writer ≡ some i
      → start ≤ s.clock
      → Lasting validity s.clock r
      → Stage (start + validity / 2) n s
      → Stage (start + validity / 2) n u
  done-Stage s i t r c free k w h l (before unheld count) = cc (w, unheld)
  done-Stage s i t r c free k w h l (during j held count) =
      let (entry, cached, not_due) = fetched_entry s t r h l in
      after entry (c ∙ cached) not_due free (k ∙ count)
  done-Stage s i t r c free k w h l (after entry cached not_due unheld count) = cc (w, unheld)

  Step-Stage :
      {s u : System} (st : Step s u)
      → OnSome (Lasting validity s.clock) (fetched st)
      → start ≤ s.clock
      → u.clock < start + validity / 2
      → Stage (start + validity / 2) n s
      → Stage (start + validity / 2) n u
  Step-Stage (tick s k) l h b q = Stage_kept refl refl refl q
  Step-Stage (begin s i e) l h b q = Stage_kept refl refl refl q
  Step-Stage (read_hit s i t c e w f) l h b q = Stage_kept refl refl refl q
  Step-Stage (read_miss s i t e w f) l h b q = Stage_kept refl refl refl q
  Step-Stage (write_hit s i c e w f) l h b q = Stage_kept refl refl refl q
  Step-Stage (write_miss s i e w f) l h b q = missed-Stage s i refl refl w f b q
  Step-Stage (fetch_done s i t r e w) l h b q = done-Stage s i t r refl refl refl w h l q
  Step-Stage (leave s i r e) l h b q = Stage_kept refl refl refl q

clock-Run : {validity : ℕ} {s u : System} → Run validity s u → s.clock ≤ u.clock
clock-Run started = omega arith
clock-Run (going r st l) = omega (arith, clock-Run r, clock-Step st)

Run-Stage :
    {validity : ℕ} {s u : System}
    → s.writer ≡ none
    → Run validity s u
    → u.clock < s.clock + validity / 2
    → Stage (s.clock + validity / 2) s.calls u
Run-Stage w started b = before w refl
Run-Stage {validity} {s} w (going {t} {u} r st l) b =
    Step-Stage validity s.clock s.calls st l (clock-Run r) b
      (Run-Stage w r (omega (arith, clock-Step st)))

Stage-calls : {due n : ℕ} {s : System} → Stage due n s → s.calls ≤ n + 1
Stage-calls (before free count) = omega arith
Stage-calls (during i held count) = omega arith
Stage-calls (after entry cached not_due free count) = omega arith

-- However many tasks call, from a state without a fetch under way, where the provider answers every
-- fetch with credentials that are valid for `validity` at least: until half of this time has
-- passed, the provider is asked at most once.
pub at_most_one_fetch :
    {validity : ℕ} {s u : System}
    → s.writer ≡ none
    → Run validity s u
    → u.clock < s.clock + validity / 2
    → u.calls ≤ s.calls + 1
at_most_one_fetch w r b = Stage-calls (Run-Stage w r b)
