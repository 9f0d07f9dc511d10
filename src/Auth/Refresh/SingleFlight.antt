-- ===== src/Auth/Refresh/SingleFlight.antt =====
-- aws_auth/cache.rs: while an entry is fresh, no task calls the provider.
use http_dragonfly.Prelude.{ℕ, ◌≤◌, ◌≡◌, ◌≢◌, refl, Option, none, some, true, arith}
use http_dragonfly.Auth.Cache.{CachedEntry, is_before, fresh_entry}
use http_dragonfly.Auth.Refresh.{
  System, Step, tick, begin, read_hit, read_miss, write_hit, write_miss, fetch_done, leave, Reach,
  here, next,
}

pub clock-Step : {s u : System} → Step s u → s.clock ≤ u.clock
clock-Step (tick s n) = omega arith
clock-Step (begin s i e) = omega arith
clock-Step (read_hit s i t c e w f) = omega arith
clock-Step (read_miss s i t e w f) = omega arith
clock-Step (write_hit s i c e w f) = omega arith
clock-Step (write_miss s i e w f) = omega arith
clock-Step (fetch_done s i t r e w) = omega arith
clock-Step (leave s i r e) = omega arith

is_before_mono :
    (now later : ℕ) (t : Option ℕ) → now ≤ later → is_before later t ≡ true → is_before now t ≡ true
is_before_mono now later none h e = refl
is_before_mono now later (some t) h e = ground arith

-- The entry is cached, no task fetches, and `n` fetches have been made.
record Quiet (entry : CachedEntry) (n : ℕ) (s : System) : Type 0 where
  cached : s.cache ≡ some entry
  unlocked : s.writer ≡ none
  counted : s.calls ≡ n

pub fresh_entry-fresh :
    (now : ℕ) (entry : CachedEntry) (cache : Option CachedEntry)
    → cache ≡ some entry
    → is_before now entry.refresh_at ≡ true
    → fresh_entry now cache ≢ none
unfolding fresh_entry
fresh_entry-fresh now entry cache e h f = ground arith

Step-Quiet :
    {entry : CachedEntry} {n : ℕ} {s u : System}
    → Step s u
    → is_before s.clock entry.refresh_at ≡ true
    → Quiet entry n s
    → Quiet entry n u
Step-Quiet (tick s k) b q = record { cached = q.cached; unlocked = q.unlocked; counted = q.counted }
Step-Quiet (begin s i e) b q = record {
  cached = q.cached;
  unlocked = q.unlocked;
  counted = q.counted;
}
Step-Quiet (read_hit s i t c e w f) b q = record {
  cached = q.cached;
  unlocked = q.unlocked;
  counted = q.counted;
}
Step-Quiet (read_miss s i t e w f) b q = record {
  cached = q.cached;
  unlocked = q.unlocked;
  counted = q.counted;
}
Step-Quiet (write_hit s i c e w f) b q = record {
  cached = q.cached;
  unlocked = q.unlocked;
  counted = q.counted;
}
Step-Quiet {entry} (write_miss s i e w f) b q =
    absurd (fresh_entry-fresh s.clock entry s.cache q.cached b f)
Step-Quiet (fetch_done s i t r e w) b q = cc q.unlocked
Step-Quiet (leave s i r e) b q = record {
  cached = q.cached;
  unlocked = q.unlocked;
  counted = q.counted;
}

Reach-Quiet :
    {entry : CachedEntry} {n : ℕ} {s u : System}
    → Quiet entry n s
    → Reach s u
    → is_before u.clock entry.refresh_at ≡ true
    → Quiet entry n u
Reach-Quiet q here b = q
Reach-Quiet {entry} q (next {t} {u} r st) b =
    let b' = is_before_mono t.clock u.clock entry.refresh_at (clock-Step st) b in
    Step-Quiet st b' (Reach-Quiet q r b')

-- However many tasks call, from a state with a cached entry and no fetch under way, until the entry
-- is due for its refresh the provider is not called and the entry stays.
pub single_flight :
    {s u : System} (entry : CachedEntry)
    → s.cache ≡ some entry
    → s.writer ≡ none
    → Reach s u
    → is_before u.clock entry.refresh_at ≡ true
    → (u.calls ≡ s.calls) × (u.cache ≡ some entry)
single_flight {s} {u} entry c w r b =
    let q = Reach-Quiet (record { cached = c; unlocked = w; counted = refl }) r b in
    (q.counted, q.cached)
