-- ===== src/Auth/Refresh/Exclusive.antt =====
-- aws_auth/cache.rs: at most one fetch is under way, and the cache stays sound.
use http_dragonfly.Prelude.{ℕ, ◌+◌, ◌≤◌, ◌≡◌, Option, none, some, arith}
use http_dragonfly.Auth.Cache.{CachedEntry, ProviderResult, provided, provider_error, after_fetch}
use http_dragonfly.Auth.Cache.Laws.{SoundCache, new_entry-IsSound, IsSound-mono}
use http_dragonfly.Auth.Refresh.{
  fetching, System, Step, tick, begin, read_hit, read_miss, write_hit, write_miss, fetch_done,
  leave, Reach, here, next, new,
}

-- A task that fetches is the one that holds the write lock.
abbrev pub Exclusive : System → Type 0
Exclusive s = (i t : ℕ) → s.phase i ≡ fetching t → s.writer ≡ some i

Step-Exclusive : {s u : System} → Step s u → Exclusive s → Exclusive u
Step-Exclusive (tick s n) h = h
Step-Exclusive (begin s i e) h = λ j t q. ground (arith, h j t)
Step-Exclusive (read_hit s i t c e w f) h = λ j t' q. ground (arith, h j t')
Step-Exclusive (read_miss s i t e w f) h = λ j t' q. ground (arith, h j t')
Step-Exclusive (write_hit s i c e w f) h = λ j t q. ground (arith, h j t)
Step-Exclusive (write_miss s i e w f) h = λ j t q. ground (arith, h j t)
Step-Exclusive (fetch_done s i t r e w) h = λ j t' q. ground (arith, h j t')
Step-Exclusive (leave s i r e) h = λ j t q. ground (arith, h j t)

pub Reach-Exclusive : {s u : System} → Exclusive s → Reach s u → Exclusive u
Reach-Exclusive h here = h
Reach-Exclusive h (next r st) = Step-Exclusive st (Reach-Exclusive h r)

-- Whatever the tasks do, no two of them fetch at the same time.
pub one_fetch :
    {now : ℕ} {s : System} (i j t t' : ℕ)
    → Reach (new now) s
    → s.phase i ≡ fetching t
    → s.phase j ≡ fetching t'
    → i ≡ j
one_fetch i j t t' r p q =
    let h = Reach-Exclusive (λ i t e. cc) r in ground (arith, h i t p, h j t' q)

after_fetch-SoundCache :
    (t now : ℕ) (cache : Option CachedEntry) (r : ProviderResult)
    → SoundCache now cache
    → SoundCache now (after_fetch t now cache r).1
unfolding after_fetch
after_fetch-SoundCache t now cache (provided c) h = new_entry-IsSound now c
after_fetch-SoundCache t now cache (provider_error e) h = h

SoundCache-mono :
    (now later : ℕ) (cache : Option CachedEntry)
    → now ≤ later
    → SoundCache now cache
    → SoundCache later cache
SoundCache-mono now later none h s = tt
SoundCache-mono now later (some entry) h s = IsSound-mono now later entry h s

Step-SoundCache :
    {s u : System} → Step s u → SoundCache s.clock s.cache → SoundCache u.clock u.cache
Step-SoundCache (tick s n) h = SoundCache-mono s.clock (s.clock + n) s.cache (omega arith) h
Step-SoundCache (fetch_done s i t r e w) h = after_fetch-SoundCache t s.clock s.cache r h
Step-SoundCache (begin s i e) h = h
Step-SoundCache (read_hit s i t c e w f) h = h
Step-SoundCache (read_miss s i t e w f) h = h
Step-SoundCache (write_hit s i c e w f) h = h
Step-SoundCache (write_miss s i e w f) h = h
Step-SoundCache (leave s i r e) h = h

-- Whatever the tasks do, the cached entry has the expiry of its credentials, and it is due for its
-- refresh before it expires, or by now.
pub Reach-SoundCache :
    {s u : System} → SoundCache s.clock s.cache → Reach s u → SoundCache u.clock u.cache
Reach-SoundCache h here = h
Reach-SoundCache h (next r st) = Step-SoundCache st (Reach-SoundCache h r)
