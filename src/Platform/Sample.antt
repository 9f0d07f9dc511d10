-- ===== src/Platform/Sample.antt =====
-- A platform on which the examples run: header maps as lists, and simple stand-ins for the rest.
use mathlib.Core.List.{append-nil}
use http_dragonfly.Prelude.{
  ℕ, String, ◌≡◌, refl, false, ◌&&◌, ◌||◌, Option, none, some, List, [], ◌∷◌, ◌++◌, ◌==◌, eq_iff,
  unwrap_or, leb, arith, if◌then◌else◌,
}
use http_dragonfly.Prelude.Text.{into_bytes, starts_with}
use http_dragonfly.Prelude.Decimal.{decimal}
use http_dragonfly.Platform.{HeaderValue, HeaderMapOps, Platform}
use http_dragonfly.Platform.Laws.{values_of, names, has_values, HeaderLaws, VisitsAll}

abbrev pub Headers : Type 0
Headers = List (String × HeaderValue)

abbrev name_of : String → Option String
name_of key = if key == "" then none else some key

unfoldable pub without : Option String → Headers → Headers
without key [] = []
without key ((m, v) ∷ hs) = let rest = without key hs in if names key m then rest else (m, v) ∷ rest

abbrev list_headers : HeaderMapOps Headers
list_headers = record {
  empty = [];
  contains_key = λ h key. has_values (name_of key) (λ n. values_of n h);
  get_all = λ h n. values_of n h;
  insert = λ n v h. (n, v) ∷ without (some n) h;
  append = λ n v h. h ++ (n, v) ∷ [];
  remove = λ key h. without (name_of key) h;
  iter = λ h. h;
}

values_of-append :
    (g h : Headers) (n : String) → values_of n (g ++ h) ≡ values_of n g ++ values_of n h
unfolding values_of
values_of-append [] h n = refl
values_of-append ((m, v) ∷ g) h n = ground (arith, values_of-append g h n)

values_of-without :
    (key : Option String) (h : Headers) (n : String)
    → values_of n (without key h) ≡ (if names key n then [] else values_of n h)
unfolding values_of without
values_of-without none [] n = refl
values_of-without (some k) [] n = ground arith
values_of-without none ((m, v) ∷ h) n = ground (arith, values_of-without none h n)
values_of-without (some k) ((m, v) ∷ h) n =
    ground (arith, values_of-without (some k) h n, eq_iff k m, eq_iff k n, eq_iff m n)

-- A value that starts with a zero byte is no text. The others are not read by the examples.
abbrev text_of : HeaderValue → Option String
text_of [] = some ""
text_of (b ∷ bs) = if leb b 0 then none else some "text"

-- Whole texts that name a variable are expanded.
abbrev pub sample : Platform Headers String ℕ
sample = record {
  headers = list_headers;
  header_name = name_of;
  header_value = λ s. some (into_bytes s);
  to_str = text_of;
  lowercase = λ s. s;
  uppercase = λ s. s;
  expand = λ get s. unwrap_or (get s) s;
  parse_uri = λ s.
      if s == "" then none else some (record { full = s; host = some s; path = "/"; query = none });
  regex = λ r. if r == "" then none else some (λ s. starts_with "4" s || starts_with "5" s);
  is_status = λ n. leb 100 n && leb n 999;
  status_text = decimal;
  compile = λ s. some s;
  run_filter = λ f input. some f ∷ [];
  parse_json = λ bytes. none;
  empty_object = 0;
  debug_enabled = false;
  visit = λ ks. ks;
}

pub sample-HeaderLaws : HeaderLaws sample
unfolding values_of
sample-HeaderLaws = record {
  get_all-empty = λ n. refl;
  get_all-insert = λ k n v h. ground (arith, values_of-without (some k) h n);
  get_all-append =
      λ k n v h. ground (arith, values_of-append h ((k, v) ∷ []) n, append-nil (values_of n h));
  get_all-remove = λ k n h. values_of-without (name_of k) h n;
  contains_key-get_all = λ h k. refl;
  get_all-iter = λ h n. refl;
}

pub sample-VisitsAll : VisitsAll sample.visit
sample-VisitsAll ks k = refl
