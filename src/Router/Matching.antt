-- ===== src/Router/Matching.antt =====
-- `Match`, `SourceMatch` and `isMatch` of core/router/router.go. The POSIX regular expressions of
-- the standard library are the parameter `posix_match pattern text`, which is `none` where
-- `regexp.MustCompilePOSIX` panics. The results are `none` where the code panics.
pub mod Laws
use go_chassis.Prelude.{
  String, List, [], ◌∷◌, Option, none, some, Bool, true, false, not, ◌&&◌, ◌==◌, Dict, lookup,
  value_or, ℤ, ltb_ℤ, leb_ℤ, atoi, ◌>>=◌, if◌then◌else◌,
}
use go_chassis.Config.{Match}

-- `SourceInfo` of core/registry/struct.go.
pub record SourceInfo : Type 0 where
  pub name : String
  pub tags : Dict String

-- `if v, ok := m[k]; ok { ... }` and what follows.
abbrev pub when_found {ℓ} : {B : Type ℓ} → Option String → (String → B) → B → B
when_found none f rest = rest
when_found (some v) f rest = f v

-- The tests of `isMatch` on a header that is the number `n`.
unfoldable pub is_match_int : Dict String → ℤ → Bool
unfolding atoi
is_match_int v n =
    when_found (lookup "noLess" v) (λ t. not (ltb_ℤ n (atoi t).0))
      (when_found (lookup "noGreater" v) (λ t. not (ltb_ℤ (atoi t).0 n))
        (when_found (lookup "greater" v) (λ t. not (leb_ℤ n (atoi t).0))
          (when_found (lookup "less" v) (λ t. not (leb_ℤ (atoi t).0 n)) true)))

-- The loop over the source tags.
unfoldable pub match_tags : Dict String → Dict String → Bool
match_tags tags [] = true
match_tags tags ((k, v) ∷ rest) = v == value_or (lookup k tags) "" && match_tags tags rest

module _ (posix_match : String → String → Option Bool) where
  -- `isMatch(headers, k, v)`
  unfoldable pub is_match : Dict String → String → Dict String → Option Bool
  unfolding is_match_int
  is_match headers k v =
      let header = value_or (lookup k headers) "" in
      let number = atoi header in
      when_found (lookup "regex" v) (λ r. posix_match r header)
        (when_found (lookup "exact" v) (λ e. some (e == header))
          (when_found (lookup "noEqu" v) (λ e. some (not (e == header)))
            (if number.1 then some (is_match_int v number.0) else some false)))

  -- The loop over the header conditions, which ends at the first that fails.
  unfoldable pub match_headers : Dict String → Dict (Dict String) → Option Bool
  match_headers headers [] = some true
  match_headers headers ((k, v) ∷ rest) = is_match headers k v >>= λ b.
      let more = match_headers headers rest in if b then more else some false

  -- `nil` headers are no condition.
  unfoldable pub match_all : Dict String → Option (Dict (Dict String)) → Option Bool
  unfolding match_headers
  match_all headers none = some true
  match_all headers (some conditions) = match_headers headers conditions

  -- `SourceMatch(match, headers, source)`
  unfoldable pub source_match : Match → Dict String → SourceInfo → Option Bool
  source_match m headers source =
      if not (m.source == "") && not (m.source == source.name)
      then some false
      else if not (match_tags source.tags m.source_tags)
      then some false
      else (match_all headers m.headers >>= λ b.
          if b then match_all headers m.http_headers else some false)

  -- `SourceMatch(Templates[refer], ...)`: a name with no template is a nil pointer.
  unfoldable pub match_template : Option Match → Dict String → SourceInfo → Option Bool
  match_template none headers source = none
  match_template (some m) headers source = source_match m headers source

  abbrev pub is_nil {ℓ} : {A : Type ℓ} → Option A → Bool
  is_nil none = true
  is_nil (some a) = false

  -- `Match(match, headers, source)`
  unfoldable pub matches : Dict Match → Match → Dict String → SourceInfo → Option Bool
  matches templates m headers source =
      if not (m.refer == "")
      then match_template (lookup m.refer templates) headers source
      else if m.source == "" && is_nil m.http_headers && is_nil m.headers
      then some true
      else source_match m headers source
