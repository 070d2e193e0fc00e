-- ===== src/Router/Matching/Laws.antt =====
-- When a match rule of core/router/router.go matches.
use go_chassis.Prelude.{
  String, [], ◌∷◌, Option, none, some, Bool, true, false, not, ◌&&◌, ◌==◌, eq_iff, Dict, lookup,
  value_or, atoi, ◌>>=◌, ◌≡◌, ◌≢◌, ◌↔◌, ◌⊎◌, refl, arith, All,
}
use go_chassis.Config.{Match}
use go_chassis.Router.Matching.{
  SourceInfo, is_match, is_match_int, match_headers, match_all, match_tags, match_template,
  source_match, matches,
}

-- The source tags are all as the rule asks.
abbrev pub TagsAgree : Dict String → Dict String → Type 0
TagsAgree tags conditions =
    All (λ (c : String × String). value_or (lookup c.0 tags) "" ≡ c.1) conditions

match_tags_iff :
    (tags conditions : Dict String)
    → (match_tags tags conditions ≡ true) ↔ TagsAgree tags conditions
unfolding match_tags
match_tags_iff tags [] = ((λ h. tt), (λ h. refl))
match_tags_iff tags ((k, v) ∷ rest) =
    let ih = match_tags_iff tags rest in
    let e = eq_iff v (value_or (lookup k tags) "") in
    ((λ h. (ground arith, ih.0 (ground arith))), (λ h. ground (arith, ih.1 h.1)))

module _ (posix_match : String → String → Option Bool) where
  abbrev pub HeadersAgree : Dict String → Option (Dict (Dict String)) → Type 0
  HeadersAgree headers none = Unit
  HeadersAgree headers (some conditions) =
      All (λ (c : String × Dict String). is_match posix_match headers c.0 c.1 ≡ some true)
        conditions

  match_headers_iff :
      (headers : Dict String) (conditions : Dict (Dict String))
      → (match_headers posix_match headers conditions ≡ some true)
        ↔ HeadersAgree headers (some conditions)
  unfolding match_headers
  match_headers_iff headers [] = ((λ h. tt), (λ h. refl))
  match_headers_iff headers ((k, v) ∷ rest) =
      let ih = match_headers_iff headers rest in
      ((λ h. (ground arith, ih.0 (ground arith))), (λ h. ground (arith, ih.1 h.1)))

  match_all_iff :
      (headers : Dict String) (conditions : Option (Dict (Dict String)))
      → (match_all posix_match headers conditions ≡ some true) ↔ HeadersAgree headers conditions
  unfolding match_all
  match_all_iff headers none = ((λ h. tt), (λ h. refl))
  match_all_iff headers (some c) = match_headers_iff headers c

  -- What a rule asks of a call: the name of its source, if the rule names one, the tags of the
  -- source, and both sets of header conditions.
  pub record Agrees (m : Match) (headers : Dict String) (source : SourceInfo) : Type 0 where
    pub name : (m.source ≡ "") ⊎ (m.source ≡ source.name)
    pub tags : TagsAgree source.tags m.source_tags
    pub headers_agree : HeadersAgree headers m.headers
    pub http_agree : HeadersAgree headers m.http_headers

  source_match-Agrees :
      (m : Match) (headers : Dict String) (source : SourceInfo)
      → source_match posix_match m headers source ≡ some true
      → Agrees m headers source
  unfolding source_match
  source_match-Agrees m headers source h = record {
    name = ground (arith, eq_iff m.source "", eq_iff m.source source.name);
    tags = (match_tags_iff source.tags m.source_tags).0 (ground arith);
    headers_agree = (match_all_iff headers m.headers).0 (ground arith);
    http_agree = (match_all_iff headers m.http_headers).0 (ground arith);
  }

  Agrees-source_match :
      (m : Match) (headers : Dict String) (source : SourceInfo)
      → Agrees m headers source
      → source_match posix_match m headers source ≡ some true
  unfolding source_match
  Agrees-source_match m headers source a =
      let t = (match_tags_iff source.tags m.source_tags).1 a.tags in
      let h = (match_all_iff headers m.headers).1 a.headers_agree in
      let g = (match_all_iff headers m.http_headers).1 a.http_agree in
      let named : (not (m.source == "") && not (m.source == source.name)) ≡ false =
        ground (arith, a.name, eq_iff m.source "", eq_iff m.source source.name) in
      rw (named, t) (rw h g)

  -- `SourceMatch` accepts a call exactly if every condition of the rule holds, in whatever order
  -- the maps are visited.
  pub source_match_iff :
      (m : Match) (headers : Dict String) (source : SourceInfo)
      → (source_match posix_match m headers source ≡ some true) ↔ Agrees m headers source
  source_match_iff m headers source =
      (source_match-Agrees m headers source, Agrees-source_match m headers source)

  -- A rule that asks for source tags alone is taken by `Match` for every call, though
  -- `SourceMatch`, given the same rule, refuses a call whose source has another value.
  pub matches-tags_ignored :
      (templates : Dict Match) (m : Match) (headers : Dict String) (source : SourceInfo)
      (k v : String) (rest : Dict String)
      → m.refer ≡ ""
      → m.source ≡ ""
      → m.headers ≡ none
      → m.http_headers ≡ none
      → m.source_tags ≡ (k, v) ∷ rest
      → v ≢ value_or (lookup k source.tags) ""
      → (matches posix_match templates m headers source ≡ some true)
        × (source_match posix_match m headers source ≡ some false)
  unfolding matches source_match match_tags
  matches-tags_ignored templates m headers source k v rest r s h g t n =
      let differ : (v == value_or (lookup k source.tags) "") ≡ false =
        ground (arith, eq_iff v (value_or (lookup k source.tags) "")) in
      (rw (r, s, h, g) refl, rw (s, t) (rw differ refl))

  -- A rule that refers to a template: with the name missing among the templates the call panics,
  -- and otherwise the template alone decides.
  pub matches-refer :
      (templates : Dict Match) (m : Match) (headers : Dict String) (source : SourceInfo)
      → m.refer ≢ ""
      → ((lookup m.refer templates ≡ none) → matches posix_match templates m headers source ≡ none)
        × ((t : Match)
            → lookup m.refer templates ≡ some t
            → (matches posix_match templates m headers source ≡ some true)
              ↔ Agrees t headers source)
  unfolding matches match_template
  matches-refer templates m headers source named =
      let e : (m.refer == "") ≡ false = ground (arith, eq_iff m.refer "") in
      (
        (λ missing. rw e (rw missing refl)),
        (λ t found. rw e (rw found (source_match_iff t headers source))),
      )

  abbrev only : String → String → Dict String
  only op value = (op, value) ∷ []

  -- The tests of a header come in pairs that never agree: `exact` and `noEqu` on any header, and
  -- on one that is a number `less` and `noLess`, and `greater` and `noGreater`. A header that is no
  -- number passes none of the four.
  pub is_match-opposite :
      (headers : Dict String) (k value : String)
      → let number = atoi (value_or (lookup k headers) "") in
        let holds : String → Option Bool = λ op. is_match posix_match headers k (only op value) in
        (holds "noEqu" ≡ (holds "exact" >>= λ b. some (not b)))
        × (number.1 ≡ true → holds "noLess" ≡ (holds "less" >>= λ b. some (not b)))
        × (number.1 ≡ true → holds "noGreater" ≡ (holds "greater" >>= λ b. some (not b)))
        × (number.1 ≡ false
            → (holds "less" ≡ some false)
              × (holds "noLess" ≡ some false)
              × (holds "greater" ≡ some false)
              × (holds "noGreater" ≡ some false))
  unfolding is_match is_match_int lookup
  is_match-opposite headers k value =
      (refl, (λ h. ground arith), (λ h. ground arith), (λ h. rw h (refl, refl, refl, refl)))
