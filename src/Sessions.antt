-- ===== src/Sessions.antt =====
-- The sessions of session/session_manager.go and session/session_storage.go: the sessions of calls
-- with a context, and the sessions of name spaces. The library of the caches is a parameter, with
-- what it holds of a key as the state; so are the identifiers that are generated. A context is the
-- map of its headers, which is `none` where it has none. HTTP requests and responses are modelled by the cookies
-- that the code reads; the writing of cookies is not modelled.
pub mod Sticky
use go_chassis.Prelude.{
  String, ◌<>◌, List, [], ◌∷◌, Option, none, some, Bool, true, false, not, ◌&&◌, ◌==◌, ℤ, pos, Dict,
  lookup, insert, value_or, split_on, if◌then◌else◌,
}
use go_chassis.Refresh.{is_known}

abbrev pub lb_session_id : String
lb_session_id = "go-chassisLB"

abbrev pub Context : Type 0
Context = Option (Dict String)

-- `GetContextMetadata`, `SetContextMetadata`
unfoldable pub get_context_metadata : Context → String → String
get_context_metadata none key = ""
get_context_metadata (some md) key = value_or (lookup key md) ""

unfoldable pub set_context_metadata : Context → String → String → Context
set_context_metadata none key value = if value == "" then none else some (insert key value [])
set_context_metadata (some md) key value =
    if value_or (lookup key md) "" == value then some md else some (insert key value md)

-- `GetSessionFromResp`, over the cookies of the response.
unfoldable pub get_session_from_resp : String → List (String × String) → String
get_session_from_resp cookie_key [] = ""
get_session_from_resp cookie_key ((name, value) ∷ rest) =
    let later = get_session_from_resp cookie_key rest in if name == cookie_key then value else later

-- The second part of a text with `=`, if there is one.
abbrev pub second_part : List String → Option String
second_part [] = none
second_part (a ∷ []) = none
second_part (a ∷ b ∷ rest) = some b

unfoldable pub session_id : String → String
unfolding split_on
session_id text = value_or (second_part (split_on b'=' text)) text

-- `GetSessionCookie`, where a nil context or response is `none`.
unfoldable pub get_session_cookie : Option Context → Option (List (String × String)) → String
unfolding get_context_metadata get_session_from_resp
get_session_cookie (some ctx) resp = get_context_metadata ctx lb_session_id
get_session_cookie none none = ""
get_session_cookie none (some cookies) = get_session_from_resp lb_session_id cookies

-- `getSessionStickinessCacheKey`
unfoldable pub get_session_stickiness_cache_key : String → String
get_session_stickiness_cache_key namespace =
    lb_session_id <> "|" <> (if namespace == "" then "default" else namespace)

module _ {C : Type 0} (get : String → C → Option String) (set : String → String → ℤ → C → C)
    (delete : String → C → C) (delete_expired : C → C) where
  -- The cache of the addresses by session, and `cookieMap`.
  abbrev pub State : Type 0
  State = C × Dict String

  -- `SaveSessionIDFromContext`, where `fresh` is the identifier that is generated.
  abbrev pub with_session : Bool → String → String → String → ℤ → Context → State → Context × State
  with_session true sid fresh ep timeout ctx (cache, cookies) =
      (ctx, (set sid ep timeout cache, insert lb_session_id (lb_session_id <> "=" <> sid) cookies))
  with_session false sid fresh ep timeout ctx (cache, cookies) =
      let cookie = lb_session_id <> "=" <> fresh in
      (
        set_context_metadata ctx lb_session_id cookie,
        (set fresh ep timeout cache, insert lb_session_id cookie cookies),
      )

  unfoldable pub save_session_id_from_context :
      String → String → ℤ → Context → State → Context × State
  unfolding get_context_metadata set_context_metadata session_id
  save_session_id_from_context fresh ep timeout ctx (cache, cookies) =
      let sid = session_id (get_context_metadata ctx lb_session_id) in
      let cleared = delete_expired cache in
      with_session (not (sid == "") && is_known (get sid cleared)) sid fresh ep timeout ctx
        (cleared, cookies)

  -- `DeletingKeySuccessiveFailure`, where a nil response is `none`.
  abbrev pub forget : Option String → C → C
  forget none cache = cache
  forget (some sid) cache = delete sid cache

  abbrev pub without_cookie : Option String → Dict String → Dict String
  without_cookie none cookies = cookies
  without_cookie (some sid) cookies = insert lb_session_id "" cookies

  unfoldable pub deleting_key_successive_failure : Option (List (String × String)) → State → State
  unfolding get_session_from_resp split_on
  deleting_key_successive_failure none (cache, cookies) =
      let sid = second_part (split_on b'=' (value_or (lookup lb_session_id cookies) "")) in
      (forget sid (delete_expired cache), without_cookie sid cookies)
  deleting_key_successive_failure (some resp) (cache, cookies) = (
    forget (second_part (split_on b'=' (get_session_from_resp lb_session_id resp)))
        (delete_expired cache),
    cookies,
  )

  -- `AddSessionStickinessToCache`, `GetSessionID`
  abbrev pub add_to : Option String → String → String → C → C
  add_to none key cookie cache = set key cookie (pos 0) cache
  add_to (some s) key cookie cache =
      if not (cookie == "") && not (s == cookie) then set key cookie (pos 0) cache else cache

  unfoldable pub add_session_stickiness_to_cache : String → String → C → C
  unfolding get_session_stickiness_cache_key
  add_session_stickiness_to_cache cookie namespace cache =
      let key = get_session_stickiness_cache_key namespace in
      add_to (get key cache) key cookie cache

  unfoldable pub get_session_id : String → C → String
  unfolding get_session_stickiness_cache_key
  get_session_id namespace cache =
      value_or (get (get_session_stickiness_cache_key namespace) cache) ""
