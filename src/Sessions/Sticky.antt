-- ===== src/Sessions/Sticky.antt =====
-- That a session of session/session_manager.go leads back to its address.
use Prim.Native.Char.{code}
use text.Mathlib.TextLemmas.{nil-append, cons-append}
use go_chassis.Prelude.{
  ◌≡◌, refl, sym, inl, inr, String, ◌<>◌, [], Option, none, some, Bool, true, false, not, ◌&&◌,
  ◌==◌, eq_iff, eqb, ℤ, Dict, lookup, value_or, lookup-insert_self, split_parts, split_on,
  Bool-cases,
}
use go_chassis.Refresh.{is_known}
use go_chassis.Sessions.{
  lb_session_id, Context, get_context_metadata, set_context_metadata, session_id, with_session,
  save_session_id_from_context,
}

-- A text without the sign `=`.
abbrev pub Bare : String → Type 0
Bare String.[] = Unit
Bare (String.◌∷◌ ch rest) = (eqb (code ch) b'=' ≡ false) × Bare rest

split_parts-Bare : (s : String) → Bare s → split_parts b'=' s ≡ (s, [])
unfolding split_parts
split_parts-Bare String.[] h = refl
split_parts-Bare (String.◌∷◌ ch rest) h = rw (split_parts-Bare rest h.1) (rw h.0 refl)

split_parts-sign : (s t : String) → Bare s → split_parts b'=' (s <> "=" <> t) ≡ (s, split_on b'=' t)
unfolding split_parts split_on
split_parts-sign String.[] t h = rw (nil-append, cons-append, nil-append) refl
split_parts-sign (String.◌∷◌ ch rest) t h =
    rw (cons-append ch rest ("=" <> t)) (rw (split_parts-sign rest t h.1) (rw h.0 refl))

-- The identifier of a cookie that the code makes.
session_id-cookie : (sid : String) → Bare sid → session_id (lb_session_id <> "=" <> sid) ≡ sid
unfolding session_id split_on
session_id-cookie sid h =
    rw
      (split_parts-sign lb_session_id sid (
        refl,
        (refl, (refl, (refl, (refl, (refl, (refl, (refl, (refl, (refl, (refl, (refl, tt))))))))))),
      ))
      (rw (split_parts-Bare sid h) refl)

-- A header that was set is read back.
get_context_metadata-set :
    (ctx : Context) (key value : String)
    → get_context_metadata (set_context_metadata ctx key value) key ≡ value
unfolding get_context_metadata set_context_metadata
get_context_metadata-set none key value = elim (Bool-cases (value == "")) [
  | inl e ↦ rw e (sym ((eq_iff value "").0 e))
  | inr ne ↦ rw ne (rw (lookup-insert_self key value []) refl)
]
get_context_metadata-set (some md) key value =
    elim (Bool-cases (value_or (lookup key md) "" == value)) [
      | inl e ↦ rw e ((eq_iff (value_or (lookup key md) "") value).0 e)
      | inr ne ↦ rw ne (rw (lookup-insert_self key value md) refl)
    ]

module _ {C : Type 0} (get : String → C → Option String) (set : String → String → ℤ → C → C)
    (delete : String → C → C) (delete_expired : C → C)
    (get-set : (sid ep : String) (timeout : ℤ) (c : C)
      → get sid (set sid ep timeout c) ≡ some ep) where
  with_session-sticks :
      (b : Bool) (sid fresh ep : String) (timeout : ℤ) (ctx : Context) (cache : C)
      (cookies : Dict String)
      → Bare fresh
      → sid ≡ session_id (get_context_metadata ctx lb_session_id)
      → let (ctx', (cache', cookies')) =
          with_session get set delete delete_expired b sid fresh ep timeout ctx (cache, cookies) in
        get (session_id (get_context_metadata ctx' lb_session_id)) cache' ≡ some ep
  with_session-sticks true sid fresh ep timeout ctx cache cookies h e =
      rw (sym e) (get-set sid ep timeout cache)
  with_session-sticks false sid fresh ep timeout ctx cache cookies h e =
      rw (get_context_metadata-set ctx lb_session_id (lb_session_id <> "=" <> fresh))
        (rw (session_id-cookie fresh h) (get-set fresh ep timeout cache))

  -- After the session of a call was saved for an address, the session that the context then carries
  -- leads to that address, whether the context came with a session that the cache knows, with
  -- another one or with none, when an address that is saved can be read and a generated identifier
  -- has no `=`.
  pub save_session_id_from_context-sticks :
      (fresh ep : String) (timeout : ℤ) (ctx : Context) (cache : C) (cookies : Dict String)
      → Bare fresh
      → let (ctx', (cache', cookies')) =
          save_session_id_from_context get set delete delete_expired fresh ep timeout ctx
            (cache, cookies) in
        get (session_id (get_context_metadata ctx' lb_session_id)) cache' ≡ some ep
  unfolding save_session_id_from_context
  save_session_id_from_context-sticks fresh ep timeout ctx cache cookies h =
      let sid = session_id (get_context_metadata ctx lb_session_id) in
      with_session-sticks (not (sid == "") && is_known (get sid (delete_expired cache))) sid fresh
        ep timeout ctx (delete_expired cache) cookies h refl
