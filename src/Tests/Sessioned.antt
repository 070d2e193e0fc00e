-- ===== src/Tests/Sessioned.antt =====
-- The sessions of session/session_manager.go on small data.
use go_chassis.Prelude.{
  ◌≡◌, refl, String, [], ◌∷◌, none, some, pos, Dict, lookup, insert, remove, lookup-insert_self,
}
use go_chassis.Sessions.{
  lb_session_id, session_id, get_context_metadata, set_context_metadata,
  save_session_id_from_context,
}
use go_chassis.Sessions.Sticky.{save_session_id_from_context-sticks}

abbrev other : Dict String
other = ("2a", "10.0.0.2:80") ∷ []

-- A call without a session.
save_session_id_from_context-sticks_example :
    lookup {V = String}
      (session_id (
        get_context_metadata
          (set_context_metadata none lb_session_id "go-chassisLB=7f")
          lb_session_id))
      (insert "7f" "10.0.0.1:80" other)
    ≡ some "10.0.0.1:80"
unfolding save_session_id_from_context lookup
save_session_id_from_context-sticks_example =
    save_session_id_from_context-sticks (λ (sid : String) (c : Dict String). lookup sid c)
      (λ sid ep timeout c. insert sid ep c) (λ sid c. remove sid c) (λ c. c)
      (λ sid ep timeout c. lookup-insert_self sid ep c) "7f" "10.0.0.1:80" (pos 30) none other []
      (refl, (refl, tt))
