-- ===== src/Plugin/Turnbind/Lineage.antt =====
-- The two arms of the binding test: the messages of the turn are messages of the session, and no
-- earlier turn adds to them.
use dsh_workflow_plugin.Prelude.{
  ℕ, String, Bool, true, false, ◌&&◌, ◌||◌, not, ◌==◌, ltb, Option, none, some, opt_bind, List, [],
  ◌∷◌, ◌++◌, includes, any_of, reverse, any_of-reverse, reverse-append, ◌≡◌, refl, sym, subst,
  arith, eq_iff, Option-cases, inl, inr,
}
use dsh_workflow_plugin.Plugin.Turnbind.{
  TurnBindEvent, message_id, add, session_user_message_ids, scan_turn, turn_user_message_ids,
  locate_call, caller_turn_user_message_ids, caller_session_user_message_ids,
}

abbrev is_message : String → Option String → Bool
is_message id none = false
is_message id (some m) = m == id

-- The event is the message, at or before the located event.
carries : ℕ → String → TurnBindEvent → Bool
carries seq id event = not (ltb seq event.seq) && is_message id (message_id event)

includes-add :
    (id : String) (m : Option String) (ids : List String)
    → includes id (add m ids) ≡ (is_message id m || includes id ids)
unfolding includes
includes-add id none ids = refl
includes-add id (some m) ids = refl

session-carries :
    (seq : ℕ) (id : String) (events : List TurnBindEvent)
    → includes id (session_user_message_ids seq events) ≡ any_of (carries seq id) events
unfolding session_user_message_ids carries includes
session-carries seq id [] = refl
session-carries seq id (event ∷ events) = ground (
  arith,
  session-carries seq id events,
  includes-add id (message_id event) (session_user_message_ids seq events),
)

scan-carries :
    (seq turn : ℕ) (id : String) (log : List TurnBindEvent) (ids out : List String)
    → scan_turn seq turn log ids ≡ some out
    → includes id out ≡ true
    → (includes id ids || any_of (carries seq id) log) ≡ true
unfolding scan_turn carries
scan-carries seq turn id [] ids out h m = cc
scan-carries seq turn id (event ∷ log) ids out h m = ground (
  arith,
  scan-carries seq turn id log ids out,
  scan-carries seq turn id log (add (message_id event) ids) out,
  includes-add id (message_id event) ids,
)

turn-carries :
    (events : List TurnBindEvent) (seq turn : ℕ) (id : String) (out : List String)
    → turn_user_message_ids events seq turn ≡ some out
    → includes id out ≡ true
    → includes id (session_user_message_ids seq events) ≡ true
unfolding turn_user_message_ids includes
turn-carries events seq turn id out h m =
    rw (session-carries seq id events, sym (any_of-reverse (carries seq id) events))
      (scan-carries seq turn id (reverse events) [] out h m)

-- A message that the calling turn has seen is a message that its session has seen: where the
-- messages of the turn are known, so are those of the session, and they include it.
pub caller_turn-session :
    (events : List TurnBindEvent) (call_id root_call_id id : String) (strict : List String)
    → caller_turn_user_message_ids events call_id root_call_id ≡ some strict
    → includes id strict ≡ true
    → (session : List String) × (caller_session_user_message_ids events call_id root_call_id
        ≡ some session)
      × (includes id session ≡ true)
unfolding caller_turn_user_message_ids caller_session_user_message_ids
caller_turn-session events call_id root_call_id id strict h m =
    elim (Option-cases (locate_call events call_id root_call_id)) [
      | inl underivable ↦ absurd (cc_none underivable)
      | inr (l, found) ↦ (
        session_user_message_ids l.locate_seq events,
        rw found refl,
        turn-carries events l.locate_seq l.turn id strict
            (subst
              (λ x.
                opt_bind x (λ l. turn_user_message_ids events l.locate_seq l.turn) ≡ some strict)
              found h)
            m,
      )
    ]
  where
    cc_none : locate_call events call_id root_call_id ≡ none → ⊥
    cc_none underivable = ground arith

-- What a turn sees ends at its start: the log before it makes no difference.
scan-start :
    (seq turn : ℕ) (log before before' : List TurnBindEvent) (start : TurnBindEvent)
    (ids : List String)
    → (start.type == "turn/start") ≡ true
    → ltb seq start.seq ≡ false
    → scan_turn seq turn (log ++ start ∷ before) ids
      ≡ scan_turn seq turn (log ++ start ∷ before') ids
unfolding scan_turn
scan-start seq turn [] before before' start ids t early =
    ground (arith, eq_iff start.type "turn/start")
scan-start seq turn (event ∷ log) before before' start ids t early = ground (
  arith,
  scan-start seq turn log before before' start ids t early,
  scan-start seq turn log before before' start (add (message_id event) ids) t early,
)

-- Where a turn starts at or before the located event, what the log holds before that start makes
-- no difference to the messages of the turn: an earlier turn adds nothing to them.
pub turn-start :
    (before log : List TurnBindEvent) (start : TurnBindEvent) (seq turn : ℕ)
    → (start.type == "turn/start") ≡ true
    → ltb seq start.seq ≡ false
    → turn_user_message_ids (before ++ start ∷ log) seq turn
      ≡ turn_user_message_ids (start ∷ log) seq turn
unfolding turn_user_message_ids reverse
turn-start before log start seq turn t early =
    rw (reverse-append before start log)
      (scan-start seq turn (reverse log) (reverse before) [] start [] t early)
