-- ===== src/Plugin/Turnbind.antt =====
-- src/plugin/turnbind.ts: which messages the turn that makes a tool call has seen. The log is a list
-- of events; numbers in it are natural numbers.
pub mod Lineage
use dsh_workflow_plugin.Prelude.{
  ℕ, String, Bool, true, false, ◌&&◌, not, ◌==◌, leb, ltb, nat_eq, Option, none, some, opt_bind,
  opt_map, List, [], ◌∷◌, ◌++◌, Assoc, lookup, reverse, is_empty, codes,
}

-- A field of the data of an event.
pub data Field : Type 0 where
  number : ℕ → Field
  string : String → Field
  other : Field

-- `data` is none where it is no object.
pub record TurnBindEvent : Type 0 where
  pub type : String
  pub seq : ℕ
  pub data_of : Option (Assoc Field)

abbrev field : String → TurnBindEvent → Option Field
field name event = opt_bind event.data_of (lookup name)

abbrev is_string : String → Option Field → Bool
is_string s (some (Field.string t)) = t == s
is_string s _ = false

-- Where a call is located: its event, and its turn.
pub record Located : Type 0 where
  pub locate_seq : ℕ
  pub turn : ℕ

-- The search for a `tool/call`; an event without a turn makes the call underivable.
pub data Search : Type 0 where
  absent anomalous : Search
  found : Located → Search

abbrev located_at : TurnBindEvent → Option Field → Search
located_at event (some (Field.number turn)) = found (record { locate_seq = event.seq; turn = turn })
located_at event _ = anomalous

unfoldable pub find_call : String → List TurnBindEvent → Search
find_call call_id [] = absent
find_call call_id (event ∷ events) =
    elim (event.type == "tool/call" && is_string call_id (field "callId" event)) [
      | true ↦ located_at event (field "turn" event)
      | false ↦ find_call call_id events
    ]

-- The start of a code child of exactly this root.
has_code_start : String → String → List TurnBindEvent → Bool
has_code_start call_id root_call_id [] = false
has_code_start call_id root_call_id (event ∷ events) =
    elim (event.type == "tool/code-dispatch-start"
      && is_string call_id (field "subCallId" event)
      && is_string root_call_id (field "rootCallId" event)) [
        | true ↦ true
        | false ↦ has_code_start call_id root_call_id events
      ]

abbrev located : Search → Option Located
located (found l) = some l
located _ = none

-- `locateCall`: the native call, or else the root of the code child.
unfoldable pub locate_call : List TurnBindEvent → String → String → Option Located
unfolding has_code_start
locate_call events call_id root_call_id = elim (find_call call_id events) [
  | found l ↦ some l
  | anomalous ↦ none
  | absent ↦ elim (has_code_start call_id root_call_id events) [
    | false ↦ none
    | true ↦ located (find_call root_call_id events)
  ]
]

-- The id of a `user/message`, where it has one.
abbrev pub message_id : TurnBindEvent → Option String
message_id event = elim (event.type == "user/message") [
  | false ↦ none
  | true ↦ elim (field "id" event) [
    | none ↦ none
    | some (Field.string id) ↦ elim (is_empty (codes id)) [ true ↦ none | false ↦ some id ]
    | some _ ↦ none
  ]
]

abbrev pub add : Option String → List String → List String
add none ids = ids
add (some id) ids = id ∷ ids

-- `sessionUserMessageIds`: every message up to the located event.
pub session_user_message_ids : ℕ → List TurnBindEvent → List String
session_user_message_ids seq [] = []
session_user_message_ids seq (event ∷ events) =
    let ids = session_user_message_ids seq events in
    elim (ltb seq event.seq) [ true ↦ ids | false ↦ add (message_id event) ids ]

abbrev is_number : ℕ → Option Field → Bool
is_number n (some (Field.number m)) = nat_eq m n
is_number n _ = false

-- The reverse scan of `turnUserMessageIds`, over the log from its end.
unfoldable pub scan_turn : ℕ → ℕ → List TurnBindEvent → List String → Option (List String)
scan_turn seq turn [] ids = none
scan_turn seq turn (event ∷ events) ids =
    let skip = scan_turn seq turn events ids in
    let rest = scan_turn seq turn events (add (message_id event) ids) in
    elim (ltb seq event.seq) [
      | true ↦ skip
      | false ↦ elim (event.type == "turn/end" && not (nat_eq event.seq seq)) [
        | true ↦ none
        | false ↦ elim (event.type == "turn/start") [
          | true ↦ elim (is_number turn (field "turn" event)) [ true ↦ some ids | false ↦ none ]
          | false ↦ rest
        ]
      ]
    ]

unfoldable pub turn_user_message_ids : List TurnBindEvent → ℕ → ℕ → Option (List String)
unfolding scan_turn
turn_user_message_ids events seq turn = scan_turn seq turn (reverse events) []

-- The messages of the calling turn.
unfoldable pub caller_turn_user_message_ids :
    List TurnBindEvent → String → String → Option (List String)
unfolding turn_user_message_ids
caller_turn_user_message_ids events call_id root_call_id =
    opt_bind (locate_call events call_id root_call_id)
      (λ l. turn_user_message_ids events l.locate_seq l.turn)

-- The messages of the session up to the calling turn.
pub caller_session_user_message_ids : List TurnBindEvent → String → String → Option (List String)
caller_session_user_message_ids events call_id root_call_id =
    opt_map (λ l. session_user_message_ids l.locate_seq events)
      (locate_call events call_id root_call_id)

abbrev max_safe_integer : ℕ
max_safe_integer = 9007199254740991

abbrev safe_turn : Option Field → Option ℕ
safe_turn (some (Field.number turn)) = elim (leb turn max_safe_integer) [
  | true ↦ some turn
  | false ↦ none
]
safe_turn _ = none

-- `events.find(event => event.seq === seq)`.
find_seq : ℕ → List TurnBindEvent → Option TurnBindEvent
find_seq seq [] = none
find_seq seq (event ∷ events) = elim (nat_eq event.seq seq) [
  | true ↦ some event
  | false ↦ find_seq seq events
]

abbrev is_end_of : ℕ → Option TurnBindEvent → Bool
is_end_of turn none = false
is_end_of turn (some event) = event.type == "turn/end" && is_number turn (field "turn" event)

-- The turn that an end event ends, where the log holds the same event.
ended_turn : List TurnBindEvent → TurnBindEvent → Option ℕ
ended_turn events end_event = elim (end_event.type == "turn/end") [
  | false ↦ none
  | true ↦ elim (safe_turn (field "turn" end_event)) [
    | none ↦ none
    | some turn ↦ elim (is_end_of turn (find_seq end_event.seq events)) [
      | true ↦ some turn
      | false ↦ none
    ]
  ]
]

ended_turn_user_message_ids : List TurnBindEvent → TurnBindEvent → Option (List String)
unfolding turn_user_message_ids
ended_turn_user_message_ids events end_event =
    opt_bind (ended_turn events end_event) (turn_user_message_ids events end_event.seq)

ended_session_user_message_ids : List TurnBindEvent → TurnBindEvent → Option (List String)
ended_session_user_message_ids events end_event =
    opt_map (λ turn. session_user_message_ids end_event.seq events) (ended_turn events end_event)
