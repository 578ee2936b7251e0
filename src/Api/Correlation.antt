-- ===== src/Api/Correlation.antt =====
-- The correlation identifier of a request: ragcore/src/ragcore/api/middleware/correlation.py. Header names and
-- values are texts, as latin-1 reads them. The regular expression, the method lower and the identifier that is
-- made for a request are parameters.
pub mod Echoed
use itsm_poc.Common.{
  Bool, not, List, [], ◌∷◌, ◌++◌, map, String, str_eq, Option, none, some, select, if◌then◌else◌,
}

pub record CorrelationText : Type 0 where
  pub lower : String → String
  pub is_well_formed : String → Bool

pub record Header : Type 0 where
  pub name : String
  pub value : String

-- `scope["state"]`: none, a dict with or without the identifier, or a value that is no dict.
pub data ScopeState : Type 0 where
  no_state foreign_state : ScopeState
  state_dict : (correlation_id : Option String) → ScopeState

pub record RequestScope : Type 0 where
  pub is_http : Bool
  pub headers : List Header
  pub state : ScopeState

-- A message of the application: the start of a response with its headers, or another.
pub data Message : Type 0 where
  response_start : List Header → Message
  other_message : String → Message

-- What the application did with a scope, and with the identifier that the context variable held: the messages
-- that it sent, and whether it then raised or was cancelled.
pub record AppRun : Type 0 where
  pub sent : List Message
  pub is_raised : Bool

-- The run as the server sees it, and what the context variable holds after it.
pub record Correlated : Type 0 where
  pub sent : List Message
  pub is_raised : Bool
  pub variable : String

abbrev pub correlation_header : String
correlation_header = "x-correlation-id"

module _ (t : CorrelationText) where
  open t use {lower, is_well_formed}

  unfoldable pub is_correlation : Header → Bool
  is_correlation h = str_eq (lower h.name) correlation_header

  unfoldable pub accepted : String → Option String
  accepted raw = if is_well_formed raw then some raw else none

  -- The value of the first header of the name.
  unfoldable pub asked_for : List Header → Option String
  unfolding is_correlation accepted
  asked_for [] = none
  asked_for (h ∷ headers) = if is_correlation h then accepted h.value else asked_for headers

  -- `_resolve`, with the identifier that is minted where none is accepted.
  unfoldable pub resolve : (minted : String) → List Header → String
  unfolding asked_for
  resolve minted headers = elim (asked_for headers) [ none ↦ minted | some id ↦ id ]

  unfoldable pub with_identifier : String → ScopeState → ScopeState
  with_identifier id no_state = state_dict (some id)
  with_identifier id foreign_state = foreign_state
  with_identifier id (state_dict old) = state_dict (some id)

  unfoldable pub own_header : (id : String) → Header
  own_header id = record { name = correlation_header; value = id }

  -- `send_with_header`.
  unfoldable pub with_header : (id : String) → Message → Message
  unfolding own_header is_correlation
  with_header id (response_start headers) =
      response_start (select (λ h. not (is_correlation h)) headers ++ (own_header id ∷ []))
  with_header id (other_message text) = other_message text

  -- `CorrelationIdMiddleware.__call__`. The variable is set for the application's run, and reset to what it held
  -- however that run ends.
  unfoldable pub correlate :
      (app : RequestScope → (variable : String) → AppRun)
      → (minted variable : String) → RequestScope
      → Correlated
  unfolding resolve with_identifier with_header
  correlate app minted variable scope =
      let id = resolve minted scope.headers in
      let run = app (record scope { state = with_identifier id scope.state }) id in
      let untouched = app scope variable in
      if scope.is_http
      then record {
        sent = map (with_header id) run.sent;
        is_raised = run.is_raised;
        variable = variable;
      }
      else record { sent = untouched.sent; is_raised = untouched.is_raised; variable = variable }
