-- ===== src/Logging.antt =====
-- error_location_hook.go of pkg/logging: an error is a chain, from the outermost to its cause.
pub mod Traces
use service_broker_proxy.Prelude.{String, Bool, Option, none, some, List, [], ◌∷◌}

-- errorSourceField, the field of an entry that Fire sets
abbrev pub error_source_field : String
error_source_field = "errorSource"

-- One error of the chain: its stack trace, if it is a stackTracer. It is a causer if and only if the
-- chain goes on.
pub record Link : Type 0 where
  pub trace : Option String

later_or : Option String → Option String → Option String
later_or (some t) tracer = some t
later_or none tracer = tracer

trace_loop : Option String → List Link → Option String
unfolding later_or
trace_loop tracer [] = tracer
trace_loop tracer (l ∷ causes) = trace_loop (later_or l.trace tracer) causes

-- getInnermostTrace
unfoldable pub get_innermost_trace : List Link → Option String
unfolding trace_loop
get_innermost_trace chain = trace_loop none chain

-- The value of a log entry under the error key.
pub data Logged : Type 0 where
  nothing : Logged
  not_an_error : Logged
  an_error : List Link → Logged

-- Fire: whether it fails, and the source of the error that it adds to the entry.
unfoldable pub fire : Logged → Bool × Option String
unfolding get_innermost_trace
fire nothing = (Bool.false, none)
fire not_an_error = (Bool.true, none)
fire (an_error chain) = (Bool.false, get_innermost_trace chain)
