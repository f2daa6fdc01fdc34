-- ===== src/Logging/Traces.antt =====
-- getInnermostTrace on a chain of errors.
use service_broker_proxy.Prelude.{String, ◌≡◌, refl, Option, none, some, List, [], ◌∷◌, ◌++◌, All}
use service_broker_proxy.Logging.{Link, later_or, trace_loop, get_innermost_trace}

trace_loop_of_none :
    (tracer : Option String) (after : List Link)
    → All (λ l. l.trace ≡ none) after
    → trace_loop tracer after ≡ tracer
unfolding trace_loop
trace_loop_of_none tracer [] h = refl
trace_loop_of_none tracer (l ∷ after) (e, h) = rw e (trace_loop_of_none tracer after h)

trace_loop-append :
    (tracer : Option String) (before after : List Link) (t : String)
    → All (λ l. l.trace ≡ none) after
    → trace_loop tracer (before ++ record { trace = some t } ∷ after) ≡ some t
unfolding trace_loop
trace_loop-append tracer [] after t h = trace_loop_of_none (some t) after h
trace_loop-append tracer (l ∷ before) after t h =
    trace_loop-append (later_or l.trace tracer) before after t h

-- In a chain of errors the result is the trace of the error with a trace after which no error on the
-- way to the cause has one, whatever is before it.
pub get_innermost_trace-append :
    (before after : List Link) (t : String)
    → All (λ l. l.trace ≡ none) after
    → get_innermost_trace (before ++ record { trace = some t } ∷ after) ≡ some t
unfolding get_innermost_trace
get_innermost_trace-append before after t h = trace_loop-append none before after t h
