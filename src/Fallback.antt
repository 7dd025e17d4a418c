-- ===== src/Fallback.antt =====
-- The chain of LLM providers: `FallbackLlmProvider` of backend/app/core/llm/providers/fallback.py. The
-- providers are parameters: for a request, how long an attempt takes and how it goes. Time is counted
-- from the start of the call.
pub mod Chain
mod Tests
use apm.Shared.{
  ℕ, ◌+◌, ◌-◌, Bool, true, false, List, [], ◌∷◌, Option, none, some, String, ltb, leb,
  if◌then◌else◌,
}
use apm.Database.{Error, Result, ok, err, llm_provider}

-- One call of `complete`: it answers or raises after a time.
pub record Attempt : Type 0 where
  pub takes : ℕ
  pub result : Result String

-- One stream: the time to its first event, its chunks, and whether it raises after them.
pub record Stream : Type 0 where
  pub first_after : ℕ
  pub chunks : List String
  pub failure : Option Error

-- An attempt that does not end before the deadline of the whole chain is cut off. `elapsed` is the
-- time that the earlier providers took.
unfoldable pub try_all : ℕ → ℕ → List Attempt → Result String
try_all deadline elapsed [] = err (llm_provider "All LLM providers failed")
try_all deadline elapsed (a ∷ rest) =
    let next = try_all deadline (elapsed + a.takes) rest in
    if leb deadline (elapsed + a.takes)
    then err (llm_provider "All LLM providers exceeded the fallback deadline")
    else elim a.result [ ok reply ↦ ok reply | err e ↦ next ]

-- `complete`, for the attempts that the providers make of one request.
unfoldable pub complete : ℕ → List Attempt → Result String
unfolding try_all
complete deadline attempts = try_all deadline 0 attempts

abbrev pub all_failed : List String × Result (Unit {0})
all_failed = ([], err (llm_provider "All LLM providers failed"))

-- The end of a stream that has begun to emit: no other provider takes over.
abbrev pub emitted : List String → Option Error → List String × Result (Unit {0})
emitted chunks none = (chunks, ok tt)
emitted chunks (some e) = (chunks, err e)

-- A stream that ends before its first chunk: cleanly, or with the next provider.
abbrev pub first_event : Stream → List String × Result (Unit {0}) → List String × Result (Unit {0})
first_event s next = elim (s.chunks) [
  | [] ↦ elim s.failure [ none ↦ ([], ok tt) | some e ↦ next ]
  | c ∷ cs ↦ emitted (c ∷ cs) s.failure
]

-- `stream_complete`: what is yielded, and how the call ends.
unfoldable pub stream_from : ℕ → ℕ → List Stream → List String × Result (Unit {0})
stream_from deadline elapsed [] = all_failed
stream_from deadline elapsed (s ∷ rest) =
    let timed_out = stream_from deadline deadline rest in
    let next = stream_from deadline (elapsed + s.first_after) rest in
    if leb deadline elapsed
    then all_failed
    else if ltb (deadline - elapsed) s.first_after
    then timed_out
    else first_event s next

unfoldable pub stream_complete : ℕ → List Stream → List String × Result (Unit {0})
unfolding stream_from
stream_complete deadline streams = stream_from deadline 0 streams
