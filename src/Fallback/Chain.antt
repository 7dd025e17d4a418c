-- ===== src/Fallback/Chain.antt =====
-- Which provider serves a request, and that a reply is never put together from two of them.
use apm.Shared.{
  ℕ, ◌+◌, ◌-◌, ◌<◌, ◌≡◌, ◌⊎◌, inl, inr, refl, List, [], ◌∷◌, ◌++◌, String, ltb, leb, arith,
  Bool-cases,
}
use apm.Database.{Error, Result, ok, err}
use apm.Fallback.{Attempt, Stream, try_all, complete, stream_from, stream_complete, first_event}

-- The time that the attempts of a list take together.
abbrev pub total : List Attempt → ℕ
total [] = 0
total (a ∷ more) = a.takes + total more

abbrev pub AllFail : List Attempt → Type 0
AllFail [] = Unit
AllFail (a ∷ more) = ((e : Error) × (a.result ≡ err e)) × AllFail more

try_all-served :
    (deadline elapsed : ℕ) (failed : List Attempt) (a : Attempt) (rest : List Attempt)
    (reply : String)
    → AllFail failed
    → a.result ≡ ok reply
    → elapsed + total failed + a.takes < deadline
    → try_all deadline elapsed (failed ++ (a ∷ rest)) ≡ ok reply
unfolding try_all
try_all-served deadline elapsed [] a rest reply f s h = ground arith
try_all-served deadline elapsed (b ∷ failed) a rest reply f s h =
    let ih = try_all-served deadline (elapsed + b.takes) failed a rest reply f.1 s (omega arith) in
    ground (arith, ih, f.0.1)

-- `complete` gives the reply of the first provider that has one, however many before it fail, if it
-- comes before the deadline of the whole chain.
pub complete-served :
    (deadline : ℕ) (failed : List Attempt) (a : Attempt) (rest : List Attempt) (reply : String)
    → AllFail failed
    → a.result ≡ ok reply
    → total failed + a.takes < deadline
    → complete deadline (failed ++ (a ∷ rest)) ≡ ok reply
unfolding complete
complete-served deadline failed a rest reply f s h =
    try_all-served deadline 0 failed a rest reply f s (omega arith)

-- A reply was given by one of the providers, after those before it had failed, within the deadline.
pub record Served (deadline elapsed : ℕ) (attempts : List Attempt) (reply : String) : Type 0 where
  pub failed : List Attempt
  pub by : Attempt
  pub rest : List Attempt
  pub order : attempts ≡ failed ++ (by ∷ rest)
  pub failing : AllFail failed
  pub answer : by.result ≡ ok reply
  pub timely : elapsed + total failed + by.takes < deadline

Served-later :
    (deadline elapsed : ℕ) (a : Attempt) (e : Error) (more : List Attempt) (reply : String)
    → a.result ≡ err e
    → Served deadline (elapsed + a.takes) more reply
    → Served deadline elapsed (a ∷ more) reply
Served-later deadline elapsed a e more reply f s = record {
  failed = a ∷ s.failed;
  by = s.by;
  rest = s.rest;
  order = rw (s.order) refl;
  failing = ((e, f), s.failing);
  answer = s.answer;
  timely = omega (arith, s.timely);
}

try_all-Served :
    (deadline elapsed : ℕ) (attempts : List Attempt) (reply : String)
    → try_all deadline elapsed attempts ≡ ok reply
    → Served deadline elapsed attempts reply
unfolding try_all
try_all-Served deadline elapsed [] reply h = absurd (cc)
try_all-Served deadline elapsed (a ∷ more) reply h =
    go a.result refl (λ e. try_all-Served deadline (elapsed + a.takes) more reply e)
  where
    go :
        (r : Result String)
        → a.result ≡ r
        → (try_all deadline (elapsed + a.takes) more ≡ ok reply
            → Served deadline (elapsed + a.takes) more reply)
        → Served deadline elapsed (a ∷ more) reply
    go (ok text) e later = record {
      failed = [];
      by = a;
      rest = more;
      order = refl;
      failing = tt;
      answer = ground arith;
      timely = ground arith;
    }
    go (err x) e later = Served-later deadline elapsed a x more reply e (later (ground arith))

-- A reply of `complete` is the answer of one provider of the chain, after all before it had failed,
-- and it came before the deadline.
pub complete-Served :
    (deadline : ℕ) (attempts : List Attempt) (reply : String)
    → complete deadline attempts ≡ ok reply
    → Served deadline 0 attempts reply
unfolding complete
complete-Served deadline attempts reply h = try_all-Served deadline 0 attempts reply h

-- What a stream that begins to emit in time may have yielded.
pub record Emitted (streams : List Stream) (chunks : List String) : Type 0 where
  pub silent : List Stream
  pub by : Stream
  pub rest : List Stream
  pub order : streams ≡ silent ++ (by ∷ rest)
  pub whole : chunks ≡ by.chunks

Emitted-later :
    (s : Stream) (ss : List Stream) (chunks : List String)
    → (chunks ≡ []) ⊎ Emitted ss chunks
    → (chunks ≡ []) ⊎ Emitted (s ∷ ss) chunks
Emitted-later s ss chunks (inl e) = inl e
Emitted-later s ss chunks (inr h) = inr (record {
  silent = s ∷ h.silent;
  by = h.by;
  rest = h.rest;
  order = rw (h.order) refl;
  whole = h.whole;
})

first_event-cases :
    (s : Stream) (next : List String × Result (Unit {0}))
    → ((first_event s next).0 ≡ s.chunks) ⊎ (first_event s next ≡ next)
first_event-cases s next = ground arith

stream_from-Emitted :
    (deadline elapsed : ℕ) (streams : List Stream)
    → ((stream_from deadline elapsed streams).0 ≡ [])
      ⊎ Emitted streams (stream_from deadline elapsed streams).0
unfolding stream_from
stream_from-Emitted deadline elapsed [] = inl refl
stream_from-Emitted deadline elapsed (s ∷ ss) = elim (Bool-cases (leb deadline elapsed)) [
  | inl over ↦ inl (ground arith)
  | inr time ↦ elim (Bool-cases (ltb (deadline - elapsed) s.first_after)) [
    | inl late ↦
        rw (time, late)
          (Emitted-later s ss (stream_from deadline deadline ss).0
            (stream_from-Emitted deadline deadline ss))
    | inr soon ↦
        let next = stream_from deadline (elapsed + s.first_after) ss in
        elim (first_event-cases s next) [
          | inl own ↦
              rw (time, soon)
                (inr (record { silent = []; by = s; rest = ss; order = refl; whole = own }))
          | inr other ↦
              rw (time, soon, other)
                (Emitted-later s ss next.0
                  (stream_from-Emitted deadline (elapsed + s.first_after) ss))
        ]
  ]
]

-- What a client has been sent is nothing, or all the chunks of one provider: after a first chunk no
-- other provider adds to the reply, however the stream ends.
pub stream_complete-Emitted :
    (deadline : ℕ) (streams : List Stream)
    → ((stream_complete deadline streams).0 ≡ [])
      ⊎ Emitted streams (stream_complete deadline streams).0
unfolding stream_complete
stream_complete-Emitted deadline streams = stream_from-Emitted deadline 0 streams
