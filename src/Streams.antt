-- ===== src/Streams.antt =====
-- handlers/stream_handler.rs: the outcome of a stream, the adapters round the upstream's stream, and
-- the end of the client's stream. A stream is a state with a function that polls it.
pub mod Chunk
pub mod Forward
pub mod Response
pub mod Tail
pub mod Flags
pub mod Ending
pub mod Told
mod Tests
use que_qiao_router.Base.{
  ℕ, suc, ◌+◌, ◌-◌, String, Bool, true, false, ◌||◌, Option, none, some, List, [], ◌∷◌, ◌++◌,
  if◌then◌else◌, leb, length, drop,
}

pub data Outcome : Type 0 where
  running completed upstream_error : Outcome

-- `StreamOutcome::mark`: a compare-exchange from RUNNING.
abbrev pub mark : Outcome → Outcome → Outcome
mark running outcome = outcome
mark completed outcome = completed
mark upstream_error outcome = upstream_error

unfoldable pub outcome_to_status : Outcome → Bool → ℕ × Option String
outcome_to_status upstream_error saw_terminal_event = (502, some "upstream stream interrupted")
outcome_to_status completed saw_terminal_event = (200, none)
outcome_to_status running saw_terminal_event =
    if saw_terminal_event
    then (200, none)
    else (499, some "client disconnected before stream completed")

pub data Item (A E : Type 0) : Type 0 where
  ok : A → Item A E
  err : E → Item A E

-- `Poll<Option<…>>`.
pub data Poll (A : Type 0) : Type 0 where
  pending : Poll A
  ready : A → Poll A
  finished : Poll A

module _ {A E S : Type 0} (poll_inner : S → Poll (Item A E) × S) where
  -- `TerminateOnError`: the inner stream, and whether it is over.
  abbrev after_poll : Poll (Item A E) × S → Poll (Item A E) × (S × Bool)
  after_poll (ready (err e), s) = (ready (err e), (s, true))
  after_poll (finished, s) = (finished, (s, true))
  after_poll (ready (ok a), s) = (ready (ok a), (s, false))
  after_poll (pending, s) = (pending, (s, false))

  unfoldable pub poll_terminate : S × Bool → Poll (Item A E) × (S × Bool)
  poll_terminate (s, true) = (finished, (s, true))
  poll_terminate (s, false) = after_poll (poll_inner s)

  -- `OutcomeSignal`: the inner stream, and the shared outcome.
  abbrev signal : Outcome → Poll (Item A E) × S → Poll (Item A E) × (S × Outcome)
  signal o (ready (err e), s) = (ready (err e), (s, mark o upstream_error))
  signal o (finished, s) = (finished, (s, mark o completed))
  signal o (ready (ok a), s) = (ready (ok a), (s, o))
  signal o (pending, s) = (pending, (s, o))

  unfoldable pub poll_outcome : S × Outcome → Poll (Item A E) × (S × Outcome)
  poll_outcome (s, o) = signal o (poll_inner s)

-- `DoneSentinel`: whether the client's stream has its end already, and whether it was polled.
pub record DoneSentinel : Type 0 where
  pub flag : Bool
  pub emitted : Bool

unfoldable pub poll_sentinel {ℓ} : {D : Type ℓ} → D → DoneSentinel → Option D × DoneSentinel
poll_sentinel done s =
    if s.emitted
    then (none, s)
    else (if s.flag then none else some done, record s { emitted = true })

abbrev pub debug_raw_body_tail_limit : ℕ
debug_raw_body_tail_limit = 16384

unfoldable pub append_debug_raw_body_tail : List ℕ → List ℕ → List ℕ
append_debug_raw_body_tail tail bytes =
    if leb debug_raw_body_tail_limit (length bytes)
    then drop (length bytes - debug_raw_body_tail_limit) bytes
    else drop (length tail + length bytes - debug_raw_body_tail_limit) tail ++ bytes

module _ {E S : Type 0} (poll_inner : S → Poll (Item (List ℕ) E) × S) where
  abbrev captured :
      Poll (Item (List ℕ) E) × S → List ℕ → Poll (Item (List ℕ) E) × (S × Option (List ℕ))
  captured (ready (ok bytes), s) tail =
      (ready (ok bytes), (s, some (append_debug_raw_body_tail tail bytes)))
  captured (ready (err e), s) tail = (ready (err e), (s, some tail))
  captured (finished, s) tail = (finished, (s, some tail))
  captured (pending, s) tail = (pending, (s, some tail))

  abbrev passed : Poll (Item (List ℕ) E) × S → Poll (Item (List ℕ) E) × (S × Option (List ℕ))
  passed (p, s) = (p, (s, none))

  -- `UpstreamBodyStream`: the inner stream, and the tail if it captures one.
  unfoldable pub poll_body : S × Option (List ℕ) → Poll (Item (List ℕ) E) × (S × Option (List ℕ))
  unfolding append_debug_raw_body_tail
  poll_body (s, none) = passed (poll_inner s)
  poll_body (s, some tail) = captured (poll_inner s) tail
