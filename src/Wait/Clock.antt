-- ===== src/Wait/Clock.antt =====
-- `_ReadyClock`: how long a row may stall before it graduates.
use pearlarr.Base.{
  ℕ, ◌+◌, ◌-◌, ◌*◌, max, min, Bool, true, false, ◌&&◌, Option, none, some, leb, ltb, if◌then◌else◌,
  nat_eq,
}
use pearlarr.Probe.Commands.{Deferral, not_deferred, issued, import_running, busy}

abbrev pub deferral_credit_cap_mult : ℕ
deferral_credit_cap_mult = 6

pub record ReadyClock : Type 0 where
  pub timeout : ℕ
  pub anchor : ℕ
  pub started : ℕ
  pub seen : Option ℕ
  pub poll_gap : ℕ
  pub poll_at : Option ℕ
  pub credited : ℕ
  pub issued_credited : Bool

-- the clock of a row at its first complete poll
abbrev pub new_clock : ℕ → ℕ → ReadyClock
new_clock timeout now = record {
  timeout = timeout;
  anchor = now;
  started = now;
  seen = none;
  poll_gap = 0;
  poll_at = none;
  credited = 0;
  issued_credited = false;
}

abbrev pub gap_since : Option ℕ → ℕ → ℕ
gap_since none now = 0
gap_since (some before) now = now - before

unfoldable pub mark_poll : ℕ → ReadyClock → ReadyClock
mark_poll now c = record c { poll_gap = gap_since c.poll_at now; poll_at = some now }

-- `now - anchor >= timeout`, as a sum
unfoldable pub at_deadline : ℕ → ReadyClock → Bool
at_deadline now c = leb (c.anchor + c.timeout) now

abbrev pub is_issued : Deferral → Bool
is_issued issued = true
is_issued not_deferred = false
is_issued import_running = false
is_issued busy = false

-- the most credit that a row may get
abbrev pub credit_cap : ReadyClock → ℕ
credit_cap c = c.timeout * deferral_credit_cap_mult

unfoldable pub can_defer : Deferral → ReadyClock → Bool
can_defer reason c =
    if is_issued reason && c.issued_credited then false else ltb c.credited (credit_cap c)

unfoldable pub credit_deferral : ℕ → Deferral → ReadyClock → ReadyClock
credit_deferral now reason c =
    let credit = min c.poll_gap (credit_cap c - c.credited) in
    record c {
      issued_credited = if is_issued reason then true else c.issued_credited;
      credited = c.credited + credit;
      anchor = min (c.anchor + credit) now;
    }

-- whether the count rises above what was seen
unfoldable pub lands : ℕ → ℕ → ReadyClock → Bool
lands done total c = elim c.seen as (λ _. Bool) [
  | none ↦ false
  | some last ↦ ltb 0 total && ltb last done
]

abbrev pub seen_after : ℕ → Option ℕ → Option ℕ
seen_after done none = some done
seen_after done (some last) = some (max last done)

-- `note_progress`, for its effect; its answer is `lands`
unfoldable pub note_progress : ℕ → ℕ → ℕ → ReadyClock → ReadyClock
unfolding lands
note_progress done total now c =
    if ltb 0 total
    then record c {
      seen = seen_after done c.seen;
      anchor = if lands done total c then now else c.anchor;
    }
    else c
