-- ===== src/Wait/Credit.antt =====
-- The credit and the anchor of a ready clock over any poll.
use pearlarr.Base.{ℕ, ◌*◌, ◌≤◌, ◌≡◌, refl, inl, inr, ltb, if_ind, Bool-cases, arith}
use pearlarr.Probe.Commands.{Deferral}
use pearlarr.Imports.Outcomes.{ImportProbe}
use pearlarr.Wait.Clock.{
  ReadyClock, mark_poll, credit_cap, credit_deferral, lands, note_progress,
  deferral_credit_cap_mult,
}
use pearlarr.Wait.Advance.{settled_clock}

-- where a poll at this moment may leave a clock
record Bounded (now : ℕ) (c d : ReadyClock) : Type 0 where
  same_timeout : d.timeout ≡ c.timeout
  same_start : d.started ≡ c.started
  credited_up : c.credited ≤ d.credited
  in_cap : d.credited ≤ credit_cap d
  anchor_up : c.anchor ≤ d.anchor
  anchor_past : d.anchor ≤ now

note_progress-Bounded :
    (done total now : ℕ) (c : ReadyClock)
    → c.credited ≤ credit_cap c
    → c.anchor ≤ now
    → Bounded now c (note_progress done total now (mark_poll now c))
unfolding note_progress mark_poll
note_progress-Bounded done total now c cap past =
    if_ind (Bounded now c) (ltb 0 total)
      (λ _. elim (Bool-cases (lands done total (mark_poll now c))) [
        | inl h ↦ rw h (record {
          same_timeout = refl;
          same_start = refl;
          credited_up = omega arith;
          in_cap = cap;
          anchor_up = past;
          anchor_past = omega arith;
        })
        | inr h ↦ rw h (record {
          same_timeout = refl;
          same_start = refl;
          credited_up = omega arith;
          in_cap = cap;
          anchor_up = omega arith;
          anchor_past = past;
        })
      ])
      (λ _. record {
        same_timeout = refl;
        same_start = refl;
        credited_up = omega arith;
        in_cap = cap;
        anchor_up = omega arith;
        anchor_past = past;
      })

credit_deferral-Bounded :
    (now : ℕ) (reason : Deferral) (c d : ReadyClock)
    → Bounded now c d
    → Bounded now c (credit_deferral now reason d)
unfolding credit_deferral
credit_deferral-Bounded now reason c d b = record {
  same_timeout = b.same_timeout;
  same_start = b.same_start;
  credited_up = omega (arith, b.credited_up);
  in_cap = omega (arith, b.in_cap);
  anchor_up = omega (arith, b.anchor_up, b.anchor_past);
  anchor_past = omega arith;
}

-- Whatever a poll answers, it leaves the timeout and the start of the row's clock, only adds credit and never beyond
-- six times the timeout, and moves the anchor only forward and never past the poll.
pub settled_clock-bounds :
    (now : ℕ) (probe : ImportProbe) (c : ReadyClock)
    → c.credited ≤ deferral_credit_cap_mult * c.timeout
    → c.anchor ≤ now
    → (let d = settled_clock now probe (mark_poll now c) in
        (d.timeout ≡ c.timeout)
        × (d.started ≡ c.started)
        × (c.credited ≤ d.credited)
        × (d.credited ≤ deferral_credit_cap_mult * d.timeout)
        × (c.anchor ≤ d.anchor)
        × (d.anchor ≤ now))
unfolding settled_clock
settled_clock-bounds now probe c cap past =
    let noted =
      note_progress-Bounded probe.imported_count probe.target_count now c (omega (arith, cap))
        past in
    let b : Bounded now c (settled_clock now probe (mark_poll now c)) =
      if_ind (Bounded now c) _ (λ _. credit_deferral-Bounded now probe.deferral c _ noted)
        (λ _. noted) in
    (
      b.same_timeout,
      b.same_start,
      b.credited_up,
      omega (arith, b.in_cap),
      b.anchor_up,
      b.anchor_past,
    )
