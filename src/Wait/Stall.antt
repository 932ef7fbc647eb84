-- ===== src/Wait/Stall.antt =====
-- The ready clock of a row over its polls.
use pearlarr.Base.{
  ℕ, ◌+◌, ◌-◌, ◌*◌, ◌≤◌, ◌<◌, min, true, false, ◌&&◌, Option, none, some, ◌≡◌, refl, ◌⊎◌, inl, inr,
  ltb, is_some, if_ind, arith,
}
use pearlarr.Probe.Commands.{Deferral}
use pearlarr.Imports.Outcomes.{ImportProbe}
use pearlarr.Wait.Clock.{
  ReadyClock, new_clock, gap_since, mark_poll, at_deadline, is_issued, credit_cap, can_defer,
  credit_deferral, lands, seen_after, note_progress,
}
use pearlarr.Wait.Advance.{polled_clock, landed, pauses, settled_clock, is_exhausted}

-- the moment of the last poll
abbrev pub last_poll : ReadyClock → ℕ
last_poll c = elim c.poll_at [ none ↦ 0 | some t ↦ t ]

-- The clocks of a row that polls leave waiting while no further file lands: from the first poll, by
-- polls in the order of time that do not end the wait, and by refreshes of the bar.
pub data Stalled (timeout : ℕ) : ReadyClock → Type 0 where
  first_poll :
      (now : ℕ) (probe : ImportProbe)
      → Stalled timeout (settled_clock now probe (polled_clock timeout now none))
  next_poll :
      {c : ReadyClock}
      → Stalled timeout c
      → (now : ℕ) (probe : ImportProbe) → last_poll c ≤ now
      → landed probe (mark_poll now c) ≡ false
      → is_exhausted now probe (mark_poll now c) ≡ false
      → Stalled timeout (settled_clock now probe (mark_poll now c))
  refreshed :
      {c : ReadyClock}
      → Stalled timeout c
      → (now done total : ℕ) → lands done total c ≡ false
      → Stalled timeout (note_progress done total now c)

-- where the fields of a waiting clock stand
pub record StallBound (c : ReadyClock) : Type 0 where
  pub polled : is_some c.poll_at ≡ true
  pub within_cap : c.credited ≤ credit_cap c
  pub behind : c.anchor ≤ c.started + c.credited
  pub in_time : (c.credited ≡ credit_cap c) ⊎ (last_poll c ≤ c.anchor + c.timeout)

gap_since-last_poll :
    (o : Option ℕ) (now : ℕ)
    → is_some o ≡ true
    → gap_since o now ≡ now - (elim o as (λ _. ℕ) [ none ↦ 0 | some t ↦ t ])
gap_since-last_poll none now h = absurd (cc)
gap_since-last_poll (some t) now h = refl

can_defer-credited :
    (reason : Deferral) (c : ReadyClock) → can_defer reason c ≡ true → c.credited < credit_cap c
unfolding can_defer
can_defer-credited reason c =
    if_ind (λ b. b ≡ true → c.credited < credit_cap c) (is_issued reason && c.issued_credited)
      (λ _ (h : false ≡ true). absurd (cc))
      (λ _ (h : ltb c.credited (credit_cap c) ≡ true). ground arith)

-- A refresh that lands nothing changes what was seen, at most.
note_progress-frame :
    (done total now : ℕ) (c : ReadyClock)
    → lands done total c ≡ false
    → (s : Option ℕ) × (note_progress done total now c ≡ record c { seen = s })
unfolding note_progress
note_progress-frame done total now c h =
    if_ind (λ (d : ReadyClock). (s : Option ℕ) × (d ≡ record c { seen = s })) (ltb 0 total)
      (λ _. (seen_after done c.seen, rw h refl)) (λ _. (c.seen, refl))

credit_in_time :
    (credited anchor timeout cap gap now last : ℕ)
    → gap ≡ now - last
    → credited < cap
    → (credited ≡ cap) ⊎ (last ≤ anchor + timeout)
    → last ≤ now
    → (credited + min gap (cap - credited) ≡ cap)
      ⊎ (now ≤ min (anchor + min gap (cap - credited)) now + timeout)
credit_in_time credited anchor timeout cap gap now last g r t o = ground arith

-- A poll that leaves a waiting clock waiting keeps the bounds.
module _ (now : ℕ) (reason : Deferral) (c : ReadyClock) (b : StallBound c)
    (ordered : last_poll c ≤ now) where
  credit_deferral-bound :
      (s : Option ℕ)
      → can_defer reason (record (mark_poll now c) { seen = s }) ≡ true
      → StallBound (credit_deferral now reason (record (mark_poll now c) { seen = s }))
  unfolding credit_deferral mark_poll
  credit_deferral-bound s h =
      let gap = gap_since-last_poll c.poll_at now b.polled in
      let room = can_defer-credited reason (record (mark_poll now c) { seen = s }) h in
      record {
        polled = refl;
        within_cap = omega arith;
        behind = omega arith;
        in_time =
            credit_in_time c.credited c.anchor c.timeout (credit_cap c) _ now (last_poll c) gap room
              b.in_time ordered;
      }

  waiting_bound :
      (s : Option ℕ)
      → at_deadline now (mark_poll now c) ≡ false
      → StallBound (record (mark_poll now c) { seen = s })
  unfolding at_deadline mark_poll
  waiting_bound s h = record {
    polled = refl;
    within_cap = b.within_cap;
    behind = b.behind;
    in_time = inr (ground arith);
  }

settled_clock-bound :
    (now : ℕ) (probe : ImportProbe) (c : ReadyClock)
    → StallBound c
    → last_poll c ≤ now
    → landed probe (mark_poll now c) ≡ false
    → is_exhausted now probe (mark_poll now c) ≡ false
    → StallBound (settled_clock now probe (mark_poll now c))
unfolding landed settled_clock is_exhausted pauses
settled_clock-bound now probe c b ordered miss waits =
    let (s, noted) =
      note_progress-frame probe.imported_count probe.target_count now (mark_poll now c) miss in
    let still = rw (noted, miss) at waits in
    rw (noted, miss)
      (if_ind StallBound _
        (λ h. credit_deferral-bound now probe.deferral c b ordered s (ground arith))
        (λ h. waiting_bound now probe.deferral c b ordered s (ground arith)))

-- The first poll of a row has no gap to credit.
first_bound :
    (timeout now : ℕ) (probe : ImportProbe)
    → StallBound (settled_clock now probe (polled_clock timeout now none))
unfolding settled_clock polled_clock landed mark_poll credit_deferral lands
first_bound timeout now probe =
    let c : ReadyClock = mark_poll now (new_clock timeout now) in
    let (s, noted) = note_progress-frame probe.imported_count probe.target_count now c refl in
    rw noted (
      if_ind StallBound (pauses probe (record c { seen = s }) && true)
        (λ _. record {
          polled = refl;
          within_cap = omega arith;
          behind = omega arith;
          in_time = inr (omega arith);
        })
        (λ _. record {
          polled = refl;
          within_cap = omega arith;
          behind = omega arith;
          in_time = inr (omega arith);
        }))

-- Every waiting clock is within the bounds.
Stalled-bound : (timeout : ℕ) {c : ReadyClock} → Stalled timeout c → StallBound c
Stalled-bound timeout (first_poll now probe) = first_bound timeout now probe
Stalled-bound timeout (next_poll {c = c} s now probe ordered miss waits) =
    settled_clock-bound now probe c (Stalled-bound timeout s) ordered miss waits
Stalled-bound timeout (refreshed {c = c} s now done total miss) =
    let (seen, noted) = note_progress-frame done total now c miss in
    let b = Stalled-bound timeout s in
    rw noted (record {
      polled = b.polled;
      within_cap = b.within_cap;
      behind = b.behind;
      in_time = b.in_time;
    })

pub Stalled-exhausted :
    (timeout : ℕ) {c : ReadyClock} (now : ℕ) (probe : ImportProbe)
    → Stalled timeout c
    → c.started + 7 * c.timeout < last_poll c
    → last_poll c ≤ now
    → landed probe (mark_poll now c) ≡ false
    → is_exhausted now probe (mark_poll now c) ≡ true
unfolding is_exhausted landed pauses at_deadline mark_poll can_defer
Stalled-exhausted timeout {c} now probe stalled late ordered miss =
    let b = Stalled-bound timeout stalled in
    let (s, noted) =
      note_progress-frame probe.imported_count probe.target_count now (mark_poll now c) miss in
    let spent : c.credited ≡ credit_cap c = elim b.in_time [
      | inl h ↦ h
      | inr h ↦ absurd (omega (arith, h, late, b.behind, b.within_cap))
    ] in
    let due : c.anchor + c.timeout ≤ now = omega (arith, spent, late, b.behind, ordered) in
    rw (noted, miss) (ground (arith, spent, due))
