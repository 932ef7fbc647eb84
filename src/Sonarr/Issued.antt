-- ===== src/Sonarr/Issued.antt =====
-- When a poll posts an import to Sonarr.
use pearlarr.Base.{
  true, false, not, ◌&&◌, Option, none, some, List, ◌≡◌, refl, sym, ap, ◌∙◌, inl, inr, some_inj,
  is_empty, Dict, if_ind, values, distinct, sorted, nat_eq, Bool-cases, arith,
}
use pearlarr.Text.{Text}
use pearlarr.Probe.Commands.{
  CommandResource, CommandBlock, own_import, in_flight_import, disk_command, disk_command_changed,
  just_restarted, deferral, sonarr_restarted, disk_commands_changed_since,
}
use pearlarr.Imports.Maps.{FileEpisodeMap}
use pearlarr.Imports.Record.{PendingImport, concat_ids}
use pearlarr.Imports.Outcomes.{AttemptKind, ImportProbe, waiting}
use pearlarr.Episodes.Statuses.{all_done}
use pearlarr.Episodes.Routes.{map_statuses}
use pearlarr.Wait.Clock.{is_issued}
use pearlarr.Sonarr.Files.{CandidateFile, DiskLeftover}
use pearlarr.Sonarr.Payload.{CandidateScan, PollReading, ManualImportFile, Executor, Routed}
use pearlarr.Sonarr.Execute.{
  command_block, changed_block, waits, guard_commands, guard_before_post, post_files, post_routed,
  verify_or_import, imported_by_hand, import_probe, run_manual_import,
}
use pearlarr.Sonarr.Seeds.{SeedStatuses, with_counts}
use pearlarr.Sonarr.Reconcile.{
  SonarrView, Poll, poll_of, Reads, already_imported, step_past, step_read, step_in_from, scanned,
  unblocked, viewed, seeded, import_completed, is_wait, is_importing, is_pending_clean,
}

waiting_unissued : (block : CommandBlock) → is_issued (waiting block).deferral ≡ false
unfolding waiting deferral
waiting_unissued own_import = refl
waiting_unissued in_flight_import = refl
waiting_unissued disk_command = refl
waiting_unissued disk_command_changed = refl
waiting_unissued just_restarted = refl

module _ (x : Executor) (p : PendingImport) where
  -- Both command lists were read, nothing in the second blocks the import, and no disk command in it is one that
  -- the first lacks.
  Cleared : Option (List CommandResource) → Option (List CommandResource) → Type 0
  Cleared base o =
      (before : List CommandResource) × (base ≡ some before)
      × ((cs : List CommandResource) × (o ≡ some cs)
          × (command_block x p x.content_paths cs ≡ none)
          × (sonarr_restarted cs ≡ false)
          × (is_empty (disk_commands_changed_since before cs) ≡ true))

  -- A probe says that an import was issued only past clear command lists.
  Issues : Option (List CommandResource) → ImportProbe → Type 0
  Issues base probe = is_issued probe.deferral ≡ true → Cleared base x.commands

  unissued :
      (base : Option (List CommandResource)) (probe : ImportProbe)
      → is_issued probe.deferral ≡ false
      → Issues base probe
  unfolding Issues
  unissued base probe h k = absurd (ground (arith, h, k))

  changed_block-none :
      (baseline cs : List CommandResource) (o : Option CommandBlock)
      → changed_block x p baseline cs o ≡ none
      → (o ≡ none)
        × (sonarr_restarted cs ≡ false)
        × (is_empty (disk_commands_changed_since baseline cs) ≡ true)
  unfolding changed_block
  changed_block-none baseline cs (some block) h = absurd (cc)
  changed_block-none baseline cs none h = elim (Bool-cases (sonarr_restarted cs)) [
    | inl r ↦ absurd (ground (arith, h, r))
    | inr r ↦ elim (Bool-cases (is_empty (disk_commands_changed_since baseline cs))) [
      | inl e ↦ (refl, r, e)
      | inr e ↦ absurd (ground (arith, h, r, e))
    ]
  ]

  waits-unissued :
      (o : Option CommandBlock) (b : ImportProbe)
      → waits x p o ≡ some b
      → is_issued b.deferral ≡ false
  waits-unissued none b h = absurd (cc)
  waits-unissued (some block) b h =
      sym (ap (λ (r : ImportProbe). is_issued r.deferral) (some_inj h)) ∙ waiting_unissued block

  guard_commands-some :
      (baseline : List CommandResource) (o : Option (List CommandResource)) (b : ImportProbe)
      → guard_commands x p baseline o ≡ some b
      → is_issued b.deferral ≡ false
  unfolding guard_commands
  guard_commands-some baseline none b h =
      sym (ap (λ (r : ImportProbe). is_issued r.deferral) (some_inj h))
  guard_commands-some baseline (some cs) b h = waits-unissued _ b h

  waits-none : (o : Option CommandBlock) → waits x p o ≡ none → o ≡ none
  waits-none none h = refl
  waits-none (some block) h = absurd (cc)

  guard_commands-none :
      (baseline : List CommandResource) (o : Option (List CommandResource))
      → guard_commands x p baseline o ≡ none
      → Cleared (some baseline) o
  unfolding guard_commands Cleared
  guard_commands-none baseline none h = absurd (cc)
  guard_commands-none baseline (some cs) h =
      let (clear, fresh, same) =
        changed_block-none baseline cs (command_block x p x.content_paths cs) (waits-none _ h) in
      (baseline, refl, (cs, refl, clear, fresh, same))

  post_files-Issues :
      (reading : PollReading) (files : List ManualImportFile) (guard : Option ImportProbe)
      → guard_before_post x p reading ≡ guard
      → Issues (some reading.baseline) (post_files x p reading files guard)
  unfolding guard_before_post post_files Issues
  post_files-Issues reading files none h k = guard_commands-none reading.baseline x.commands h
  post_files-Issues reading files (some b) h k =
      unissued (some reading.baseline) b (guard_commands-some reading.baseline x.commands b h) k

  post_routed-Issues :
      (reading : PollReading) (routed : Routed)
      → Issues (some reading.baseline) (post_routed x p reading routed)
  unfolding post_routed
  post_routed-Issues reading routed =
      if_ind (Issues (some reading.baseline)) (is_empty routed.files)
        (λ _.
          if_ind (Issues (some reading.baseline))
            (is_empty routed.missing && is_empty routed.unrouted) (λ _. unissued _ _ refl)
            (λ _. unissued _ _ refl))
        (λ _. post_files-Issues reading routed.files (guard_before_post x p reading) refl)

  verify_or_import-Issues :
      (reading : PollReading) (by_basename : Dict Text CandidateFile)
      (authoritative : FileEpisodeMap)
      → Issues (some reading.baseline) (verify_or_import x p reading by_basename authoritative)
  unfolding verify_or_import
  verify_or_import-Issues reading by_basename authoritative =
      if_ind (Issues (some reading.baseline))
        (all_done (
          map_statuses reading.snapshot (sorted (distinct (concat_ids (values authoritative))))
            authoritative))
        (λ _. unissued _ _ refl)
        (λ _.
          if_ind (Issues (some reading.baseline)) (is_empty authoritative) (λ _. unissued _ _ refl)
            (λ _. post_routed-Issues reading _))

  import_probe-Issues :
      (reading : PollReading) (by_basename : Dict Text CandidateFile)
      (authoritative : FileEpisodeMap) (leftover : DiskLeftover)
      → Issues (some reading.baseline) (import_probe x p reading by_basename authoritative leftover)
  unfolding import_probe
  import_probe-Issues reading by_basename authoritative leftover =
      let by_hand = imported_by_hand x p reading authoritative in
      if_ind (Issues (some reading.baseline))
        (not (is_empty leftover.names) && is_empty authoritative)
        (λ _.
          if_ind (Issues (some reading.baseline)) by_hand (λ _. unissued _ _ refl)
            (λ _. unissued _ _ refl))
        (λ _.
          if_ind (Issues (some reading.baseline))
            ((verify_or_import x p reading by_basename authoritative).files_present
              && not (is_empty leftover.hand_import_files))
            (λ _.
              if_ind (Issues (some reading.baseline)) by_hand (λ _. unissued _ _ refl)
                (λ _. unissued _ _ refl))
            (λ _. verify_or_import-Issues reading by_basename authoritative))

  run_manual_import-Issues :
      (nfc : Text → Text) (reading : PollReading)
      → Issues (some reading.baseline) (run_manual_import x p nfc reading)
  unfolding run_manual_import Issues
  run_manual_import-Issues nfc reading = import_probe-Issues reading _ _ _

  with_counts-Issues :
      (base : Option (List CommandResource)) (seed : SeedStatuses) (probe : ImportProbe)
      → Issues base probe
      → Issues base (with_counts seed probe)
  unfolding with_counts Issues
  with_counts-Issues base seed probe h = h

module _ (nfc : Text → Text) (x : Executor) (reads : Reads) (p : PendingImport)
    (attempt : AttemptKind) where
  abbrev q : Poll
  q = poll_of nfc p attempt

  counted_wait-Issues :
      (base : Option (List CommandResource)) (seed : SeedStatuses) (probe : ImportProbe)
      → is_issued probe.deferral ≡ false
      → Issues x p base (with_counts seed probe)
  counted_wait-Issues base seed probe h =
      with_counts-Issues x p base seed probe (unissued x p base probe h)

  step_past-Issues :
      (scan : CandidateScan) (baseline : List CommandResource) (fresh : SeedStatuses)
      (o : Option CommandBlock)
      → Issues x p (some baseline) (step_past nfc x reads q scan baseline fresh o)
  unfolding step_past poll_of
  step_past-Issues scan baseline fresh (some block) =
      counted_wait-Issues _ fresh _ (waiting_unissued block)
  step_past-Issues scan baseline fresh none =
      with_counts-Issues x p _ fresh _ (run_manual_import-Issues x p nfc _)

  step_read-Issues :
      (scan : CandidateScan) (seed : SeedStatuses) (baseline : List CommandResource)
      (o : Option SeedStatuses)
      → Issues x p (some baseline) (step_read nfc x reads q scan seed baseline o)
  unfolding step_read
  step_read-Issues scan seed baseline none = counted_wait-Issues _ seed _ refl
  step_read-Issues scan seed baseline (some fresh) =
      if_ind (Issues x p (some baseline)) (already_imported nfc x reads q fresh)
        (λ _. counted_wait-Issues _ fresh _ refl) (λ _. step_past-Issues scan baseline fresh _)

  step_in_from-Issues :
      (scan : CandidateScan) (seed : SeedStatuses) (o : Option (List CommandResource))
      → Issues x p o (step_in_from nfc x reads q scan seed o)
  unfolding step_in_from
  step_in_from-Issues scan seed none = counted_wait-Issues _ seed _ refl
  step_in_from-Issues scan seed (some baseline) = step_read-Issues scan seed baseline _

  scanned-Issues :
      (seed : SeedStatuses) (o : Option CandidateScan)
      → Issues x p reads.baseline (scanned nfc x reads q seed o)
  unfolding scanned
  scanned-Issues seed none = counted_wait-Issues _ seed _ refl
  scanned-Issues seed (some scan) = step_in_from-Issues scan seed _

  unblocked-Issues :
      (seed : SeedStatuses) (view : SonarrView) (o : Option CommandBlock)
      → Issues x p reads.baseline (unblocked nfc x reads q seed view o)
  unfolding unblocked
  unblocked-Issues seed view (some block) = counted_wait-Issues _ seed _ (waiting_unissued block)
  unblocked-Issues seed view none =
      if_ind (Issues x p reads.baseline)
        (is_pending_clean view.verdict && not q.at_deadline && reads.handles_completed)
        (λ _. counted_wait-Issues _ seed _ refl) (λ _. scanned-Issues seed _)

  viewed-Issues :
      (seed : SeedStatuses) (o : Option SonarrView)
      → Issues x p reads.baseline (viewed nfc x reads q seed o)
  unfolding viewed
  viewed-Issues seed none = counted_wait-Issues _ seed _ refl
  viewed-Issues seed (some view) =
      if_ind (Issues x p reads.baseline) (is_wait view.verdict)
        (λ _. counted_wait-Issues _ seed _ refl)
        (λ _.
          if_ind (Issues x p reads.baseline) (is_importing view.verdict)
            (λ _. counted_wait-Issues _ seed _ refl) (λ _. unblocked-Issues seed view _))

  seeded-Issues : (o : Option SeedStatuses) → Issues x p reads.baseline (seeded nfc x reads q o)
  unfolding seeded
  seeded-Issues none = viewed-Issues _ _
  seeded-Issues (some fresh) =
      if_ind (Issues x p reads.baseline) (already_imported nfc x reads q fresh)
        (λ _. counted_wait-Issues _ fresh _ refl) (λ _. viewed-Issues fresh _)

-- A poll that reports an import as issued read the command list behind its scan and again right before its POST.
-- In the second no command blocks the record's import, it does not say that Sonarr restarted, and it has no disk
-- command that is new or in another state than in the first.
pub import_completed-issued :
    (nfc : Text → Text) (x : Executor) (reads : Reads) (p : PendingImport) (attempt : AttemptKind)
    → is_issued (import_completed nfc x reads p attempt).deferral ≡ true
    → (before : List CommandResource) × (reads.baseline ≡ some before)
      × ((cs : List CommandResource) × (x.commands ≡ some cs)
          × (command_block x p x.content_paths cs ≡ none)
          × (sonarr_restarted cs ≡ false)
          × (is_empty (disk_commands_changed_since before cs) ≡ true))
unfolding import_completed Issues Cleared
import_completed-issued nfc x reads p attempt = seeded-Issues nfc x reads p attempt _
