-- ===== src/Probe/Queue/Priority.antt =====
-- The order of the verdicts of `classify_queue`.
use pearlarr.Base.{
  Bool, false, not, ◌&&◌, ◌||◌, ◌≡◌, refl, ◌∙◌, List, [], ◌∷◌, if◌then◌else◌, any, contains,
  is_empty, nat_eq, list_eq, fold, arith,
}
use pearlarr.Text.{text}
use pearlarr.Probe.Queue.{
  QueueRecord, QueueVerdict, wait, importing, pending_clean, step_in, not_in_queue, folded,
  QueueFlags, queue_step, verdict_of_flags, classify_queue,
}

-- What one record is, each test by itself.
abbrev pub is_importing : QueueRecord → Bool
is_importing r = contains (folded r.state) (text "importing" ∷ [])

abbrev pub is_moving : QueueRecord → Bool
is_moving r =
    contains (folded r.state)
      (text "importing" ∷ text "downloading" ∷ text "queued" ∷ text "delay" ∷ text "paused" ∷ [])

abbrev pub is_pending : QueueRecord → Bool
is_pending r = contains (folded r.state) (text "importpending" ∷ [])

abbrev pub is_flagged_status : QueueRecord → Bool
is_flagged_status r = contains (folded r.status) (text "warning" ∷ text "error" ∷ [])

abbrev pub is_stuck : QueueRecord → Bool
is_stuck r =
    contains (folded r.state)
      (text "importblocked" ∷ text "failed" ∷ text "failedpending" ∷ text "ignored" ∷ [])
    || (is_pending r && is_flagged_status r)

abbrev pub is_clean : QueueRecord → Bool
is_clean r = is_pending r && not (is_flagged_status r)

abbrev ranked : Bool → Bool → Bool → Bool → QueueVerdict
ranked i m t c =
    if i
    then importing
    else if m
    then wait
    else if t
    then step_in
    else if c
    then pending_clean
    else step_in

ranked-step :
    (f : QueueFlags) (r : QueueRecord) (i m t c : Bool)
    → ranked
        ((queue_step f r).importing_seen || i)
        ((queue_step f r).in_motion || m)
        ((queue_step f r).troubled || t)
        ((queue_step f r).clean_pending || c)
      ≡ ranked
          (f.importing_seen || (is_importing r || i))
          (f.in_motion || (is_moving r || m))
          (f.troubled || (is_stuck r || t))
          (f.clean_pending || (is_clean r || c))
unfolding queue_step
ranked-step f r i m t c = ground arith

verdict-fold :
    (f : QueueFlags) (rs : List QueueRecord)
    → verdict_of_flags (fold queue_step f rs)
      ≡ ranked
          (f.importing_seen || any is_importing rs)
          (f.in_motion || any is_moving rs)
          (f.troubled || any is_stuck rs)
          (f.clean_pending || any is_clean rs)
verdict-fold f [] = ground arith
verdict-fold f (r ∷ rs) =
    verdict-fold (queue_step f r) rs
    ∙ ranked-step f r (any is_importing rs) (any is_moving rs) (any is_stuck rs) (any is_clean rs)

-- The verdict of a queue is that of its most urgent record, in whatever order the records come: an
-- importing one, then one in motion, then one that Sonarr will not progress, then a clean pending
-- one; records of none of these kinds are stepped in for, and no record at all is not in the queue.
pub classify_queue-ranked :
    (rs : List QueueRecord)
    → classify_queue rs ≡ (
        if is_empty rs
        then not_in_queue
        else if any is_importing rs
        then importing
        else if any is_moving rs
        then wait
        else if any is_stuck rs
        then step_in
        else if any is_clean rs
        then pending_clean
        else step_in)
unfolding classify_queue
classify_queue-ranked [] = refl
classify_queue-ranked (r ∷ rs) =
    verdict-fold
      (record {
        importing_seen = false;
        in_motion = false;
        troubled = false;
        clean_pending = false;
      })
      (r ∷ rs)
