-- ===== src/Probe/Queue.antt =====
-- `classify_queue`, with the fields of `QueueRecord` that it reads.
pub mod Priority
use pearlarr.Base.{
  Bool, true, false, not, ◌&&◌, ◌||◌, ◌≡◌, refl, ap, sym, ◌∙◌, Option, none, some, List, [], ◌∷◌,
  if◌then◌else◌, any, contains, is_empty, nat_eq, list_eq, fold, arith,
}
use pearlarr.Text.{Text, text, casefold}

pub record QueueRecord : Type 0 where
  pub state : Option Text
  pub status : Option Text

pub data QueueVerdict : Type 0 where
  wait importing pending_clean step_in not_in_queue : QueueVerdict

-- `(x or "").casefold()`
abbrev pub folded : Option Text → Text
folded none = []
folded (some s) = casefold s

abbrev pub queue_importing_states : List Text
queue_importing_states = text "importing" ∷ []

abbrev pub queue_in_motion_states : List Text
queue_in_motion_states =
    text "importing" ∷ text "downloading" ∷ text "queued" ∷ text "delay" ∷ text "paused" ∷ []

abbrev pub queue_step_in_states : List Text
queue_step_in_states =
    text "importblocked" ∷ text "failed" ∷ text "failedpending" ∷ text "ignored" ∷ []

abbrev pub queue_flagged_statuses : List Text
queue_flagged_statuses = text "warning" ∷ text "error" ∷ []

abbrev pub import_pending : List Text
import_pending = text "importpending" ∷ []

-- the four flags of the loop
pub record QueueFlags : Type 0 where
  pub importing_seen : Bool
  pub in_motion : Bool
  pub troubled : Bool
  pub clean_pending : Bool

-- one record
unfoldable pub queue_step : QueueFlags → QueueRecord → QueueFlags
queue_step f r =
    let state = folded r.state in
    if contains state queue_importing_states
    then record f { importing_seen = true }
    else if contains state queue_in_motion_states
    then record f { in_motion = true }
    else if contains state queue_step_in_states
    then record f { troubled = true }
    else if contains state import_pending
    then (if contains (folded r.status) queue_flagged_statuses
        then record f { troubled = true }
        else record f { clean_pending = true })
    else f

abbrev pub verdict_of_flags : QueueFlags → QueueVerdict
verdict_of_flags f =
    if f.importing_seen
    then importing
    else if f.in_motion
    then wait
    else if f.troubled
    then step_in
    else if f.clean_pending
    then pending_clean
    else step_in

unfoldable pub classify_queue : List QueueRecord → QueueVerdict
classify_queue [] = not_in_queue
classify_queue (r ∷ rs) = verdict_of_flags (
    fold queue_step
      (record {
        importing_seen = false;
        in_motion = false;
        troubled = false;
        clean_pending = false;
      })
      (r ∷ rs))
