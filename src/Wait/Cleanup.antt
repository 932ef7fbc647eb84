-- ===== src/Wait/Cleanup.antt =====
-- `PostImportCleanup`: the effects after a verified import, and what becomes of the record.
use pearlarr.Base.{
  ℕ, ◌+◌, Bool, true, false, not, ◌&&◌, ◌||◌, Option, none, some, List, [], ◌∷◌, if◌then◌else◌,
  is_some, is_empty,
}
use pearlarr.Text.{Text}
use pearlarr.Imports.Record.{PendingImport, folded_record}
use pearlarr.Imports.Outcomes.{EffectStatus, skipped, retry, failed}
use pearlarr.Wait.Records.{Store, save, drop_record}

-- What the effects read and what qBittorrent and Sonarr answer: `attempt_move` and `close_tracked`
-- give the status of each attempt, counted from 0.
pub record Effects : Type 0 where
  pub has_qbit : Bool
  pub has_strategy : Bool
  pub post_import : Option Text
  pub move_untracks : Text → Bool
  pub remove_from_queue : Bool
  pub other_arr_holds : Text → Bool
  pub attempt_move : PendingImport → ℕ → EffectStatus
  pub close_tracked : PendingImport → ℕ → EffectStatus

-- the pauses between the attempts
abbrev pub effect_backoff_s : List ℕ
effect_backoff_s = 1 ∷ 3 ∷ []

unfoldable pub is_retry : EffectStatus → Bool
is_retry retry = true
is_retry _ = false

unfoldable pub is_failed : EffectStatus → Bool
is_failed failed = true
is_failed _ = false

-- `_retry_effect`, from the given attempt on
unfoldable pub retry_effect : (ℕ → EffectStatus) → ℕ → List ℕ → EffectStatus
retry_effect attempt n [] = if is_retry (attempt n) then failed else attempt n
retry_effect attempt n (pause ∷ pauses) =
    let later = retry_effect attempt (n + 1) pauses in
    if is_retry (attempt n) then later else attempt n

-- `moved_to and ...`
abbrev pub untracks : Effects → Option Text → Bool
untracks e none = false
untracks e (some category) = not (is_empty category) && e.move_untracks category

module _ (e : Effects) where
  -- `_close_tracked_download`
  unfoldable pub close_tracked_download : PendingImport → Option Text → EffectStatus
  close_tracked_download p moved_to =
      if not e.remove_from_queue || not e.has_strategy
      then skipped
      else if untracks e moved_to
      then skipped
      else retry_effect (e.close_tracked p) 0 effect_backoff_s

  -- `_apply_post_import_category`
  unfoldable pub apply_post_import_category : PendingImport → Option Text → EffectStatus
  apply_post_import_category p category =
      if not e.has_qbit || not (is_some category)
      then skipped
      else if e.other_arr_holds p.infohash
      then skipped
      else retry_effect (e.attempt_move p) 0 effect_backoff_s

  -- the category of the move, none without a client
  abbrev pub move_category : Option Text
  move_category = if e.has_qbit then e.post_import else none

  -- whether an effect failed for good
  unfoldable pub cleanup_fails : PendingImport → Bool
  cleanup_fails p =
      is_failed (apply_post_import_category p move_category)
      || is_failed (close_tracked_download p move_category)

module _ (nfc : Text → Text) (e : Effects) where
  -- `_keep_for_cleanup`
  unfoldable pub keep_for_cleanup : PendingImport → Store → Store
  keep_for_cleanup p s =
      let saved = save (folded_record nfc (record p { awaiting_cleanup = true })) s in
      record saved { kept_keys = p.infohash ∷ saved.kept_keys }

  -- `retire`: whether the record went is `not (cleanup_fails e p)`
  unfoldable pub retire : PendingImport → Store → Store
  retire p s = if cleanup_fails e p then keep_for_cleanup p s else drop_record p.infohash s
