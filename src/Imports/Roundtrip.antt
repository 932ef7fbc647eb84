-- ===== src/Imports/Roundtrip.antt =====
-- The persisted form of a record, written and read.
use pearlarr.Base.{
  ℕ, Option, some, List, [], ◌∷◌, ◌≡◌, refl, sym, ap, ◌∙◌, ◌==◌, nat_eq, list_eq, map, Memᴰ, Dict,
  if◌then◌else◌, Bool-cases, inl, inr, get, get_else, put, get-put, get-map_values,
}
use mathlib.Core.Option
use pearlarr.Text.{Text}
use pearlarr.Planner.Types.{GuardFacts, no_guards}
use pearlarr.Imports.Record.{EntryClaim, PendingImport, folded_record}
use pearlarr.Imports.Stored.{
  RawRecord, names_to_json, names_from_json, claim_to_json, claim_from_json, to_json, from_json,
  hydrate_pending, is_awaiting_cleanup, added_at_of,
}

-- A claim is read as it was written, but for its guards, which are the row of its entry.
claim_from_json-claim_to_json :
    (guards : Dict ℕ GuardFacts) (c : EntryClaim)
    → claim_from_json guards (claim_to_json c)
      ≡ record c { guards = get_else c.al_id no_guards guards }
unfolding claim_from_json claim_to_json names_from_json names_to_json
claim_from_json-claim_to_json guards c = refl

claims_roundtrip :
    (guards : Dict ℕ GuardFacts) (cs : List EntryClaim)
    → ((c : EntryClaim) → Memᴰ c cs → get_else c.al_id no_guards guards ≡ c.guards)
    → map (claim_from_json guards) (map claim_to_json cs) ≡ cs
claims_roundtrip guards [] h = refl
claims_roundtrip guards (c ∷ cs) h =
    let ih = claims_roundtrip guards cs (λ d m. h d (Memᴰ.tail m)) in
    let here : claim_from_json guards (claim_to_json c) ≡ c =
      claim_from_json-claim_to_json guards c
      ∙ ap (λ (g : GuardFacts). record c { guards = g }) (h c (Memᴰ.head refl)) in
    ap (λ x. x ∷ map (claim_from_json guards) (map claim_to_json cs)) here ∙ ap (λ xs. c ∷ xs) ih

-- A record is read back as its fold, when the guard rows are those of its claims.
pub from_json-to_json :
    (nfc : Text → Text) (guards : Dict ℕ GuardFacts) (p : PendingImport)
    → ((c : EntryClaim) → Memᴰ c p.claims → get_else c.al_id no_guards guards ≡ c.guards)
    → from_json nfc guards (to_json p) ≡ folded_record nfc p
unfolding from_json to_json is_awaiting_cleanup added_at_of
from_json-to_json nfc guards p h =
    ap (λ cs. folded_record nfc (record p { claims = cs })) (claims_roundtrip guards p.claims h)

-- A record that was put is read back as it was, when it is folded, as every record of the program is, and the
-- guard rows are those of its claims; every other row is read as before.
pub hydrate_pending-put :
    (nfc : Text → Text) (guards : Dict ℕ GuardFacts) (rows : Dict Text RawRecord)
    (p : PendingImport) (k : Text)
    → folded_record nfc p ≡ p
    → ((c : EntryClaim) → Memᴰ c p.claims → get_else c.al_id no_guards guards ≡ c.guards)
    → get k (hydrate_pending nfc (put p.infohash (to_json p) rows) guards)
      ≡ (if k == p.infohash then some p else get k (hydrate_pending nfc rows guards))
unfolding hydrate_pending
hydrate_pending-put nfc guards rows p k folded h =
    let written = put p.infohash (to_json p) rows in
    let reads : Option RawRecord → Option PendingImport = Option.map (from_json nfc guards) in
    let at_k = get-put k p.infohash (to_json p) rows in
    let read_back = from_json-to_json nfc guards p h ∙ folded in
    get-map_values k (from_json nfc guards) written ∙ (elim (Bool-cases (k == p.infohash)) [
      | inl same ↦
          let here : get k written ≡ some (to_json p) = at_k ∙ rw same refl in
          rw same (ap reads here ∙ ap (λ r. some r) read_back)
      | inr other ↦
          let there : get k written ≡ get k rows = at_k ∙ rw other refl in
          rw other (ap reads there ∙ sym (get-map_values k (from_json nfc guards) rows))
    ])
