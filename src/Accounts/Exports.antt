-- ===== src/Accounts/Exports.antt =====
-- account.go: the export of a session. The map from requests to channels is a function: `none` where no
-- request is registered, and otherwise the channel, whose buffer holds one delivery at most.
use jg_smm.Prelude.{
  ℕ, ◌==◌, ◌≡◌, refl, ◌∙◌, ==_iff, ==_refl, Bool, true, false, if◌then◌else◌, List, [], ◌∷◌, Option,
  none, some, arith,
}
use jg_smm.Domain.Entities.{Account}
use jg_smm.Store.{
  Db, Result, ok, err, is_ok, not_found, conflict, unavailable, driver, auth_export,
  publish_control,
}
use jg_smm.Store.Accounts.{get_by_id}

abbrev pub Slot : Type 0
Slot = Option (Option (List ℕ))

abbrev pub Exports : Type 0
Exports = ℕ → Slot

abbrev pub with_slot : ℕ → Slot → Exports → Exports
with_slot r s e k = if k == r then s else e k

abbrev pub register_export : ℕ → Exports → Exports
register_export r e = with_slot r (some none) e

abbrev pub unregister_export : ℕ → Exports → Exports
unregister_export r e = with_slot r none e

-- A full buffer takes no second delivery.
abbrev pub delivered : Slot → List ℕ → Slot
delivered none s = none
delivered (some none) s = some (some s)
delivered (some (some t)) s = some (some t)

-- `DeliverExportedSession`.
unfoldable pub deliver : ℕ → List ℕ → Exports → Exports
deliver r s e = with_slot r (delivered (e r) s) e

-- The request is registered while its message goes out, and is not any more if that fails.
unfoldable pub registered_if :
    ℕ → Exports → Result (Unit {0}) × Db → Result (Unit {0}) × Db × Exports
registered_if r e (ok u, db) = (ok u, db, register_export r e)
registered_if r e (err q, db) = (err q, db, unregister_export r (register_export r e))

unfoldable pub ask_for :
    ℕ → ℕ → Exports → Account → Option ℕ → Db → Result (Unit {0}) × Db × Exports
unfolding registered_if
ask_for r i e a none db = (err conflict, db, e)
ask_for r i e a (some w) db = registered_if r e (publish_control w (auth_export i a.platform r) db)

unfoldable pub export_of : ℕ → ℕ → Exports → Result Account × Db → Result (Unit {0}) × Db × Exports
unfolding ask_for
export_of r i e (err q, db) = (err q, db, e)
export_of r i e (ok a, db) = ask_for r i e a a.worker_id db

-- The part of `ExportSession` before it waits, with the random id of the request.
unfoldable pub begin_export : Bool → ℕ → ℕ → Exports → Db → Result (Unit {0}) × Db × Exports
unfolding export_of
begin_export false r i e db = (err unavailable, db, e)
begin_export true r i e db = export_of r i e (get_by_id i db)

-- What ends the wait: a delivery, the timeout, or the context of the request.
pub data Wake : Type 0 where
  by_channel by_timeout by_context : Wake

abbrev pub session_of : List ℕ → Result (List ℕ)
session_of [] = err not_found
session_of (c ∷ s) = ok (c ∷ s)

-- A wait on an empty channel does not end by it.
abbrev pub received : Slot → Option (Result (List ℕ))
received (some (some s)) = some (session_of s)
received _ = none

unfoldable pub wake : Wake → Slot → Option (Result (List ℕ))
wake by_channel slot = received slot
wake by_timeout slot = some (err unavailable)
wake by_context slot = some (err driver)

-- The end of `ExportSession`, which takes the request out of the map.
unfoldable pub end_export : Wake → ℕ → Exports → Option (Result (List ℕ)) × Exports
unfolding wake
end_export by r e = (wake by (e r), unregister_export r e)

-- Deliveries in turn, to any requests.
unfoldable pub deliver_all : List (ℕ × List ℕ) → Exports → Exports
unfolding deliver
deliver_all [] e = e
deliver_all ((r, s) ∷ rest) e = deliver_all rest (deliver r s e)

-- The first session that is delivered to a request.
pub first_for : ℕ → List (ℕ × List ℕ) → Option (List ℕ)
first_for r [] = none
first_for r ((k, s) ∷ rest) = if r == k then some s else first_for r rest

-- What a slot is after all of some deliveries, of which this is the first.
abbrev pub settled : Slot → Option (List ℕ) → Slot
settled (some none) first = some first
settled slot first = slot

settled-delivered :
    (slot : Slot) (s : List ℕ) (later : Option (List ℕ))
    → settled (delivered slot s) later ≡ settled slot (some s)
settled-delivered none s later = refl
settled-delivered (some none) s later = refl
settled-delivered (some (some t)) s later = refl

deliver_all-settled :
    (ds : List (ℕ × List ℕ)) (e : Exports) (r : ℕ)
    → deliver_all ds e r ≡ settled (e r) (first_for r ds)
unfolding deliver_all first_for
deliver_all-settled [] e r = settled_none (e r)
  where
    settled_none : (slot : Slot) → slot ≡ settled slot none
    settled_none none = refl
    settled_none (some none) = refl
    settled_none (some (some s)) = refl
deliver_all-settled ((k, s) ∷ rest) e r =
    deliver_all-settled rest (deliver k s e) r ∙ settled_step (r == k) (λ q. (==_iff r k).0 q)
  where
    settled_step :
        (same : Bool)
        → (same ≡ true → r ≡ k)
        → settled (if same then delivered (e k) s else e r) (first_for r rest)
          ≡ settled (e r) (if same then some s else first_for r rest)
    settled_step true h = rw (h refl) (settled-delivered (e k) s (first_for k rest))
    settled_step false h = refl

with_slot_lem : (r : ℕ) (slot : Slot) (e : Exports) → with_slot r slot e r ≡ slot
with_slot_lem r slot e = rw (==_refl r) refl

-- What a wait on the channel receives when this is the first delivery to it.
abbrev pub awaited : Option (List ℕ) → Option (Result (List ℕ))
awaited none = none
awaited (some s) = some (session_of s)

received-settled : (first : Option (List ℕ)) → received (settled (some none) first) ≡ awaited first
received-settled none = refl
received-settled (some s) = refl

registered_if-slot :
    (r : ℕ) (e : Exports) (x : Result (Unit {0}) × Db)
    → is_ok (registered_if r e x).0 ≡ true
    → (registered_if r e x).2 r ≡ some none
unfolding registered_if
registered_if-slot r e (ok u, db) h = with_slot_lem r (some none) e
registered_if-slot r e (err q, db) h = ground (arith, h)

ask_for-slot :
    (r i : ℕ) (e : Exports) (a : Account) (worker : Option ℕ) (db : Db)
    → is_ok (ask_for r i e a worker db).0 ≡ true
    → (ask_for r i e a worker db).2 r ≡ some none
unfolding ask_for
ask_for-slot r i e a none db h = ground (arith, h)
ask_for-slot r i e a (some w) db h = registered_if-slot r e _ h

export_of-slot :
    (r i : ℕ) (e : Exports) (x : Result Account × Db)
    → is_ok (export_of r i e x).0 ≡ true
    → (export_of r i e x).2 r ≡ some none
unfolding export_of
export_of-slot r i e (err q, db) h = ground (arith, h)
export_of-slot r i e (ok a, db) h = ask_for-slot r i e a a.worker_id db h

begin_export-slot :
    (wired : Bool) (r i : ℕ) (e : Exports) (db : Db)
    → is_ok (begin_export wired r i e db).0 ≡ true
    → (begin_export wired r i e db).2 r ≡ some none
unfolding begin_export
begin_export-slot false r i e db h = ground (arith, h)
begin_export-slot true r i e db h = export_of-slot r i e (get_by_id i db) h

-- After an export has begun without an error, and after any deliveries to any requests, the wait on
-- the channel receives the first session that was delivered to this request, and goes on waiting if
-- there was none; and however the wait ends, no later delivery to the request is kept.
pub end_export_lem :
    (wired : Bool) (r i : ℕ) (e : Exports) (db : Db) (ds later : List (ℕ × List ℕ)) (by : Wake)
    → is_ok (begin_export wired r i e db).0 ≡ true
    → ((end_export by_channel r (deliver_all ds (begin_export wired r i e db).2)).0
        ≡ awaited (first_for r ds))
      × (deliver_all later (end_export by r (deliver_all ds (begin_export wired r i e db).2)).1 r
          ≡ none)
unfolding end_export wake
end_export_lem wired r i e db ds later by h =
    let begun = (begin_export wired r i e db).2 in
    let slot = deliver_all-settled ds begun r in
    (
      rw (slot, begin_export-slot wired r i e db h) (received-settled (first_for r ds)),
      deliver_all-settled later (unregister_export r (deliver_all ds begun)) r
          ∙ rw (with_slot_lem r none (deliver_all ds begun)) refl,
    )
