-- ===== src/Web/Grants/Replay.antt =====
-- grants.rs, `admit_locked`: a request that is sent again.
use immich_rs.Common.Map
use immich_rs.Web.Jobs.Types.{AdmissionError}
use immich_rs.Common.{
  text_eq_refl, leb, ◌||◌, true, not, text_eq, if◌then◌else◌, none, err, arith, ◌<◌, some, ok, ◌≡◌,
  Text, Result, Bool, ℕ,
}
use immich_rs.Web.Grants.{
  GrantError, pending, existing, consumed, admitted, GrantState, GrantStatus, GrantEntry,
  ApplyCapability, admit_locked, use_entry, settle,
}

module _ (history_retained_rows : ℕ) (is_current : ApplyCapability → Bool)
    (job : ApplyCapability → Result AdmissionError Text) where
  settled :
      (owner receipt id : Text) (entry : GrantEntry) (answer : Result AdmissionError Text)
      (s s' : GrantState)
      → settle history_retained_rows is_current job owner receipt entry answer s
        ≡ (ok (admitted id), s')
      → s'.entries ≡ Map.insert owner (record entry { status = consumed id }) s.entries
  unfolding settle
  settled owner receipt id entry (ok other) s s' h = ground arith
  settled owner receipt id entry (err e) s s' h = absurd (ground arith)

  used :
      (owner receipt id : Text) (entry : GrantEntry) (status : GrantStatus) (s s' : GrantState)
      → use_entry history_retained_rows is_current job owner receipt entry status s
        ≡ (ok (admitted id), s')
      → s'.entries ≡ Map.insert owner (record entry { status = consumed id }) s.entries
  unfolding use_entry
  used owner receipt id entry (consumed other) s s' h = absurd (ground arith)
  used owner receipt id entry (pending none) s s' h = absurd (ground arith)
  used owner receipt id entry (pending (some capability)) s s' h =
      ground (arith, settled owner receipt id entry (job capability) s s')

  replay :
      (owner receipt key id : Text) (later : ℕ) (entry : GrantEntry) (s : GrantState)
      → Map.get owner s.entries ≡ some (record entry { status = consumed id })
      → text_eq entry.receipt receipt ≡ true
      → text_eq entry.idempotency_key key ≡ true
      → later < entry.deadline
      → admit_locked history_retained_rows is_current job owner receipt key later s
        ≡ (ok (existing id), s)
  unfolding admit_locked use_entry
  replay owner receipt key id later entry s held r k early =
      rw (held, admit_locked) (ground (arith, r, k, early))

  -- When an admission has started a job, the same owner, receipt and key are answered with that job
  -- until the grant's deadline, and nothing changes.
  pub admit_locked-admit_locked :
      (owner receipt key id : Text) (now later : ℕ) (entry : GrantEntry) (s s' : GrantState)
      → Map.get owner s.entries ≡ some entry
      → later < entry.deadline
      → admit_locked history_retained_rows is_current job owner receipt key now s
        ≡ (ok (admitted id), s')
      → admit_locked history_retained_rows is_current job owner receipt key later s'
        ≡ (ok (existing id), s')
  unfolding admit_locked
  admit_locked-admit_locked owner receipt key id now later entry s s' found early h =
      let body : (if not (text_eq entry.receipt receipt) || not (text_eq entry.idempotency_key key)
            then (err GrantError.invalid, s)
            else if leb entry.deadline now
            then (err GrantError.expired, record s { entries = Map.remove owner s.entries })
            else use_entry history_retained_rows is_current job owner receipt entry entry.status s)
          ≡ (ok (admitted id), s') =
        rw (found, admit_locked) at h in
      let same_receipt : text_eq entry.receipt receipt ≡ true = ground (arith, body) in
      let same_key : text_eq entry.idempotency_key key ≡ true = ground (arith, body) in
      let kept : s'.entries ≡ Map.insert owner (record entry { status = consumed id }) s.entries =
        ground (arith, body, used owner receipt id entry entry.status s s') in
      let held : Map.get owner s'.entries ≡ some (record entry { status = consumed id }) = rw kept (
        ground (
          arith,
          text_eq_refl owner,
          Map.get-insert owner owner (record entry { status = consumed id }) s.entries,
        )) in
      replay owner receipt key id later entry s' held same_receipt same_key early
