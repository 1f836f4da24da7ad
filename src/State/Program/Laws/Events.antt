-- ===== src/State/Program/Laws/Events.antt =====
-- The events of a program account as a log: `emit_event` appends to it.
use chainring_contracts.Base.{
  ℕ, ◌+◌, ◌*◌, ◌^◌, ◌≤◌, ◌<◌, ◌≡◌, ◌∙◌, ◌⊎◌, refl, false, [], length, ◌==◌, inl, inr, append-nil,
  arith,
}
use chainring_contracts.Base.Bytes.{
  Bytes, overwrite, to_le_bytes, length-to_le_bytes, from_le_bytes-to_le_bytes,
}
use chainring_contracts.Base.Outcome.{ok, err, custom, ◌>>=◌, unwrap}
use chainring_contracts.Constants.{
  max_events, event_size, events_offset, events_size_offset, error_value_too_large,
}
use chainring_contracts.Types.{Event}
use chainring_contracts.Codec.Io.{Written}
use chainring_contracts.Codec.Account.Read.{decode_event}
use chainring_contracts.Codec.Account.Write.{encode_event}
use chainring_contracts.Codec.Account.Event.{IsEvent, encode_event_fits}
use chainring_contracts.State.Raw.{slice, write_at}
use chainring_contracts.State.Raw.Laws.{
  write_at-eq-ok, length-write_at, slice-write_at_self, slice-write_at_apart,
}
use chainring_contracts.State.Program.{get_events_count, emit_event, event_offset}

-- `bs'` is `bs` with an event more behind the `n` that it holds: the count has grown by one, the event
-- is decoded from slot `n`, and the slots in front of it are the same.
pub record Appended (event : Event) (n : ℕ) (bs bs' : Bytes) : Type 0 where
  pub size : length bs' ≡ length bs
  pub count : get_events_count bs' ≡ ok (n + 1)
  pub slot :
      (b : Bytes) × (slice (event_offset n) event_size bs' ≡ ok b)
      × (decode_event b ≡ ok (event, []))
  pub earlier : slice events_offset (n * event_size) bs' ≡ slice events_offset (n * event_size) bs

module _ (event : Event) (bs : Bytes) (n : ℕ) (counted : get_events_count bs ≡ ok n) where
  emit_event-full : n ≡ max_events → emit_event event bs ≡ err (custom error_value_too_large)
  unfolding emit_event
  emit_event-full e = rw (counted, ◌>>=◌, e) refl

  emit_event_run :
      (w : Written) (mid bs' : Bytes)
      → (n == max_events) ≡ false
      → encode_event event ≡ ok w
      → write_at (event_offset n) w.bytes bs ≡ ok mid
      → write_at events_size_offset (to_le_bytes 2 (n + 1)) mid ≡ ok bs'
      → emit_event event bs ≡ ok bs'
  unfolding emit_event
  emit_event_run w mid bs' room encoded stored grown =
      rw (counted, ◌>>=◌, room, encoded, unwrap, stored, ◌>>=◌, grown) refl

  emit_event-appends :
      IsEvent event
      → events_offset + event_size * max_events ≤ length bs
      → n < max_events
      → (bs' : Bytes) × (emit_event event bs ≡ ok bs') × Appended event n bs bs'
  unfolding get_events_count
  emit_event-appends valid room h =
      let (w, encoded, size, decoded) = encode_event_fits event [] valid in
      let off = event_offset n in
      let mid = overwrite off w.bytes bs in
      let stored : write_at off w.bytes bs ≡ ok mid =
        write_at-eq-ok off w.bytes bs (rw size (omega (arith, room, h))) in
      let count = to_le_bytes 2 (n + 1) in
      let two : length count ≡ 2 = length-to_le_bytes 2 (n + 1) in
      let same_length = length-write_at off w.bytes bs stored in
      let bs' = overwrite events_size_offset count mid in
      let fits : events_size_offset + length count ≤ length mid =
        omega (arith, two, same_length, room) in
      let grown : write_at events_size_offset count mid ≡ ok bs' =
        write_at-eq-ok events_size_offset count mid fits in
      let apart = slice-write_at_apart events_size_offset count mid grown in
      let full : (n == max_events) ≡ false = ground arith in
      let small : n + 1 < 256 ^ 2 = omega (arith, h) in
      (
        bs',
        emit_event_run w mid bs' full encoded stored grown,
        record {
          size = length-write_at events_size_offset count mid grown ∙ same_length;
          count =
              rw
                (
                  slice-write_at_self events_size_offset count mid grown 2 two,
                  ◌>>=◌,
                  from_le_bytes-to_le_bytes 2 (n + 1) small,
                )
                refl;
          slot = (
            w.bytes,
            apart off event_size (inr (omega (arith, two)))
                ∙ slice-write_at_self off w.bytes bs stored event_size size,
            rw append-nil at decoded,
          );
          earlier =
              apart events_offset (n * event_size) (inr (omega (arith, two)))
              ∙ slice-write_at_apart off w.bytes bs stored events_offset (n * event_size)
                  (inl (omega arith));
        },
      )

  -- In an account with room for `MAX_EVENTS` events that holds `n`, a valid event is refused with
  -- `ERROR_VALUE_TOO_LARGE` when `n` is `MAX_EVENTS`; below that it is appended.
  pub emit_event_branches :
      IsEvent event
      → events_offset + event_size * max_events ≤ length bs
      → n ≤ max_events
      → ((n ≡ max_events) × (emit_event event bs ≡ err (custom error_value_too_large)))
        ⊎ ((n < max_events)
            × (bs' : Bytes) × (emit_event event bs ≡ ok bs')
            × Appended event n bs bs')
  emit_event_branches valid room h =
      let order : (n ≡ max_events) ⊎ (n < max_events) = grind arith in
      elim order [
        | inl full ↦ inl (full, emit_event-full full)
        | inr free ↦
            let (bs', done, appended) = emit_event-appends valid room free in
            inr (free, bs', done, appended)
      ]
