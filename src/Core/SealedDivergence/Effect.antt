-- ===== src/Core/SealedDivergence/Effect.antt =====
-- Each operation on sealed batches throws before it writes, or hands one event to the store.
use deliberum.Prelude.{
  ℕ, ◌+◌, String, ◌≡◌, refl, inl, inr, true, false, some, ◌==◌, Bool-cases, Option-cases,
}
use deliberum.Errors.{
  Error, Result, ok, err, Result-cases, zod_error, invalid_sealed_batch_input,
  missing_session_dependency, unauthorized_sealed_contribution, duplicate_sealed_contribution,
}
use deliberum.Protocol.Common.{Json}
use deliberum.Protocol.Core.{SealedBatch, revealed}
use deliberum.Protocol.Events.{AppendEventInput, sealed}
use deliberum.Protocol.Host.{Host}
use deliberum.Storage.Memory.{AppendEventResult, same_visibility}
use deliberum.Core.World.{World, append, assert_options, assert_options-cases}
use deliberum.Core.SealedDivergence.{
  OpenSealedBatchInput, SubmitSealedContributionInput, CloseSealedBatchInput, BatchState,
  parse_sealed_batch, get_open_batch_state, is_authorized, no_duplicate_contribution,
  assert_reveal_policy_can_close, batch_to_open, opened_input, open_sealed_batch,
  contribution_input, submit_sealed_contribution, reveal_input, close_sealed_batch,
}

-- `P` says of the event that is handed to the store when that is done.
pub data Effect (h : Host) (w : World) (P : AppendEventInput → Type 0)
    (out : Result AppendEventResult × World) : Type 0 where
  threw :
      (e : Error) (i c : ℕ)
      → out ≡ (err e, record w { id_calls = i; clock_calls = c })
      → Effect h w P out
  wrote :
      (x : AppendEventInput) (i c : ℕ)
      → P x
      → out ≡ append h x (record w { id_calls = i; clock_calls = c })
      → Effect h w P out

-- What holds when a contribution reaches the store.
pub record Submits (h : Host) (input : SubmitSealedContributionInput) (w : World)
    (x : AppendEventInput) : Type 0 where
  pub state : BatchState
  pub event_id : String
  pub created_at : String
  pub payload : Json
  pub open_batch : get_open_batch_state h w.store input.session_id input.batch_id ≡ ok state
  pub participant : input.author_id == "system" ≡ false
  pub authorized : is_authorized state.opened_batch input.author_id ≡ true
  pub fresh :
      no_duplicate_contribution state.contribution_events input.author_id input.idempotency_key
      ≡ true
  pub written : x ≡ contribution_input h input state event_id created_at payload

module _ (h : Host) (input : SubmitSealedContributionInput) (w : World) where
  -- The part of the operation that follows the read of the batch's state.
  submit_with :
      (state : BatchState)
      → assert_options h w ≡ (ok tt, w)
      → same_visibility input.visibility sealed ≡ true
      → input.author_id == "system" ≡ false
      → get_open_batch_state h w.store input.session_id input.batch_id ≡ ok state
      → Effect h w (Submits h input w) (submit_sealed_contribution h input w)
  unfolding submit_sealed_contribution
  submit_with state e1 e3 e4 e5 =
      elim (Bool-cases (is_authorized state.opened_batch input.author_id)) [
        | inr e ↦
            threw (unauthorized_sealed_contribution input.author_id) w.id_calls w.clock_calls
              (rw (e1, e3, e4, e5, e))
        | inl e6 ↦
            elim (Bool-cases (
              no_duplicate_contribution state.contribution_events input.author_id
                input.idempotency_key)) [
                  | inr e ↦
                      threw (duplicate_sealed_contribution input.author_id) w.id_calls w.clock_calls
                        (rw (e1, e3, e4, e5, e6, e))
                  | inl e7 ↦ elim (Option-cases input.payload) [
                    | inl e ↦
                        threw zod_error w.id_calls w.clock_calls (rw (e1, e3, e4, e5, e6, e7, e))
                    | inr v ↦
                        wrote
                          (contribution_input h input state (h.id_generator w.id_calls)
                            (h.clock w.clock_calls) v.0)
                          (w.id_calls + 1) (w.clock_calls + 1)
                          (record {
                            state = state;
                            event_id = h.id_generator w.id_calls;
                            created_at = h.clock w.clock_calls;
                            payload = v.0;
                            open_batch = e5;
                            participant = e4;
                            authorized = e6;
                            fresh = e7;
                            written = refl;
                          })
                          (rw (e1, e3, e4, e5, e6, e7, v.1))
                  ]
                ]
      ]

  pub submit-Effect : Effect h w (Submits h input w) (submit_sealed_contribution h input w)
  unfolding submit_sealed_contribution
  submit-Effect = elim (assert_options-cases h w) [
    | inr e ↦ threw missing_session_dependency w.id_calls w.clock_calls (rw e)
    | inl e1 ↦ elim (Bool-cases (same_visibility input.visibility sealed)) [
      | inr e ↦ threw invalid_sealed_batch_input w.id_calls w.clock_calls (rw (e1, e))
      | inl e3 ↦ elim (Bool-cases (input.author_id == "system")) [
        | inl e ↦ threw invalid_sealed_batch_input w.id_calls w.clock_calls (rw (e1, e3, e))
        | inr e4 ↦
            elim (Result-cases (get_open_batch_state h w.store input.session_id input.batch_id)) [
              | inr e ↦ threw e.0 w.id_calls w.clock_calls (rw (e1, e3, e4, e.1))
              | inl e5 ↦ submit_with e5.0 e1 e3 e4 e5.1
            ]
      ]
    ]
  ]

-- What holds when a reveal reaches the store.
pub record Closes (h : Host) (input : CloseSealedBatchInput) (w : World) (x : AppendEventInput)
    : Type 0 where
  pub state : BatchState
  pub event_id : String
  pub batch : SealedBatch
  pub open_batch : get_open_batch_state h w.store input.session_id input.batch_id ≡ ok state
  pub may_close :
      assert_reveal_policy_can_close h state.opened_batch state.contribution_events
        (h.clock w.clock_calls)
      ≡ ok tt
  pub written : x ≡ reveal_input h input state event_id (h.clock w.clock_calls) batch

module _ (h : Host) (input : CloseSealedBatchInput) (w : World) where
  close_with :
      (state : BatchState)
      → assert_options h w ≡ (ok tt, w)
      → get_open_batch_state h w.store input.session_id input.batch_id ≡ ok state
      → Effect h w (Closes h input w) (close_sealed_batch h input w)
  unfolding close_sealed_batch
  close_with state e1 e2 =
      elim (Result-cases (
        assert_reveal_policy_can_close h state.opened_batch state.contribution_events
          (h.clock w.clock_calls))) [
            | inr e ↦ threw e.0 w.id_calls (w.clock_calls + 1) (rw (e1, e2, e.1))
            | inl e3 ↦
                elim (Result-cases (
                  parse_sealed_batch h (record state.opened_batch {
                    status = revealed;
                    revealed_at = some (h.clock w.clock_calls);
                  }))) [
                    | inr e ↦ threw e.0 w.id_calls (w.clock_calls + 1) (rw (e1, e2, e3.1, e.1))
                    | inl e4 ↦
                        wrote
                          (reveal_input h input state (h.id_generator w.id_calls)
                            (h.clock w.clock_calls) e4.0)
                          (w.id_calls + 1) (w.clock_calls + 1)
                          (record {
                            state = state;
                            event_id = h.id_generator w.id_calls;
                            batch = e4.0;
                            open_batch = e2;
                            may_close = e3.1;
                            written = refl;
                          })
                          (rw (e1, e2, e3.1, e4.1))
                  ]
          ]

  pub close-Effect : Effect h w (Closes h input w) (close_sealed_batch h input w)
  unfolding close_sealed_batch
  close-Effect = elim (assert_options-cases h w) [
    | inr e ↦ threw missing_session_dependency w.id_calls w.clock_calls (rw e)
    | inl e1 ↦
        elim (Result-cases (get_open_batch_state h w.store input.session_id input.batch_id)) [
          | inr e ↦ threw e.0 w.id_calls w.clock_calls (rw (e1, e.1))
          | inl e2 ↦ close_with e2.0 e1 e2.1
        ]
  ]

-- What holds when an opening reaches the store.
pub record Opens (h : Host) (input : OpenSealedBatchInput) (w : World) (x : AppendEventInput)
    : Type 0 where
  pub event_id : String
  pub batch : SealedBatch
  pub parsed :
      parse_sealed_batch h
        (batch_to_open h input (h.id_generator w.id_calls) (h.clock w.clock_calls))
      ≡ ok batch
  pub written :
      x ≡ opened_input h input (h.id_generator w.id_calls) event_id (h.clock w.clock_calls) batch

module _ (h : Host) (input : OpenSealedBatchInput) (w : World) where
  pub open-Effect : Effect h w (Opens h input w) (open_sealed_batch h input w)
  unfolding open_sealed_batch
  open-Effect = elim (assert_options-cases h w) [
    | inr e ↦ threw missing_session_dependency w.id_calls w.clock_calls (rw e)
    | inl e1 ↦
        elim (Result-cases (
          parse_sealed_batch h
            (batch_to_open h input (h.id_generator w.id_calls) (h.clock w.clock_calls)))) [
              | inr e ↦ threw e.0 (w.id_calls + 1 + 1) (w.clock_calls + 1) (rw (e1, e.1))
              | inl e2 ↦
                  wrote
                    (opened_input h input (h.id_generator w.id_calls)
                      (h.id_generator (w.id_calls + 1)) (h.clock w.clock_calls) e2.0)
                    (w.id_calls + 1 + 1) (w.clock_calls + 1)
                    (record {
                      event_id = h.id_generator (w.id_calls + 1);
                      batch = e2.0;
                      parsed = e2.1;
                      written = refl;
                    })
                    (rw (e1, e2.1))
            ]
  ]
