-- ===== src/Tests/Batches.antt =====
-- A batch of one participant, opened, contributed to and closed.
use deliberum.Prelude.{◌≡◌, refl, ◌↔◌, true, none, some, [], ◌∷◌, find}
use deliberum.Errors.{ok, err, sealed_batch_already_closed}
use deliberum.Protocol.Common.{text}
use deliberum.Protocol.Core.{SealedBatch, SealedBatchPurpose, quorum, open_status}
use deliberum.Protocol.Events.{sealed}
use deliberum.Storage.Memory.{
  AppendEventResult, append_event_result, list_events_by_batch, same_visibility,
}
use deliberum.Core.World.{
  World, start, assert_options, append, next_id, get_clock, get_schema_version,
}
use deliberum.Core.SealedDivergence.{
  OpenSealedBatchInput, SubmitSealedContributionInput, CloseSealedBatchInput, BatchState,
  open_sealed_batch, submit_sealed_contribution, close_sealed_batch, get_open_batch_state,
  assert_reveal_policy_can_close, state_of_events, parse_sealed_batch, batch_to_open, opened_input,
  safe_parse_sealed_batch, is_authorized, no_duplicate_contribution, is_contribution,
  contribution_input, reveal_input,
}
use deliberum.Core.SealedDivergence.Reveal.{MayReveal, assert_reveal_policy_iff}
use deliberum.Core.SealedDivergence.Contributions.{contributions}
use deliberum.Core.SealedDivergence.History.{
  opens, submits, closes, Reach, here, next, closed_forever,
}
use deliberum.Core.SealedDivergence.Unique.{IsSound, Reach-IsSound}
use deliberum.Core.SealedDivergence.Close.{close_reveals}
use deliberum.Tests.Scenario.{host, result_of}

abbrev open_input : OpenSealedBatchInput
open_input = record {
  session_id = "s";
  purpose = SealedBatchPurpose.initial_divergence;
  participant_ids = some ("ann" ∷ []);
  reveal_policy = none;
  quorum_count = none;
  deadline_at = none;
  idempotency_key = none;
}

abbrev submit_input : SubmitSealedContributionInput
submit_input = record {
  session_id = "s";
  batch_id = "i";
  author_id = "ann";
  visibility = sealed;
  payload = some (text "my view");
  idempotency_key = none;
}

abbrev close_input : CloseSealedBatchInput
close_input = record { session_id = "s"; batch_id = "i"; idempotency_key = none }

abbrev opened : World
opened = (open_sealed_batch host open_input start).1

abbrev contributed : World
contributed = (submit_sealed_contribution host submit_input opened).1

abbrev closed : World
closed = (close_sealed_batch host close_input contributed).1

abbrev reveal : AppendEventResult
reveal = result_of (close_sealed_batch host close_input contributed).0

Reach-contributed : Reach host start contributed
Reach-contributed = next (next here (opens open_input)) (submits submit_input)

Reach-closed : Reach host start closed
Reach-closed =
    next (next (next here (opens open_input)) (submits submit_input)) (closes close_input)

closes_well : (close_sealed_batch host close_input contributed).0 ≡ ok reveal
unfolding close_sealed_batch submit_sealed_contribution open_sealed_batch assert_options
    get_open_batch_state state_of_events find list_events_by_batch same_visibility
    parse_sealed_batch batch_to_open append append_event_result opened_input safe_parse_sealed_batch
    is_authorized no_duplicate_contribution is_contribution contribution_input
    assert_reveal_policy_can_close reveal_input next_id get_clock get_schema_version
closes_well = refl

Reach-IsSound_example : IsSound host closed
Reach-IsSound_example = Reach-IsSound host closed Reach-closed

closed_now : get_open_batch_state host closed.store "s" "i" ≡ err (sealed_batch_already_closed "i")
unfolding close_sealed_batch submit_sealed_contribution open_sealed_batch assert_options
    get_open_batch_state state_of_events find list_events_by_batch same_visibility
    parse_sealed_batch batch_to_open append append_event_result opened_input safe_parse_sealed_batch
    is_authorized no_duplicate_contribution is_contribution contribution_input
    assert_reveal_policy_can_close reveal_input next_id get_clock get_schema_version
closed_now = refl

abbrev late : World
late = (submit_sealed_contribution host submit_input closed).1

closed_forever_example :
    (get_open_batch_state host late.store "s" "i" ≡ err (sealed_batch_already_closed "i"))
    × (contributions late.store "s" "i" ≡ contributions closed.store "s" "i")
closed_forever_example =
    closed_forever host closed late "s" "i" (next here (submits submit_input)) closed_now

close_reveals_example :
    (state : BatchState) × (get_open_batch_state host contributed.store "s" "i" ≡ ok state)
    × MayReveal host state.opened_batch.reveal_policy state.opened_batch state.contribution_events
        "now"
    × (reveal.appended ≡ true)
    × (get_open_batch_state host (close_sealed_batch host close_input contributed).1.store "s" "i"
        ≡ err (sealed_batch_already_closed "i"))
close_reveals_example =
    close_reveals host close_input contributed reveal
      (Reach-IsSound host contributed Reach-contributed).consistent closes_well

abbrev pair : SealedBatch
pair = record {
  id = "i";
  session_id = "s";
  purpose = SealedBatchPurpose.initial_divergence;
  status = open_status;
  participant_ids = "ann" ∷ "bob" ∷ [];
  opened_at = "now";
  revealed_at = none;
  reveal_policy = quorum;
  quorum_count = some 1;
  deadline_at = none;
}

assert_reveal_policy_iff_example :
    (assert_reveal_policy_can_close host pair (reveal.event ∷ []) "now" ≡ ok tt)
    ↔ MayReveal host quorum pair (reveal.event ∷ []) "now"
assert_reveal_policy_iff_example = assert_reveal_policy_iff host pair (reveal.event ∷ []) "now"
