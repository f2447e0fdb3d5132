-- ===== src/Participants.antt =====
-- packages/implementations-lib/src/external_adapters/participant_adapter.ts, class
-- ParticipantAdapter: the participant service as the aggregate sees it.
pub mod Outage
use account_lookup_bc.Common.{String, Option, none, List, Action, ok, throw, pure, attempt, ◌>>=◌}
use account_lookup_bc.Domain.Entities.{Participant}
use account_lookup_bc.Domain.Ports.{Services}

-- The HTTP client of the participants bounded context.
pub record ParticipantsClient (W : Type 0) : Type 0 where
  pub get_participant_by_id : String → Action W (Option Participant)
  pub get_participants_by_ids : List String → Action W (Option (List Participant))

module _ {W : Type 0} (client : ParticipantsClient W) where
  unfoldable pub get_participant_info : String → Action W (Option Participant)
  get_participant_info fsp_id = do
    result ← attempt (client.get_participant_by_id fsp_id)
    elim result [ ok participant ↦ pure participant | throw _ ↦ pure none ]

  unfoldable pub get_participants_info : List String → Action W (Option (List Participant))
  get_participants_info fsp_ids = do
    result ← attempt (client.get_participants_by_ids fsp_ids)
    elim result [ ok participants ↦ pure participants | throw _ ↦ pure none ]

-- The services of the aggregate, with this adapter as the participant service.
abbrev pub with_adapter_of : {W : Type 0} → Services W → ParticipantsClient W → Services W
with_adapter_of env client = record env { get_participant_info = get_participant_info client }
