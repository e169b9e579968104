-- ===== src/Tests/Pipeline.antt =====
-- Events through processing, dispatch and the webhook's vocabulary.
use idm_mw.Prelude.{◌≡◌, false, ◌||◌, ◌&&◌, some, includes}
use idm_mw.Core.Processing.{process}
use idm_mw.Core.Processing.Durable.{Outcome, process-Outcome}
use idm_mw.Inbound.Operation.{avanpost_operations, write_operations, is_read_operation}
use idm_mw.Inbound.Operation.Partition.{is_read_operation_partition}
use idm_mw.Tests.Fixtures.{start, registry_with, refused, to_number, create_user}

process-Outcome_example :
    Outcome create_user start
      (process (registry_with refused) to_number (some 300) create_user start).1
      (process (registry_with refused) to_number (some 300) create_user start).0
process-Outcome_example =
    process-Outcome (registry_with refused) to_number (some 300) create_user start

is_read_operation_partition_example :
    (includes avanpost_operations "user.create"
      ≡ (is_read_operation "user.create" || includes write_operations "user.create"))
    × ((is_read_operation "user.create" && includes write_operations "user.create") ≡ false)
is_read_operation_partition_example = is_read_operation_partition "user.create"
