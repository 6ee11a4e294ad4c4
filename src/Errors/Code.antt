-- ===== src/Errors/Code.antt =====
-- `SFA::util::error_code` of impl/error.cpp, in the order of the source.

pub data ErrorCode : Type 0 where
  noerror : ErrorCode
  nan : ErrorCode
  child_has_to_be_deleted_before_destroy_thread : ErrorCode
  child_has_already_been_deleted : ErrorCode
  child_is_already_running_or_has_not_been_deleted : ErrorCode
  invalid_dma_object_size : ErrorCode
  poweron_after_unexpected_shutdown : ErrorCode
  hotplug_after_unexpected_shutdown : ErrorCode
  object_could_be_outdated : ErrorCode
  previous_transfer_requests_were_not_cleared : ErrorCode
  duplicate_com_shutdown : ErrorCode
  duplicate_sighup : ErrorCode
  duplicate_readlock_request : ErrorCode
  synced_objects_are_not_supposed_to_havea_transfer : ErrorCode
  acknowledge_received_without_any_request : ErrorCode
  received_a_transfer_acknowledge_on_synced_object : ErrorCode
  received_a_transfer_acknowledge_on_readlocked_object : ErrorCode
  received_a_duplicate_transfer_acknowledge_on_object_in_transfer : ErrorCode
  readlock_predates_acknowledge : ErrorCode
  acknowledge_id_does_not_reference_a_valid_object : ErrorCode
  previous_transfer_has_not_been_acknowledged : ErrorCode
  invalid_acknowledge_id : ErrorCode
  synced_status_has_not_been_overriden_when_readlock_was_acquired : ErrorCode
  dma_object_has_entered_an_inaccessible_sync_state : ErrorCode
  found_a_transfer_object_which_is_unsynced : ErrorCode
  found_a_transfer_object_which_is_readlocked : ErrorCode
  previous_object_write_has_not_been_completed : ErrorCode
  previous_readobject_has_not_finished : ErrorCode
  no_idle_received_and_no_receivelock_obtained : ErrorCode
  mcu_processing_switch_relaunched_after_com_hotplug_action : ErrorCode
  mcu_processing_switch_thread_is_too_slow : ErrorCode
  bitset_does_not_fit_into_chararray : ErrorCode
  numeric_value_of_bitset_does_not_fit_into_chararray : ErrorCode
  combuffer_size_is_minimum_wordsize : ErrorCode
  combuffer_in_and_out_size_not_equal : ErrorCode
  attempted_read_after_end_of_buffer : ErrorCode
  attempted_write_after_end_of_buffer : ErrorCode
  not_idle_after_sighup : ErrorCode
  reads_pending_after_comthread_destruction : ErrorCode
  invalid_dma_object_id : ErrorCode
  write_request_has_been_canceled_by_other_side : ErrorCode
  object_sync_was_never_requested : ErrorCode
  type_of_future_has_been_modified_during_edit : ErrorCode
  service_interrupted_by_com_shutdown : ErrorCode
  object_write_canceled_by_incoming_read : ErrorCode
  pending_write_request : ErrorCode
  illegal_write_start_id : ErrorCode
  illegal_read_end_id : ErrorCode
  counter_maxed_out : ErrorCode
  requested_ringbuffer_size_not_big_enough : ErrorCode
  ringbuffer_too_slow_or_not_big_enough : ErrorCode
  negative_readoffset_supplied : ErrorCode
  readindex_out_of_bounds : ErrorCode
  invalid_read_destination : ErrorCode
  writer_buffer_full : ErrorCode
  arachannel_initialization_error : ErrorCode
  unexpected_writes_left : ErrorCode
  wrote_too_much_or_too_little : ErrorCode
  character_write_range_failed : ErrorCode
  no_readbuffer_supplied : ErrorCode
  contiguous_initialized_incorrectly : ErrorCode
  assignment_operator_used_incorrectly : ErrorCode
  fifo_readcall_already_in_progress : ErrorCode
