-- ===== src/Errors/Message.antt =====
-- `SFA::util::error_message` of impl/error.cpp: the text of each error code.
use Prim.Native.String.{String}
use software_on_silicon.Errors.Code.{ErrorCode}

unfoldable pub error_message : ErrorCode → String
error_message ErrorCode.noerror =
    "No error was supplied after initialization of static error variable"
error_message ErrorCode.nan = "Not A Number"
error_message ErrorCode.child_has_to_be_deleted_before_destroy_thread =
    "Child has to be deleted before destroy thread"
error_message ErrorCode.child_has_already_been_deleted = "Child has already been deleted"
error_message ErrorCode.child_is_already_running_or_has_not_been_deleted =
    "Child is already running or has not beed deleted"
error_message ErrorCode.invalid_dma_object_size = "Invalid DMAObject size"
error_message ErrorCode.poweron_after_unexpected_shutdown = "Poweron after unexpected shutdown"
error_message ErrorCode.hotplug_after_unexpected_shutdown = "Hotplug after unexpected shutdown"
error_message ErrorCode.object_could_be_outdated =
    "Object could be outdated. Corrupted unless resend_current_object is called from the other side"
error_message ErrorCode.previous_transfer_requests_were_not_cleared =
    "Previous transfer requests were not cleared"
error_message ErrorCode.duplicate_com_shutdown = "Duplicate comShutdown"
error_message ErrorCode.duplicate_sighup = "Duplicate sighup"
error_message ErrorCode.duplicate_readlock_request = "Duplicate readLock request"
error_message ErrorCode.synced_objects_are_not_supposed_to_havea_transfer =
    "Synced objects are not supposed to have a transfer"
error_message ErrorCode.acknowledge_received_without_any_request =
    "Acknowledge received without any request"
error_message ErrorCode.received_a_transfer_acknowledge_on_synced_object =
    "Received a transfer acknowledge on synced object"
error_message ErrorCode.received_a_transfer_acknowledge_on_readlocked_object =
    "Received a transfer acknowledge on readLocked object"
error_message ErrorCode.received_a_duplicate_transfer_acknowledge_on_object_in_transfer =
    "Received a duplicate transfer acknowledge on object in transfer"
error_message ErrorCode.readlock_predates_acknowledge = "ReadLock pre-dates acknowledge"
error_message ErrorCode.acknowledge_id_does_not_reference_a_valid_object =
    "AcknowledgeId does not reference a valid object"
error_message ErrorCode.previous_transfer_has_not_been_acknowledged =
    "Previous transfer has not been acknowledged"
error_message ErrorCode.invalid_acknowledge_id = "Invalid acknowledgeId"
error_message ErrorCode.synced_status_has_not_been_overriden_when_readlock_was_acquired =
    "Synced status has not been overriden when readLock was acquired"
error_message ErrorCode.dma_object_has_entered_an_inaccessible_sync_state =
    "DMAObject has entered an inaccessible sync state"
error_message ErrorCode.found_a_transfer_object_which_is_unsynced =
    "Found a transfer object which is unsynced"
error_message ErrorCode.found_a_transfer_object_which_is_readlocked =
    "Found a transfer object which is readLocked"
error_message ErrorCode.previous_object_write_has_not_been_completed =
    "Previous object write has not been completed"
error_message ErrorCode.previous_readobject_has_not_finished =
    "Previous read object has not finished"
error_message ErrorCode.no_idle_received_and_no_receivelock_obtained =
    "No idle received and no receive_lock obtained"
error_message ErrorCode.mcu_processing_switch_relaunched_after_com_hotplug_action =
    "Testing MCU hotplug: MCU ProcessingSwitch relaunched after com_hotplug_action"
error_message ErrorCode.mcu_processing_switch_thread_is_too_slow =
    "MCUProcessingSwitch thread is too slow"
error_message ErrorCode.bitset_does_not_fit_into_chararray = "BitSet does not fit into char array"
error_message ErrorCode.numeric_value_of_bitset_does_not_fit_into_chararray =
    "Numeric value of BitSet does not fit into char array"
error_message ErrorCode.combuffer_size_is_minimum_wordsize = "ComBuffer size is minimum WORD_SIZE"
error_message ErrorCode.combuffer_in_and_out_size_not_equal = "ComBuffer in and out size not equal"
error_message ErrorCode.attempted_read_after_end_of_buffer = "Attempted read after end of buffer"
error_message ErrorCode.attempted_write_after_end_of_buffer = "Attempted write after end of buffer"
error_message ErrorCode.not_idle_after_sighup =
    "Only idle or poweron state is allowed after sighup received"
error_message ErrorCode.reads_pending_after_comthread_destruction =
    "Reads pending after Comthread destruction"
error_message ErrorCode.invalid_dma_object_id = "Invalid DMA Object Id"
error_message ErrorCode.write_request_has_been_canceled_by_other_side =
    "Writerequest has been canceled by other side"
error_message ErrorCode.object_sync_was_never_requested = "Object sync was never requested"
error_message ErrorCode.type_of_future_has_been_modified_during_edit =
    "The type of the Future has been modified during Edit"
error_message ErrorCode.service_interrupted_by_com_shutdown = "Service interrupted by com_shutdown"
error_message ErrorCode.object_write_canceled_by_incoming_read =
    "Object write canceled by an incoming read of the same object"
error_message ErrorCode.pending_write_request = "Pending write request"
error_message ErrorCode.illegal_write_start_id = "Illegal write start id"
error_message ErrorCode.illegal_read_end_id = "Illegal read end id"
error_message ErrorCode.counter_maxed_out = "Counter Maxed Out"
error_message ErrorCode.requested_ringbuffer_size_not_big_enough =
    "Requested RingBuffer size not big enough"
error_message ErrorCode.ringbuffer_too_slow_or_not_big_enough =
    "RingBuffer too slow or not big enough"
error_message ErrorCode.negative_readoffset_supplied = "Negative read offset supplied"
error_message ErrorCode.readindex_out_of_bounds = "Read index out of bounds"
error_message ErrorCode.invalid_read_destination = "Invalid Read Destination"
error_message ErrorCode.writer_buffer_full = "Writer Buffer full"
error_message ErrorCode.arachannel_initialization_error = "ARAChannel initialization error"
error_message ErrorCode.unexpected_writes_left = "Unexpected writes left"
error_message ErrorCode.wrote_too_much_or_too_little = "Wrote too much or too little"
error_message ErrorCode.character_write_range_failed = "Character write range failed"
error_message ErrorCode.no_readbuffer_supplied = "No ReadBuffer supplied"
error_message ErrorCode.contiguous_initialized_incorrectly = "Contiguous initialized incorrectly"
error_message ErrorCode.assignment_operator_used_incorrectly = "operator=() used incorrectly"
error_message ErrorCode.fifo_readcall_already_in_progress = "FIFO read call already in progress"
