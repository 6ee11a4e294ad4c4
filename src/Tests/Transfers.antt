-- ===== src/Tests/Transfers.antt =====
-- The block layer and the codec on the samples.
use software_on_silicon.Base.{ℕ, ◌+◌, ◌*◌, ◌/◌, ◌<◌, ◌≡◌, refl, arith, true, false, Array, ◌⊎◌}
use software_on_silicon.Errors.{ok, aborted, Severity}
use software_on_silicon.Errors.Code.{ErrorCode}
use software_on_silicon.Wire.RoundTrip.{
  IsSignal, send_three, receive_three, receive_three-send_three,
}
use software_on_silicon.Block.{Block, descriptor, memory, write_object, read_object}
use software_on_silicon.Block.Sender.{Sending}
use software_on_silicon.Block.Exchange.{exchange, four_times, Transferred, Outside}
use software_on_silicon.Block.Transfer.{Expecting, object_transfer}
use software_on_silicon.Block.Sound.{IsSound}
use software_on_silicon.Block.WriteSound.{write_object-IsSound}
use software_on_silicon.Block.ReadSound.{read_object-IsSound}
use software_on_silicon.Tests.Samples.{
  sender, receiver, codec, port-IsValid, sender-IsSound, receiver-IsSound,
}

-- The other side's update travels in each byte.
abbrev with_update : ℕ → ℕ
with_update payload = 2 * 64 + payload

with_update-IsSignal : IsSignal with_update 2
with_update-IsSignal = record { keeps = λ p lt. refl }

sender-Sending : Sending sender 0 0 6 0 0
sender-Sending = record {
  locked = refl;
  origin = refl;
  address = refl;
  extent = refl;
  small = omega arith;
  position = refl;
  counted = refl;
  coded = refl;
  port = port-IsValid;
  unlocked = refl;
}

receiver-Expecting : Expecting receiver 0 0 6
receiver-Expecting = record {
  idle = refl;
  expected = refl;
  first = λ j lt. absurd (omega arith);
  known = omega arith;
  address = refl;
  extent = refl;
  rewound = refl;
  aligned = refl;
  coded = refl;
  emptied = refl;
  unlocked = refl;
}

six_bytes : (i : ℕ) → i < 6 → memory sender (0 + i) < 256
six_bytes i lt = ground arith

-- Six bytes in eight rounds.
object_transfer_example :
    (s' r' : Block) × (exchange (λ k. with_update) (four_times 2) 0 sender receiver ≡ ok (s', r'))
    × Transferred 0 0 0 0 6 0 sender receiver s' r'
object_transfer_example =
    object_transfer (λ k. with_update) (λ k. 2) (λ k. with_update-IsSignal) 0 0 0 0 6 1 sender
      receiver sender-Sending receiver-Expecting refl six_bytes

receive_three-send_three_example :
    let sent = send_three with_update with_update with_update with_update codec 7 200 255 63 in
    (bytes : Array ℕ) × (receive_three codec sent.r0 sent.r1 sent.r2 sent.r3 ≡ ok (bytes, codec))
    × (bytes 0 ≡ 7)
    × (bytes 1 ≡ 200)
    × (bytes 2 ≡ 255)
    × (sent.r0 / 64 ≡ 2)
    × (sent.r1 / 64 ≡ 2)
    × (sent.r2 / 64 ≡ 2)
    × (sent.r3 / 64 ≡ 2)
    × (sent.after.write_count ≡ 0)
receive_three-send_three_example =
    receive_three-send_three with_update with_update with_update with_update 2 2 2 2 codec codec 7
      200 255 63 with_update-IsSignal with_update-IsSignal with_update-IsSignal with_update-IsSignal
      refl refl refl (omega arith) (omega arith) (omega arith)

write_object-IsSound_example :
    (b' : Block) × (write_object with_update sender ≡ ok (true, b')) × IsSound b'
write_object-IsSound_example = write_object-IsSound with_update sender sender-IsSound

read_object-IsSound_example :
    (((b' : Block) × (read_object receiver 0xC1 ≡ ok b')
        × IsSound b'
        × (b'.transfer ≡ receiver.transfer)
        × ((a : ℕ)
            → ((id : ℕ)
                → id < 2
                → Outside
                    (descriptor receiver id).obj
                    ((descriptor receiver id).obj + (descriptor receiver id).obj_size)
                    a)
            → memory b' a ≡ memory receiver a))
      ⊎ ((read_object receiver 0xC1
            ≡ aborted Severity.logic ErrorCode.no_idle_received_and_no_receivelock_obtained)
          × (receiver.receive_lock ≡ false)
          × ((id : ℕ) → id < 2 → receiver.read_lock id ≡ false)))
    × (receiver.receive_lock ≡ false
        → ((id : ℕ) → id < 2 → receiver.read_lock id ≡ false)
        → read_object receiver 0xC1
          ≡ aborted Severity.logic ErrorCode.no_idle_received_and_no_receivelock_obtained)
read_object-IsSound_example = read_object-IsSound receiver 0xC1 receiver-IsSound
