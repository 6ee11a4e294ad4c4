-- ===== src/Serial/Outgoing.antt =====
-- The OUT half of the event loop keeps the invariant of an endpoint.
use software_on_silicon.Base.{
  ℕ, zero, suc, ◌+◌, ◌≡◌, refl, ap, ◌∙◌, arith, Bool, true, false, not, ◌&&◌, ltb, ◌==◌,
}
use software_on_silicon.Errors.{Safe, returns, aborts, >>=-Safe, if-Safe}
use software_on_silicon.Com.{write_byte}
use software_on_silicon.Block.Sound.{IsSound}
use software_on_silicon.Com.Offsets.{write_byte_lem}
use software_on_silicon.Sync.{Sync, num_ids, check_sync}
use software_on_silicon.Sync.Laws.{check_sync_lem}
use software_on_silicon.Block.WriteSound.{write_object-IsSound}
use software_on_silicon.Block.Change.{IsSound-port, IsSound-send_lock}
use software_on_silicon.Serial.State.{Role, fpga, mcu, Serial, put_sync}
use software_on_silicon.Serial.Crossover.{write_bits, send_request}
use software_on_silicon.Serial.Queries.{
  first_unsynced, transfers_pending, incoming_shutdown_query, outgoing_sighup_query,
}
use software_on_silicon.Serial.Requests.{
  send_state, send_poweron_request, send_comshutdown_request, send_sighup_request,
  send_idle_request, send_transfer_request,
}
use software_on_silicon.Serial.WriteHook.{
  get_first_transfer, find_transfer, get_first_sync_object, try_transfer, try_shutdown,
  try_sync_object, try_sighup, write_hook,
}
use software_on_silicon.Serial.EventLoop.{loop_out}
use software_on_silicon.Serial.Ready.{IsReady, IsReady-same}

-- A byte that is sent keeps the block sound and touches nothing else.
send_byte-IsSound :
    (role : Role) (s : Serial) (byte : ℕ)
    → IsSound s.block
    → let t = send_request role s in
      Safe (λ c. IsSound (record (t.block) { uart = c })) (write_byte t.block.uart byte)
unfolding send_request
send_byte-IsSound fpga s byte v =
    let (c, e, valid, stored, moved, incoming, signals, kept) =
      write_byte_lem s.block.uart byte v.port in
    rw e (returns c (IsSound-port s.block c valid v))
send_byte-IsSound mcu s byte v =
    let (c, e, valid, stored, moved, incoming, signals, kept) =
      write_byte_lem s.block.uart byte v.port in
    rw e (returns c (IsSound-port s.block c valid v))

-- A request byte, whether or not the endpoint has started.
send_state-IsSound :
    (role : Role) (code : ℕ) (s : Serial)
    → IsSound s.block
    → Safe (λ t. IsSound t.block × (t.first_run ≡ s.first_run)) (send_state role code s)
unfolding send_state send_request
send_state-IsSound fpga code s v =
    let t = send_request fpga s in
    let byte = write_bits fpga t code in
    >>=-Safe _ _ (write_byte t.block.uart byte) _ (send_byte-IsSound fpga s byte v)
      (λ c k. returns _ (k, refl))
send_state-IsSound mcu code s v =
    let t = send_request mcu s in
    let byte = write_bits mcu t code in
    >>=-Safe _ _ (write_byte t.block.uart byte) _ (send_byte-IsSound mcu s byte v)
      (λ c k. returns _ (k, refl))

send_poweron_request-IsReady :
    (role : Role) (s : Serial) → IsSound s.block → Safe IsReady (send_poweron_request role s)
unfolding send_poweron_request
send_poweron_request-IsReady role s v =
    >>=-Safe _ IsReady _ _ (send_state-IsSound role _ s v)
      (λ t k. returns _ (record { started = refl; sound = k.0 }))

send_comshutdown_request-IsReady :
    (role : Role) (s : Serial) → IsReady s → Safe IsReady (send_comshutdown_request role s)
unfolding send_comshutdown_request
send_comshutdown_request-IsReady role s r =
    >>=-Safe _ IsReady _ _ (send_state-IsSound role _ s r.sound)
      (λ t k. returns _ (record { started = k.1 ∙ r.started; sound = k.0 }))

send_sighup_request-IsReady :
    (role : Role) (s : Serial) → IsReady s → Safe IsReady (send_sighup_request role s)
unfolding send_sighup_request
send_sighup_request-IsReady role s r =
    >>=-Safe _ IsReady _ _ (send_state-IsSound role _ s r.sound)
      (λ t k. returns _ (record { started = k.1 ∙ r.started; sound = k.0 }))

send_idle_request-IsReady :
    (role : Role) (s : Serial) → IsReady s → Safe IsReady (send_idle_request role s)
unfolding send_idle_request
send_idle_request-IsReady role s r =
    >>=-Safe _ IsReady _ _ (send_state-IsSound role _ s r.sound) (λ t k.
      returns _ (record { started = ground (arith, k.1, r.started); sound = ground (arith, k.0) }))

send_transfer_request-IsReady :
    (role : Role) (item : ℕ) (s : Serial)
    → IsReady s
    → Safe IsReady (send_transfer_request role item s)
unfolding send_transfer_request send_request
send_transfer_request-IsReady fpga item s r =
    if-Safe IsReady (ltb item num_ids) _ _
      (λ _.
        >>=-Safe _ IsReady _ _ (send_byte-IsSound fpga s _ r.sound)
          (λ c k. returns _ (record { started = r.started; sound = k })))
      (λ _. aborts _ _)
send_transfer_request-IsReady mcu item s r =
    if-Safe IsReady (ltb item num_ids) _ _
      (λ _.
        >>=-Safe _ IsReady _ _ (send_byte-IsSound mcu s _ r.sound)
          (λ c k. returns _ (record { started = r.started; sound = k })))
      (λ _. aborts _ _)

-- Looking for a request changes nothing.
first_unsynced_lem :
    (n j : ℕ) (transfer : ℕ → Bool) (y : Sync) → (first_unsynced n j transfer y).2 ≡ y
unfolding first_unsynced
first_unsynced_lem zero j transfer y = refl
first_unsynced_lem (suc n) j transfer y =
    let (a, b, same) = check_sync_lem y j in
    ground (arith, same, first_unsynced_lem n (j + 1) transfer ((check_sync y j).1))

transfers_pending_lem : (s : Serial) → (transfers_pending s).1 ≡ s
unfolding transfers_pending
transfers_pending_lem s =
    ap (put_sync s)
      (first_unsynced_lem s.block.sync.descriptors.count 0 s.block.transfer s.block.sync)

incoming_shutdown_query_lem : (role : Role) (s : Serial) → (incoming_shutdown_query role s).1 ≡ s
unfolding incoming_shutdown_query
incoming_shutdown_query_lem fpga s = transfers_pending_lem s
incoming_shutdown_query_lem mcu s = ground (arith, transfers_pending_lem s)

get_first_transfer-IsReady :
    (role : Role) (s : Serial) → IsReady s → Safe (λ a. IsReady (a.1)) (get_first_transfer role s)
unfolding get_first_transfer
get_first_transfer-IsReady role s r =
    let n = s.block.sync.descriptors.count in
    let found = first_unsynced n 0 s.block.transfer s.block.sync in
    let same = ap (put_sync s) (first_unsynced_lem n 0 s.block.transfer s.block.sync) in
    if-Safe _ (found.0) _ _
      (λ _.
        if-Safe _ (s.block.read_lock (found.1)) _ _ (λ _. aborts _ _)
          (λ _.
            >>=-Safe IsReady _ _ _
              (send_transfer_request-IsReady role (found.1)
                (record (put_sync s (found.2)) {
                  waiting_confirmation = found.1;
                  vars = record (s.vars) { acknowledge_requested = true };
                })
                (IsReady-same s _ (ap (λ (t : Serial). t.block) same) refl r))
              (λ t k. returns _ k)))
      (λ _. returns _ (rw same r))

find_transfer-IsReady :
    (n j : ℕ) (s : Serial)
    → IsReady s
    → s.block.send_lock ≡ false
    → j + n ≡ s.block.sync.descriptors.count
    → Safe (λ a. IsReady (a.1)) (find_transfer n j s)
unfolding find_transfer
find_transfer-IsReady zero j s r free e = returns _ r
find_transfer-IsReady (suc n) j s r free e =
    if-Safe _ (s.block.transfer j) _ _
      (λ flying.
        if-Safe _ (s.block.read_lock j) _ _ (λ _. aborts _ _)
          (λ _.
            if-Safe _ (not (s.block.write_origin_pos == 0)) _ _ (λ _. aborts _ _)
              (λ _. returns _ (record {
                started = r.started;
                sound = IsSound-send_lock s.block j free (omega arith) flying r.sound;
              }))))
      (λ _. find_transfer-IsReady n (j + 1) s r free (omega arith))

try_transfer-IsReady :
    (role : Role) (s : Serial) → IsReady s → Safe (λ a. IsReady (a.1)) (try_transfer role s)
unfolding try_transfer
try_transfer-IsReady role s r =
    if-Safe _ s.block.send_lock _ _ (λ _. returns _ r)
      (λ _.
        if-Safe _ s.vars.sent_com_shutdown _ _ (λ _. returns _ r)
          (λ _. get_first_transfer-IsReady role s r))

try_shutdown-IsReady :
    (role : Role) (s : Serial) → IsReady s → Safe (λ a. IsReady (a.1)) (try_shutdown role s)
unfolding try_shutdown
try_shutdown-IsReady role s r =
    let q = incoming_shutdown_query role s in
    let r' : IsReady (q.1) = rw (incoming_shutdown_query_lem role s) r in
    if-Safe _ s.block.send_lock _ _ (λ _. returns _ r)
      (λ _.
        if-Safe _ (q.0 && not (q.1).vars.sent_com_shutdown) _ _
          (λ _.
            >>=-Safe IsReady _ _ _ (send_comshutdown_request-IsReady role (q.1) r')
              (λ t k. returns _ k))
          (λ _. returns _ r'))

try_sync_object-IsReady : (s : Serial) → IsReady s → Safe (λ a. IsReady (a.1)) (try_sync_object s)
unfolding try_sync_object get_first_sync_object
try_sync_object-IsReady s r =
    if-Safe _ s.block.send_lock _ _ (λ _. returns _ r)
      (λ free. find_transfer-IsReady s.block.sync.descriptors.count 0 s r free (omega arith))

try_sighup-IsReady :
    (role : Role) (s : Serial) → IsReady s → Safe (λ a. IsReady (a.1)) (try_sighup role s)
unfolding try_sighup
try_sighup-IsReady role s r =
    if-Safe _ s.block.send_lock _ _ (λ _. returns _ r)
      (λ _.
        if-Safe _ (outgoing_sighup_query role s && not s.vars.sent_sighup) _ _
          (λ _. >>=-Safe IsReady _ _ _ (send_sighup_request-IsReady role s r) (λ t k. returns _ k))
          (λ _. returns _ r))

write_hook-IsReady :
    (role : Role) (s : Serial) → IsSound s.block → Safe (λ a. IsReady (a.1)) (write_hook role s)
unfolding write_hook
write_hook-IsReady role s v =
    if-Safe _ s.first_run _ _
      (λ _. >>=-Safe IsReady _ _ _ (send_poweron_request-IsReady role s v) (λ t k. returns _ k))
      (λ started.
        >>=-Safe (λ a. IsReady (a.1)) _ _ _
          (try_transfer-IsReady role s (record { started = started; sound = v }))
          (λ a ra.
            if-Safe _ (a.0) _ _ (λ _. returns _ ra)
              (λ _.
                >>=-Safe (λ b. IsReady (b.1)) _ _ _ (try_shutdown-IsReady role (a.1) ra)
                  (λ b rb.
                    if-Safe _ (b.0) _ _ (λ _. returns _ rb)
                      (λ _.
                        >>=-Safe (λ c. IsReady (c.1)) _ _ _ (try_sync_object-IsReady (b.1) rb)
                          (λ c rc.
                            if-Safe _ (c.0) _ _ (λ _. returns _ rc)
                              (λ _. try_sighup-IsReady role (c.1) rc)))))))

pub loop_out-IsReady : (role : Role) (s : Serial) → IsSound s.block → Safe IsReady (loop_out role s)
unfolding loop_out
loop_out-IsReady role s v =
    >>=-Safe (λ h. IsReady (h.1)) _ _ _
      (write_hook-IsReady role (record s { waiting_confirmation = num_ids }) v)
      (λ h rh.
        if-Safe _ (h.0) _ _ (λ _. returns _ rh)
          (λ _.
            let (b, e, sound) =
              write_object-IsSound (write_bits role (h.1)) ((h.1).block) rh.sound in
            let t = record (h.1) { block = b } in
            let rt : IsReady t = record { started = rh.started; sound = sound } in
            rw e (
              if-Safe _ (h.1).block.send_lock _ _ (λ _. returns _ rt)
                (λ _. send_idle_request-IsReady role t rt))))
