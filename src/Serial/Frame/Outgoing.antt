-- ===== src/Serial/Frame/Outgoing.antt =====
-- What the OUT half of `Serial::event_loop` leaves alone: the flags of the port.
use software_on_silicon.Base.{ℕ, zero, suc, ◌+◌, ◌≡◌, refl, ◌∙◌, arith, Bool, not, ◌&&◌, ltb}
use software_on_silicon.Errors.{ok, ◌>>=◌}
use software_on_silicon.Errors.Yields.{Yields, >>=-Yields, if-Yields, ok-Yields, Yields-weaken}
use software_on_silicon.Com.{write_byte}
use software_on_silicon.Sync.{num_ids}
use software_on_silicon.Block.{write_object}
use software_on_silicon.Block.Frame.{HasSignal, write_byte-signal, write_object-HasSignal}
use software_on_silicon.Serial.State.{Role, fpga, mcu, Serial, put_port}
use software_on_silicon.Serial.Crossover.{write_bits, send_request}
use software_on_silicon.Serial.Queries.{
  transfers_pending, first_unsynced, incoming_shutdown_query, outgoing_sighup_query,
}
use software_on_silicon.Serial.Requests.{
  send_state, send_poweron_request, send_comshutdown_request, send_idle_request,
  send_sighup_request, send_transfer_request,
}
use software_on_silicon.Serial.WriteHook.{
  get_first_transfer, find_transfer, get_first_sync_object, try_transfer, try_shutdown,
  try_sync_object, try_sighup, write_hook,
}
use software_on_silicon.Serial.Frame.{flags, send_request-flags}
use software_on_silicon.Serial.EventLoop.{loop_out}

-- A byte that is written to the port of an endpoint.
written-flags :
    (s t : Serial) (byte : ℕ)
    → flags t ≡ flags s
    → Yields (λ u. flags u ≡ flags s) (write_byte t.block.uart byte >>= λ c. ok (put_port t c))
written-flags s t byte h =
    >>=-Yields _ _ _ _ (write_byte-signal t.block.uart byte) (λ c e. Yields.yields _ (e ∙ h))

send_state-flags :
    (role : Role) (code : ℕ) (s : Serial) → Yields (λ t. flags t ≡ flags s) (send_state role code s)
unfolding send_state
send_state-flags role code s = written-flags s (send_request role s) _ (send_request-flags role s)

send_poweron_request-flags :
    (role : Role) (s : Serial) → Yields (λ t. flags t ≡ flags s) (send_poweron_request role s)
unfolding send_poweron_request
send_poweron_request-flags role s =
    >>=-Yields (λ t. flags t ≡ flags s) _ _ _ (send_state-flags role _ s) (λ t h. Yields.yields _ h)

send_comshutdown_request-flags :
    (role : Role) (s : Serial) → Yields (λ t. flags t ≡ flags s) (send_comshutdown_request role s)
unfolding send_comshutdown_request
send_comshutdown_request-flags role s =
    >>=-Yields (λ t. flags t ≡ flags s) _ _ _ (send_state-flags role _ s) (λ t h. Yields.yields _ h)

send_sighup_request-flags :
    (role : Role) (s : Serial) → Yields (λ t. flags t ≡ flags s) (send_sighup_request role s)
unfolding send_sighup_request
send_sighup_request-flags role s =
    >>=-Yields (λ t. flags t ≡ flags s) _ _ _ (send_state-flags role _ s) (λ t h. Yields.yields _ h)

send_idle_request-flags :
    (role : Role) (s : Serial) → Yields (λ t. flags t ≡ flags s) (send_idle_request role s)
unfolding send_idle_request
send_idle_request-flags role s =
    >>=-Yields (λ t. flags t ≡ flags s) _ _ _ (send_state-flags role _ s)
      (λ t h. Yields.yields _ (ground (arith, h)))

send_transfer_request-flags :
    (role : Role) (item : ℕ) (s : Serial)
    → Yields (λ t. flags t ≡ flags s) (send_transfer_request role item s)
unfolding send_transfer_request
send_transfer_request-flags role item s =
    if-Yields _ (ltb item num_ids) _ _
      (λ _. written-flags s (send_request role s) _ (send_request-flags role s))
      (λ _. Yields.reports _ _)

-- The attempts of `write_hook`.
abbrev Tried : Serial → Bool × Serial → Type 0
Tried s a = flags (a.1) ≡ flags s

get_first_transfer-Tried : (role : Role) (s : Serial) → Yields (Tried s) (get_first_transfer role s)
unfolding get_first_transfer
get_first_transfer-Tried role s =
    let (found, j, y) =
      first_unsynced s.block.sync.descriptors.count 0 s.block.transfer s.block.sync in
    if-Yields (Tried s) found _ _
      (λ _.
        if-Yields (Tried s) (s.block.read_lock j) _ _ (λ _. Yields.reports _ _)
          (λ _.
            >>=-Yields (λ t. flags t ≡ flags s) _ _ _ (send_transfer_request-flags role j _)
              (λ u h. Yields.yields _ h)))
      (λ _. Yields.yields _ refl)

find_transfer-Tried : (n j : ℕ) (s : Serial) → Yields (Tried s) (find_transfer n j s)
unfolding find_transfer
find_transfer-Tried zero j s = Yields.yields _ refl
find_transfer-Tried (suc n) j s =
    let rest = find_transfer-Tried n (j + 1) s in
    if-Yields _ (s.block.transfer j) _ _ (λ _. ok-Yields _ _ λ a e. ground (arith, e)) (λ _. rest)

try_transfer-Tried : (role : Role) (s : Serial) → Yields (Tried s) (try_transfer role s)
unfolding try_transfer
try_transfer-Tried role s =
    if-Yields _ s.block.send_lock _ _ (λ _. Yields.yields _ refl)
      (λ _.
        if-Yields _ s.vars.sent_com_shutdown _ _ (λ _. Yields.yields _ refl)
          (λ _. get_first_transfer-Tried role s))

incoming_shutdown_query-flags :
    (role : Role) (s : Serial) → flags ((incoming_shutdown_query role s).1) ≡ flags s
unfolding incoming_shutdown_query transfers_pending
incoming_shutdown_query-flags fpga s = refl
incoming_shutdown_query-flags mcu s = ground arith

try_shutdown-Tried : (role : Role) (s : Serial) → Yields (Tried s) (try_shutdown role s)
unfolding try_shutdown
try_shutdown-Tried role s =
    let (asked, t) = incoming_shutdown_query role s in
    let same = incoming_shutdown_query-flags role s in
    if-Yields _ s.block.send_lock _ _ (λ _. Yields.yields _ refl)
      (λ _.
        if-Yields _ (asked && not t.vars.sent_com_shutdown) _ _
          (λ _.
            >>=-Yields (λ u. flags u ≡ flags t) _ _ _ (send_comshutdown_request-flags role t)
              (λ u h. Yields.yields _ (h ∙ same)))
          (λ _. Yields.yields _ same))

try_sync_object-Tried : (s : Serial) → Yields (Tried s) (try_sync_object s)
unfolding try_sync_object get_first_sync_object
try_sync_object-Tried s =
    if-Yields _ s.block.send_lock _ _ (λ _. Yields.yields _ refl)
      (λ _. find_transfer-Tried s.block.sync.descriptors.count 0 s)

try_sighup-Tried : (role : Role) (s : Serial) → Yields (Tried s) (try_sighup role s)
unfolding try_sighup
try_sighup-Tried role s =
    if-Yields _ s.block.send_lock _ _ (λ _. Yields.yields _ refl)
      (λ _.
        if-Yields _ (outgoing_sighup_query role s && not s.vars.sent_sighup) _ _
          (λ _.
            >>=-Yields (λ u. flags u ≡ flags s) _ _ _ (send_sighup_request-flags role s)
              (λ u h. Yields.yields _ h))
          (λ _. Yields.yields _ refl))

write_hook-Tried : (role : Role) (s : Serial) → Yields (Tried s) (write_hook role s)
unfolding write_hook
write_hook-Tried role s =
    if-Yields _ s.first_run _ _
      (λ _.
        >>=-Yields (λ u. flags u ≡ flags s) _ _ _ (send_poweron_request-flags role s)
          (λ u h. Yields.yields _ h))
      (λ _. >>=-Yields (Tried s) (Tried s) _ _ (try_transfer-Tried role s) λ a ha.
        if-Yields _ (a.0) _ _ (λ _. Yields.yields _ ha)
          λ _. >>=-Yields (Tried (a.1)) (Tried s) _ _ (try_shutdown-Tried role (a.1)) λ b hb.
            if-Yields _ (b.0) _ _ (λ _. Yields.yields _ (hb ∙ ha))
              λ _. >>=-Yields (Tried (b.1)) (Tried s) _ _ (try_sync_object-Tried (b.1)) λ c hc.
                if-Yields _ (c.0) _ _ (λ _. Yields.yields _ (hc ∙ hb ∙ ha))
                  λ _.
                    Yields-weaken (Tried (c.1)) (Tried s) _ (λ d hd. hd ∙ hc ∙ hb ∙ ha)
                      (try_sighup-Tried role (c.1)))

-- The OUT half.
pub loop_out-flags : (role : Role) (s : Serial) → Yields (λ t. flags t ≡ flags s) (loop_out role s)
unfolding loop_out
loop_out-flags role s =
    let quiet = record s { waiting_confirmation = num_ids } in
    >>=-Yields (Tried s) (λ u. flags u ≡ flags s) (write_hook role quiet) _
      (write_hook-Tried role quiet)
      λ h hh.
        if-Yields _ (h.0) _ _ (λ _. Yields.yields _ hh)
          λ _.
            >>=-Yields (λ w. HasSignal (flags (h.1)) (w.1)) _
              (write_object (write_bits role (h.1)) ((h.1).block)) _
              (write_object-HasSignal (write_bits role (h.1)) ((h.1).block))
              λ w hw.
                let t = record (h.1) { block = w.1 } in
                if-Yields _ (w.0) _ _ (λ _. Yields.yields t (hw ∙ hh))
                  λ _.
                    Yields-weaken (λ u. flags u ≡ flags t) (λ u. flags u ≡ flags s) _
                      (λ u hu. hu ∙ hw ∙ hh) (send_idle_request-flags role t)
