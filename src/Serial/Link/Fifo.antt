-- ===== src/Serial/Link/Fifo.antt =====
-- The wire of test/test_mcufpga.cpp as two queues, one in each direction.
use software_on_silicon.Base.{ℕ, ◌≡◌, sym, ap, ◌∙◌, arith, List, ◌++◌, append_assoc, append-nil}
use software_on_silicon.Serial.State.{Serial}
use software_on_silicon.Serial.Invariant.{IsBooting, IsLive}
use software_on_silicon.Serial.Runs.{Run-IsLive}
use software_on_silicon.Serial.Link.{
  Link, Linked, begins, client_turns, host_turns, carries_down, carries_up, client_resolves,
  host_resolves,
}
use software_on_silicon.Serial.Link.Safety.{Runs, Linked-Run}
use software_on_silicon.Serial.Link.Token.{tokens, Linked-tokens}
use software_on_silicon.Serial.Link.Channel.{
  client_found, client_shown, host_found, host_shown, down, up, HasRoom, client_funct-way,
  host_funct-way, client_turn-way, host_turn-way,
}

IsLive-HasRoom : (s : Serial) → IsLive s → HasRoom s
unfolding HasRoom
IsLive-HasRoom s (IsLive.booting v) =
    let p = v.port in (omega (arith, p.same_size, p.write_in), omega (arith, p.write_in))
IsLive-HasRoom s (IsLive.running r) =
    let p = r.sound.port in (omega (arith, p.same_size, p.write_in), omega (arith, p.write_in))

pub Linked-HasRoom :
    {l m : Link}
    → IsBooting l.client
    → IsBooting l.host
    → Linked l m
    → HasRoom m.client × HasRoom m.host
unfolding Runs
Linked-HasRoom v w r =
    let (c, h) = Linked-Run r in
    (IsLive-HasRoom _ (Run-IsLive v c), IsLive-HasRoom _ (Run-IsLive w h))

-- One more shown, one more found, and one more or less on the way.
shown_more :
    (start shown found way new : List ℕ) {way' : List ℕ}
    → start ++ shown ≡ found ++ way
    → way' ≡ way ++ new
    → start ++ (shown ++ new) ≡ found ++ way'
shown_more start shown found way new e f =
    sym (append_assoc start shown new)
    ∙ ap (λ (l : List ℕ). l ++ new) e
    ∙ append_assoc found way new
    ∙ ap (λ (l : List ℕ). found ++ l) (sym f)

found_more :
    (found new way' : List ℕ) {all way : List ℕ}
    → all ≡ found ++ way
    → way ≡ new ++ way'
    → all ≡ (found ++ new) ++ way'
found_more found new way' e f =
    e ∙ ap (λ (l : List ℕ). found ++ l) f ∙ sym (append_assoc found new way')

on_the_way :
    (found : List ℕ) {all way way' : List ℕ} → all ≡ found ++ way → way' ≡ way → all ≡ found ++ way'
on_the_way found e f = e ∙ ap (λ (l : List ℕ). found ++ l) (sym f)

-- Two endpoints that start with nothing locked or in transfer, on the wire with one token between
-- them. Whatever order their loops, the wire and the resolvers come in, the bytes that one side has
-- found are those that the other side has shown, in the same order, each once and none left out: what
-- was on the way at the start and then has been shown is what has been found and then is on the
-- way. This holds in both directions.
pub Linked-found :
    {l m : Link}
    → IsBooting l.client
    → IsBooting l.host
    → tokens l ≡ 1
    → (r : Linked l m)
    → (down l ++ client_shown r ≡ host_found r ++ down m)
      × (up l ++ host_shown r ≡ client_found r ++ up m)
unfolding client_shown host_found host_shown client_found down up
Linked-found {l} v w h begins = (append-nil (down l), append-nil (up l))
Linked-found v w h (client_turns m s r e) =
    let (below, above) = Linked-found v w h r in
    let (shown, found) = client_turn-way m s (Linked-tokens h r) e in
    (shown_more _ _ _ _ _ below shown, found_more _ _ _ above found)
Linked-found v w h (host_turns m s r e) =
    let (below, above) = Linked-found v w h r in
    let (shown, found) = host_turn-way m s (Linked-tokens h r) e in
    (found_more _ _ _ below found, shown_more _ _ _ _ _ above shown)
Linked-found v w h (carries_down m r) =
    let (below, above) = Linked-found v w h r in
    let (c, t) = Linked-HasRoom v w r in
    let (same_down, same_up) = client_funct-way m (Linked-tokens h r) c t in
    (on_the_way _ below same_down, on_the_way _ above same_up)
Linked-found v w h (carries_up m r) =
    let (below, above) = Linked-found v w h r in
    let (c, t) = Linked-HasRoom v w r in
    let (same_down, same_up) = host_funct-way m (Linked-tokens h r) c t in
    (on_the_way _ below same_down, on_the_way _ above same_up)
Linked-found v w h (client_resolves m y r f) = Linked-found v w h r
Linked-found v w h (host_resolves m y r f) = Linked-found v w h r
