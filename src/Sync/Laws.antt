-- ===== src/Sync/Laws.antt =====
-- What the operations of `SyncProcessor` change, and what they leave alone.
use mathlib.Core.Path.{fun_ext}
use software_on_silicon.Base.{
  ℕ, zero, suc, ◌+◌, ◌<◌, ◌≡◌, refl, ap, ◌∙◌, arith, Bool, true, false, Array, update, ◌==◌, leb,
  ltb, ◌&&◌, if◌then◌else◌,
}
use software_on_silicon.Errors.{ok}
use software_on_silicon.Sync.{
  Sync, ResolverSwitch, DmaDescriptor, num_ids, check_sync, copy_descriptors, emit_init,
  interrupt_read, interrupt_reads, emit_interrupted,
}

update_same {ℓ} : {A : Type ℓ} (f : Array A) (i : ℕ) (a : A) → a ≡ f i → update f i a ≡ f
update_same f i a e = fun_ext λ j. ground arith

-- Looking at a request leaves it as it was: `check_sync` answers whether the object's flag is
-- clear, and changes nothing.
pub check_sync_lem :
    (s : Sync) (id : ℕ)
    → ((check_sync s id).0 ≡ true → (s.bus.switches id).sync_me ≡ false)
      × ((s.bus.switches id).sync_me ≡ false → (check_sync s id).0 ≡ true)
      × ((check_sync s id).1 ≡ s)
unfolding check_sync
check_sync_lem s id = (ground arith, ground arith, same (s.bus.switches id).sync_me refl)
  where
    same : (b : Bool) → (s.bus.switches id).sync_me ≡ b → (check_sync s id).1 ≡ s
    same true e = rw e (
        ap (λ (f : Array ResolverSwitch). record s { bus = record (s.bus) { switches = f } })
          (update_same s.bus.switches id (record (s.bus.switches id) { sync_me = true })
            (ground arith)))
    same false e = rw e (
        ap (λ (f : Array ResolverSwitch). record s { bus = record (s.bus) { switches = f } })
          (update_same s.bus.switches id (record (s.bus.switches id) { sync_me = false })
            (ground arith)))

-- Everything but the switches and the reads in progress.
pub record Framed (s t : Sync) : Type 0 where
  pub descriptors : t.descriptors ≡ s.descriptors
  pub shared : t.bus.descriptors ≡ s.bus.descriptors
  pub lock : t.bus.descriptors_updated ≡ s.bus.descriptors_updated
  pub memory : t.bus.memory ≡ s.bus.memory

interrupt_read-Framed : (s : Sync) (i : ℕ) → Framed s (interrupt_read s i)
unfolding interrupt_read
interrupt_read-Framed s i = ground arith

interrupt_reads-Framed : (n i : ℕ) (s : Sync) → Framed s (interrupt_reads n i s)
unfolding interrupt_reads
interrupt_reads-Framed zero i s = ground arith
interrupt_reads-Framed (suc n) i s =
    let f = interrupt_read-Framed s i in
    let g = interrupt_reads-Framed n (i + 1) (interrupt_read s i) in
    record {
      descriptors = g.descriptors ∙ f.descriptors;
      shared = g.shared ∙ f.shared;
      lock = g.lock ∙ f.lock;
      memory = g.memory ∙ f.memory;
    }

pub emit_interrupted-Framed : (s : Sync) → Framed s (emit_interrupted s)
unfolding emit_interrupted
emit_interrupted-Framed s = interrupt_reads-Framed num_ids 0 s

-- The copied range agrees with the source, and the rest is kept.
copy_descriptors_lem :
    (n i j : ℕ) (source target : Array DmaDescriptor)
    → copy_descriptors n i source target j
      ≡ (if leb i j && ltb j (i + n) then source j else target j)
unfolding copy_descriptors
copy_descriptors_lem zero i j source target = ground arith
copy_descriptors_lem (suc n) i j source target = ground (
  arith,
  copy_descriptors_lem n (i + 1) j source
      (update target i (record { obj = (source i).obj; obj_size = (source i).obj_size })),
)

-- After `emit_init` on a bus whose lock is free, the endpoint's own descriptors are the bus's, as
-- many as the bus counts, and the lock is free again.
pub emit_init_lem :
    (s : Sync)
    → s.bus.descriptors_updated ≡ false
    → (t : Sync) × (emit_init s ≡ ok t)
      × (t.bus ≡ s.bus)
      × (t.descriptors.count ≡ s.bus.descriptors.count)
      × ((j : ℕ) → j < s.bus.descriptors.count → t.descriptors.arr j ≡ s.bus.descriptors.arr j)
unfolding emit_init
emit_init_lem s free =
    let theirs = s.bus.descriptors in
    (
      record s {
        descriptors = record {
          arr = copy_descriptors theirs.count 0 theirs.arr s.descriptors.arr;
          count = theirs.count;
        };
      },
      ground arith,
      refl,
      refl,
      λ j lt. ground (arith, copy_descriptors_lem theirs.count 0 j theirs.arr s.descriptors.arr),
    )

abbrev faulted : ResolverSwitch → ResolverSwitch
faulted sw = record sw { read_op = record { notify = true }; read_fault = false; read_ack = false }

abbrev within : ℕ → ℕ → ℕ → Bool
within i n j = leb i j && ltb j (i + n)

interrupt_read_switch :
    (i j : ℕ) (s : Sync)
    → (interrupt_read s i).bus.switches j
      ≡ (if i == j && s.read_started_id j then faulted (s.bus.switches j) else s.bus.switches j)
unfolding interrupt_read
interrupt_read_switch i j s = ground arith

interrupt_read_started :
    (i j : ℕ) (s : Sync)
    → (interrupt_read s i).read_started_id j ≡ (if i == j then false else s.read_started_id j)
unfolding interrupt_read
interrupt_read_started i j s = ground arith

interrupt_reads_started :
    (n i j : ℕ) (s : Sync)
    → (interrupt_reads n i s).read_started_id j
      ≡ (if within i n j then false else s.read_started_id j)
unfolding interrupt_reads
interrupt_reads_started zero i j s = ground arith
interrupt_reads_started (suc n) i j s =
    interrupt_reads_started n (i + 1) j (interrupt_read s i)
    ∙ rw (interrupt_read_started i j s) (ground arith)

-- The same for a range of objects.
interrupt_reads_switch :
    (n i j : ℕ) (s : Sync)
    → (interrupt_reads n i s).bus.switches j ≡ (
        if within i n j && s.read_started_id j
        then faulted (s.bus.switches j)
        else s.bus.switches j)
unfolding interrupt_reads
interrupt_reads_switch zero i j s = ground arith
interrupt_reads_switch (suc n) i j s =
    interrupt_reads_switch n (i + 1) j (interrupt_read s i)
    ∙ rw (interrupt_read_started i j s, interrupt_read_switch i j s) (ground arith)

abbrev Interrupted : Sync → Sync → ℕ → Type 0
Interrupted s t j =
    (t.read_started_id j ≡ false)
    × (s.read_started_id j ≡ false → t.bus.switches j ≡ s.bus.switches j)
    × (s.read_started_id j ≡ true → t.bus.switches j ≡ faulted (s.bus.switches j))

interrupt_reads_lem : (n j : ℕ) (s : Sync) → j < n → Interrupted s (interrupt_reads n 0 s) j
interrupt_reads_lem n j s lt =
    let a = interrupt_reads_started n 0 j s in
    let b = interrupt_reads_switch n 0 j s in
    (ground (arith, a), λ e. ground (arith, b), λ e. ground (arith, b))

-- When the service is interrupted, each object whose read was in progress is reported to the
-- resolver as a fault, with its read operation ended, and is no longer in progress; the switch of
-- every other object is as it was.
pub emit_interrupted_lem :
    (s : Sync) (j : ℕ)
    → j < num_ids
    → let t = emit_interrupted s in
      let sw = s.bus.switches j in
      (t.read_started_id j ≡ false)
      × (s.read_started_id j ≡ false → t.bus.switches j ≡ sw)
      × (s.read_started_id j ≡ true
          → t.bus.switches j ≡ record sw {
            read_op = record { notify = true };
            read_fault = false;
            read_ack = false;
          })
unfolding emit_interrupted
emit_interrupted_lem s j lt = interrupt_reads_lem num_ids j s lt
