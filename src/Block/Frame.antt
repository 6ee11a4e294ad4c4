-- ===== src/Block/Frame.antt =====
-- What `BlockWiseTransfer` leaves alone: the flags of its port, whatever a call comes to.
use software_on_silicon.Base.{
  ℕ, zero, suc, ◌+◌, ◌≡◌, refl, sym, ◌∙◌, arith, Bool-cases, inl, inr, ltb, ◌==◌, Array,
}
use software_on_silicon.Errors.Yields.{Yields, >>=-Yields, if-Yields, ok-Yields}
use software_on_silicon.Signals.{DoubleHandShake}
use software_on_silicon.Com.{Com, read_byte, write_byte}
use software_on_silicon.Sync.{lock_descriptors}
use software_on_silicon.Wire
use software_on_silicon.Wire.{read_flush}
use software_on_silicon.Block.{
  Block, descriptor, write, write_data, write_padding, write_object, find_read_lock,
  seek_destination, store_bytes, store_group, finish_read, receive_byte, read_object,
}

-- The flags are `g`.
abbrev pub HasSignal : DoubleHandShake → Block → Type 0
HasSignal g b = b.uart.signal ≡ g

pub read_byte-signal : (c : Com) → Yields (λ r. r.1.signal ≡ c.signal) (read_byte c)
unfolding read_byte
read_byte-signal c = ok-Yields _ _ λ a e. ground (arith, e)

pub write_byte-signal : (c : Com) (byte : ℕ) → Yields (λ d. d.signal ≡ c.signal) (write_byte c byte)
unfolding write_byte
write_byte-signal c byte = ok-Yields _ _ λ a e. ground (arith, e)

module _ (write_bits : ℕ → ℕ) where
  write-HasSignal : (b : Block) (w : ℕ) → Yields (HasSignal b.uart.signal) (write write_bits b w)
  unfolding write
  write-HasSignal b w =
      >>=-Yields _ _ _ _ (write_byte-signal b.uart (Wire.write write_bits b.codec w).0)
        (λ u e. Yields.yields _ e)

  write_data-HasSignal : (b : Block) → Yields (HasSignal b.uart.signal) (write_data write_bits b)
  unfolding write_data
  write_data-HasSignal b =
      >>=-Yields (λ y. Unit) _ (lock_descriptors b.sync) _ (ok-Yields _ _ λ _ _. tt)
        (λ held _. write-HasSignal _ _)

  write_padding-HasSignal :
      (b : Block) → Yields (HasSignal b.uart.signal) (write_padding write_bits b)
  unfolding write_padding
  write_padding-HasSignal b =
      elim (Bool-cases (b.write_origin_pos == (descriptor b b.write_origin).obj_size)) [
        | inl e ↦ rw e (write-HasSignal _ 63)
        | inr e ↦ rw e (write-HasSignal _ 63)
      ]

  pub write_object-HasSignal :
      (b : Block) → Yields (λ w. HasSignal b.uart.signal (w.1)) (write_object write_bits b)
  unfolding write_object
  write_object-HasSignal b =
      if-Yields _ b.send_lock _ _
        (λ _.
          >>=-Yields (HasSignal b.uart.signal) _ _ _
            (if-Yields _ (ltb b.write3plus1 3) _ _ (λ _. write_data-HasSignal b)
              (λ _. write_padding-HasSignal b))
            (λ a h. Yields.yields _ h))
        (λ _. Yields.yields _ refl)

find_read_lock-HasSignal :
    (n j : ℕ) (b : Block) → Yields (HasSignal b.uart.signal) (find_read_lock n j b)
unfolding find_read_lock
find_read_lock-HasSignal zero j b = Yields.yields b refl
find_read_lock-HasSignal (suc n) j b =
    let rest = find_read_lock-HasSignal n (j + 1) b in
    if-Yields _ (b.read_lock j) _ _
      (λ _.
        if-Yields _ (b.read_destination_pos == 0) _ _ (λ _. Yields.yields _ refl)
          (λ _. Yields.reports _ _))
      (λ _. rest)

store_bytes-signal :
    (n i : ℕ) (bytes : Array ℕ) (b : Block) → HasSignal b.uart.signal (store_bytes n i bytes b)
unfolding store_bytes
store_bytes-signal zero i bytes b = refl
store_bytes-signal (suc n) i bytes b = store_bytes-signal n (i + 1) bytes _

store_group-HasSignal :
    (bytes : Array ℕ) (b : Block) → Yields (HasSignal b.uart.signal) (store_group bytes b)
unfolding store_group
store_group-HasSignal bytes b =
    if-Yields _ (ltb b.read_destination_pos (descriptor b b.read_destination).obj_size) _ _
      (λ _.
        >>=-Yields (λ y. Unit) _ (lock_descriptors b.sync) _ (ok-Yields _ _ λ _ _. tt)
          (λ held _. Yields.yields _ (store_bytes-signal 3 0 bytes (record b { sync = held }))))
      (λ _. Yields.yields b refl)

finish_read-signal : (b : Block) → HasSignal b.uart.signal (finish_read b)
unfolding finish_read
finish_read-signal b = ground arith

receive_byte-HasSignal :
    (b : Block) (byte : ℕ) → Yields (HasSignal b.uart.signal) (receive_byte b byte)
unfolding receive_byte
receive_byte-HasSignal b byte =
    let (more, codec) = Wire.read b.codec byte in
    let c = record b { codec = codec } in
    if-Yields _ (ltb c.read4minus1 3) _ _ (λ _. Yields.yields _ refl)
      (λ _.
        if-Yields _ (c.read4minus1 == 3) _ _
          (λ _.
            >>=-Yields (λ y. Unit) _ (read_flush codec) _ (ok-Yields _ _ λ _ _. tt)
              (λ flushed _.
                >>=-Yields (HasSignal b.uart.signal) _
                  (store_group (flushed.0) (record c { codec = flushed.1 })) _
                  (store_group-HasSignal (flushed.0) (record c { codec = flushed.1 }))
                  (λ stored h.
                    Yields.yields (record (finish_read stored) { read4minus1 = 0 })
                      (finish_read-signal stored ∙ h))))
          (λ _. Yields.yields c refl))

pub read_object-HasSignal :
    (b : Block) (byte : ℕ) → Yields (HasSignal b.uart.signal) (read_object b byte)
unfolding read_object seek_destination
read_object-HasSignal b byte =
    >>=-Yields (HasSignal b.uart.signal) _ (seek_destination b) _
      (if-Yields _ b.receive_lock _ _ (λ _. Yields.yields b refl)
        (λ _. find_read_lock-HasSignal _ 0 b))
      (λ sought h.
        if-Yields _ sought.receive_lock _ _ (λ _. rw (sym h) (receive_byte-HasSignal sought byte))
          (λ _. Yields.reports _ _))
