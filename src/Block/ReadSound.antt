-- ===== src/Block/ReadSound.antt =====
-- `read_object` keeps the invariant of the block layer.
use software_on_silicon.Base.{
  ℕ, zero, suc, ◌+◌, ◌<◌, ◌≤◌, ◌≡◌, refl, ap, ◌∙◌, arith, true, false, Bool-cases, inl, inr, ◌⊎◌,
}
use native.Mathlib.Decide.{dec_lt}
use software_on_silicon.Errors.Code.{ErrorCode}
use software_on_silicon.Errors.{Severity, ok, aborted}
use software_on_silicon.Block.{Block, descriptor, memory, find_read_lock, receive_byte, read_object}
use software_on_silicon.Block.Exchange.{Outside}
use software_on_silicon.Block.Sound.{IsSound}
use software_on_silicon.Block.StoreSound.{gather-IsSound, store-IsSound}

find_read_lock-IsSound :
    (n j : ℕ) (b : Block)
    → IsSound b
    → b.receive_lock ≡ false
    → j + n ≡ b.sync.descriptors.count
    → (find_read_lock n j b ≡ ok b) × ((i : ℕ) → j ≤ i → i < j + n → b.read_lock i ≡ false)
      ⊎ ((id : ℕ) × (find_read_lock n j b
            ≡ ok (record b { receive_lock = true; read_destination = id }))
          × IsSound (record b { receive_lock = true; read_destination = id }))
unfolding find_read_lock
find_read_lock-IsSound zero j b v free e = inl (refl, λ i le lt. absurd (omega arith))
find_read_lock-IsSound (suc n) j b v free e = elim (Bool-cases (b.read_lock j)) [
  | inl taken ↦
      let (rewound, aligned) = v.read_idle free in
      let (positive, whole, small) = v.own.sizes j (omega arith) in
      inr (
        j,
        ground arith,
        record {
          port = v.port;
          unlocked = v.unlocked;
          own = v.own;
          shared = v.shared;
          exclusive = v.exclusive;
          origin = v.origin;
          destination = λ h. (omega arith, taken);
          write_idle = v.write_idle;
          write_place = v.write_place;
          write_data_place = v.write_data_place;
          write_padding_place = v.write_padding_place;
          write_phase = v.write_phase;
          write_coded = v.write_coded;
          read_idle = λ h. cc;
          read_place = v.read_place;
          read_room = λ h. omega arith;
          read_phase = v.read_phase;
          read_coded = v.read_coded;
          read_fits = v.read_fits;
        },
      )
  | inr other ↦ elim (find_read_lock-IsSound n (j + 1) b v free (omega arith)) [
    | inl (e', none_left) ↦ inl (
      rw other e',
      λ i le lt. elim (dec_lt j i) [
        | yes after ↦ none_left i (omega arith) (omega arith)
        | no here ↦ let same : i ≡ j = omega arith in rw same other
      ],
    )
    | inr (id, e', v') ↦ inr (id, rw other e', v')
  ]
]

-- A byte for an object whose destination is known.
receive_byte-IsSound :
    (b : Block) (r : ℕ)
    → IsSound b
    → b.receive_lock ≡ true
    → let place = descriptor b b.read_destination in
      (b' : Block) × (receive_byte b r ≡ ok b')
      × IsSound b'
      × ((a : ℕ) → Outside place.obj (place.obj + place.obj_size) a → memory b' a ≡ memory b a)
      × (b'.transfer ≡ b.transfer)
receive_byte-IsSound b r v locked = elim (dec_lt b.read4minus1 3) [
  | yes early ↦
      let (b', e, v', m, t) = gather-IsSound b r v locked early in
      (b', e, v', λ a out. ap (λ (f : ℕ → ℕ). f a) m, t)
  | no late ↦ store-IsSound b r v locked (omega (arith, v.read_phase))
]

read_object-locked :
    (b : Block) (byte : ℕ) → b.receive_lock ≡ true → read_object b byte ≡ receive_byte b byte
unfolding read_object
read_object-locked b byte locked = ground arith

read_object-found :
    (b : Block) (byte id : ℕ)
    → b.receive_lock ≡ false
    → find_read_lock b.sync.descriptors.count 0 b
      ≡ ok (record b { receive_lock = true; read_destination = id })
    → read_object b byte
      ≡ receive_byte (record b { receive_lock = true; read_destination = id }) byte
unfolding read_object
read_object-found b byte id free e = ground arith

read_object-none :
    (b : Block) (byte : ℕ)
    → b.receive_lock ≡ false
    → find_read_lock b.sync.descriptors.count 0 b ≡ ok b
    → read_object b byte
      ≡ aborted Severity.logic ErrorCode.no_idle_received_and_no_receivelock_obtained
unfolding read_object
read_object-none b byte free e = ground arith

-- Where none is read-locked the search leaves the block as it is.
find_read_lock-none :
    (n j : ℕ) (b : Block)
    → ((i : ℕ) → j ≤ i → i < j + n → b.read_lock i ≡ false)
    → find_read_lock n j b ≡ ok b
unfolding find_read_lock
find_read_lock-none zero j b h = refl
find_read_lock-none (suc n) j b h =
    rw (h j (omega arith) (omega arith))
      (find_read_lock-none n (j + 1) b (λ i le lt. h i (omega arith) (omega arith)))

read_object-returns :
    (b : Block) (byte : ℕ)
    → IsSound b
    → ((b' : Block) × (read_object b byte ≡ ok b')
        × IsSound b'
        × (b'.transfer ≡ b.transfer)
        × ((a : ℕ)
            → ((id : ℕ)
                → id < b.sync.descriptors.count
                → Outside
                    (descriptor b id).obj
                    ((descriptor b id).obj + (descriptor b id).obj_size)
                    a)
            → memory b' a ≡ memory b a))
      ⊎ ((read_object b byte
            ≡ aborted Severity.logic ErrorCode.no_idle_received_and_no_receivelock_obtained)
          × (b.receive_lock ≡ false)
          × ((id : ℕ) → id < b.sync.descriptors.count → b.read_lock id ≡ false))
read_object-returns b byte v = elim (Bool-cases b.receive_lock) [
  | inl locked ↦
      let (b', e, v', m, t) = receive_byte-IsSound b byte v locked in
      inl (
        b',
        read_object-locked b byte locked ∙ e,
        v',
        t,
        λ a out. m a (out b.read_destination (v.destination locked).0),
      )
  | inr free ↦ elim (find_read_lock-IsSound b.sync.descriptors.count 0 b v free (omega arith)) [
    | inl (e, none_left) ↦
        inr
          (read_object-none b byte free e, free, λ id lt. none_left id (omega arith) (omega arith))
    | inr (id, e, v') ↦
        let found = record b { receive_lock = true; read_destination = id } in
        let (b', e', v'', m, t) = receive_byte-IsSound found byte v' refl in
        inl (
          b',
          read_object-found b byte id free e ∙ e',
          v'',
          t,
          λ a out. m a (out id (v'.destination refl).0),
        )
  ]
]

-- A read on a sound block returns, or reports that neither an idle nor a read lock was there. It
-- reports that just when no object is being received and none of the descriptors' objects is
-- read-locked: where it reports this is so, and where this is so it reports. A block that it
-- returns is sound, with the transfers as they were, and memory outside the objects of the
-- descriptors is unchanged.
pub read_object-IsSound :
    (b : Block) (byte : ℕ)
    → IsSound b
    → (((b' : Block) × (read_object b byte ≡ ok b')
          × IsSound b'
          × (b'.transfer ≡ b.transfer)
          × ((a : ℕ)
              → ((id : ℕ)
                  → id < b.sync.descriptors.count
                  → Outside
                      (descriptor b id).obj
                      ((descriptor b id).obj + (descriptor b id).obj_size)
                      a)
              → memory b' a ≡ memory b a))
        ⊎ ((read_object b byte
              ≡ aborted Severity.logic ErrorCode.no_idle_received_and_no_receivelock_obtained)
            × (b.receive_lock ≡ false)
            × ((id : ℕ) → id < b.sync.descriptors.count → b.read_lock id ≡ false)))
      × (b.receive_lock ≡ false
          → ((id : ℕ) → id < b.sync.descriptors.count → b.read_lock id ≡ false)
          → read_object b byte
            ≡ aborted Severity.logic ErrorCode.no_idle_received_and_no_receivelock_obtained)
read_object-IsSound b byte v = (
  read_object-returns b byte v,
  λ free none_left.
      read_object-none b byte free
        (find_read_lock-none b.sync.descriptors.count 0 b (λ i le lt. none_left i (omega arith))),
)
