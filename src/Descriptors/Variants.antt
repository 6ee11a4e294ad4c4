-- ===== src/Descriptors/Variants.antt =====
-- The three ways to set up descriptors build the same ones.
use native.Mathlib.Decide.{ℕ_discrete as dec_eq}
use software_on_silicon.Base.{
  ℕ, zero, suc, ◌+◌, ◌-◌, ◌%◌, ◌<◌, ◌≤◌, ◌≡◌, refl, sym, ◌∙◌, arith, Array, update, update_self,
  update_ne, List, [], ◌∷◌, length, get_or,
}
use software_on_silicon.Sync.{num_ids, DmaDescriptor, DescriptorHelper}
use software_on_silicon.Descriptors.{
  Element, described, null_descriptor, clear_descriptors, cpp11_static_descriptors, assign,
  assign_all, set_descriptors,
}

-- Clearing `n` descriptors from `i` on.
pub clear_descriptors_lem :
    (n i : ℕ) (arr : Array DmaDescriptor)
    → ((j : ℕ) → j < i → clear_descriptors n i arr j ≡ arr j)
      × ((j : ℕ) → i ≤ j → j < i + n → clear_descriptors n i arr j ≡ null_descriptor)
unfolding clear_descriptors
clear_descriptors_lem zero i arr = (λ j low. refl, λ j le lt. absurd (omega arith))
clear_descriptors_lem (suc n) i arr =
    let (below, inside) = clear_descriptors_lem n (suc i) (update arr i null_descriptor) in
    (
      λ j low. below j (omega arith) ∙ update_ne arr i j null_descriptor (λ e. omega arith),
      λ j le lt. elim (dec_eq i j) [
        | yes here ↦ below j (omega arith) ∙ rw here (update_self arr j null_descriptor)
        | no later ↦ inside j (omega arith) (omega arith)
      ],
    )

-- Assigning objects from `count` on.
assign_all_lem :
    (objects : List DmaDescriptor) (helper : DescriptorHelper)
    → helper.count + length objects < 256
    → let t = assign_all objects helper in
      (t.count ≡ helper.count + length objects)
      × ((i : ℕ) → i < helper.count → t.arr i ≡ helper.arr i)
      × ((i : ℕ) (d : DmaDescriptor)
          → i < length objects
          → t.arr (helper.count + i) ≡ get_or objects i d)
      × ((i : ℕ) → helper.count + length objects ≤ i → t.arr i ≡ helper.arr i)
unfolding assign_all assign
assign_all_lem [] helper fits =
    (omega arith, λ i low. refl, λ i d low. absurd (omega arith), λ i le. refl)
assign_all_lem (object ∷ objects) helper fits =
    let next = assign object helper in
    let count : next.count ≡ helper.count + 1 = omega arith in
    let (total, below, inside, above) = assign_all_lem objects next (omega arith) in
    (
      omega arith,
      λ i low.
          below i (omega arith) ∙ update_ne helper.arr helper.count i object (λ e. omega arith),
      at (below helper.count (omega arith) ∙ update_self helper.arr helper.count object) inside,
      λ i le. above i (omega arith) ∙ update_ne helper.arr helper.count i object (λ e. omega arith),
    )
  where
    t : DescriptorHelper
    t = assign_all objects (assign object helper)

    at :
        t.arr helper.count ≡ object
        → ((i : ℕ) (d : DmaDescriptor)
            → i < length objects
            → t.arr ((helper.count + 1) % 256 + i) ≡ get_or objects i d)
        → (i : ℕ) (d : DmaDescriptor) → i < suc (length objects)
        → t.arr (helper.count + i) ≡ get_or (object ∷ objects) i d
    at first rest zero d low = rw (plus_zero helper.count) first
      where
        plus_zero : (n : ℕ) → n + 0 ≡ n
        plus_zero n = omega arith
    at first rest (suc i) d low =
        let next : helper.count + suc i ≡ (helper.count + 1) % 256 + i = omega arith in
        rw next (rest i d (omega arith))

three_objects :
    (a b c : DmaDescriptor) (arr : Array DmaDescriptor) (i : ℕ)
    → i < 3
    → update (update (update arr 0 a) 1 b) 2 c i ≡ get_or (a ∷ b ∷ c ∷ []) i a
three_objects a b c arr zero low = refl
three_objects a b c arr (suc zero) low = refl
three_objects a b c arr (suc (suc zero)) low = refl
three_objects a b c arr (suc (suc (suc i))) low = absurd (omega arith)

-- Three objects of a tuple, set up by the function for C++11, to which they are handed where its
-- parameter lies, and by the call operators for C++14 and C++17:
-- whatever the descriptors held before, both count three, agree on those, and describe the objects
-- in their order. The first function also makes all others null, which the others leave alone.
pub cpp11_static_descriptors-set_descriptors :
    (place : ℕ) (a b c : Element) (arr : Array DmaDescriptor) (helper : DescriptorHelper)
    → let objects = described place a ∷ described place b ∷ described place c ∷ [] in
      let s = cpp11_static_descriptors place a b c arr in
      let t = set_descriptors objects helper in
      (s.count ≡ 3)
      × (t.count ≡ 3)
      × ((i : ℕ) → i < 3 → s.arr i ≡ t.arr i)
      × ((i : ℕ) → i < 3 → t.arr i ≡ get_or objects i (described place a))
      × ((i : ℕ) → 3 ≤ i → i < num_ids → s.arr i ≡ null_descriptor)
      × ((i : ℕ) → 3 ≤ i → t.arr i ≡ helper.arr i)
unfolding cpp11_static_descriptors set_descriptors
cpp11_static_descriptors-set_descriptors place a0 b0 c0 arr helper =
    let a = described place a0 in
    let b = described place b0 in
    let c = described place c0 in
    let objects = a ∷ b ∷ c ∷ [] in
    let (total, below, inside, above) =
      assign_all_lem objects (record helper { count = 0 }) (omega arith) in
    let (kept, cleared_from) =
      clear_descriptors_lem (num_ids - 3) 3 (update (update (update arr 0 a) 1 b) 2 c) in
    (
      refl,
      total,
      λ i low.
          kept i low ∙ three_objects a b c arr i low ∙ sym (three_objects a b c helper.arr i low),
      λ i low. three_objects a b c helper.arr i low,
      λ i le lt. cleared_from i le lt,
      λ i le. above i le,
    )
