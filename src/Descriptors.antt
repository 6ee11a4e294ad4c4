-- ===== src/Descriptors.antt =====
-- How the descriptors of a resolver's bus are set up and taken down: impl/FPGAInitialisers.cpp,
-- include/software-on-silicon/cpp14.hpp and cpp17.hpp, and the constructor and destructor of
-- `SerialResolverBus` in SerialNotifier.hpp. An object is its address and its size.
pub mod Variants
pub mod Lifetime
use software_on_silicon.Base.{
  ℕ, zero, suc, ◌+◌, ◌-◌, ◌%◌, if◌then◌else◌, Array, update, List, [], ◌∷◌,
}
use software_on_silicon.Errors.{Outcome, ok, spin}
use software_on_silicon.Signals.{test_and_set, cleared, raised}
use software_on_silicon.Sync.{
  num_ids, DmaDescriptor, DescriptorHelper, ResolverBus, ResolverSwitch, new_resolver_switch,
}

-- `nullptr` and size 0.
abbrev pub null_descriptor : DmaDescriptor
null_descriptor = record { obj = 0; obj_size = 0 }

-- `n` rounds of the loops that clear descriptors, from index `i` on.
unfoldable pub clear_descriptors : ℕ → ℕ → Array DmaDescriptor → Array DmaDescriptor
clear_descriptors zero i arr = arr
clear_descriptors (suc n) i arr = clear_descriptors n (suc i) (update arr i null_descriptor)

-- An element of a tuple: where it lies in the tuple, and its size.
pub record Element : Type 0 where
  pub offset : ℕ
  pub size : ℕ

-- `&std::get<i>(objects)` and `sizeof` for the tuple at the address `place`.
abbrev pub described : ℕ → Element → DmaDescriptor
described place e = record { obj = place + e.offset; obj_size = e.size }

-- `cpp11_static_descriptors` of a tuple of three objects, which is its parameter `objects` by value:
-- `parameter` is the address at which the copy of the tuple lies during the call. `arr` is what the
-- local `helper` holds at first.
unfoldable pub cpp11_static_descriptors :
    ℕ → Element → Element → Element → Array DmaDescriptor → DescriptorHelper
unfolding clear_descriptors
cpp11_static_descriptors parameter a b c arr = record {
  arr = clear_descriptors (num_ids - 3) 3 (
      update (update (update arr 0 (described parameter a)) 1 (described parameter b)) 2
        (described parameter c));
  count = 3;
}

-- `assign` of one object in cpp14.hpp and cpp17.hpp; `count` is an `unsigned char`, and an array of
-- descriptors has room for `num_ids` of them.
unfoldable pub assign : DmaDescriptor → DescriptorHelper → DescriptorHelper
assign object helper = record {
  arr = update helper.arr helper.count object;
  count = (helper.count + 1) % 256;
}

-- `assign` of several objects in cpp14.hpp.
unfoldable pub assign_all : List DmaDescriptor → DescriptorHelper → DescriptorHelper
unfolding assign
assign_all [] helper = helper
assign_all (object ∷ objects) helper = assign_all objects (assign object helper)

-- `operator()` of both.
unfoldable pub set_descriptors : List DmaDescriptor → DescriptorHelper → DescriptorHelper
unfolding assign_all
set_descriptors objects helper = assign_all objects (record helper { count = 0 })

-- `SerialResolverBus::SerialResolverBus` over a tuple of three objects in a memory. The call that sets
-- up the descriptors copies the tuple to `parameter`.
unfoldable pub new_resolver_bus :
    ℕ → Element → Element → Element → Array DmaDescriptor → Array ℕ → ResolverBus
unfolding cpp11_static_descriptors new_resolver_switch
new_resolver_bus parameter a b c arr memory = record {
  switches = λ id. new_resolver_switch;
  trigger_resolve = raised;
  descriptors_updated = cleared;
  descriptors = cpp11_static_descriptors parameter a b c arr;
  memory = memory;
}

-- The body of `SerialResolverBus::~SerialResolverBus`: the bus as it is when its members are
-- destroyed. Nothing may use it after that.
unfoldable pub destroy_resolver_bus : ResolverBus → Outcome ResolverBus
unfolding clear_descriptors
destroy_resolver_bus b =
    let (held, f) = test_and_set b.descriptors_updated in
    if held
    then spin
    else ok (record b {
      descriptors = record { arr = clear_descriptors num_ids 0 b.descriptors.arr; count = 0 };
      descriptors_updated = cleared;
    })
