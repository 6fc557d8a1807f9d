-- ===== src/Lib.antt =====
-- NovaNet: the address, slot and identity allocators, the bandwidth limits, the compilers of network,
-- egress and host policies, and the store and rules of route intents, of the agent and its controller.
--
-- Parts, from the files under internal/:
--   * ipam/bitmap.go is Ipam/Bitmap: `Bitmap` with `set`, `clear`, `get` and `find_free`. A word is a
--     number below 2^64. A slice index out of range is `none`, as a panic.
--   * The conversions at the end of ipam/pool.go, `normalizeIP`, `indexToIP` and `ipToIndex`, are
--     Ipam/Address, over slices of bytes, with what they use of Go's net and math/big packages.
--   * ipam/allocator.go is Ipam/Allocator: `NewAllocatorWithStateDir` is `new_allocator_with_state_dir`,
--     `loadState` is `load_state`, and so on for `Allocate`, `AllocateSpecific` and `Release`. It keeps
--     a bitmap and a count beside it, and finds indices by the conversions. `saveIP` and `removeIP`
--     write to the state directory, which is a map from names to whether the entry is a directory; it
--     is passed from call to call beside the allocator. How the write of a file ends, and so
--     whether one that fails leaves the file, is an argument (`Write`), and so is whether a removal
--     succeeds.
--   * service/allocator.go is Service/Slots: `SlotAllocator` with `alloc` and `free`; sums of uint32
--     are taken modulo 2^32.
--   * identity/allocator.go is Identity: Labels has the canonical text and the FNV-1a hash, Allocator the
--     operations. Go maps are association lists (Base/Assoc).
--   * The rest of ipam/pool.go, with the types of ipam/types.go, is Ipam/Pool: `NewPool` is `new_pool`, the
--     methods have their names, and each of their loops is a function on the ranges. A pool keeps
--     ranges, each with a bitmap of its own, single addresses, and the allocations by their text.
--   * ipam/manager.go is Ipam/Manager: the pools by their names. A pool is changed through a pointer to
--     it, which is an assignment to the map here (`with_pool`).
--   * bandwidth/manager.go is Bandwidth: `ParseBandwidth` is `parse_bandwidth`, over texts as bytes, and
--     the limits of the pods are a map; an operation returns the calls of traffic control it makes.
--   * egress/manager.go is Egress: the rules are a map from the text `namespace/name`.
--   * policy/compiler.go and policy/helpers.go are Policy: Rules, Peers, Ports and Compiler have the
--     functions of the two files, and Meaning says what a policy permits and what rules allow. A loop that
--     appends is a `concat_map`. policy/extended.go is Policy/Extended, over the types of
--     ../api/v1alpha1/novanetworkpolicy_types.go, and policy/dns_cache.go is Policy/Dns.
--   * routing/intent/store.go is Routing/Intents: `SetPeerIntent` is `set_peer_intent`, and so on. Book is
--     the abstract store, a map from owner, kind and key, and View says which book a store is.
--   * hostfirewall/manager.go is HostFirewall, with the operations on the rules in HostFirewall/Manager.
--   * lbipam/allocator.go is Lbipam: its bitmap has the fields of the one of ipam.
--   * routing/policy/engine.go is Routing/Engine, over the configuration of routing/config/config.go.
--   * node/registry.go is Node, with the calls of the listeners as results.
--
-- An operation takes the state and returns it with its result; the mutexes make each one atomic, so
-- an interleaving of callers is a list of calls (Ipam/Allocator/History). The registry of nodes is
-- different: it calls its callbacks after it has released the lock, so its operations return these calls
-- beside the state, as still to be made, and Node/Mirror is about operations that do not overlap.
--
-- Bounds and fuel: `FindFree` looks at the 64 bits of each word; the probing loop of
-- `AllocateIdentity` has one round more than there are identities, which is enough while there
-- are fewer than 2^64. The loop over a range of ports in policy/extended.go is on fuel: 101 rounds are
-- enough for each range that ends below 65535, and none are for one that ends there. The loop of
-- `evictLocked` has one round more than there are entries, and each removes one. Other loops are
-- recursion on lists.
--
-- What `net.ParseCIDR`, `IP.String` and `net.ParseIP` do for ipam is a parameter (`Naming`), with what
-- their documentation promises as `IsFaithful` and `IsNetwork`. The other parts take from Go's and
-- Kubernetes' packages what they use: label selectors, `strings.ToLower`, `bits.TrailingZeros64`
-- (`IsTrailingZeros`), DNS answers and times.
--
-- Not modelled: logging, metrics, system calls, gRPC and Kubernetes glue, generated code, and so
-- far the routing reconciler, the FRR client, the Maglev table, the tunnel manager and the service
-- watcher.
pub mod Bandwidth
pub mod Base
pub mod Egress
pub mod Examples
pub mod HostFirewall
pub mod Identity
pub mod Ipam
pub mod Lbipam
pub mod Node
pub mod Policy
pub mod Routing
pub mod Service
