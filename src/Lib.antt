-- ===== src/Lib.antt =====
-- The verification library of astral-go, the Go implementation of the astral protocol: its binary
-- codecs and channels, its synchronised containers, its stream helpers and its query routers.
--
-- Parts and files. Each file names the code it is about in its first lines; a parent module holds
-- the definitions, its children (Laws, Delivery, Refines and so on) what is proved of them.
--
-- Base: shared names, the Boolean tests, lists measured by native numbers, Go's comparable
-- constraint.
--
-- Wire: the streams of astral/depth.go. Out is a result with the count of bytes that a Go codec
-- reports, Ledger the budget of a codec call (budget.enter, exit and charge), Stream the reading
-- through objectReader and the writing through objectWriter with the frame guards; Reads, Writes
-- and Takes are the rules by which the codecs are verified.
--
-- Astral: Fixed has writeFixed and readFixed (astral/fixed_width.go), Sized the length-prefixed
-- strings and byte slices (astral/string_types.go, astral/byte_types.go, astral/read_bounded.go,
-- astral/write_payload.go), Types names them as the source does, Header has the object type, the
-- stamp and the type encoders (astral/object_type.go, astral/stamp.go, astral/type_encoder.go),
-- ObjectId the ids with their strings (astral/object_id.go).
--
-- Channel: Objects is the Object interface with the registry behind astral.New as a record of
-- operations, Binary and Canonical are the senders and receivers of astral/channel over every such
-- model; Binary.Stream has Channel.Collect, Envelope has Encode, Decode and EncodeBytes
-- (astral/object.go).
--
-- Bundle: Bundle of astral/bundle.go over every such model, with ResolveObjectID (astral/object.go,
-- astral/object_resolver.go).
--
-- Sig: Ring, Set, SliceDiff, Pool, Map and Queue are the files of sig with these names; Members and
-- Times are what they share on membership; Map also has Value.Swap and MapSlice. An operation under
-- a mutex is a function from the state before to the state after and its results.
--
-- Streams: Async is streams/async_writer.go, with the flusher goroutine as rounds that interleave
-- with the calls in any order; Dispenser is streams/dispenser.go with the calls of Write and the
-- rounds of its loop; Limited is streams/limited_reader.go, streams/skip.go and the counters, over
-- a reader that is a parameter.
--
-- Blueprints: Spec has the descriptors and the allowlists (astral/blueprint.go, the files of the
-- seven Spec carriers), Validate has validateBlueprint and validateSpec, Registry the Parent chain
-- with Add, RegisterBlueprint and the lookups (astral/blueprints.go) over the map of Sig;
-- Registry.Calls has sequences of such calls; Order is orderBlueprintsByReference, Listing has
-- OrderedBlueprints and AllBlueprints over it.
--
-- Runtime: Value has RuntimeObject and the carriers of slices, arrays and maps, over the objects of
-- compile-time types, which are a record of operations; Construct has New with newAt,
-- newRuntimeObjectAt, specZeroAtErr and the budget of astral/build_budget.go; Write and Read have
-- WriteTo and ReadFrom with writeField, readField and the slots of the container codecs
-- (astral/runtime_object.go, astral/runtime_slice.go, astral/runtime_array.go,
-- astral/runtime_map.go, astral/runtime_blueprint_codec.go, astral/slice_value.go,
-- astral/array_value.go, astral/map_value.go, astral/ptr_value.go, astral/interface_value.go);
-- Coded describes the wire form, RoundTrip relates it to both. Access has Get and Set with
-- normalize (astral/normalize.go).
--
-- Routing: Query has the query and the errors of routers (lib/query, astral/err_rejected.go),
-- Priority, Scope and Incoming are the routers and the incoming query of lib/routing. A router is
-- its RouteQuery, a function from a query to a connection or an error.
--
-- Examples: the theorems on small inputs.
--
-- Numbers are natural numbers; where a machine width matters the wrap-around or the bound is
-- written out. Strings are lists of bytes. A Go error is a constructor.
--
-- Fuel. read_chunks has want / 65536 + 1 rounds, one for each chunk; read_full has a round for each
-- byte wanted, as a read that does not fail yields a byte; collect and skip take their fuel as an
-- argument: each object takes a byte at least from the transport, and each read without an error
-- gives a byte at least. func_loop, the loop of SliceDiffFunc, has fuel because it need not end.
-- New has a level of fuel for each of the 64 levels of depth, and for a primitive below them;
-- read_object has one for each runtime object below another, which the frame guard bounds by 64.
-- rounds, the loop of orderBlueprintsByReference, has one for each name, as a round without
-- progress ends it.
--
-- Parameters. Sorting (slices.SortFunc), SHA-256, BlueprintOf, the underlying readers and writers,
-- the objects of a channel, the prototypes of compile-time types with their codecs and the
-- operations behind a route are arguments, with what is assumed of them as hypotheses.
--
-- Not modelled. The clients under api and lib/apphost, logging and formatting, JSON and text forms,
-- reflection, goroutine scheduling below the level of the locks. Of the blueprints the derivation
-- from Go types is left out, of the runtime objects the typed nil pointers and objects without a
-- Blueprint; maps are modelled, and the wire form of Coded leaves them out. The switch of sig is
-- left out.
pub mod Base
pub mod Wire
pub mod Astral
pub mod Channel
pub mod Bundle
pub mod Sig
pub mod Streams
pub mod Routing
pub mod Blueprints
pub mod Runtime
pub mod Examples
