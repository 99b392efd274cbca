-- ===== src/Lib.antt =====
-- jitdi: a registry that builds container images when they are asked for. A model of its core.
--
-- A request of the registry API is routed by its path. For a manifest by tag the rules in force are
-- searched for the first whose pattern matches the reference; the match binds the pattern's
-- parameters, and the rule's action builds the image: the base image is fetched, its layers are
-- mutated, and the result is pushed into the cache directory or to a storage registry, from where
-- this and later requests are answered.
--
-- Which file models what (paths from the repository's root):
-- Pattern: pkg/pattern. Parse is parsePattern and parseSegments, Match is matchSegments, Less is
--   patternLess, Params is replaceWithParams, Rule is rule.go and action.go. A Go string is the list
--   of its bytes, a map of parameters the list of its entries. `none` stands for an index out of
--   range in patternLess.
-- Handler: pkg/handler. Select is the search of the rules, with sort.Slice as an interface (Sorter)
--   that an insertion sort fills; Rules is the handler's state with the caches that informers reset;
--   Route and Serve are ServeHTTP and serve.go, where Answers, Reads, Pulled and PulledIndex follow a
--   request into the cache directory, Stored and Forwarded to a storage registry; Reply is error.go; BuildLock is buildMutex in
--   buildAndSave, as a step relation over any number of requests; Build is what buildAndSave does
--   under its lock; Mutates is mutates.go.
-- Storage: pkg/storage, the paths, layers and manifests of the cache directory, both pushers, and the
--   clients with their options.
-- Atomic: pkg/atomic, SyncMap and the files written through a temporary file.
-- Builder: pkg/builder. Image and Index are image.go and image_index.go; Tar is tar.go, what the
--   goroutine writes and what the reading end of its pipe sees; Files is files/files.go, against a
--   host of files and directories and the network; Ollama is ollama/ollama.go; Link is
--   cache_file_layer.go, with the parts of fmt that its link files need, on ASCII text.
-- Program: cmd/jitdi/main.go, the configuration files and the handler that main makes.
-- Config: pkg/apis/v1alpha1, the fields that the program reads. Api: the same package's objects as they
--   lie in memory, and zz_generated.deepcopy.go; every pointer and slice is an address of a typed cell,
--   and what k8s.io/apimachinery adds to an object, with the copies of that, is a parameter.
-- Client: pkg/client/clientset/versioned/typed/apis/v1alpha1, the typed clients and, in Fake, those for
--   tests; a request is what the calls on client-go's builder have set.
-- Container: the interfaces of go-containerregistry, each value given by what its methods return.
-- Disk: the calls of Go's os and io, on a disk with a schedule of faults, so that a theorem without
--   a hypothesis on the schedule holds whatever fails.
-- Exec: actions that may return an error and keep what they have done; Base: shared helpers.
--
-- How they interact: Handler.Serve calls Handler.Rules and Handler.Select for the rule, Handler.Build for
-- the image and Storage.Paths for the files; Handler.Build calls Pattern.Rule, Handler.Mutates,
-- Builder.Index and a pusher of Storage; Handler.Mutates makes layers of the files that Builder.Files and
-- Builder.Ollama give, each an archive of Builder.Tar; Program makes the handler of Handler.Rules. The
-- registry client, the parsing of references and addresses, SHA-256, YAML, JSON and http.ServeContent
-- are parameters, and to the mutations so are the sources of files and models.
--
-- Fuel: parse_loop runs on the length of the pattern; each round takes at least one byte away, and it
-- is a theorem that it does not run out.
-- The digits of a number are made in as many rounds as its value, which the round trip shows enough.
-- All other loops are recursions on lists. Sizes are natural numbers.
--
-- Not modelled: the bytes of an archive's headers, modification times, the informers' connection to a
-- cluster, the parsing of flags, logging, the server, and the generated clientset, informers and
-- listers around the typed clients. A request reads its handler's state at one moment; the locks of the
-- caches are not modelled apart from buildMutex. Serve answers one request at a time: one that finds
-- another at the build of its image is in BuildLock only.
-- The methods of a layer are values in Storage and Handler: that a cacheFileLayer reads and writes its
-- link file when it is asked for its digest is in Builder.Link only, and the mutations take the function
-- that makes one as a parameter. Range, and with it Keys, Values, Size and IsEmpty, is over the entries
-- in the order in which a call visits them, which sync.Map leaves open, also between two calls.
-- The name of an image is parsed by a parameter: a manifest is saved under the repository that the
-- library makes of the name and looked for under the name that was asked for, and the theorems on pulls
-- tell both outcomes.
pub mod Base
pub mod Config
pub mod Api
pub mod Client
pub mod Pattern
pub mod Exec
pub mod Container
pub mod Disk
pub mod Atomic
pub mod Storage
pub mod Builder
pub mod Handler
pub mod Program
